-- ===== src/Client/Relink/Sorted.antt =====
-- The list of intervals of connclient/src/conn_client.cpp after any calls of `AddRelinkInterval`.
use mathlib.Core.List.Perm
use mathlib.Core.List.{Perm}
use defold_connclient.Prelude.{
  suc, ◌≤◌, ◌<◌, ◌≡◌, subst, take_all, length-take, refl, sym, ap, ◌∙◌, inl, inr, List, [], ◌∷◌,
  ◌++◌, length, take, ltb, leb_ℤ, leb→le, ℤ, pos, ◌≤ℤ◌, arith, tests, Bool-cases, append-nil,
  append_assoc, length-append, take-append_left,
}
use defold_connclient.Client.Relink.{insert, sort, add_relink_interval}

-- Each interval is at least the one before it, the first at least `low`.
abbrev pub SortedFrom : ℤ → List ℤ → Type 0
SortedFrom low [] = Unit {0}
SortedFrom low (x ∷ xs) = (low ≤ℤ x) × SortedFrom x xs

abbrev pub IsSorted : List ℤ → Type 0
IsSorted [] = Unit {0}
IsSorted (x ∷ xs) = SortedFrom x xs

insert-SortedFrom :
    (low x : ℤ) (ys : List ℤ) → low ≤ℤ x → SortedFrom low ys → SortedFrom low (insert x ys)
unfolding insert
insert-SortedFrom low x [] h s = (h, tt)
insert-SortedFrom low x (y ∷ ys) h s = elim (Bool-cases (leb_ℤ x y)) [
  | inl b ↦ rw (b, insert) (h, (leb→le _ _ b, s.1))
  | inr b ↦ rw (b, insert) (s.0, insert-SortedFrom y x ys (omega tests) s.1)
]

insert-IsSorted : (x : ℤ) (ys : List ℤ) → IsSorted ys → IsSorted (insert x ys)
unfolding insert
insert-IsSorted x [] s = tt
insert-IsSorted x (y ∷ ys) s = elim (Bool-cases (leb_ℤ x y)) [
  | inl b ↦ rw (b, insert) (leb→le _ _ b, s)
  | inr b ↦ rw (b, insert) (insert-SortedFrom y x ys (omega tests) s)
]

pub sort-IsSorted : (xs : List ℤ) → IsSorted (sort xs)
unfolding sort
sort-IsSorted [] = tt
sort-IsSorted (x ∷ xs) = insert-IsSorted x (sort xs) (sort-IsSorted xs)

insert-perm : (x : ℤ) (ys : List ℤ) → Perm (insert x ys) (x ∷ ys)
unfolding insert
insert-perm x [] = Perm.refl _
insert-perm x (y ∷ ys) = elim (Bool-cases (leb_ℤ x y)) [
  | inl b ↦ rw (b, insert) (Perm.refl _)
  | inr b ↦ rw (b, insert) (Perm.trans (Perm.cons y (insert-perm x ys)) (Perm.swap x y ys))
]

sort-perm : (xs : List ℤ) → Perm (sort xs) xs
unfolding sort
sort-perm [] = Perm.refl _
sort-perm (x ∷ xs) = Perm.trans (insert-perm x (sort xs)) (Perm.cons x (sort-perm xs))

length-insert : (x : ℤ) (ys : List ℤ) → length (insert x ys) ≡ suc (length ys)
unfolding insert
length-insert x [] = refl
length-insert x (y ∷ ys) = ground (arith, length-insert x ys)

pub length-sort : (xs : List ℤ) → length (sort xs) ≡ length xs
unfolding sort
length-sort [] = refl
length-sort (x ∷ xs) = length-insert x (sort xs) ∙ ap suc (length-sort xs)

-- The calls of `AddRelinkInterval` in their order.
pub add_all : List ℤ → List ℤ → List ℤ
add_all vec [] = vec
add_all vec (msec ∷ rest) = add_all (add_relink_interval msec vec) rest

-- What a list of intervals is after the calls `ms`: sorted, and of 0 and the first four of them.
pub record Holds (ms vec : List ℤ) : Type 0 where
  pub sorted : IsSorted vec
  pub items : Perm vec (pos 0 ∷ take 4 ms)
  pub count : length vec ≡ suc (length (take 4 ms))

take_four_lt :
    (ms : List ℤ) (x : ℤ) → length (take 4 ms) < 4 → take 4 (ms ++ x ∷ []) ≡ take 4 ms ++ x ∷ []
take_four_lt ms x h =
    take_all 4 (ms ++ x ∷ []) (omega (arith, length-append ms (x ∷ []), length-take 4 ms))
    ∙ ap (λ l. l ++ x ∷ []) (sym (take_all 4 ms (omega (arith, length-take 4 ms))))

take_four_le : (ms : List ℤ) (x : ℤ) → 4 ≤ length (take 4 ms) → take 4 (ms ++ x ∷ []) ≡ take 4 ms
take_four_le ms x h = take-append_left 4 ms (x ∷ []) (omega (arith, length-take 4 ms))

add-Holds :
    (ms vec : List ℤ) (x : ℤ) → Holds ms vec → Holds (ms ++ x ∷ []) (add_relink_interval x vec)
unfolding add_relink_interval
add-Holds ms [] x h = absurd (omega (arith, h.count))
add-Holds ms (v ∷ vs) x h = elim (Bool-cases (ltb (length (v ∷ vs)) 5)) [
  | inl b ↦
      rw (b, add_relink_interval)
        (record {
          sorted = sort-IsSorted (v ∷ vs ++ x ∷ []);
          items = rw (take_four_lt ms x (omega (tests, h.count))) (
              Perm.trans (sort-perm (v ∷ vs ++ x ∷ [])) (Perm.append h.items (Perm.refl (x ∷ []))));
          count = rw (take_four_lt ms x (omega (tests, h.count))) (
              length-sort (v ∷ vs ++ x ∷ [])
              ∙ omega (
                arith,
                length-append (v ∷ vs) (x ∷ []),
                length-append (take 4 ms) (x ∷ []),
                h.count,
              ));
        })
  | inr b ↦
      let e = take_four_le ms x (omega (tests, h.count)) in
      rw (b, add_relink_interval)
        (record { sorted = h.sorted; items = rw e h.items; count = rw e h.count })
]

add_all-Holds : (ms vec rest : List ℤ) → Holds ms vec → Holds (ms ++ rest) (add_all vec rest)
unfolding add_all
add_all-Holds ms vec [] h = rw append-nil h
add_all-Holds ms vec (x ∷ rest) h =
    subst (λ l. Holds l (add_all (add_relink_interval x vec) rest)) (append_assoc ms (x ∷ []) rest)
      (add_all-Holds (ms ++ x ∷ []) (add_relink_interval x vec) rest (add-Holds ms vec x h))

-- From no intervals, after one call of `AddRelinkInterval` or more, the list is sorted, and holds
-- 0 and the arguments of the first four calls, each as often as it was passed, and nothing else.
pub add_all_lem : (x : ℤ) (rest : List ℤ) → Holds (x ∷ rest) (add_all [] (x ∷ rest))
unfolding add_all add_relink_interval
add_all_lem x rest = add_all-Holds (x ∷ []) (sort (pos 0 ∷ x ∷ [])) rest (record {
  sorted = sort-IsSorted (pos 0 ∷ x ∷ []);
  items = sort-perm (pos 0 ∷ x ∷ []);
  count = length-sort (pos 0 ∷ x ∷ []);
})
