-- ===== src/SocketApi/Addresses/Scanning.antt =====
-- The text forms of addresses in connclient/src/socket_api.cpp, printed and read.
use defold_connclient.Prelude.{
  subst, ℕ, zero, suc, ◌+◌, ◌*◌, ◌-◌, ◌/◌, ◌%◌, ◌<◌, ◌≡◌, refl, sym, ap, ◌∙◌, true, false, some,
  List, [], ◌∷◌, ◌++◌, ltb, ◌==◌, if◌then◌else◌, pos, arith, tests, inl, inr, Bool-cases,
}
use defold_connclient.SocketApi.Addresses.{
  show_digits, is_digit, is_space, scan_digits, scan_nat, scan_int,
}

-- The number that digits stand for, after those that stand for `n`.
abbrev value : ℕ → List ℕ → ℕ
value n [] = n
value n (c ∷ rest) = value (n * 10 + (c - b'0')) rest

abbrev pub AreDigits : List ℕ → Type 0
AreDigits [] = Unit
AreDigits (c ∷ rest) = (is_digit c ≡ true) × AreDigits rest

-- A text that does not go on with a digit.
abbrev pub Breaks : List ℕ → Type 0
Breaks [] = Unit
Breaks (c ∷ rest) = is_digit c ≡ false

value-append : (a b : List ℕ) (n : ℕ) → value n (a ++ b) ≡ value (value n a) b
value-append [] b n = refl
value-append (c ∷ a) b n = value-append a b (n * 10 + (c - b'0'))

AreDigits-append : (a b : List ℕ) → AreDigits a → AreDigits b → AreDigits (a ++ b)
AreDigits-append [] b da db = db
AreDigits-append (c ∷ a) b (d, da) db = (d, AreDigits-append a b da db)

digit-IsDigit : (n : ℕ) → is_digit (48 + n % 10) ≡ true
digit-IsDigit n = ground arith

not_space : (c : ℕ) → is_digit c ≡ true → is_space c ≡ false
not_space c d = ground (arith, d)

not_minus : (c : ℕ) → is_digit c ≡ true → (c == b'-') ≡ false
not_minus c d = ground (arith, d)

not_plus : (c : ℕ) → is_digit c ≡ true → (c == b'+') ≡ false
not_plus c d = ground (arith, d)

pub show_digits-AreDigits : (fuel n : ℕ) → AreDigits (show_digits fuel n)
unfolding show_digits
show_digits-AreDigits zero n = tt
show_digits-AreDigits (suc fuel) n = elim (Bool-cases (ltb n 10)) [
  | inl small ↦ rw small (digit-IsDigit n, tt)
  | inr large ↦ rw large (
      AreDigits-append (show_digits fuel (n / 10)) _ (show_digits-AreDigits fuel (n / 10))
        (digit-IsDigit n, tt))
]

-- A bound on the numbers that so many digits are enough for.
abbrev pub ten_to : ℕ → ℕ
ten_to zero = 1
ten_to (suc n) = 10 * ten_to n

value-show_digits : (fuel n : ℕ) → n < ten_to fuel → value 0 (show_digits fuel n) ≡ n
unfolding show_digits
value-show_digits zero n h = omega (arith, h)
value-show_digits (suc fuel) n h = elim (Bool-cases (ltb n 10)) [
  | inl small ↦ rw small (omega (tests, small))
  | inr large ↦ rw large (
      value-append (show_digits fuel (n / 10)) _ 0
      ∙ (rw (value-show_digits fuel (n / 10) (omega (arith, h))) (omega arith)))
]

scan_digits-append :
    (a rest : List ℕ) (n : ℕ)
    → AreDigits a
    → Breaks rest
    → scan_digits n (a ++ rest) ≡ (value n a, rest)
unfolding scan_digits
scan_digits-append [] [] n d b = refl
scan_digits-append [] (c ∷ rest) n d b = rw b refl
scan_digits-append (c ∷ a) rest n (d, ds) b =
    rw d (scan_digits-append a rest (n * 10 + (c - b'0')) ds b)

starts : (xs : List ℕ) (x : ℕ) → (c : ℕ) × (a : List ℕ) × (xs ++ x ∷ [] ≡ c ∷ a)
starts [] x = (x, [], refl)
starts (c ∷ xs) x = (c, xs ++ x ∷ [], refl)

scan_int-digits :
    (c : ℕ) (a rest : List ℕ)
    → AreDigits (c ∷ a)
    → Breaks rest
    → scan_int (c ∷ a ++ rest) ≡ some (pos (value 0 (c ∷ a)), rest)
unfolding scan_int scan_nat
scan_int-digits c a rest d b =
    rw
      (not_space c d.0, not_minus c d.0, not_plus c d.0, d.0, scan_digits-append (c ∷ a) rest 0 d b)
      refl

-- A number that is printed is read back, up to what breaks its digits off.
pub scan_int-show_digits :
    (fuel n : ℕ) (rest : List ℕ)
    → n < ten_to (suc fuel)
    → Breaks rest
    → scan_int (show_digits (suc fuel) n ++ rest) ≡ some (pos n, rest)
unfolding show_digits
scan_int-show_digits fuel n rest small b =
    let front = starts (if ltb n 10 then [] else show_digits fuel (n / 10)) (b'0' + n % 10) in
    let digits : AreDigits (front.0 ∷ front.1) =
      subst AreDigits front.2 (show_digits-AreDigits (suc fuel) n) in
    let same : value 0 (front.0 ∷ front.1) ≡ n =
      ap (value 0) (sym front.2) ∙ value-show_digits (suc fuel) n small in
    ap (λ t. scan_int (t ++ rest)) front.2
    ∙ scan_int-digits front.0 front.1 rest digits b
    ∙ ap (λ v. some (pos v, rest)) same
