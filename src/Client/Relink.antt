-- ===== src/Client/Relink.antt =====
-- connclient/src/conn_client.cpp, `AddRelinkInterval` and `ClearRelinkInterval`: the waiting times
-- before each relink. `std::sort` on `int` is modelled by insertion sort.
pub mod Sorted
use defold_connclient.Prelude.{
  ℕ, Bool, List, [], ◌∷◌, ◌++◌, length, ltb, leb_ℤ, if◌then◌else◌, ℤ, pos,
}

unfoldable pub insert : ℤ → List ℤ → List ℤ
insert x [] = x ∷ []
insert x (y ∷ ys) = if leb_ℤ x y then x ∷ y ∷ ys else y ∷ insert x ys

unfoldable pub sort : List ℤ → List ℤ
sort [] = []
sort (x ∷ xs) = insert x (sort xs)

-- A first interval of 0 is put in front of the first one that is added.
abbrev pub with_zero : List ℤ → List ℤ
with_zero [] = pos 0 ∷ []
with_zero (x ∷ xs) = x ∷ xs

unfoldable pub add_relink_interval : ℤ → List ℤ → List ℤ
add_relink_interval msec vec =
    if ltb (length (with_zero vec)) 5 then sort (with_zero vec ++ msec ∷ []) else with_zero vec

unfoldable pub clear_relink_interval : List ℤ → List ℤ
clear_relink_interval vec = []
