-- ===== src/Client/System/Intervals.antt =====
-- The intervals of the relinks of connclient/src/conn_client.cpp under one call.
use defold_connclient.Prelude.{
  ◌≤◌, List, [], ◌∷◌, ◌++◌, inl, inr, length, ltb, Bool-cases, ℤ, pos, arith, tests, length-append,
}
use defold_connclient.Client.Relink.{add_relink_interval}
use defold_connclient.Client.Relink.Sorted.{IsSorted, sort-IsSorted, length-sort}

pub add_relink_interval-IsSorted :
    (msec : ℤ) (vec : List ℤ)
    → IsSorted vec
    → length vec ≤ 5
    → IsSorted (add_relink_interval msec vec) × (length (add_relink_interval msec vec) ≤ 5)
unfolding add_relink_interval
add_relink_interval-IsSorted msec [] s few =
    (sort-IsSorted (pos 0 ∷ msec ∷ []), omega (arith, length-sort (pos 0 ∷ msec ∷ [])))
add_relink_interval-IsSorted msec (v ∷ vs) s few = elim (Bool-cases (ltb (length (v ∷ vs)) 5)) [
  | inl room ↦
      rw (room, add_relink_interval)
        (
          sort-IsSorted (v ∷ vs ++ msec ∷ []),
          omega
              (tests, room, length-sort (v ∷ vs ++ msec ∷ []), length-append (v ∷ vs) (msec ∷ [])),
        )
  | inr full ↦ rw (full, add_relink_interval) (s, few)
]
