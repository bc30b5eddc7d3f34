-- ===== src/Client/Blocking/Ends.antt =====
-- How `ConnectBlock` of connclient/src/conn_client.cpp ends.
use defold_connclient.Prelude.{
  ℕ, zero, suc, ◌<◌, ◌≡◌, ◌≢◌, refl, sym, ap, ◌∙◌, Bool, false, inl, inr, Bool-cases, ==→eq, List,
  [], ◌∷◌, ◌++◌, ◌==◌, ℤ, pos, negsuc, arith, ◌⊎◌,
}
use defold_connclient.Client.State.{Env, Client, cs_logic_connected, rank}
use defold_connclient.Client.Api
use defold_connclient.Client.System.{Action, updates, connects, perform, run}
use defold_connclient.Client.Blocking.{loop_count, wait_connected, connect_block}

-- The actions up to the poll number `k` of a loop that has `n` passes left.
abbrev pub polls : (ℕ → List Action) → ℕ → ℕ → List Action
polls meantime zero k = []
polls meantime (suc n) zero = updates ∷ []
polls meantime (suc n) (suc k) = updates ∷ meantime n ++ polls meantime n k

-- All actions of such a loop, where no poll ends it.
abbrev pub waits : (ℕ → List Action) → ℕ → List Action
waits meantime zero = []
waits meantime (suc n) = updates ∷ meantime n ++ waits meantime n

module _ (e : Env) (depth kcp_fuel frame_fuel : ℕ) (callable : ℕ → Bool) where
  abbrev steps : List Action → Client e → Client e
  steps = run e depth kcp_fuel frame_fuel callable

  run-append :
      (first next : List Action) (c : Client e)
      → steps (first ++ next) c ≡ steps next (steps first c)
  unfolding run
  run-append [] next c = refl
  run-append (action ∷ first) next c = run-append first next _

  module _ (meantime : ℕ → List Action) where
    -- The poll number `j` of a loop with `n` passes left does not find the client logic connected.
    abbrev Misses : ℕ → Client e → ℕ → Type 0
    Misses n c j = rank (steps (polls meantime n j) c).conn_state ≢ rank cs_logic_connected

    -- The two ways in which the loop ends: with 0 at the first poll that finds the client logic
    -- connected, or with -1 where none does.
    pub Ended : ℕ → Client e → ℤ → Client e → Type 0
    Ended n c ret c' =
        ((ret ≡ pos 0)
          × ((k : ℕ) × (k < n)
              × (c' ≡ steps (polls meantime n k) c)
              × (rank c'.conn_state ≡ rank cs_logic_connected)
              × ((j : ℕ) → j < k → Misses n c j)))
        ⊎ ((ret ≡ negsuc 0) × (c' ≡ steps (waits meantime n) c) × ((j : ℕ) → j < n → Misses n c j))

    Misses-suc :
        (n k : ℕ) (c : Client e)
        → rank (Api.update e callable c).1.conn_state ≢ rank cs_logic_connected
        → ((j : ℕ) → j < k → Misses n (steps (meantime n) (Api.update e callable c).1) j)
        → (j : ℕ) → j < suc k
        → Misses (suc n) c j
    unfolding run perform
    Misses-suc n k c yet rest zero less there = yet there
    Misses-suc n k c yet rest (suc j) less there = rest j (omega (arith, less)) (
        ap (λ (d : Client e). rank d.conn_state)
          (sym (run-append (meantime n) (polls meantime n j) (Api.update e callable c).1))
        ∙ there)

    later :
        (n : ℕ) (c : Client e) (ret : ℤ) (c' : Client e)
        → rank (Api.update e callable c).1.conn_state ≢ rank cs_logic_connected
        → Ended n (steps (meantime n) (Api.update e callable c).1) ret c'
        → Ended (suc n) c ret c'
    unfolding Ended run perform
    later n c ret c' yet (inl (found, (k, less, same, there, missed))) = inl (
      found,
      (
        suc k,
        omega (arith, less),
        same ∙ sym (run-append (meantime n) (polls meantime n k) _),
        there,
        Misses-suc n k c yet missed,
      ),
    )
    later n c ret c' yet (inr (minus, same, missed)) = inr (
      minus,
      same ∙ sym (run-append (meantime n) (waits meantime n) _),
      Misses-suc n n c yet missed,
    )

    not_eq : (a b : ℕ) → (a == b) ≡ false → a ≢ b
    not_eq a b e = ground arith

    none_before : (P : ℕ → Type 0) (j : ℕ) → j < 0 → P j
    none_before P j less = absurd (omega (arith, less))

    wait_connected-Ended :
        (n : ℕ) (c : Client e)
        → let r = wait_connected e depth kcp_fuel frame_fuel callable meantime n c in
          Ended n c r.0 r.2
    unfolding wait_connected Ended run perform
    wait_connected-Ended zero c = inr (refl, refl, none_before (Misses 0 c))
    wait_connected-Ended (suc n) c =
        let c1 = (Api.update e callable c).1 in
        elim (Bool-cases (rank c1.conn_state == rank cs_logic_connected)) [
          | inl there ↦
              rw there (
                inl (refl, (0, omega arith, refl, ==→eq _ _ there, none_before (Misses (suc n) c))))
          | inr yet ↦
              rw yet
                (later n c _ _ (not_eq _ _ yet) (wait_connected-Ended n (steps (meantime n) c1)))
        ]

    -- `ConnectBlock` returns 0 at the first of its `timeout_ms / 10` polls that finds the client in
    -- CS_LOGIC_CONNECTED, after the call of `Connect` and the actions of both threads up to that
    -- poll. It returns -1 where none of its polls finds it so, after all of them.
    pub connect_block-Ended :
        (ip : List ℕ) (port : ℕ) (timeout_ms : ℤ) (c : Client e)
        → let r =
            connect_block e depth kcp_fuel frame_fuel callable meantime ip port timeout_ms c in
          Ended
            (loop_count timeout_ms)
            (perform e depth kcp_fuel frame_fuel callable (connects ip port timeout_ms) c)
            r.0
            r.2
    unfolding connect_block perform Api.connect
    connect_block-Ended ip port timeout_ms c = wait_connected-Ended (loop_count timeout_ms) _
