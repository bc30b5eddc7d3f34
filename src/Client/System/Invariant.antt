-- ===== src/Client/System/Invariant.antt =====
-- What holds of a client of connclient/src/conn_client.cpp after any actions of its two threads.
use defold_connclient.Prelude.{ℕ, suc, Bool, List, [], ◌∷◌, arith}
use defold_connclient.Os.{RefusesNone}
use defold_connclient.Client.State.{Env, Client, init}
use defold_connclient.Client.Link.{link, Holds}
use defold_connclient.Client.Link.WellFormed.{WellFormed}
use defold_connclient.Client.Link.Tracked.{Walk, Tracked, Tracked-WellFormed}
use defold_connclient.Client.Link.Entering.{init-Tracked}
use defold_connclient.Client.System.{Action, selects, runs_task, relinks, run}
use defold_connclient.Client.System.Steps.{Permits, perform-Tracked}

-- Any state may be come to.
abbrev pub anywhere : ℕ → Walk
anywhere n = record { allowed = λ s. Unit {0}; by_close = λ s a. tt; budget = n }

pub anywhere-Permits : (n : ℕ) (action : Action) → Permits (anywhere n) action
anywhere-Permits n selects = record { labels = λ s up a. tt; wakes = λ a. tt }
anywhere-Permits n runs_task = tt
anywhere-Permits n (relinks now) = λ a. tt
anywhere-Permits n action = tt

module _ (e : Env) (refuses : RefusesNone e.os) (depth kcp_fuel frame_fuel : ℕ)
    (callable : ℕ → Bool) where
  run_keeps :
      (actions : List Action) (c : Client e)
      → Holds (Tracked (anywhere 1)) c
      → Holds (Tracked (anywhere 1)) (run e (suc depth) kcp_fuel frame_fuel callable actions c)
  unfolding run
  run_keeps [] c h = h
  run_keeps (action ∷ rest) c h = run_keeps rest _ (
      perform-Tracked e (anywhere 1) refuses depth kcp_fuel frame_fuel callable action c
        (anywhere-Permits 1 action) h)

  -- From a new client, after any actions of the main thread and the net thread in any order: both
  -- streams are valid, the intervals are sorted and at most five, at most five relinks are counted,
  -- the sockets are open exactly while the state is not CS_INIT, and no byte is left to read in
  -- CS_INIT. It is assumed that `recv` on the descriptor -1 fails.
  pub run-WellFormed :
      (os : e.os.State) (actions : List Action)
      → WellFormed (link (run e (suc depth) kcp_fuel frame_fuel callable actions (init e os)))
  run-WellFormed os actions =
      Tracked-WellFormed (anywhere 1) _
        (run_keeps actions _ (init-Tracked e (anywhere 1) os tt (omega arith))).holds
