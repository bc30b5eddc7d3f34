-- ===== src/Client/System/Rounds.antt =====
-- The rounds of `NetThreadLoop` in connclient/src/conn_client.cpp as actions.
use defold_connclient.Prelude.{ℕ, Bool, List, [], ◌∷◌}
use defold_connclient.Client.Link.WellFormed.{WellFormed}
use defold_connclient.KcpSession
use defold_connclient.Client.State.{Env, Client, Task, now_ms}
use defold_connclient.Client.Loop.{run_tasks, on_selected, select_sockets}
use defold_connclient.Client.System.{
  Action, selects, runs_task, reads_clock, ticks, pings_tcp, pings_udp, times_out, relinks, run,
}

abbrev repeats : List Task → List Action → List Action
repeats [] after = after
repeats (task ∷ rest) after = runs_task ∷ repeats rest after

module _ (e : Env) (depth kcp_fuel frame_fuel : ℕ) (callable : ℕ → Bool) where
  abbrev steps : List Action → Client e → Client e
  steps = run e depth kcp_fuel frame_fuel callable

  -- The actions of a round, which depend on the tasks that wait and on the clock.
  abbrev after_select : Client e → Client e
  after_select c =
      let (sel, c1) = select_sockets e depth kcp_fuel frame_fuel c in
      on_selected e depth kcp_fuel frame_fuel sel c1

  abbrev round_actions : Client e → List Action
  round_actions c =
      let c1 = after_select c in
      let (now, c2) = now_ms e (run_tasks e depth kcp_fuel frame_fuel c1) in
      selects
      ∷ repeats c1.in_queue (
          reads_clock
          ∷ ticks now
          ∷ pings_tcp now
          ∷ pings_udp now
          ∷ times_out now
          ∷ relinks now
          ∷ [])
