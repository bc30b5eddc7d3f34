-- ===== src/Client/System.antt =====
-- connclient/src/conn_client.cpp, the two threads of a client: a run is a list of actions in the
-- order in which they take effect. Each call of the main thread, and each part of a round of the
-- net thread between two of its calls on shared members, is one action; an action may come at any
-- time, so the orders of the code are among the lists.
pub mod Intervals
pub mod Steps
pub mod Invariant
pub mod Announced
pub mod Phases
pub mod Rounds
use defold_connclient.Prelude.{ℕ, Bool, List, [], ◌∷◌, ℤ, false}
use defold_connclient.Client.State.{Env, Client, Callbacks, Task, now_ms}
use defold_connclient.Client.Ping.{send_tcp_ping, send_udp_ping}
use defold_connclient.Client.Connect.{check_timeout, check_relink, switch_network}
use defold_connclient.Client.Loop.{enter_loop, on_selected, select_sockets, run_task, tick_kcp}
use defold_connclient.Client.Api

pub data Action : Type 0 where
  -- of the main thread
  connects : List ℕ → ℕ → ℤ → Action
  closes : Action
  sends : List ℕ → Action
  updates : Action
  sets_callbacks : (Callbacks → Callbacks) → Action
  sets_magic : ℕ → Action
  adds_interval : ℤ → Action
  clears_intervals : Action
  switches : Action
  -- of the net thread
  starts : Action
  selects : Action
  runs_task : Action
  reads_clock : Action
  ticks : ℕ → Action
  pings_tcp : ℕ → Action
  pings_udp : ℕ → Action
  times_out : ℕ → Action
  relinks : ℕ → Action

module _ (e : Env) (depth kcp_fuel frame_fuel : ℕ) (callable : ℕ → Bool) where
  -- `try_dequeue`, and the call of what it gives.
  unfoldable pub run_next : List Task → Client e → Client e
  run_next [] c = c
  run_next (task ∷ rest) c =
      run_task e depth kcp_fuel frame_fuel task (record c { in_queue = rest })

  unfoldable pub perform : Action → Client e → Client e
  perform (connects ip port timeout_ms) c = (Api.connect e ip port timeout_ms c).1
  perform closes c = Api.close e c
  perform (sends msg) c = (Api.send_msg e msg c).1
  perform updates c = (Api.update e callable c).1
  perform (sets_callbacks change) c = Api.set_callbacks e change c
  perform (sets_magic magic) c = Api.set_magic_num e magic c
  perform (adds_interval msec) c = Api.add_relink_interval e msec c
  perform clears_intervals c = Api.clear_relink_interval e c
  perform switches c = switch_network e depth c
  perform starts c = enter_loop e c
  perform selects c =
      let (sel, c') = select_sockets e depth kcp_fuel frame_fuel c in
      on_selected e depth kcp_fuel frame_fuel sel c'
  perform runs_task c = run_next c.in_queue c
  perform reads_clock c = (now_ms e c).1
  perform (ticks now) c = tick_kcp e depth kcp_fuel frame_fuel now c
  perform (pings_tcp now) c = send_tcp_ping e depth now false c
  perform (pings_udp now) c = send_udp_ping e depth now c
  perform (times_out now) c = check_timeout e depth now c
  perform (relinks now) c = check_relink e depth now c

  unfoldable pub run : List Action → Client e → Client e
  run [] c = c
  run (action ∷ rest) c = run rest (perform action c)
