-- ===== src/Client/System/Steps.antt =====
-- What each action of the two threads of connclient/src/conn_client.cpp keeps.
use defold_connclient.Prelude.{
  ◌≡◌, ℤ, pos, negsuc, ltb, if_elim_snd, ℕ, suc, Bool, true, false, if_elim, List, [], ◌∷◌, arith,
}
use defold_connclient.Os.{RefusesNone}
use defold_connclient.Client.State.{
  Env, Client, Task, send_task, ConnState, cs_init, cs_connecting, cs_connected, cs_logic_connected,
  rank, now_ms,
}
use defold_connclient.Client.Connect.{switch_network}
use defold_connclient.Client.Loop.{enter_loop, select_sockets}
use defold_connclient.Client.Relink
use defold_connclient.Client.Api
use defold_connclient.Client.Api.{enqueue_in, start_net_thread_loop}
use defold_connclient.Client.Link.{link, Holds}
use defold_connclient.Client.Link.WellFormed.{is_open}
use defold_connclient.Client.Link.Tracked.{
  Walk, Tracked, Tracked-Stable, relinks-Tracked, successes,
}
use defold_connclient.Client.Link.Spending.{raise-Tracked, take-Tracked}
use defold_connclient.Client.Link.Pings.{send_tcp_ping-Holds, send_udp_ping-Holds}
use defold_connclient.Client.Link.Connecting.{closes, check_timeout-Tracked, check_relink-Tracked}
use defold_connclient.Client.Link.Rounds.{on_selected-Tracked, run_task-Tracked, tick_kcp-Tracked}
use defold_connclient.Client.System.{
  Action, connects, sends, updates, sets_callbacks, sets_magic, adds_interval, clears_intervals,
  switches, starts, selects, runs_task, reads_clock, ticks, pings_tcp, pings_udp, times_out,
  relinks, run_next, perform,
}
use defold_connclient.Client.System.Intervals.{add_relink_interval-IsSorted}

-- The states that `select` may come to: a label opens a session only on an open connection, and
-- only a connection that is being made gets ready.
pub record PermitsSelect (w : Walk) : Type 0 where
  pub labels : (s : ConnState) → is_open s ≡ true → w.allowed s → w.allowed cs_logic_connected
  pub wakes : w.allowed cs_connecting → w.allowed cs_connected

-- The states that an action may come to besides CS_INIT.
abbrev pub Permits : Walk → Action → Type 0
Permits w selects = PermitsSelect w
Permits w runs_task = w.allowed cs_connecting
Permits w (relinks now) = w.allowed cs_init → w.allowed cs_connecting
Permits w _ = Unit {0}

module _ (e : Env) (w : Walk) (depth kcp_fuel frame_fuel : ℕ) where
  run_next-Tracked :
      w.allowed cs_connecting
      → (tasks : List Task) (c : Client e) → Holds (Tracked w) c
      → (callable : ℕ → Bool)
      → Holds (Tracked w) (run_next e (suc depth) kcp_fuel frame_fuel callable tasks c)
  unfolding run_next
  run_next-Tracked dial [] c h callable = h
  run_next-Tracked dial (task ∷ rest) c h callable =
      run_task-Tracked e w depth kcp_fuel frame_fuel dial task _ (record { holds = h.holds })

  connect-Tracked :
      (ip : List ℕ) (port : ℕ) (timeout_ms : ℤ) (c : Client e)
      → Holds (Tracked w) c
      → Holds (Tracked w) (Api.connect e ip port timeout_ms c).1
  unfolding Api.connect enqueue_in start_net_thread_loop
  connect-Tracked ip port timeout_ms c h =
      if_elim (Holds (Tracked w)) c.joinable _ _ (record { holds = h.holds })
        (record { holds = h.holds })

module _ (e : Env) (w : Walk) (refuses : RefusesNone e.os) (depth kcp_fuel frame_fuel : ℕ)
    (callable : ℕ → Bool) where
  pub perform-Tracked :
      (action : Action) (c : Client e)
      → Permits w action
      → Holds (Tracked w) c
      → Holds (Tracked w) (perform e (suc depth) kcp_fuel frame_fuel callable action c)
  unfolding perform switch_network select_sockets Api.close Api.update Api.send_msg
      Api.set_callbacks Api.set_magic_num Api.add_relink_interval Api.clear_relink_interval
      Relink.clear_relink_interval enqueue_in enter_loop
  perform-Tracked (connects ip port timeout_ms) c p h =
      connect-Tracked e w depth kcp_fuel frame_fuel ip port timeout_ms c h
  perform-Tracked Action.closes c p h = record { holds = h.holds }
  perform-Tracked (sends msg) c p h =
      if_elim_snd {A = ℤ} (Holds (Tracked w)) (ltb (rank c.conn_state) 3) (negsuc 0, c)
        (pos 0, enqueue_in e (send_task msg) c) h (record { holds = h.holds })
  perform-Tracked updates c p h = record {
    holds = raise-Tracked w (successes c.out_queue) _ (take-Tracked w (link c) h.holds);
  }
  perform-Tracked (sets_callbacks change) c p h = record { holds = h.holds }
  perform-Tracked (sets_magic magic) c p h = record { holds = h.holds }
  perform-Tracked (adds_interval msec) c p h =
      let s = h.holds.steady.sound in
      let added = add_relink_interval-IsSorted msec c.relink_interval_ms_vec s.sorted s.few in
      record { holds = relinks-Tracked w (link c) _ c.relink_count added.0 added.1 s.count h.holds }
  perform-Tracked clears_intervals c p h = record {
    holds =
        relinks-Tracked w (link c) [] c.relink_count tt (omega arith) h.holds.steady.sound.count
          h.holds;
  }
  perform-Tracked switches c p h = if_elim (Holds (Tracked w)) _ _ _ (closes e w depth _ c h) h
  perform-Tracked starts c p h =
      let s = h.holds.steady.sound in
      record {
        holds =
            relinks-Tracked w (link c) c.relink_interval_ms_vec 0 s.sorted s.few (omega arith)
              h.holds;
      }
  perform-Tracked selects c p h =
      on_selected-Tracked e w depth kcp_fuel frame_fuel p.labels p.wakes refuses _ _
        (record { holds = h.holds })
  perform-Tracked runs_task c p h =
      run_next-Tracked e w depth kcp_fuel frame_fuel p c.in_queue c h callable
  perform-Tracked reads_clock c p h = unfold now_ms in record { holds = h.holds }
  perform-Tracked (ticks now) c p h = tick_kcp-Tracked e w depth kcp_fuel frame_fuel now c h
  perform-Tracked (pings_tcp now) c p h =
      send_tcp_ping-Holds e (Tracked w) (Tracked-Stable w) (suc depth) now false c h
  perform-Tracked (pings_udp now) c p h =
      send_udp_ping-Holds e (Tracked w) (Tracked-Stable w) (suc depth) now c h
  perform-Tracked (times_out now) c p h = check_timeout-Tracked e w depth now c h
  perform-Tracked (relinks now) c p h = check_relink-Tracked e w depth p now c h
