-- ===== src/Client/System/Phases.antt =====
-- The state machine of a connection of connclient/src/conn_client.cpp: which action of the two
-- threads changes `conn_state_` in which way.
use defold_connclient.Prelude.{
  ℕ, suc, ◌≡◌, refl, subst, sym, inl, inr, Bool-cases, Bool, true, false, arith,
}
use defold_connclient.Os.{RefusesNone}
use defold_connclient.Client.State.{
  Env, Client, ConnState, cs_init, cs_connecting, cs_connected, cs_logic_connected, now_ms,
}
use defold_connclient.Client.Api
use defold_connclient.Client.Api.{enqueue_in, start_net_thread_loop}
use defold_connclient.Client.Loop.{enter_loop}
use defold_connclient.Client.Link.{link}
use defold_connclient.Client.Link.WellFormed.{is_open, WellFormed}
use defold_connclient.Client.Link.Tracked.{Walk, announced}
use defold_connclient.Client.System.{
  Action, connects, sends, switches, selects, runs_task, ticks, pings_tcp, pings_udp, times_out,
  relinks, perform,
}
use defold_connclient.Client.System.Steps.{Permits, perform-Tracked}

-- The actions that can meet a failing send, and those that close for another reason.
abbrev pub may_close : Action → Bool
may_close switches = true
may_close selects = true
may_close runs_task = true
may_close (ticks now) = true
may_close (pings_tcp now) = true
may_close (pings_udp now) = true
may_close (times_out now) = true
may_close (relinks now) = true
may_close _ = false

-- One change of the state within an action.
pub data Edge : Action → ConnState → ConnState → Type 0 where
  shuts : {action : Action} {s : ConnState} → may_close action ≡ true → Edge action s cs_init
  dials : {s : ConnState} → Edge runs_task s cs_connecting
  redials : {now : ℕ} → Edge (relinks now) cs_init cs_connecting
  gets_writable : Edge selects cs_connecting cs_connected
  gets_label : {s : ConnState} → is_open s ≡ true → Edge selects s cs_logic_connected

-- The changes of an action, one after the other.
pub data Follows (action : Action) : ConnState → ConnState → Type 0 where
  stays : {s : ConnState} → Follows action s s
  goes : {s t u : ConnState} → Follows action s t → Edge action t u → Follows action s u

abbrev machine : (action : Action) → may_close action ≡ true → ConnState → ℕ → Walk
machine action may start n = record {
  allowed = Follows action start;
  by_close = λ s before. goes before (shuts may);
  budget = n;
}

machine-Permits :
    (action : Action) (may : may_close action ≡ true) (start : ConnState) (n : ℕ)
    → Permits (machine action may start n) action
machine-Permits selects may start n = record {
  labels = λ s up before. goes before (gets_label up);
  wakes = λ before. goes before gets_writable;
}
machine-Permits runs_task may start n = goes stays dials
machine-Permits (relinks now) may start n = λ before. goes before redials
machine-Permits action may start n = tt

module _ (e : Env) (refuses : RefusesNone e.os) (depth kcp_fuel frame_fuel : ℕ)
    (callable : ℕ → Bool) where
  may_close-Follows :
      (action : Action) (c : Client e)
      → may_close action ≡ true
      → WellFormed (link c)
      → Follows action c.conn_state
          (perform e (suc depth) kcp_fuel frame_fuel callable action c).conn_state
  may_close-Follows action c may well =
      let w = machine action may c.conn_state (announced (link c)) in
      (perform-Tracked e w refuses depth kcp_fuel frame_fuel callable action c
        (machine-Permits action may c.conn_state (announced (link c)))
        (record {
          holds = record {
            steady = record { sound = well.sound; state = stays; within = omega arith };
            linked = well.linked;
          };
        })).holds.steady.state

  -- No other action changes the state.
  conn_state-perform :
      (action : Action) (c : Client e)
      → may_close action ≡ false
      → (perform e (suc depth) kcp_fuel frame_fuel callable action c).conn_state ≡ c.conn_state
  unfolding perform now_ms Api.close Api.update Api.send_msg Api.connect Api.set_callbacks
      Api.set_magic_num Api.add_relink_interval Api.clear_relink_interval enqueue_in
      start_net_thread_loop enter_loop
  conn_state-perform (connects ip port timeout_ms) c never = ground arith
  conn_state-perform (sends msg) c never = ground arith
  conn_state-perform switches c never = cc
  conn_state-perform selects c never = cc
  conn_state-perform runs_task c never = cc
  conn_state-perform (ticks now) c never = cc
  conn_state-perform (pings_tcp now) c never = cc
  conn_state-perform (pings_udp now) c never = cc
  conn_state-perform (times_out now) c never = cc
  conn_state-perform (relinks now) c never = cc
  conn_state-perform action c never = refl

  -- From a well-formed connection each action changes the state only along the edges of the state
  -- machine: a switch of the network and the actions of the net thread may close; a task may dial
  -- from any state and a relink from CS_INIT only; what `select` reports may make a connecting
  -- socket connected, and may open a session on a connection that is not in CS_INIT; no other
  -- action changes the state. It is assumed that `recv` on the descriptor -1 fails.
  pub perform-Follows :
      (action : Action) (c : Client e)
      → WellFormed (link c)
      → Follows action c.conn_state
          (perform e (suc depth) kcp_fuel frame_fuel callable action c).conn_state
  perform-Follows action c well = elim (Bool-cases (may_close action)) [
    | inl may ↦ may_close-Follows action c may well
    | inr never ↦
        subst (Follows action c.conn_state) (sym (conn_state-perform action c never)) stays
  ]
