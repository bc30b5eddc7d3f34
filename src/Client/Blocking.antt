-- ===== src/Client/Blocking.antt =====
-- connclient/src/conn_client.cpp, the two calls of the main thread that wait for the net thread:
-- `ConnectBlock` and the destructor. What the net thread does in the meantime is a list of actions.
pub mod Ends
pub mod Destroyed
use defold_connclient.Prelude.{
  ℕ, zero, suc, ◌/◌, Bool, true, false, List, [], ◌∷◌, ◌++◌, ◌==◌, if◌then◌else◌, ℤ, pos, negsuc,
  none,
}
use defold_connclient.SocketApi.{closesocket_ex}
use defold_connclient.Os.{Fd}
use defold_connclient.Client.State.{Env, Client, connect_task, cs_logic_connected, rank}
use defold_connclient.Client.Send.{inner_close}
use defold_connclient.Client.Api
use defold_connclient.Client.Api.{LuaCall}
use defold_connclient.Client.System.{Action, run}

-- `timeout_ms / 10` passes; with a count of 0 or less there is none.
abbrev pub loop_count : ℤ → ℕ
loop_count (pos n) = n / 10
loop_count (negsuc n) = 0

module _ (e : Env) where
  -- The two ends of the pipe, which the destructor closes last.
  unfoldable pub close_pipe : Fd → Fd → Client e → Client e
  close_pipe none none c = c
  close_pipe none r1 c = record c { os = (closesocket_ex e.os r1 c.os).1 }
  close_pipe r0 none c = record c { os = (closesocket_ex e.os r0 c.os).1 }
  close_pipe r0 r1 c = record c { os = (closesocket_ex e.os r1 (closesocket_ex e.os r0 c.os).1).1 }

module _ (e : Env) (depth kcp_fuel frame_fuel : ℕ) (callable : ℕ → Bool) where
  -- The loop of `ConnectBlock`: what it returns, and what Lua callbacks it has run. `meantime n` is
  -- what the net thread does in the sleep after which n passes are left.
  unfoldable pub wait_connected : (ℕ → List Action) → ℕ → Client e → ℤ × List LuaCall × Client e
  wait_connected meantime zero c = (negsuc 0, [], c)
  wait_connected meantime (suc n) c =
      let (calls, c1) = Api.update e callable c in
      let (ret, more, c2) =
        wait_connected meantime n (run e depth kcp_fuel frame_fuel callable (meantime n) c1) in
      if rank c1.conn_state == rank cs_logic_connected
      then (pos 0, calls, c1)
      else (ret, calls ++ more, c2)

  unfoldable pub connect_block :
      (ℕ → List Action) → List ℕ → ℕ → ℤ → Client e → ℤ × List LuaCall × Client e
  connect_block meantime ip port timeout_ms c =
      wait_connected meantime (loop_count timeout_ms)
        (Api.start_net_thread_loop e (Api.enqueue_in e (connect_task ip port timeout_ms) c))

  -- The destructor: `rest` is what the net thread still does before it can be joined.
  unfoldable pub destroy : List Action → Fd → Fd → Client e → Client e
  destroy rest pipe0 pipe1 c =
      let stopped : Client e = record c { running = false } in
      let joined : Client e =
        if c.joinable
        then record (run e depth kcp_fuel frame_fuel callable rest stopped) { joinable = false }
        else stopped in
      close_pipe e pipe0 pipe1 (inner_close e depth (negsuc 0) joined)
