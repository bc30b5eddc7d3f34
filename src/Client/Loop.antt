-- ===== src/Client/Loop.antt =====
-- connclient/src/conn_client.cpp, `NetThreadLoop`: a round of the net thread. The pipe, which only
-- wakes `select` up, is left out, and so is the sleep where no descriptor is open.
pub mod Thread
pub mod Retries
pub mod Sending
use defold_connclient.Prelude.{
  ℕ, zero, suc, ◌%◌, ◌^◌, Bool, true, false, not, ◌&&◌, ◌||◌, Option, none, some, List, [], ◌∷◌,
  ◌++◌, length, leb, ltb, ltb_ℤ, is_zero, ◌==◌, if◌then◌else◌, ℤ, pos, negsuc,
}
use defold_connclient.KcpSession
use defold_connclient.Os.{Fd, Selected}
use defold_connclient.SocketApi.{set_tcp_no_delay, has}
use defold_connclient.Client.State.{
  Env, Client, Task, connect_task, close_task, send_task, ConnState, cs_connecting, cs_connected,
  cs_logic_connected, rank, now_ms, set_conn_state,
}
use defold_connclient.Client.Send.{inner_close, on_tcp_write, deliver}
use defold_connclient.Client.Connect.{inner_connect, check_timeout, check_relink}
use defold_connclient.Client.Ping.{send_tcp_ping, send_udp_ping}
use defold_connclient.Client.Read.{on_tcp_read, on_udp_read}

-- FD_SET of an open socket.
abbrev pub add_fd : Fd → Bool → List ℕ → List ℕ
add_fd none on fds = fds
add_fd (some fd) on fds = if on then fd ∷ fds else fds

-- IsReadable, IsWritable and IsErrorable.
abbrev pub is_set : Fd → List ℕ → Bool
is_set none fds = false
is_set (some fd) fds = has fd fds

module _ (e : Env) where
  -- What a new thread does before its first round.
  unfoldable pub enter_loop : Client e → Client e
  enter_loop c = record c { running = true; relink_count = 0 }

module _ (e : Env) (depth kcp_fuel frame_fuel : ℕ) where
  unfoldable pub on_tcp_writable : Client e → Client e
  on_tcp_writable c =
      let c' = record c { tcp_writable = false } in
      if rank c.conn_state == rank cs_connecting
      then (let c'' = set_conn_state e cs_connected c' in
          record c'' { os = (set_tcp_no_delay e.os c''.tcp_sock c''.os).1 })
      else on_tcp_write e (inner_close e depth) c'

  unfoldable pub on_tcp_ready : Selected → ℕ → Client e → Client e
  on_tcp_ready sel cur_time c =
      if is_set c.tcp_sock sel.rset || is_set c.tcp_sock sel.eset
      then on_tcp_read e depth kcp_fuel frame_fuel cur_time c
      else if is_set c.tcp_sock sel.wset
      then on_tcp_writable c
      else c

  unfoldable pub on_udp_ready : Selected → ℕ → Client e → Client e
  on_udp_ready sel cur_time c =
      if is_set c.udp_sock sel.rset || is_set c.udp_sock sel.eset
      then on_udp_read e depth kcp_fuel cur_time c
      else c

  unfoldable pub on_selected : Selected → Client e → Client e
  on_selected sel c =
      if ltb_ℤ (pos 0) sel.retval
      then (let (cur_time, c') = now_ms e c in
          on_udp_ready sel cur_time (on_tcp_ready sel cur_time c'))
      else c

  -- `select` on the sockets; no descriptor is put into the error set.
  unfoldable pub select_sockets : Client e → Selected × Client e
  select_sockets c =
      let (sel, os') =
        e.os.select (add_fd c.udp_sock true (add_fd c.tcp_sock true []))
          (add_fd c.tcp_sock c.tcp_writable []) [] 10 c.os in
      (sel, record c { os = os' })

  unfoldable pub send_kcp_buf : List ℕ → Client e → ℤ × Client e
  send_kcp_buf msg c =
      let (now, c1) = now_ms e c in
      let (ret, session, out) = KcpSession.send e.lib msg (now % 2 ^ 32) c1.kcp_session in
      let c2 = deliver e (inner_close e depth) out (record c1 { kcp_session = session }) in
      if leb (length msg) 0
      then (pos 0, c)
      else if ltb (rank c.conn_state) (rank cs_logic_connected)
      then (negsuc 0, c)
      else if is_zero ret
      then (pos 0, c2)
      else (negsuc 0, c2)

  unfoldable pub run_task : Task → Client e → Client e
  run_task (connect_task ip port timeout_ms) c = (inner_connect e depth ip port timeout_ms c).1
  run_task close_task c = inner_close e depth (negsuc 0) c
  run_task (send_task msg) c = (send_kcp_buf msg c).1

  -- `try_dequeue` and the call, for the tasks that are in the queue, oldest first.
  unfoldable pub run_all : List Task → Client e → Client e
  run_all [] c = c
  run_all (task ∷ rest) c = run_all rest (run_task task (record c { in_queue = rest }))

  unfoldable pub run_tasks : Client e → Client e
  run_tasks c = run_all c.in_queue c

  unfoldable pub tick_kcp : ℕ → Client e → Client e
  tick_kcp now c =
      let (session, out) = KcpSession.tick e.lib (now % 2 ^ 32) c.kcp_session in
      deliver e (inner_close e depth) out (record c { kcp_session = session })

  -- The end of a round, at one reading of the clock.
  unfoldable pub on_time : ℕ → Client e → Client e
  on_time now c = check_relink e depth now (
      check_timeout e depth now
        (send_udp_ping e depth now (send_tcp_ping e depth now false (tick_kcp now c))))

  unfoldable pub round : Client e → Client e
  round c =
      let (sel, c1) = select_sockets c in
      let (now, c2) = now_ms e (run_tasks (on_selected sel c1)) in on_time now c2

  -- `while (running_)`, for a number of rounds at most.
  unfoldable pub rounds : ℕ → Client e → Client e
  rounds zero c = c
  rounds (suc n) c = let next = rounds n (round c) in if c.running then next else c

  unfoldable pub net_thread_loop : ℕ → Client e → Client e
  net_thread_loop n c = rounds n (enter_loop e c)
