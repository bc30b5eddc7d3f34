-- ===== src/Client/Link/Pings.antt =====
-- The pings of connclient/src/conn_client.cpp, and what a label from the server starts, keep any
-- stable predicate on the connection.
use defold_connclient.Wire.{le64, le32}
use defold_connclient.Prelude.{ℕ, refl, Bool, true, leb, is_some, if◌then◌else◌, if_elim, arith}
use defold_connclient.TimeExpire
use defold_connclient.Client.State.{
  Env, Client, cs_logic_connected, now_ms, set_conn_state, rank, connect_success_event,
  reconnect_success_event,
}
use defold_connclient.Client.Send.{inner_close, enqueue_out}
use defold_connclient.Client.Send.Keeps.{send_tcp_buf_keeps, udp_write_keeps}
use defold_connclient.Client.Ping.{
  ping_tcp, send_tcp_ping, send_udp_ping, enter_logic, connect_success, reconnect_success,
}
use defold_connclient.Client.Link.{Link, put, Holds, Stable}
use defold_connclient.Client.Link.Closing.{enqueue_out-Holds, keeps}

module _ (e : Env) (Q : Link → Type 0) (stable : Stable Q) (depth : ℕ) where
  pub ping_tcp-Holds : (now : ℕ) (c : Client e) → Holds Q c → Holds Q (ping_tcp e depth now c)
  unfolding ping_tcp
  ping_tcp-Holds now c h =
      send_tcp_buf_keeps e (Holds Q) (inner_close e depth) (keeps e Q stable depth) _ _ _
        (unfold le64 le32 in omega arith) (record { holds = h.holds })

  pub send_tcp_ping-Holds :
      (now : ℕ) (immediate : Bool) (c : Client e)
      → Holds Q c
      → Holds Q (send_tcp_ping e depth now immediate c)
  unfolding send_tcp_ping
  send_tcp_ping-Holds now immediate c h =
      let (expired, timer) = TimeExpire.try_expire now c.tcp_ping_expire in
      let c' : Client e = record c { tcp_ping_expire = timer } in
      let k : Holds Q c' = record { holds = h.holds } in
      let timed = if expired then ping_tcp e depth now c' else c in
      if_elim (Holds Q) (leb 2 (rank c.conn_state))
        (if immediate then ping_tcp e depth now c else timed) c
        (if_elim (Holds Q) immediate (ping_tcp e depth now c) timed (ping_tcp-Holds now c h)
          (if_elim (Holds Q) expired (ping_tcp e depth now c') c (ping_tcp-Holds now c' k) h))
        h

  pub send_udp_ping-Holds :
      (now : ℕ) (c : Client e) → Holds Q c → Holds Q (send_udp_ping e depth now c)
  unfolding send_udp_ping
  send_udp_ping-Holds now c h =
      if_elim (Holds Q) _ _ _
        (udp_write_keeps e (Holds Q) (inner_close e depth) (keeps e Q stable depth) _ _
          (record { holds = h.holds }))
        h

  enter_logic-Holds :
      (c : Client e)
      → Holds Q (set_conn_state e cs_logic_connected c)
      → Holds Q (enter_logic e depth c)
  unfolding enter_logic now_ms
  enter_logic-Holds c h = send_tcp_ping-Holds _ true _ (record { holds = h.holds })

  -- A label from the server that is not the first one.
  pub reconnect_success-Holds :
      (c : Client e)
      → Holds Q (set_conn_state e cs_logic_connected c)
      → Holds Q (reconnect_success e depth c)
  unfolding reconnect_success
  reconnect_success-Holds c entered =
      let logic = enter_logic-Holds c entered in
      if_elim (Holds Q) _ _ _ (enqueue_out-Holds e Q stable reconnect_success_event _ refl logic)
        logic

  -- The first one, whose event may come from what holds before to what holds behind it.
  pub connect_success-Holds :
      (R : Link → Type 0)
      → ((k : Link) → Q k → R k)
      → ((k : Link) → Q k → R (put connect_success_event k))
      → (c : Client e) → Holds Q (set_conn_state e cs_logic_connected c)
      → Holds R (connect_success e depth c)
  unfolding connect_success enqueue_out
  connect_success-Holds R raise announce c entered =
      let logic = enter_logic-Holds c entered in
      let c' = enter_logic e depth c in
      if_elim (Holds R) (is_some c'.callbacks.connect_success_cb)
        (enqueue_out e connect_success_event c') c' (record { holds = announce _ logic.holds })
        (record { holds = raise _ logic.holds })
