-- ===== src/Client/Ping.antt =====
-- connclient/src/conn_client.cpp: the pings, and what a label from the server starts.
pub mod Lost
use defold_connclient.Prelude.{ℕ, Bool, true, ◌&&◌, ◌++◌, leb, is_some, if◌then◌else◌}
use defold_connclient.TimeExpire
use defold_connclient.Wire.{control_ping, le32, le64}
use defold_connclient.Client.State.{
  Env, Client, cs_connected, cs_logic_connected, rank, connect_success_event,
  reconnect_success_event, now_ms, set_conn_state,
}
use defold_connclient.Client.Send.{inner_close, send_tcp_buf, udp_write, enqueue_out}

module _ (e : Env) (depth : ℕ) where
  -- A `CsPing` with the time.
  unfoldable pub ping_tcp : ℕ → Client e → Client e
  ping_tcp now c =
      (send_tcp_buf e (inner_close e depth) control_ping (le64 now) (record c { ping_seq = now })).1

  unfoldable pub send_tcp_ping : ℕ → Bool → Client e → Client e
  send_tcp_ping now immediate c =
      let (expired, timer) = TimeExpire.try_expire now c.tcp_ping_expire in
      if leb (rank cs_connected) (rank c.conn_state)
      then (if immediate
          then ping_tcp now c
          else if expired
          then ping_tcp now (record c { tcp_ping_expire = timer })
          else c)
      else c

  unfoldable pub send_udp_ping : ℕ → Client e → Client e
  send_udp_ping now c =
      let (expired, timer) = TimeExpire.try_expire now c.udp_ping_expire in
      if is_some c.udp_sock && (leb (rank cs_connected) (rank c.conn_state) && expired)
      then (udp_write e (inner_close e depth) (le32 0 ++ le64 now)
          (record c { udp_ping_expire = timer })).1
      else c

  -- The common part of `ConnectSuccess` and `ReConnectSuccess`.
  unfoldable pub enter_logic : Client e → Client e
  enter_logic c =
      let (now, c') = now_ms e (set_conn_state e cs_logic_connected c) in
      send_tcp_ping now true
        (record c' { tcp_ping_expire = TimeExpire.reset now c'.tcp_ping_expire })

  unfoldable pub connect_success : Client e → Client e
  connect_success c =
      let c' = enter_logic c in
      if is_some c'.callbacks.connect_success_cb then enqueue_out e connect_success_event c' else c'

  unfoldable pub reconnect_success : Client e → Client e
  reconnect_success c =
      let c' = enter_logic c in
      if is_some c'.callbacks.reconnect_success_cb
      then enqueue_out e reconnect_success_event c'
      else c'
