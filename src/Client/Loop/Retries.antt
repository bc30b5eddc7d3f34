-- ===== src/Client/Loop/Retries.antt =====
-- What the KCP session of connclient/src/conn_client.cpp does while the client waits for a relink.
use defold_connclient.KcpSession.{Datagram}
use defold_connclient.Prelude.{
  ℕ, suc, ◌%◌, ◌^◌, ◌≤◌, ◌<◌, ◌≡◌, refl, ap, ◌∙◌, false, none, [], ◌∷◌, ◌++◌, length, is_some,
  if◌then◌else◌, ℤ, pos, arith, ◌≤ℤ◌, le→ltb, some,
}
use defold_connclient.Stream.Buffer.{IsValid}
use defold_connclient.KcpSession
use defold_connclient.Os.{RefusesNone, Clock, Fd, get_time_ms}
use defold_connclient.SocketApi.{closesocket_ex}
use defold_connclient.Wire.{control_reliable_msg, client_connect_error}
use defold_connclient.Client.State.{
  Env, Client, disconnect_event, now_ms, set_conn_state, enter_state,
}
use defold_connclient.Client.Send.{
  Close, inner_close, close_link, close_tcp, close_udp, close_reason, release_kcp,
  notify_disconnect, enqueue_out, deliver, kcp_output, send_tcp_buf, send_udp_buf,
}
use defold_connclient.Client.Send.Broken.{RefusesNone-Broken, send_tcp_buf-Broken}
use defold_connclient.Client.Send.Closing.{inner_close_relinks}
use defold_connclient.Client.Connect.Relinking.{close_reason_kept}
use defold_connclient.Client.Loop.{tick_kcp}

module _ (e : Env) where
  notify_disconnect_ts :
      (reason : ℤ) (c : Client e) → (notify_disconnect e reason c).conn_state_ts ≡ c.conn_state_ts
  unfolding notify_disconnect enqueue_out
  notify_disconnect_ts reason c = ground arith

  close_link_ts :
      (c : Client e)
      → (close_link e c).conn_state_ts ≡ (get_time_ms e.os (close_udp e (close_tcp e c)).os).0
  unfolding close_link set_conn_state now_ms enter_state
  close_link_ts c = refl

  -- The time of the state after a close that keeps the session.
  inner_close_ts :
      (depth : ℕ) (reason : ℤ) (c : Client e)
      → pos client_connect_error ≤ℤ close_reason e reason c
      → (inner_close e (suc depth) reason c).conn_state_ts
        ≡ (get_time_ms e.os (close_udp e (close_tcp e c)).os).0
  unfolding inner_close
  inner_close_ts depth reason c kept =
      notify_disconnect_ts _ _
      ∙ close_link_ts _
      ∙ ap
          (λ final.
            (get_time_ms e.os
              (close_udp e
                (close_tcp e (if final then release_kcp e (inner_close e depth) c else c))).os).0)
          (le→ltb _ _ kept)

  module _ (k : Clock e.os) where
    abbrev by_fd : Client e → Fd → (ℕ → Client e) → Client e
    by_fd c fd closed = elim fd [ none ↦ c | some d ↦ closed d ]

    by_fd_later :
        (c : Client e) (fd : Fd) (closed : ℕ → Client e)
        → ((d : ℕ) → k.time c.os ≤ k.time (closed d).os)
        → k.time c.os ≤ k.time (by_fd c fd closed).os
    by_fd_later c none closed later = omega arith
    by_fd_later c (some d) closed later = later d

    close_tcp_later : (c : Client e) → k.time c.os ≤ k.time (close_tcp e c).os
    unfolding close_tcp closesocket_ex
    close_tcp_later c = by_fd_later c c.tcp_sock _ (λ d. k.by_close (some d) c.os)

    close_udp_later : (c : Client e) → k.time c.os ≤ k.time (close_udp e c).os
    unfolding close_udp closesocket_ex
    close_udp_later c = by_fd_later c c.udp_sock _ (λ d. k.by_close (some d) c.os)

    inner_close_later :
        (depth : ℕ) (reason : ℤ) (c : Client e)
        → pos client_connect_error ≤ℤ close_reason e reason c
        → k.time c.os ≤ (inner_close e (suc depth) reason c).conn_state_ts
    inner_close_later depth reason c kept = omega (
      arith,
      inner_close_ts depth reason c kept,
      k.by_get (close_udp e (close_tcp e c)).os,
      close_tcp_later c,
      close_udp_later (close_tcp e c),
    )

  kcp_output_tcp :
      (close : Close e) (buf : Datagram) (c : Client e)
      → c.enable_udp ≡ false
      → kcp_output e close buf c ≡ (send_tcp_buf e close control_reliable_msg buf.bytes c).1
  unfolding kcp_output
  kcp_output_tcp close buf c tcp =
      ap
        (λ on.
          if on
          then (send_udp_buf e close control_reliable_msg buf.bytes c).1
          else (send_tcp_buf e close control_reliable_msg buf.bytes c).1)
        tcp

  -- A close of a client with an interval left.
  inner_close_retries :
      (k : Clock e.os) (depth : ℕ) (c : Client e)
      → c.relink_count < length c.relink_interval_ms_vec
      → let c' = inner_close e (suc depth) (pos client_connect_error) c in
        (c'.out_queue ≡ (
          if is_some c.callbacks.disconnect_cb
          then c.out_queue ++ disconnect_event (pos client_connect_error) ∷ []
          else c.out_queue))
        × (k.time c.os ≤ c'.conn_state_ts)
  inner_close_retries k depth c left =
      let acts = close_reason_kept e depth (pos client_connect_error) c left in
      let kept : pos client_connect_error ≤ℤ close_reason e (pos client_connect_error) c =
        rw acts (omega arith) in
      let closed = inner_close_relinks e depth (pos client_connect_error) c kept in
      (closed.3 ∙ rw acts refl, inner_close_later k depth (pos client_connect_error) c kept)

module _ (e : Env) (refuses : RefusesNone e.os) (k : Clock e.os)
    (depth kcp_fuel frame_fuel : ℕ) where
  -- Without a socket, and with KCP over TCP and an interval left, a tick in which the library
  -- resends one datagram closes the client again: it adds a disconnect event for
  -- CLIENT_CONNECT_ERROR, if the callback is set, and the time since which the relink waits is set
  -- to one that is not before this tick, so that the wait begins anew. It is assumed that `send` on
  -- the descriptor -1 fails with EBADF, and that neither a send nor a close sets the clock back.
  pub tick_kcp-none :
      (now : ℕ) (buf : Datagram) (c : Client e)
      → c.tcp_sock ≡ none
      → c.enable_udp ≡ false
      → IsValid c.write_stream
      → c.relink_count < length c.relink_interval_ms_vec
      → (KcpSession.tick e.lib (now % 2 ^ 32) c.kcp_session).1 ≡ buf ∷ []
      → let c' = tick_kcp e (suc depth) kcp_fuel frame_fuel now c in
        (c'.out_queue ≡ (
          if is_some c.callbacks.disconnect_cb
          then c.out_queue ++ disconnect_event (pos client_connect_error) ∷ []
          else c.out_queue))
        × (k.time c.os ≤ c'.conn_state_ts)
  unfolding tick_kcp deliver
  tick_kcp-none now buf c shut tcp v left resent =
      let close = inner_close e (suc depth) in
      let start : Client e = record c {
        kcp_session = (KcpSession.tick e.lib (now % 2 ^ 32) c.kcp_session).0;
      } in
      let sent =
        send_tcp_buf-Broken e none (RefusesNone-Broken e.os refuses) (λ os. k.time c.os ≤ k.time os)
          close control_reliable_msg buf.bytes start shut v (omega (arith, buf.bytes-le))
          (omega arith) (λ bytes. k.by_send none bytes c.os) in
      let closed =
        inner_close_retries e k depth (record start { os = sent.0; write_stream = sent.1 }) left in
      rw resent (
        rw (kcp_output_tcp e close buf start tcp)
          (rw sent.2 (closed.0, omega (arith, closed.1, sent.3))))
