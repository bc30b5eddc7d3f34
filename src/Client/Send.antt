-- ===== src/Client/Send.antt =====
-- connclient/src/conn_client.cpp: what the client writes to its sockets, and `InnerClose`.
-- A close flushes KCP, KCP calls back to send, and a failed send closes again: the functions that
-- send take the close as an argument, and `inner_close` recurs on the depth that is left. The
-- datagrams of a call of KCP are sent after it, in order.
pub mod Framing
pub mod Keeps
pub mod Closing
pub mod Broken
pub mod Released
use defold_connclient.Prelude.{
  ℕ, zero, suc, ◌+◌, ◌-◌, ◌%◌, ◌^◌, Bool, true, false, not, ◌&&◌, Option, none, some, List, [], ◌∷◌,
  ◌++◌, length, ltb, leb, leb_ℤ, ltb_ℤ, is_some, is_zero, if◌then◌else◌, ℤ, pos, negsuc,
}
use defold_connclient.Stream
use defold_connclient.Wire.{
  cs_conn_head_size, cs_udp_conn_head_size, control_reliable_msg, client_connect_timeout,
  client_connect_error, swap32, encode_head, encode_udp_head,
}
use defold_connclient.KcpSession
use defold_connclient.KcpSession.{Datagram}
use defold_connclient.Os.{Errno, ewouldblock, eagain, eintr}
use defold_connclient.SocketApi.{send_ex, get_last_error, closesocket_ex}
use defold_connclient.Client.State.{
  Env, Client, Event, disconnect_event, exhausted, cs_init, set_conn_state,
}

abbrev pub max_udp_pkg_len : ℕ
max_udp_pkg_len = 2048

-- `InnerClose` as the functions below call it, by a reason.
abbrev pub Close : Env → Type 0
Close e = ℤ → Client e → Client e

-- `EWOULDBLOCK` and `EAGAIN` are one value on Linux: there `errno` is never `eagain`.
abbrev pub may_retry : Errno → Bool
may_retry ewouldblock = true
may_retry eagain = true
may_retry eintr = true
may_retry _ = false

abbrev pub may_retry_udp : Errno → Bool
may_retry_udp ewouldblock = true
may_retry_udp eintr = true
may_retry_udp _ = false

module _ (e : Env) where
  -- An event for the main thread.
  unfoldable pub enqueue_out : Event → Client e → Client e
  enqueue_out event c = record c { out_queue = c.out_queue ++ event ∷ [] }

  -- `OnTcpWrite` after `send_ex` has returned.
  unfoldable pub after_tcp_send : Close e → ℕ → ℤ → Client e → Client e
  after_tcp_send close need_send_len (pos (suc n)) c =
      let c' = record c { write_stream = Stream.skip (pos (suc n)) c.write_stream } in
      if ltb (suc n) need_send_len then record c' { tcp_writable = true } else c'
  after_tcp_send close need_send_len nwritten c =
      if may_retry (get_last_error e.os c.os)
      then record c { tcp_writable = true }
      else close (pos client_connect_error) c

  unfoldable pub on_tcp_write : Close e → Client e → Client e
  on_tcp_write close c =
      if leb (Stream.len c.write_stream) 0
      then c
      else (let (nwritten, os') = send_ex e.os c.tcp_sock (Stream.readable c.write_stream) c.os in
          after_tcp_send close (Stream.len c.write_stream) nwritten (record c { os = os' }))

  -- The head and the message behind the bytes in use, and the count of them.
  unfoldable pub write_frame : ℕ → List ℕ → Client e → Client e
  write_frame cmd msg c =
      let total_len = cs_conn_head_size + length msg in
      let head =
        encode_head
          (record { sec_pkg_len = swap32 total_len; flow = c.flow; magic = c.magic; cmd = cmd }) in
      record c {
        write_stream =
            Stream.add_size total_len
              (Stream.write_end cs_conn_head_size msg (Stream.write_end 0 head c.write_stream));
      }

  unfoldable pub send_tcp_buf : Close e → ℕ → List ℕ → Client e → ℤ × Client e
  send_tcp_buf close cmd msg c =
      let total_len = cs_conn_head_size + length msg in
      let (ret, stream') = Stream.ensure_writable e.alloc (pos total_len) c.write_stream in
      let c' = record c { write_stream = stream' } in
      if is_zero ret
      then (pos 0, on_tcp_write close (write_frame cmd msg c'))
      else (negsuc 0, close (pos client_connect_error) c')

  -- `UdpWrite` after `send_ex` has returned.
  unfoldable pub after_udp_send : Close e → ℕ → ℤ → Client e → ℤ × Client e
  after_udp_send close len send_len c =
      if leb_ℤ send_len (pos 0) && not (may_retry_udp (get_last_error e.os c.os))
      then (negsuc 0, close (pos client_connect_error) c)
      else if leb_ℤ send_len (pos len) && leb_ℤ (pos len) send_len
      then (send_len, c)
      else (negsuc 0, close (pos client_connect_error) c)

  unfoldable pub udp_write : Close e → List ℕ → Client e → ℤ × Client e
  udp_write close pkg c =
      let (send_len, os') = send_ex e.os c.udp_sock pkg c.os in
      after_udp_send close (length pkg) send_len (record c { os = os' })

  unfoldable pub send_udp_buf : Close e → ℕ → List ℕ → Client e → ℤ × Client e
  send_udp_buf close cmd msg c =
      if not (is_some c.udp_sock)
      then (negsuc 0, c)
      else if ltb (max_udp_pkg_len - cs_udp_conn_head_size) (length msg)
      then (negsuc 0, c)
      else udp_write close
          (encode_udp_head (record { flow = c.flow; magic = c.magic; cmd = cmd }) ++ msg) c

  -- `KCPOutput`, whose result the library does not read.
  unfoldable pub kcp_output : Close e → Datagram → Client e → Client e
  kcp_output close buf c =
      if c.enable_udp
      then (send_udp_buf close control_reliable_msg buf.bytes c).1
      else (send_tcp_buf close control_reliable_msg buf.bytes c).1

  -- The callbacks of one call of the library.
  unfoldable pub deliver : Close e → List Datagram → Client e → Client e
  deliver close [] c = c
  deliver close (buf ∷ rest) c = deliver close rest (kcp_output close buf c)

  unfoldable pub close_tcp : Client e → Client e
  close_tcp c = elim c.tcp_sock [
    | none ↦ c
    | some fd ↦ record c { os = (closesocket_ex e.os (some fd) c.os).1; tcp_sock = none }
  ]

  unfoldable pub close_udp : Client e → Client e
  close_udp c = elim c.udp_sock [
    | none ↦ c
    | some fd ↦ record c { os = (closesocket_ex e.os (some fd) c.os).1; udp_sock = none }
  ]

  -- The part of `InnerClose` that ends the session for good.
  unfoldable pub release_kcp : Close e → Client e → Client e
  release_kcp close c =
      let (session, out) = KcpSession.flush e.lib c.kcp_session in
      let c' = deliver close out (record c { kcp_session = session }) in
      record c' { kcp_session = KcpSession.release e.lib c'.kcp_session; running = false }

  -- The part of `InnerClose` that every close does.
  unfoldable pub close_link : Client e → Client e
  close_link c =
      let c' = set_conn_state e cs_init (close_udp (close_tcp c)) in
      record c' {
        write_stream = Stream.reset c'.write_stream;
        read_stream = Stream.reset c'.read_stream;
      }

  unfoldable pub notify_disconnect : ℤ → Client e → Client e
  notify_disconnect reason c =
      if leb_ℤ (pos 0) reason && is_some c.callbacks.disconnect_cb
      then enqueue_out (disconnect_event reason) c
      else c

  -- The reason that a close acts on: with no relink left it is the timeout.
  unfoldable pub close_reason : ℤ → Client e → ℤ
  close_reason reason c =
      if leb (length c.relink_interval_ms_vec) c.relink_count
      then pos client_connect_timeout
      else reason

  unfoldable pub inner_close : ℕ → Close e
  inner_close zero reason c = record c { fault = some exhausted }
  inner_close (suc depth) reason c =
      let reason' = close_reason reason c in
      notify_disconnect reason' (
        close_link (
          if ltb_ℤ reason' (pos client_connect_error)
          then release_kcp (inner_close depth) c
          else c))
