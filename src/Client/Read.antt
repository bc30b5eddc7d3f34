-- ===== src/Client/Read.antt =====
-- connclient/src/conn_client.cpp: what the client reads from its sockets. `depth` is the depth of
-- `inner_close`; the loops over KCP messages and over frames take fuel of their own, the first as
-- the passes that the code allows.
pub mod Frames
pub mod Stuck
pub mod Reassembly
pub mod Draining
pub mod Unread
pub mod Progress
pub mod Datagrams
use defold_connclient.Prelude.{
  ℕ, zero, suc, ◌+◌, ◌-◌, ◌*◌, ◌%◌, ◌^◌, Bool, true, false, not, ◌&&◌, ◌||◌, Option, none, some,
  List, [], ◌∷◌, ◌++◌, length, take, drop, leb, ltb, leb_ℤ, ltb_ℤ, is_some, is_zero, ◌==◌,
  if◌then◌else◌, ℤ, pos, negsuc, pos_part, neg_part, sub_ℕ, signed32,
}
use defold_connclient.Stream
use defold_connclient.Wire.{
  cs_conn_head_size, cs_udp_conn_head_size, cs_ping_size, kcp_info_size, control_reliable_msg,
  control_unreliable_msg, control_ping, control_kcp_info, control_disconnect, control_sync_label,
  control_server_close, control_server_full, control_flow_not_exist, client_connect_error, swap32,
  load32, decode_head, decode_udp_head, decode_kcp_info, ControlKcpInfo, CsConnHead,
}
use defold_connclient.KcpSession
use defold_connclient.KcpSession.{Received, message, failed, is_null}
use defold_connclient.SocketApi.{recv_ex, recvfrom_ex, get_last_error}
use defold_connclient.Client.State.{Env, Client, output_event, exhausted, terminated, now_ms}
use defold_connclient.Client.Send.{
  inner_close, enqueue_out, deliver, may_retry_udp, max_udp_pkg_len,
}
use defold_connclient.Client.Ping.{connect_success, reconnect_success}

abbrev pub recv_one_time_size : ℕ
recv_one_time_size = 1024 * 16

abbrev pub max_pkg_size : ℕ
max_pkg_size = 3 * 1024 * 1024

-- `pkg_len - cs_conn_head_size` in 32 bits with a sign: below -2 ^ 31 it wraps around.
abbrev pub minus : ℤ → ℕ → ℤ
minus (pos a) n = sub_ℕ a n
minus (negsuc a) n = if ltb (a + n) (2 ^ 31) then negsuc (a + n) else pos (2 ^ 32 - 1 - (a + n))

abbrev pub eq_ℤ : ℤ → ℤ → Bool
eq_ℤ a b = leb_ℤ a b && leb_ℤ b a

module _ (e : Env) (depth : ℕ) where
  abbrev close_error : Client e → Client e
  close_error = inner_close e depth (pos client_connect_error)

  unfoldable pub output : List ℕ → Client e → Client e
  output bytes c = if is_some c.callbacks.output_cb then enqueue_out e (output_event bytes) c else c

  -- A message of KCP: its first byte is a control byte.
  unfoldable pub on_kcp_message : ℕ → List ℕ → Client e → Client e
  on_kcp_message cmd rest c =
      if cmd == control_disconnect
      then inner_close e depth (pos control_server_close) c
      else if ltb 0 (length rest)
      then output rest c
      else c

  -- The loop over `Recv`, with the last `recv_len` as its result. `while_s` ends it after 1000000
  -- passes; `fuel` stands for those that are left. After the last one `recv_len` is positive, which
  -- `finish_drain` takes as it takes 0.
  unfoldable pub drain : ℕ → Client e → ℤ × Client e
  drain zero c = (pos 0, c)
  drain (suc fuel) c =
      let (r, session) = KcpSession.recv e.lib max_pkg_size c.kcp_session in
      let c' = record c { kcp_session = session } in
      elim r [
        | failed code ↦ (code, c')
        | message [] ↦ (pos 0, c')
        | message (cmd ∷ rest) ↦ drain fuel (on_kcp_message cmd rest c')
      ]

  -- After the loop: a message that is too long for the buffer closes the client.
  unfoldable pub finish_drain : ℤ × Client e → ℤ × Client e
  finish_drain (recv_len, c) =
      if eq_ℤ recv_len (negsuc 2) then (pos 0, close_error c) else (pos 0, c)

  unfoldable pub input_to_kcp : ℕ → List ℕ → ℕ → Client e → ℤ × Client e
  input_to_kcp fuel msg cur_time c =
      let (ret, session) = KcpSession.input e.lib msg (cur_time % 2 ^ 32) c.kcp_session in
      let c' = record c { kcp_session = session } in
      if is_null c.kcp_session
      then (negsuc 0, close_error c)
      else if is_zero ret
      then finish_drain (drain fuel c')
      else (negsuc 0, close_error c')

  -- The rest of `CreateKCP` once the session has its control block.
  unfoldable pub start_kcp : ControlKcpInfo → Client e → Client e
  start_kcp info c =
      let (now, c') =
        now_ms e (record c { enable_udp = ltb_ℤ (pos 0) (signed32 info.enable_udp) }) in
      let (session, out) = KcpSession.update e.lib (now % 2 ^ 32) c'.kcp_session in
      deliver e (inner_close e depth) out (record c' { kcp_session = session })

  unfoldable pub create_kcp : ControlKcpInfo → Client e → Client e
  create_kcp info c =
      let (ret, session) = KcpSession.create_kcp e.lib info true c.enable_kcp_log c.kcp_session in
      let c' = record c { kcp_session = session } in if is_zero ret then start_kcp info c' else c'

  -- One frame's message. A negative length is handed to KCP as an empty message, which it refuses
  -- alike, and ends the process where a string is made of it.
  unfoldable pub on_unreliable : List ℕ → ℤ → Client e → Bool × Client e
  on_unreliable bytes data_len c =
      if is_some c.callbacks.output_cb && ltb_ℤ data_len (pos 0)
      then (false, record c { fault = some terminated })
      else (true, output (take (pos_part data_len) bytes) c)

  unfoldable pub on_kcp_info : List ℕ → ℤ → Client e → Bool × Client e
  on_kcp_info bytes data_len c =
      if leb_ℤ (pos kcp_info_size) data_len && is_null c.kcp_session
      then (true, create_kcp (decode_kcp_info bytes) c)
      else (false, close_error c)

  unfoldable pub on_disconnect : List ℕ → ℤ → Client e → Bool × Client e
  on_disconnect bytes data_len c =
      let reason = load32 0 bytes in
      if leb_ℤ (pos 4) data_len
      then (if reason == control_server_close
            || (reason == control_server_full || reason == control_flow_not_exist)
          then (false, inner_close e depth (pos reason) c)
          else (true, c))
      else (true, inner_close e depth (pos control_server_close) c)

  unfoldable pub on_sync_label : Client e → Client e
  on_sync_label c =
      if c.is_first_connect
      then connect_success e depth (record c { is_first_connect = false })
      else reconnect_success e depth c

  -- The handlers of `ReadStream`: whether the loop goes on behind the frame, and the state.
  unfoldable pub on_frame : ℕ → ℕ → ℕ → List ℕ → ℤ → Client e → Bool × Client e
  on_frame fuel cur_time cmd bytes data_len c =
      if cmd == control_ping
      then (if eq_ℤ data_len (pos cs_ping_size) then (true, c) else (false, close_error c))
      else if cmd == control_reliable_msg
      then (true, (input_to_kcp fuel (take (pos_part data_len) bytes) cur_time c).1)
      else if cmd == control_unreliable_msg
      then on_unreliable bytes data_len c
      else if cmd == control_kcp_info
      then on_kcp_info bytes data_len c
      else if cmd == control_disconnect
      then on_disconnect bytes data_len c
      else if cmd == control_sync_label
      then (true, on_sync_label c)
      else (true, c)

  unfoldable pub skip_frame : ℤ → Bool × Client e → Bool × Client e
  skip_frame pkg_len (true, c) =
      (true, record c { read_stream = Stream.skip pkg_len c.read_stream })
  skip_frame pkg_len (false, c) = (false, c)

  -- A head with its message, where the whole frame has come.
  unfoldable pub on_head : ℕ → ℕ → List ℕ → CsConnHead → Client e → Bool × Client e
  on_head fuel cur_time bytes head c =
      let pkg_len = signed32 (swap32 head.sec_pkg_len) in
      if ltb_ℤ (pos (length bytes)) pkg_len
      then (false, c)
      else skip_frame pkg_len (
          on_frame fuel cur_time head.cmd (drop cs_conn_head_size bytes)
            (minus pkg_len cs_conn_head_size) c)

  -- One round of the loop of `ReadStream`: whether there is a next one, and the state.
  unfoldable pub read_step : ℕ → ℕ → Client e → Bool × Client e
  read_step fuel cur_time c =
      let bytes = Stream.readable c.read_stream in
      let head = decode_head bytes in
      if ltb (Stream.len c.read_stream) cs_conn_head_size
      then (false, c)
      else on_head fuel cur_time bytes head (record c { flow = head.flow; magic = head.magic })

  unfoldable pub read_loop : ℕ → ℕ → ℕ → Client e → Client e
  read_loop kcp_fuel cur_time zero c = record c { fault = some exhausted }
  read_loop kcp_fuel cur_time (suc fuel) c =
      let (more, c') = read_step kcp_fuel cur_time c in
      let rest = read_loop kcp_fuel cur_time fuel c' in if more then rest else c'

  unfoldable pub receive_tcp : ℕ → ℕ → ℕ → Client e → Client e
  receive_tcp kcp_fuel fuel cur_time c =
      let (got, os') = recv_ex e.os c.tcp_sock recv_one_time_size c.os in
      let c' = record c { os = os' } in
      elim got [
        | none ↦ close_error c'
        | some [] ↦ close_error c'
        | some (b ∷ bytes) ↦ read_loop kcp_fuel cur_time fuel (record c' {
          read_stream =
              Stream.add_size (length (b ∷ bytes)) (Stream.write_end 0 (b ∷ bytes) c'.read_stream);
        })
      ]

  -- `OnTcpRead`. Where the stream has no room the client is closed, and the code goes on to
  -- receive all the same.
  unfoldable pub on_tcp_read : ℕ → ℕ → ℕ → Client e → Client e
  on_tcp_read kcp_fuel fuel cur_time c =
      let (ret, stream) = Stream.ensure_writable e.alloc (pos recv_one_time_size) c.read_stream in
      let c1 = record c { read_stream = stream } in
      receive_tcp kcp_fuel fuel cur_time (if is_zero ret then c1 else close_error c1)

  -- A datagram with a whole head.
  unfoldable pub on_datagram : ℕ → ℕ → List ℕ → Client e → Client e
  on_datagram kcp_fuel cur_time pkg c =
      let head = decode_udp_head pkg in
      let msg = drop cs_udp_conn_head_size pkg in
      if length pkg == 12 && head.flow == 0
      then c
      else if not (head.flow == c.flow)
      then c
      else if head.cmd == control_unreliable_msg
      then output msg c
      else if head.cmd == control_reliable_msg
      then (input_to_kcp kcp_fuel msg cur_time c).1
      else if head.cmd == control_disconnect
      then inner_close e depth (pos control_server_close) c
      else c

  unfoldable pub on_udp_read : ℕ → ℕ → Client e → Client e
  on_udp_read kcp_fuel cur_time c =
      let (got, os') = recvfrom_ex e.os c.udp_sock max_udp_pkg_len c.os in
      let c' = record c { os = os' } in
      if not (is_some c.udp_sock) then c else (elim got [
        | none ↦ if may_retry_udp (get_last_error e.os c'.os) then c' else close_error c'
        | some pkg ↦
            if leb cs_udp_conn_head_size (length pkg)
            then on_datagram kcp_fuel cur_time pkg c'
            else c'
      ])
