-- ===== src/Client/Send/Keeps.antt =====
-- What the sends of connclient/src/conn_client.cpp keep: a property that no store into the socket
-- state, the output stream or the write flag touches, and that the close keeps.
use defold_connclient.KcpSession.{Datagram}
use defold_connclient.Prelude.{
  ℕ, suc, ◌+◌, is_zero, Bool, true, List, [], ◌∷◌, inl, inr, length, ltb, leb_ℤ, is_some, not, ◌&&◌,
  if◌then◌else◌, ℤ, pos, negsuc, Bool-cases, if_elim, if_elim_snd, arith,
}
use defold_connclient.Stream.{Stream, ensure_writable}
use defold_connclient.Stream.Buffer.{IsValid, skip-IsValid}
use defold_connclient.Stream.Room.{ensure_writable_lem, IsCount}
use defold_connclient.Client.Send.Framing.{written-IsValid}
use defold_connclient.Wire.{control_reliable_msg, client_connect_error}
use defold_connclient.SocketApi.{get_last_error}
use defold_connclient.Client.State.{Env, Client}
use defold_connclient.Client.Send.{
  Close, after_tcp_send, on_tcp_write, write_frame, send_tcp_buf, after_udp_send, udp_write,
  send_udp_buf, kcp_output, deliver, may_retry_udp,
}

-- `P` survives what a send does itself.
pub record Keeps {ℓ} (e : Env) (P : Client e → Type ℓ) (close : Close e) : Type ℓ where
  pub by_close : (reason : ℤ) (c : Client e) → P c → P (close reason c)
  pub by_io :
      (os : e.os.State) (ws : Stream) (writable : Bool) (c : Client e)
      → (IsValid c.write_stream → IsValid ws)
      → P c
      → P (record c { os = os; write_stream = ws; tcp_writable = writable })

module _ {ℓ} (e : Env) (P : Client e → Type ℓ) (close : Close e) (k : Keeps e P close) where
  failed_send_keeps :
      (retry : Bool) (c : Client e)
      → P c
      → P (if retry then record c { tcp_writable = true } else close (pos client_connect_error) c)
  failed_send_keeps retry c p =
      if_elim P retry _ _ (k.by_io c.os c.write_stream true c (λ v. v) p) (k.by_close _ c p)

  after_tcp_send_keeps : (n : ℕ) (r : ℤ) (c : Client e) → P c → P (after_tcp_send e close n r c)
  unfolding after_tcp_send
  after_tcp_send_keeps n (pos (suc m)) c p =
      if_elim P (ltb (suc m) n) _ _
        (k.by_io c.os _ true c (λ v. skip-IsValid c.write_stream (pos (suc m)) v) p)
        (k.by_io c.os _ c.tcp_writable c (λ v. skip-IsValid c.write_stream (pos (suc m)) v) p)
  after_tcp_send_keeps n _ c p = failed_send_keeps _ c p

  pub on_tcp_write_keeps : (c : Client e) → P c → P (on_tcp_write e close c)
  unfolding on_tcp_write
  on_tcp_write_keeps c p =
      if_elim P _ _ _ p
        (after_tcp_send_keeps _ _ _ (k.by_io _ c.write_stream c.tcp_writable c (λ v. v) p))

  pub send_tcp_buf_keeps :
      (cmd : ℕ) (msg : List ℕ) (c : Client e)
      → IsCount (10 + length msg)
      → P c
      → P (send_tcp_buf e close cmd msg c).1
  unfolding send_tcp_buf write_frame
  send_tcp_buf_keeps cmd msg c small p = elim (Bool-cases (is_zero room.0)) [
    | inl b ↦
        rw (b, send_tcp_buf)
          (on_tcp_write_keeps _
            (k.by_io c.os _ c.tcp_writable c (λ v. written-IsValid e cmd msg c small v b) p))
    | inr b ↦
        rw (b, send_tcp_buf)
          (k.by_close _ _ (
            k.by_io c.os _ c.tcp_writable c
              (λ v. (ensure_writable_lem e.alloc c.write_stream (10 + length msg) v small).valid)
              p))
  ]
    where
      room : ℤ × Stream
      room = ensure_writable e.alloc (pos (10 + length msg)) c.write_stream

  after_udp_send_keeps : (n : ℕ) (r : ℤ) (c : Client e) → P c → P (after_udp_send e close n r c).1
  unfolding after_udp_send
  after_udp_send_keeps n r c p =
      if_elim_snd {A = ℤ} P (leb_ℤ r (pos 0) && not (may_retry_udp (get_last_error e.os c.os)))
        refused (if leb_ℤ r (pos n) && leb_ℤ (pos n) r then (r, c) else refused) (k.by_close _ c p)
        (if_elim_snd {A = ℤ} P (leb_ℤ r (pos n) && leb_ℤ (pos n) r) (r, c) refused p
          (k.by_close _ c p))
    where
      refused : ℤ × Client e
      refused = (negsuc 0, close (pos client_connect_error) c)

  pub udp_write_keeps : (pkg : List ℕ) (c : Client e) → P c → P (udp_write e close pkg c).1
  unfolding udp_write
  udp_write_keeps pkg c p =
      after_udp_send_keeps _ _ _ (k.by_io _ c.write_stream c.tcp_writable c (λ v. v) p)

  pub send_udp_buf_keeps :
      (cmd : ℕ) (msg : List ℕ) (c : Client e) → P c → P (send_udp_buf e close cmd msg c).1
  unfolding send_udp_buf
  send_udp_buf_keeps cmd msg c p = elim (Bool-cases (is_some c.udp_sock)) [
    | inr b ↦ rw (b, send_udp_buf) p
    | inl b ↦ elim (Bool-cases (ltb 2042 (length msg))) [
      | inl l ↦ rw (b, send_udp_buf, l) p
      | inr l ↦ rw (b, send_udp_buf, l) (udp_write_keeps _ c p)
    ]
  ]

  kcp_output_keeps : (buf : Datagram) (c : Client e) → P c → P (kcp_output e close buf c)
  unfolding kcp_output
  kcp_output_keeps buf c p =
      if_elim P c.enable_udp _ _ (send_udp_buf_keeps control_reliable_msg buf.bytes c p)
        (send_tcp_buf_keeps control_reliable_msg buf.bytes c (omega (arith, buf.bytes-le)) p)

  pub deliver_keeps : (bufs : List Datagram) (c : Client e) → P c → P (deliver e close bufs c)
  unfolding deliver
  deliver_keeps [] c p = p
  deliver_keeps (buf ∷ rest) c p = deliver_keeps rest _ (kcp_output_keeps buf c p)
