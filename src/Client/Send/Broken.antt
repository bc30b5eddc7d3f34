-- ===== src/Client/Send/Broken.antt =====
-- Sends on a socket that the peer has closed, in connclient/src/conn_client.cpp.
use defold_connclient.Prelude.{
  ℕ, zero, suc, ◌+◌, ◌≤◌, ◌<◌, ◌≡◌, refl, sym, ap, ◌∙◌, none, List, length, is_zero, lt→leb, ℤ, pos,
  negsuc, arith, length-append, inl, inr, Bool-cases,
}
use defold_connclient.Stream.{Stream, len, readable, ensure_writable}
use defold_connclient.Stream.Buffer.{IsValid, length-readable}
use defold_connclient.Stream.Room.{ensure_writable_lem, IsCount}
use defold_connclient.Os.{Os, RefusesNone, Fd, other}
use defold_connclient.SocketApi.{send_ex, get_last_error}
use defold_connclient.Wire.RoundTrip.{length-encode_head}
use defold_connclient.Wire.{encode_head, client_connect_error}
use defold_connclient.Client.State.{Env, Client}
use defold_connclient.Client.Send.{Close, send_tcp_buf, on_tcp_write, after_tcp_send, write_frame}
use defold_connclient.Client.Send.Framing.{frame, frame_head, write_frame_lem, is_zero→eq}

-- Every send on the descriptor fails, and not because it would block.
pub record Broken (os : Os) (fd : Fd) : Type 0 where
  pub send_fails : (bytes : List ℕ) (s : os.State) → (os.send fd bytes s).0 ≡ negsuc 0
  pub errno : (bytes : List ℕ) (s : os.State) → os.errno (os.send fd bytes s).1 ≡ other

pub RefusesNone-Broken : (os : Os) → RefusesNone os → Broken os none
RefusesNone-Broken os r = record { send_fails = r.send_none; errno = r.errno_none }

module _ (e : Env) where
  after_send_broken :
      (close : Close e) (n : ℕ) (r : ℤ) (c : Client e)
      → r ≡ negsuc 0
      → e.os.errno c.os ≡ other
      → after_tcp_send e close n r c ≡ close (pos client_connect_error) c
  unfolding after_tcp_send get_last_error
  after_send_broken close n (negsuc zero) c failed bad = rw bad refl
  after_send_broken close n (negsuc (suc k)) c failed bad = rw bad refl
  after_send_broken close n (pos k) c failed bad = cc

  on_tcp_write-Broken :
      (fd : Fd) (broken : Broken e.os fd) (close : Close e) (c : Client e)
      → c.tcp_sock ≡ fd
      → 0 < len c.write_stream
      → on_tcp_write e close c
        ≡ close
            (pos client_connect_error)
            (record c { os = (e.os.send fd (readable c.write_stream) c.os).1 })
  unfolding on_tcp_write send_ex
  on_tcp_write-Broken fd broken close c at unsent = rw (lt→leb _ 0 unsent) (
      ap
        (λ sock.
          after_tcp_send e close (len c.write_stream)
            (e.os.send sock (readable c.write_stream) c.os).0
            (record c { os = (e.os.send sock (readable c.write_stream) c.os).1 }))
        at
      ∙ after_send_broken close _ _ _ (broken.send_fails _ _) (broken.errno _ _))

  -- A frame that is written leaves something to send.
  write_frame_unsent :
      (cmd : ℕ) (msg : List ℕ) (c : Client e)
      → IsValid c.write_stream
      → c.write_stream.size + (10 + length msg) ≤ c.write_stream.capacity
      → 0 < len (write_frame e cmd msg c).write_stream
  unfolding frame frame_head
  write_frame_unsent cmd msg c v room =
      let written = write_frame_lem e cmd msg c v room in
      omega (
        arith,
        sym (length-readable (write_frame e cmd msg c).write_stream written.0)
            ∙ ap length written.1,
        length-append (readable c.write_stream) (frame c.flow c.magic cmd msg),
        length-append (encode_head (frame_head c.flow c.magic cmd msg)) msg,
        length-encode_head (frame_head c.flow c.magic cmd msg),
      )

  -- `SendTCPBuf` on such a socket ends in a close for CLIENT_CONNECT_ERROR, of a client that has the
  -- same members but for its system, which comes from a send or is as it was, and its output stream.
  pub send_tcp_buf-Broken :
      (fd : Fd) (broken : Broken e.os fd) (P : e.os.State → Type 0) (close : Close e) (cmd : ℕ)
      (msg : List ℕ) (c : Client e)
      → c.tcp_sock ≡ fd
      → IsValid c.write_stream
      → IsCount (10 + length msg)
      → P c.os
      → ((bytes : List ℕ) → P (e.os.send fd bytes c.os).1)
      → (os : e.os.State) × (ws : Stream) × ((send_tcp_buf e close cmd msg c).1
          ≡ close (pos client_connect_error) (record c { os = os; write_stream = ws }))
        × P os
  unfolding send_tcp_buf write_frame
  send_tcp_buf-Broken fd broken P close cmd msg c at v small now sent =
      elim (Bool-cases
        (is_zero (ensure_writable e.alloc (pos (10 + length msg)) c.write_stream).0)) [
          | inr full ↦ (c.os, roomy.write_stream, rw full refl, now)
          | inl ok ↦ (
            (e.os.send fd (readable written.write_stream) c.os).1,
            written.write_stream,
            rw ok (
                on_tcp_write-Broken fd broken close written at (
                  let r = ensure_writable_lem e.alloc c.write_stream (10 + length msg) v small in
                  write_frame_unsent cmd msg roomy r.valid (r.room (is_zero→eq _ ok)))),
            sent (readable written.write_stream),
          )
        ]
    where
      roomy : Client e
      roomy = record c {
        write_stream = (ensure_writable e.alloc (pos (10 + length msg)) c.write_stream).1;
      }

      written : Client e
      written = write_frame e cmd msg roomy
