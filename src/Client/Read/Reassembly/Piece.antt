-- ===== src/Client/Read/Reassembly/Piece.antt =====
-- One piece of a stream of frames that comes to `OnTcpRead` of connclient/src/conn_client.cpp.
use defold_connclient.Prelude.{
  ℕ, ◌+◌, ◌≤◌, ◌<◌, ◌^◌, true, pos, is_zero, le→leb, ◌≡◌, refl, sym, ap, ap₂, ◌∙◌, subst, some,
  List, [], ◌∷◌, ◌++◌, length, arith,
}
use defold_connclient.Stream.{readable, ensure_writable, add_size, write_end, add_bytes}
use defold_connclient.Stream.Buffer.{
  IsValid, add_bytes-IsValid, readable-add_bytes, length-readable,
}
use defold_connclient.Stream.Room.{HasRoom, fits, ensure_writable_lem}
use defold_connclient.Stream.Tail.{write_one}
use defold_connclient.Os.{Fd}
use defold_connclient.SocketApi.{recv_ex}
use defold_connclient.Client.State.{Env, Client, Event}
use defold_connclient.Client.Read.{read_loop, receive_tcp, on_tcp_read}
use defold_connclient.Client.Read.Reassembly.{Reading}

module _ (e : Env) (depth fuel f flow magic : ℕ) (flow_small : flow < 2 ^ 32) (sock : Fd) where
  -- The client after a `recv` that gave these bytes.
  abbrev with_bytes : List ℕ → Client e → Client e
  with_bytes bytes c = record c {
    os = (e.os.recv c.tcp_sock 16384 c.os).1;
    read_stream = add_size (length bytes) (write_end 0 bytes c.read_stream);
  }

  receive_tcp-some :
      (b : ℕ) (chunk : List ℕ) (frames_left cur_time : ℕ) (c : Client e)
      → (e.os.recv c.tcp_sock 16384 c.os).0 ≡ some (b ∷ chunk)
      → receive_tcp e depth fuel frames_left cur_time c
        ≡ read_loop e depth fuel cur_time frames_left (with_bytes (b ∷ chunk) c)
  unfolding receive_tcp recv_ex
  receive_tcp-some b chunk frames_left cur_time c got = rw (got, receive_tcp) refl

  on_tcp_read_roomy :
      (frames_left cur_time : ℕ) (c : Client e)
      → is_zero (ensure_writable e.alloc (pos 16384) c.read_stream).0 ≡ true
      → on_tcp_read e depth fuel frames_left cur_time c
        ≡ receive_tcp e depth fuel frames_left cur_time
            (record c { read_stream = (ensure_writable e.alloc (pos 16384) c.read_stream).1 })
  unfolding on_tcp_read
  on_tcp_read_roomy frames_left cur_time c ok = rw ok refl

  -- A piece is put behind the bytes that are left, and the loop starts.
  pub on_tcp_read-Reading :
      (out : List Event) (tail chunk : List ℕ) (frames_left cur_time : ℕ) (s : e.os.State)
      (c : Client e)
      → length tail + 16384 ≤ 16777216
      → (e.os.recv sock 16384 s).0 ≡ some chunk
      → 0 < length chunk
      → Reading s sock f out tail c
      → (d : Client e) × (on_tcp_read e depth fuel frames_left cur_time c
          ≡ read_loop e depth fuel cur_time frames_left d)
        × Reading (e.os.recv sock 16384 s).1 sock f out (tail ++ chunk) d
  on_tcp_read-Reading out tail [] frames_left cur_time s c small got some_bytes r =
      absurd (omega (arith, some_bytes))
  on_tcp_read-Reading out tail (b ∷ chunk) frames_left cur_time s c small got some_bytes r = (
    ready,
    on_tcp_read_roomy frames_left cur_time c ok
        ∙ receive_tcp-some b chunk frames_left cur_time c1 there,
    record {
      system = ap₂ (λ fd state. (e.os.recv fd 16384 state).1) r.socket r.system;
      socket = r.socket;
      fine = r.fine;
      valid =
          subst IsValid (sym one) (add_bytes-IsValid c1.read_stream (b ∷ chunk) room.valid space);
      unread =
          ap readable one
          ∙ readable-add_bytes c1.read_stream (b ∷ chunk) room.valid space
          ∙ ap (λ bytes. bytes ++ b ∷ chunk) (room.same ∙ r.unread);
      events = r.events;
      set = r.set;
    },
  )
    where
      room : HasRoom c.read_stream 16384 (ensure_writable e.alloc (pos 16384) c.read_stream)
      room = ensure_writable_lem e.alloc c.read_stream 16384 r.valid (omega arith)

      enough : fits c.read_stream 16384 ≡ true
      enough =
          le→leb _ _
            (omega (arith, small, length-readable c.read_stream r.valid, ap length r.unread))

      code : (ensure_writable e.alloc (pos 16384) c.read_stream).0 ≡ pos 0
      code = room.code ∙ rw enough refl

      ok : is_zero (ensure_writable e.alloc (pos 16384) c.read_stream).0 ≡ true
      ok = ap is_zero code

      there : (e.os.recv c.tcp_sock 16384 c.os).0 ≡ some (b ∷ chunk)
      there = ap₂ (λ fd state. (e.os.recv fd 16384 state).0) r.socket r.system ∙ got

      c1 : Client e
      c1 = record c { read_stream = (ensure_writable e.alloc (pos 16384) c.read_stream).1 }

      space : c1.read_stream.size + length (b ∷ chunk) ≤ c1.read_stream.capacity
      space = omega (arith, room.room code, e.os.recv-le sock 16384 s (b ∷ chunk) got)

      ready : Client e
      ready = with_bytes (b ∷ chunk) c1

      one : ready.read_stream ≡ add_bytes (b ∷ chunk) c1.read_stream
      one = write_one c1.read_stream (b ∷ chunk) space
