-- ===== src/Client/Link/Receiving.antt =====
-- Receiving from the TCP socket in connclient/src/conn_client.cpp keeps a connection well formed.
use defold_connclient.Prelude.{
  ℕ, suc, subst, ◌+◌, ◌≤◌, ◌≡◌, refl, sym, ap, ◌∙◌, true, Option, none, some, inl, inr, List, [],
  ◌∷◌, length, is_some, is_zero, Bool-cases, Option-cases, pos, arith,
}
use defold_connclient.Stream
use defold_connclient.Stream.{Stream, Allocator, readable, len, skip, ensure_writable}
use defold_connclient.Client.Send.Framing.{is_zero→eq}
use defold_connclient.Client.Send.Closing.{inner_close-IsClosed}
use defold_connclient.Stream.Tail.{write_one}
use defold_connclient.Stream.Buffer.{IsValid, add_bytes-IsValid, length-readable}
use defold_connclient.Stream.Room.{HasRoom, ensure_writable_lem, IsCount}
use defold_connclient.Os.{RefusesNone}
use defold_connclient.SocketApi.{recv_ex}
use defold_connclient.Client.State.{Env, Client, ConnState, cs_logic_connected}
use defold_connclient.Client.Send.{inner_close}
use defold_connclient.Client.Read.{read_loop, receive_tcp, on_tcp_read}
use defold_connclient.Client.Link.{link, Holds}
use defold_connclient.Client.Link.WellFormed.{is_open, IsSound}
use defold_connclient.Client.Link.Tracked.{Walk, Tracked}
use defold_connclient.Client.Link.Entering.{inner_close-Tracked}
use defold_connclient.Client.Link.Reading.{read_loop-Tracked}

len-ensure :
    (a : Allocator) (s : Stream) (n : ℕ)
    → IsValid s
    → IsCount n
    → len (ensure_writable a (pos n) s).1 ≡ len s
len-ensure a s n v small =
    let r = ensure_writable_lem a s n v small in
    sym (length-readable _ r.valid) ∙ ap length r.same ∙ length-readable s v

module _ (e : Env) (w : Walk)
    (labels : (s : ConnState) → is_open s ≡ true → w.allowed s → w.allowed cs_logic_connected)
    (refuses : RefusesNone e.os) (depth fuel frames cur_time : ℕ) where
  -- What `recv` gives fits the room that `EnsureWritable` has made.
  received-Tracked :
      (c : Client e) (bytes : List ℕ)
      → is_open c.conn_state ≡ true
      → c.read_stream.size + length bytes ≤ c.read_stream.capacity
      → Holds (Tracked w) c
      → Holds (Tracked w) (record c {
        read_stream = Stream.add_size (length bytes) (Stream.write_end 0 bytes c.read_stream);
      })
  received-Tracked c bytes up room h =
      let s = h.holds.steady.sound in
      let l = h.holds.linked in
      record {
        holds = record {
          steady = record {
            sound = record {
              sent = s.sent;
              unread =
                  subst IsValid (sym (write_one c.read_stream bytes room))
                    (add_bytes-IsValid c.read_stream bytes s.unread room);
              sorted = s.sorted;
              few = s.few;
              count = s.count;
            };
            state = h.holds.steady.state;
            within = h.holds.steady.within;
          };
          linked = record { tcp = l.tcp; udp = l.udp; idle = λ shut. cc };
        };
      }

  -- Bytes only come on an open socket, and there is room for them.
  received_fits :
      (c : Client e) (bytes : List ℕ)
      → (is_some c.tcp_sock ≡ true → c.read_stream.size + 16384 ≤ c.read_stream.capacity)
      → Holds (Tracked w) c
      → (e.os.recv c.tcp_sock 16384 c.os).0 ≡ some bytes
      → (is_open c.conn_state ≡ true) × (c.read_stream.size + length bytes ≤ c.read_stream.capacity)
  received_fits c bytes room h got =
      let there : is_some c.tcp_sock ≡ true = elim (Option-cases c.tcp_sock) [
        | inl shut ↦ cc (refuses.recv_none 16384 c.os, got, shut)
        | inr (fd, at) ↦ rw at refl
      ] in
      (
        sym h.holds.linked.tcp ∙ there,
        omega (arith, room there, e.os.recv-le c.tcp_sock 16384 c.os bytes got),
      )

  receive_tcp-Tracked :
      (c : Client e)
      → (is_some c.tcp_sock ≡ true → c.read_stream.size + 16384 ≤ c.read_stream.capacity)
      → Holds (Tracked w) c
      → Holds (Tracked w) (receive_tcp e (suc depth) fuel frames cur_time c)
  unfolding receive_tcp recv_ex
  receive_tcp-Tracked c room h =
      by_answer (e.os.recv c.tcp_sock 16384 c.os).0 (λ bytes got. received_fits c bytes room h got)
    where
      c' : Client e
      c' = record c { os = (e.os.recv c.tcp_sock 16384 c.os).1 }

      k : Holds (Tracked w) c'
      k = record { holds = h.holds }

      shut : Holds (Tracked w) (inner_close e (suc depth) (pos 5) c')
      shut = inner_close-Tracked e w depth (pos 5) c' (record { holds = h.holds.steady })

      by_answer :
          (got : Option (List ℕ))
          → ((bytes : List ℕ)
              → got ≡ some bytes
              → (is_open c.conn_state ≡ true)
                × (c.read_stream.size + length bytes ≤ c.read_stream.capacity))
          → Holds (Tracked w) (elim got as (λ _. Client e) [
            | none ↦ inner_close e (suc depth) (pos 5) c'
            | some [] ↦ inner_close e (suc depth) (pos 5) c'
            | some (b ∷ bytes) ↦ read_loop e (suc depth) fuel cur_time frames (record c' {
              read_stream =
                  Stream.add_size
                    (length (b ∷ bytes))
                    (Stream.write_end 0 (b ∷ bytes) c'.read_stream);
            })
          ])
      by_answer none given = shut
      by_answer (some []) given = shut
      by_answer (some (b ∷ bytes)) given =
          read_loop-Tracked e w labels depth fuel cur_time frames _ (
            received-Tracked c' (b ∷ bytes) (given (b ∷ bytes) refl).0 (given (b ∷ bytes) refl).1 k)

  pub on_tcp_read-Tracked :
      (c : Client e)
      → Holds (Tracked w) c
      → Holds (Tracked w) (on_tcp_read e (suc depth) fuel frames cur_time c)
  unfolding on_tcp_read
  on_tcp_read-Tracked c h =
      elim (Bool-cases (is_zero (ensure_writable e.alloc (pos 16384) c.read_stream).0)) [
        | inl ok ↦
            rw (ok, on_tcp_read) (receive_tcp-Tracked c1 (λ t. room.room (is_zero→eq _ ok)) k)
        | inr full ↦
            rw (full, on_tcp_read)
              (receive_tcp-Tracked _
                (λ t. cc (t, ap is_some (inner_close-IsClosed e depth (pos 5) c1).tcp_sock))
                (inner_close-Tracked e w depth (pos 5) c1 (record { holds = k.holds.steady })))
      ]
    where
      s : IsSound (link c)
      s = h.holds.steady.sound

      room : HasRoom c.read_stream 16384 (ensure_writable e.alloc (pos 16384) c.read_stream)
      room = ensure_writable_lem e.alloc c.read_stream 16384 s.unread (omega arith)

      c1 : Client e
      c1 = record c { read_stream = (ensure_writable e.alloc (pos 16384) c.read_stream).1 }

      k : Holds (Tracked w) c1
      k = record {
        holds = record {
          steady = record {
            sound = record {
              sent = s.sent;
              unread = room.valid;
              sorted = s.sorted;
              few = s.few;
              count = s.count;
            };
            state = h.holds.steady.state;
            within = h.holds.steady.within;
          };
          linked = record {
            tcp = h.holds.linked.tcp;
            udp = h.holds.linked.udp;
            idle = λ shut.
                len-ensure e.alloc c.read_stream 16384 s.unread (omega arith)
                ∙ h.holds.linked.idle shut;
          };
        };
      }
