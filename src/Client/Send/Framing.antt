-- ===== src/Client/Send/Framing.antt =====
-- The bytes that `SendTCPBuf` of connclient/src/conn_client.cpp puts into the stream.
use defold_connclient.Prelude.{
  ℕ, zero, suc, true, negsuc, is_zero, ◌+◌, ◌%◌, ◌≤◌, ◌≡◌, refl, sym, ap, subst, ◌∙◌, List, ◌++◌,
  length, ℤ, pos, arith, length-append,
}
use defold_connclient.Stream
use defold_connclient.Stream.{Stream, readable, len, add_bytes}
use defold_connclient.Stream.Buffer.{IsValid, readable-add_bytes, add_bytes-IsValid}
use defold_connclient.Stream.Room.{ensure_writable_lem, IsCount}
use defold_connclient.Stream.Tail.{write_both}
use defold_connclient.Wire.{CsConnHead, encode_head, swap32}
use defold_connclient.Wire.RoundTrip.{length-encode_head}
use defold_connclient.Client.State.{Env, Client}
use defold_connclient.Client.Send.{write_frame}

-- The frame of a message, as the protocol states it: the length of all of it in network order, the
-- flow, the low byte of the magic number, the command, and the message.
unfoldable pub frame_head : ℕ → ℕ → ℕ → List ℕ → CsConnHead
frame_head flow magic cmd msg = record {
  sec_pkg_len = swap32 (10 + length msg);
  flow = flow;
  magic = magic % 256;
  cmd = cmd;
}

unfoldable pub frame : ℕ → ℕ → ℕ → List ℕ → List ℕ
unfolding frame_head
frame flow magic cmd msg = encode_head (frame_head flow magic cmd msg) ++ msg

encode_head-magic :
    (flow magic cmd : ℕ) (msg : List ℕ)
    → encode_head
        (record { sec_pkg_len = swap32 (10 + length msg); flow = flow; magic = magic; cmd = cmd })
      ≡ encode_head (frame_head flow magic cmd msg)
unfolding encode_head frame_head
encode_head-magic flow magic cmd msg = ground arith

write_both_head :
    (head : CsConnHead) (msg : List ℕ) (s : Stream)
    → IsValid s
    → s.size + (10 + length msg) ≤ s.capacity
    → Stream.add_size
        (10 + length msg)
        (Stream.write_end 10 msg (Stream.write_end 0 (encode_head head) s))
      ≡ add_bytes (encode_head head ++ msg) s
write_both_head head msg s v fits =
    subst
      (λ n.
        Stream.add_size (n + length msg)
          (Stream.write_end n msg (Stream.write_end 0 (encode_head head) s))
        ≡ add_bytes (encode_head head ++ msg) s)
      (length-encode_head head)
      (write_both s (encode_head head) msg v (omega (arith, length-encode_head head)))

module _ (e : Env) where
  -- With the room that `EnsureWritable` makes, a frame is written whole behind the unsent bytes.
  pub write_frame_lem :
      (cmd : ℕ) (msg : List ℕ) (c : Client e)
      → IsValid c.write_stream
      → c.write_stream.size + (10 + length msg) ≤ c.write_stream.capacity
      → IsValid (write_frame e cmd msg c).write_stream
        × (readable (write_frame e cmd msg c).write_stream
            ≡ readable c.write_stream ++ frame c.flow c.magic cmd msg)
  unfolding write_frame frame
  write_frame_lem cmd msg c v fits =
      let both = write_both_head head msg c.write_stream v fits in
      (
        subst IsValid (sym both)
            (add_bytes-IsValid c.write_stream (encode_head head ++ msg) v room),
        ap readable both
            ∙ readable-add_bytes c.write_stream (encode_head head ++ msg) v room
            ∙ ap (λ h. readable c.write_stream ++ (h ++ msg))
                (encode_head-magic c.flow c.magic cmd msg),
      )
    where
      head : CsConnHead
      head = record {
        sec_pkg_len = swap32 (10 + length msg);
        flow = c.flow;
        magic = c.magic;
        cmd = cmd;
      }

      room : c.write_stream.size + length (encode_head head ++ msg) ≤ c.write_stream.capacity
      room = omega (arith, length-append (encode_head head) msg, length-encode_head head)

pub is_zero→eq : (r : ℤ) → is_zero r ≡ true → r ≡ pos 0
is_zero→eq (pos zero) h = refl
is_zero→eq (pos (suc n)) h = cc
is_zero→eq (negsuc n) h = cc

module _ (e : Env) where
  -- A frame behind the room that `EnsureWritable` has made keeps the stream's invariant.
  pub written-IsValid :
      (cmd : ℕ) (msg : List ℕ) (c : Client e)
      → IsCount (10 + length msg)
      → IsValid c.write_stream
      → let (ret, stream) = Stream.ensure_writable e.alloc (pos (10 + length msg)) c.write_stream in
        is_zero ret ≡ true
        → IsValid (write_frame e cmd msg (record c { write_stream = stream })).write_stream
  written-IsValid cmd msg c small v ok =
      let r = ensure_writable_lem e.alloc c.write_stream (10 + length msg) v small in
      (write_frame_lem e cmd msg
        (record c {
          write_stream = (Stream.ensure_writable e.alloc (pos (10 + length msg)) c.write_stream).1;
        })
        r.valid (r.room (is_zero→eq _ ok))).0
