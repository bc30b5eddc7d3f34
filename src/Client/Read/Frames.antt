-- ===== src/Client/Read/Frames.antt =====
-- Frames over TCP: what `SendTCPBuf` of connclient/src/conn_client.cpp writes, `ReadStream` reads.
use defold_connclient.Prelude.{
  ℕ, ◌+◌, ◌%◌, ◌^◌, ◌≤◌, ◌<◌, ◌≡◌, refl, sym, ap, ap₂, ◌∙◌, Bool, true, false, List, [], ◌++◌,
  length, drop, ltb_ℤ, le→ltb, lt→ltb, if◌then◌else◌, ℤ, pos, signed32, arith, append_assoc,
  length-append, drop-length-append,
}
use defold_connclient.Stream.{Stream, readable, len, skip}
use defold_connclient.Stream.Buffer.{IsValid, length-readable, readable-skip}
use defold_connclient.Wire.{CsConnHead, encode_head, decode_head, swap32}
use defold_connclient.Wire.RoundTrip.{
  InRange, decode_head-encode_head, length-encode_head, swap32-swap32, swap32-lt,
}
use defold_connclient.Client.State.{Env, Client}
use defold_connclient.Client.Send.{write_frame}
use defold_connclient.Client.Send.Framing.{frame, frame_head, write_frame_lem}
use defold_connclient.Client.Read.{read_step, on_head, on_frame, skip_frame, minus}

pub frame_head-InRange :
    (flow magic cmd : ℕ) (msg : List ℕ)
    → flow < 2 ^ 32
    → cmd < 256
    → InRange (frame_head flow magic cmd msg)
unfolding frame_head
frame_head-InRange flow magic cmd msg f k = record {
  sec_pkg_len = swap32-lt (10 + length msg);
  flow = f;
  magic = omega arith;
  cmd = k;
}

pub signed32_small : (n : ℕ) → n < 2 ^ 31 → signed32 (swap32 (swap32 n)) ≡ pos n
signed32_small n h = ap signed32 (swap32-swap32 n (omega arith)) ∙ rw (lt→ltb n (2 ^ 31) h)

minus_head : (n : ℕ) → minus (pos (10 + n)) 10 ≡ pos n
minus_head n = ground arith

drop_head : (h : CsConnHead) (bytes : List ℕ) → drop 10 (encode_head h ++ bytes) ≡ bytes
drop_head h bytes =
    ap (λ n. drop n (encode_head h ++ bytes)) (sym (length-encode_head h))
    ∙ drop-length-append (encode_head h) bytes

module _ (e : Env) (depth fuel cur_time : ℕ) where
  -- The rest of a round, once the length of the frame is read.
  on_frame_of : List ℕ → ℕ → Client e → ℤ → Bool × Client e
  on_frame_of bytes cmd c pkg_len =
      if ltb_ℤ (pos (length bytes)) pkg_len
      then (false, c)
      else skip_frame e depth pkg_len
          (on_frame e depth fuel cur_time cmd (drop 10 bytes) (minus pkg_len 10) c)

  on_head_frame :
      (h : CsConnHead) (msg rest : List ℕ) (c : Client e)
      → h.sec_pkg_len ≡ swap32 (10 + length msg)
      → 10 + length msg < 2 ^ 31
      → on_head e depth fuel cur_time (encode_head h ++ (msg ++ rest)) h c
        ≡ skip_frame e depth
            (pos (10 + length msg))
            (on_frame e depth fuel cur_time h.cmd (msg ++ rest) (pos (length msg)) c)
  unfolding on_head on_frame_of
  on_head_frame h msg rest c sec short =
      ap (on_frame_of (encode_head h ++ (msg ++ rest)) h.cmd c)
        (ap (λ w. signed32 (swap32 w)) sec ∙ signed32_small (10 + length msg) short)
      ∙ rw whole (
          ap₂
            (λ bytes n.
              skip_frame e depth (pos (10 + length msg))
                (on_frame e depth fuel cur_time h.cmd bytes n c))
            (drop_head h (msg ++ rest)) (minus_head (length msg)))
    where
      whole : ltb_ℤ (pos (length (encode_head h ++ (msg ++ rest)))) (pos (10 + length msg)) ≡ false
      whole = le→ltb _ _ (
          omega (
            arith,
            length-append (encode_head h) (msg ++ rest),
            length-append msg rest,
            length-encode_head h,
          ))

module _ (e : Env) (depth : ℕ) where
  -- `ReadStream` on unread bytes that begin with a frame hands on exactly its command, its message
  -- and the message's length, takes over flow and magic, and skips exactly the frame. The frame is
  -- shorter than 2 ^ 31, the command a byte, the flow a number of 32 bits.
  pub read_step-frame :
      (fuel cur_time flow magic cmd : ℕ) (msg rest : List ℕ) (c : Client e)
      → IsValid c.read_stream
      → readable c.read_stream ≡ frame flow magic cmd msg ++ rest
      → 10 + length msg < 2 ^ 31
      → flow < 2 ^ 32
      → cmd < 256
      → read_step e depth fuel cur_time c
        ≡ skip_frame e depth (pos (10 + length msg)) (
            on_frame e depth fuel cur_time cmd
              (msg ++ rest)
              (pos (length msg))
              (record c { flow = flow; magic = magic % 256 }))
  unfolding read_step frame
  read_step-frame fuel cur_time flow magic cmd msg rest c v shape short f k =
      rw (le→ltb (len c.read_stream) 10 enough, read_step)
        (ap₂
            (λ bytes h.
              on_head e depth fuel cur_time bytes h (record c { flow = h.flow; magic = h.magic }))
            bytes_eq (ap decode_head bytes_eq ∙ decoded)
          ∙ unfold frame_head in on_head_frame e depth fuel cur_time head msg rest _ refl short)
    where
      head : CsConnHead
      head = frame_head flow magic cmd msg

      bytes_eq : readable c.read_stream ≡ encode_head head ++ (msg ++ rest)
      bytes_eq = shape ∙ append_assoc (encode_head head) msg rest

      decoded : decode_head (encode_head head ++ (msg ++ rest)) ≡ head
      decoded =
          decode_head-encode_head head (msg ++ rest) (frame_head-InRange flow magic cmd msg f k)

      enough : 10 ≤ len c.read_stream
      enough = omega (
        arith,
        length-readable c.read_stream v,
        ap length bytes_eq,
        length-append (encode_head head) (msg ++ rest),
        length-encode_head head,
      )

  -- Where the handler of the frame goes on, the frame is skipped, and that is all.
  skip_frame_taken :
      (n : ℕ) (s : Stream) (r : Bool × Client e)
      → r.0 ≡ true
      → r.1.read_stream ≡ s
      → let t = skip_frame e depth (pos n) r in
        (t.0 ≡ true) × (t.1.read_stream ≡ skip (pos n) s) × (record t.1 { read_stream = s } ≡ r.1)
  unfolding skip_frame
  skip_frame_taken n s (true, c) go same =
      (refl, ap (skip (pos n)) same, ap (λ (x : Stream). record c { read_stream = x }) (sym same))
  skip_frame_taken n s (false, c) go same = absurd cc

  -- What the handler of the other end makes of the frame.
  abbrev pub on_frame_sent : ℕ → ℕ → ℕ → List ℕ → List ℕ → Client e → Client e → Bool × Client e
  on_frame_sent fuel cur_time cmd msg rest c d =
      on_frame e depth fuel cur_time cmd (msg ++ rest) (pos (length msg))
        (record d { flow = c.flow; magic = c.magic % 256 })

  drop-frame :
      (flow magic cmd : ℕ) (msg rest : List ℕ)
      → drop (10 + length msg) (frame flow magic cmd msg ++ rest) ≡ rest
  unfolding frame
  drop-frame flow magic cmd msg rest =
      let whole = encode_head (frame_head flow magic cmd msg) ++ msg in
      ap (λ n. drop n (whole ++ rest))
        (omega (
          arith,
          length-append (encode_head (frame_head flow magic cmd msg)) msg,
          length-encode_head (frame_head flow magic cmd msg),
        ))
      ∙ drop-length-append whole rest

  -- A frame written by one end into a stream with room and nothing unsent, and received by the other
  -- end in front of any bytes, where the handler of its command goes on and leaves the stream alone:
  -- the loop goes on, exactly the bytes behind the frame are left to read, and all else is as the
  -- handler makes it, called with the command, the message and the message's length, once flow and
  -- the low byte of the magic number are taken over from the sender. The command is a byte, the flow
  -- a number of 32 bits.
  pub write_frame-read_step :
      (fuel cur_time cmd : ℕ) (msg rest : List ℕ) (c d : Client e)
      → IsValid c.write_stream
      → c.write_stream.size + (10 + length msg) ≤ c.write_stream.capacity
      → readable c.write_stream ≡ []
      → IsValid d.read_stream
      → readable d.read_stream ≡ readable (write_frame e cmd msg c).write_stream ++ rest
      → c.flow < 2 ^ 32
      → cmd < 256
      → let handled = on_frame_sent fuel cur_time cmd msg rest c d in
        handled.0 ≡ true
        → handled.1.read_stream ≡ d.read_stream
        → let r = read_step e depth fuel cur_time d in
          (r.0 ≡ true)
          × (readable r.1.read_stream ≡ rest)
          × (record r.1 { read_stream = d.read_stream } ≡ handled.1)
  write_frame-read_step fuel cur_time cmd msg rest c d v fits unsent w shape f k go same =
      let there : readable d.read_stream ≡ frame c.flow c.magic cmd msg ++ rest =
        shape
        ∙ ap (λ bytes. bytes ++ rest)
            ((write_frame_lem e cmd msg c v fits).1
              ∙ ap (λ bytes. bytes ++ frame c.flow c.magic cmd msg) unsent) in
      let read =
        read_step-frame fuel cur_time c.flow c.magic cmd msg rest d w there
          (omega (arith, v.bounded)) f k in
      let taken =
        skip_frame_taken (10 + length msg) d.read_stream
          (on_frame_sent fuel cur_time cmd msg rest c d) go same in
      (
        ap (λ (r : Bool × Client e). r.0) read ∙ taken.0,
        ap (λ (r : Bool × Client e). readable r.1.read_stream) read
            ∙ ap readable taken.1
            ∙ readable-skip d.read_stream (10 + length msg) w
            ∙ ap (drop (10 + length msg)) there
            ∙ drop-frame c.flow c.magic cmd msg rest,
        ap (λ (r : Bool × Client e). record r.1 { read_stream = d.read_stream }) read ∙ taken.2,
      )
