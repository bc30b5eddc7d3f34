-- ===== src/Client/Read/Reassembly.antt =====
-- Messages over TCP in connclient/src/conn_client.cpp: however the stream of frames is cut into
-- pieces, `ReadStream` puts it together again.
pub mod Parts
pub mod Piece
pub mod Chunks
use defold_connclient.Prelude.{
  ℕ, zero, suc, ◌+◌, ◌≤◌, ◌<◌, ◌%◌, ◌^◌, ◌≡◌, refl, sym, ap, ◌∙◌, subst, Bool, true, false, some,
  none, Option, List, [], ◌∷◌, ◌++◌, map, length, drop, take, is_some, ltb_ℤ, ℤ, pos, arith,
  append_assoc, append-nil, length-append, ◌-◌, lt→ltb, ltb, tests, Bool-cases, inl, inr, signed32,
  take-length-append, drop-length-append, take-append_left, take_all, if◌then◌else◌,
}
use defold_connclient.Stream.{Stream, readable, len, skip}
use defold_connclient.Stream.Buffer.{IsValid, readable-skip, skip-IsValid, length-readable}
use defold_connclient.Os.{Fd}
use defold_connclient.Wire.{CsConnHead, encode_head, decode_head, swap32}
use defold_connclient.Wire.RoundTrip.{length-encode_head, decode_head-encode_head}
use defold_connclient.Client.State.{Env, Client, ConnClient, Callbacks, Event, output_event}
use defold_connclient.Client.Send.{enqueue_out}
use defold_connclient.Client.Send.Framing.{frame, frame_head}
use defold_connclient.Client.Read.{
  read_step, on_head, read_loop, on_frame, on_unreliable, output, skip_frame,
}
use defold_connclient.Client.Read.Frames.{read_step-frame, frame_head-InRange, signed32_small}

-- A client on a socket, at a state of the system, that has put out these events, with these bytes
-- left to read.
pub record Reading {O K : Type 0} (s : O) (sock : Fd) (f : ℕ) (out : List Event) (bytes : List ℕ)
    (c : ConnClient O K) : Type 0 where
  pub system : c.os ≡ s
  pub socket : c.tcp_sock ≡ sock
  pub fine : c.fault ≡ none
  pub valid : IsValid c.read_stream
  pub unread : readable c.read_stream ≡ bytes
  pub events : c.out_queue ≡ out
  pub set : c.callbacks.output_cb ≡ some f

-- The frames of messages that a server sends without KCP.
abbrev pub frames : ℕ → ℕ → List (List ℕ) → List ℕ
frames flow magic [] = []
frames flow magic (msg ∷ msgs) = frame flow magic 1 msg ++ frames flow magic msgs

-- A beginning of a frame that is not all of it.
abbrev pub IsPartial : ℕ → ℕ → List ℕ → Type 0
IsPartial flow magic tail =
    (msg : List ℕ) × (more : List ℕ) × (frame flow magic 1 msg ≡ tail ++ more)
    × (0 < length more)
    × (10 + length msg ≤ 16760832)

-- Messages whose frames leave room for the bytes of one `recv` in a stream of 16 MiB.
abbrev pub AreShort : List (List ℕ) → Type 0
AreShort [] = Unit {0}
AreShort (msg ∷ msgs) = (10 + length msg ≤ 16760832) × AreShort msgs

pub length-frame :
    (flow magic : ℕ) (msg : List ℕ) → length (frame flow magic 1 msg) ≡ 10 + length msg
unfolding frame
length-frame flow magic msg =
    omega (arith, length-append _ msg, length-encode_head (frame_head flow magic 1 msg))

drop-frame :
    (flow magic : ℕ) (msg rest : List ℕ)
    → drop (10 + length msg) (frame flow magic 1 msg ++ rest) ≡ rest
drop-frame flow magic msg rest =
    ap (λ n. drop n (frame flow magic 1 msg ++ rest)) (sym (length-frame flow magic msg))
    ∙ drop-length-append (frame flow magic 1 msg) rest

module _ (e : Env) (depth fuel cur_time f flow magic : ℕ) (flow_small : flow < 2 ^ 32)
    (s : e.os.State) (sock : Fd) where
  on_frame_unreliable :
      (msg rest : List ℕ) (c : Client e)
      → c.callbacks.output_cb ≡ some f
      → on_frame e depth fuel cur_time 1 (msg ++ rest) (pos (length msg)) c
        ≡ (true, enqueue_out e (output_event msg) c)
  unfolding on_frame on_unreliable output
  on_frame_unreliable msg rest c set =
      let whole : take (length msg) (msg ++ rest) ≡ msg =
        take-append_left (length msg) msg rest (omega arith)
        ∙ take_all (length msg) msg (omega arith) in
      ground (arith, ap is_some set, whole)

  -- A round of the loop at a whole frame.
  record Takes (out : List Event) (bytes : List ℕ) (r : Bool × Client e) : Type 0 where
    more : r.0 ≡ true
    state : Reading s sock f out bytes r.1

  read_step-Takes :
      (out : List Event) (msg rest : List ℕ) (c : Client e)
      → 10 + length msg ≤ 16760832
      → Reading s sock f out (frame flow magic 1 msg ++ rest) c
      → Takes (out ++ output_event msg ∷ []) rest (read_step e depth fuel cur_time c)
  unfolding skip_frame enqueue_out
  read_step-Takes out msg rest c small r =
      let start : Client e = record c { flow = flow; magic = magic % 256 } in
      subst (Takes (out ++ output_event msg ∷ []) rest)
        (sym (
          read_step-frame e depth fuel cur_time flow magic 1 msg rest c r.valid r.unread
            (omega (arith, small)) flow_small (omega arith)
          ∙ ap (skip_frame e depth (pos (10 + length msg)))
              (on_frame_unreliable msg rest start r.set)))
        (record {
          more = refl;
          state = record {
            system = r.system;
            socket = r.socket;
            fine = r.fine;
            valid = skip-IsValid c.read_stream (pos (10 + length msg)) r.valid;
            unread =
                readable-skip c.read_stream (10 + length msg) r.valid
                ∙ ap (drop (10 + length msg)) r.unread
                ∙ drop-frame flow magic msg rest;
            events = ap (λ queue. queue ++ output_event msg ∷ []) r.events;
            set = r.set;
          };
        })

  -- At such a beginning the loop stops.
  record Stops (out : List Event) (bytes : List ℕ) (r : Bool × Client e) : Type 0 where
    done : r.0 ≡ false
    state : Reading s sock f out bytes r.1

  -- With a whole head it is that head and a part of the message.
  partial_head :
      (tail msg more : List ℕ)
      → frame flow magic 1 msg ≡ tail ++ more
      → 10 ≤ length tail
      → tail ≡ encode_head (frame_head flow magic 1 msg) ++ take (length tail - 10) msg
  unfolding frame
  partial_head tail msg more cut enough =
      let head = encode_head (frame_head flow magic 1 msg) in
      sym (
        take-append_left (length tail) tail more (omega arith)
        ∙ take_all (length tail) tail (omega arith))
      ∙ ap (take (length tail)) (sym cut)
      ∙ ap (λ n. take n (head ++ msg))
          (omega (arith, enough, length-encode_head (frame_head flow magic 1 msg)))
      ∙ take-length-append (length tail - 10) head msg

  partial_length :
      (tail msg more : List ℕ)
      → frame flow magic 1 msg ≡ tail ++ more
      → 10 ≤ length tail
      → 10 + length msg ≤ 16760832
      → signed32 (swap32 (decode_head tail).sec_pkg_len) ≡ pos (10 + length msg)
  unfolding frame_head
  partial_length tail msg more cut enough small =
      ap (λ bytes. signed32 (swap32 (decode_head bytes).sec_pkg_len))
        (partial_head tail msg more cut enough)
      ∙ ap (λ (h : CsConnHead). signed32 (swap32 h.sec_pkg_len))
          (decode_head-encode_head (frame_head flow magic 1 msg) _
            (frame_head-InRange flow magic 1 msg flow_small (omega arith)))
      ∙ signed32_small (10 + length msg) (omega (arith, small))

  read_step-Stops :
      (out : List Event) (tail : List ℕ) (c : Client e)
      → IsPartial flow magic tail
      → Reading s sock f out tail c
      → Stops out tail (read_step e depth fuel cur_time c)
  unfolding read_step on_head
  read_step-Stops out tail c (msg, more, cut, left, small) r =
      elim (Bool-cases (ltb (len c.read_stream) 10)) [
        | inl short ↦ rw (short, read_step) (record { done = refl; state = r })
        | inr there ↦
            rw
              (
                there,
                unfinished
                    (omega (tests, length-readable c.read_stream r.valid, ap length r.unread)),
                read_step,
              )
              (record {
                done = refl;
                state = record {
                  system = r.system;
                  socket = r.socket;
                  fine = r.fine;
                  valid = r.valid;
                  unread = r.unread;
                  events = r.events;
                  set = r.set;
                };
              })
      ]
    where
      unfinished :
          10 ≤ length tail
          → ltb_ℤ
              (pos (length (readable c.read_stream)))
              (signed32 (swap32 (decode_head (readable c.read_stream)).sec_pkg_len))
            ≡ true
      unfinished enough =
          ap
            (λ bytes.
              ltb_ℤ (pos (length bytes)) (signed32 (swap32 (decode_head bytes).sec_pkg_len)))
            r.unread
          ∙ ap (ltb_ℤ (pos (length tail))) (partial_length tail msg more cut enough small)
          ∙ lt→ltb (length tail + 0) (10 + length msg + 0) (
              omega
                (arith, left, length-frame flow magic msg, ap length cut, length-append tail more))

  pub read_loop-Reading :
      (out : List Event) (msgs : List (List ℕ)) (tail : List ℕ) (k : ℕ) (c : Client e)
      → length msgs < k
      → AreShort msgs
      → IsPartial flow magic tail
      → Reading s sock f out (frames flow magic msgs ++ tail) c
      → Reading s sock f (out ++ map output_event msgs) tail (read_loop e depth fuel cur_time k c)
  unfolding read_loop
  read_loop-Reading out msgs tail zero c less small cut r = absurd (omega (arith, less))
  read_loop-Reading out [] tail (suc k) c less small cut r =
      let stop = read_step-Stops out tail c cut r in
      rw (stop.done, read_loop)
        (subst (λ evs. Reading s sock f evs tail (read_step e depth fuel cur_time c).1)
          (sym (append-nil out)) stop.state)
  read_loop-Reading out (msg ∷ msgs) tail (suc k) c less small cut r =
      let took = read_step-Takes out msg (frames flow magic msgs ++ tail) c small.0 (
        subst (λ bytes. Reading s sock f out bytes c)
          (append_assoc (frame flow magic 1 msg) (frames flow magic msgs) tail) r) in
      rw (took.more, read_loop)
        (subst
          (λ evs.
            Reading s sock f evs tail
              (read_loop e depth fuel cur_time k (read_step e depth fuel cur_time c).1))
          (append_assoc out (output_event msg ∷ []) (map output_event msgs))
          (read_loop-Reading (out ++ output_event msg ∷ []) msgs tail k
            (read_step e depth fuel cur_time c).1 (omega (arith, less)) small.1 cut took.state))
