-- ===== src/Stream/History.antt =====
-- A stream of connclient/src/stream.cpp over its life, against a queue of bytes.
use defold_connclient.Prelude.{
  ℕ, ◌+◌, ◌≡◌, refl, sym, ap, ◌∙◌, List, [], ◌∷◌, ◌++◌, length, drop, leb, if◌then◌else◌, ℤ, pos,
  negsuc, arith, pos_part,
}
use defold_connclient.Stream.{
  Stream, Allocator, readable, skip, reset, empty, append, stream_max_size,
}
use defold_connclient.Stream.Buffer.{
  IsValid, skip-IsValid, readable-skip, reset-IsValid, length-readable, empty-IsValid,
  readable_none,
}
use defold_connclient.Stream.Room.{IsCount, append_lem}

pub data Op : Type 0 where
  appends : List ℕ → Op
  skips : ℤ → Op
  resets : Op

-- The contract: a queue of at most 16 MiB, with what `Append` returns.
pub spec_step : List ℕ → Op → List ℕ
spec_step q (appends bytes) =
    if leb (length q + length bytes) stream_max_size then q ++ bytes else q
spec_step q (skips (pos n)) = drop n q
spec_step q (skips (negsuc n)) = q
spec_step q resets = []

pub spec_run : List ℕ → List Op → List ℕ
unfolding spec_step
spec_run q [] = q
spec_run q (op ∷ ops) = spec_run (spec_step q op) ops

-- Calls with counts that no sum of `int` overflows with.
abbrev pub HasCount : Op → Type 0
HasCount (appends bytes) = IsCount (length bytes)
HasCount (skips n) = IsCount (pos_part n)
HasCount resets = Unit {0}

abbrev pub AllCounts : List Op → Type 0
AllCounts [] = Unit {0}
AllCounts (op ∷ ops) = HasCount op × AllCounts ops

module _ (a : Allocator) where
  pub step : Stream → Op → Stream
  step s (appends bytes) = (append a bytes s).1
  step s (skips n) = skip n s
  step s resets = reset s

  pub run : Stream → List Op → Stream
  unfolding step
  run s [] = s
  run s (op ∷ ops) = run (step s op) ops

  step-IsValid : (s : Stream) (op : Op) → IsValid s → HasCount op → IsValid (step s op)
  unfolding step
  step-IsValid s (appends bytes) v small = (append_lem a s bytes v small).0
  step-IsValid s (skips n) v small = skip-IsValid s n v
  step-IsValid s resets v small = reset-IsValid s v

  readable-step :
      (s : Stream) (op : Op)
      → IsValid s
      → HasCount op
      → readable (step s op) ≡ spec_step (readable s) op
  unfolding step spec_step
  readable-step s (appends bytes) v small =
      (append_lem a s bytes v small).2
      ∙ ap (λ n. if leb (n + length bytes) stream_max_size then readable s ++ bytes else readable s)
          (sym (length-readable s v))
  readable-step s (skips (pos n)) v small = readable-skip s n v
  readable-step s (skips (negsuc n)) v small = unfold skip in refl
  readable-step s resets v small = unfold reset in readable_none (reset s) (omega arith)

  run_refines :
      (s : Stream) (ops : List Op)
      → IsValid s
      → AllCounts ops
      → IsValid (run s ops) × (readable (run s ops) ≡ spec_run (readable s) ops)
  unfolding run spec_run
  run_refines s [] v small = (v, refl)
  run_refines s (op ∷ ops) v small =
      let next = run_refines (step s op) ops (step-IsValid s op v small.0) small.1 in
      (next.0, next.1 ∙ ap (λ q. spec_run q ops) (readable-step s op v small.0))

  -- From a new stream, after any calls with counts small enough that no sum of `int` overflows, the
  -- invariant holds and the unread bytes are those of the queue of bytes under the same calls.
  pub run-empty :
      (ops : List Op)
      → AllCounts ops
      → IsValid (run (empty a) ops) × (readable (run (empty a) ops) ≡ spec_run [] ops)
  run-empty ops small =
      let all = run_refines (empty a) ops (empty-IsValid a) small in
      (
        all.0,
        all.1 ∙ ap (λ q. spec_run q ops) (unfold empty in readable_none (empty a) (omega arith)),
      )
