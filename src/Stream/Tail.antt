-- ===== src/Stream/Tail.antt =====
-- Two writes behind the bytes in use of a stream of connclient/src/stream.cpp, then `AddSize`: how
-- the client puts a head and a message into it.
use defold_connclient.Prelude.{
  ℕ, ◌+◌, ◌≤◌, ◌≡◌, sym, ap, ap₂, ◌∙◌, List, [], ◌∷◌, ◌++◌, length, take, drop, le→leb, arith,
  length-append, append_assoc, drop-drop,
}
use defold_connclient.Stream.{Stream, memcpy, write_end, add_size, add_bytes}
use defold_connclient.Stream.Buffer.{IsValid, take-memcpy, length-take-at}

drop-append_add : (k : ℕ) (xs ys : List ℕ) → drop (length xs + k) (xs ++ ys) ≡ drop k ys
drop-append_add k [] ys = rw Prim.Native.Nat.add.zero
drop-append_add k (x ∷ xs) ys = rw Prim.Native.Nat.add.suc (drop-append_add k xs ys)

module _ (block : List ℕ) (at : ℕ) (bytes : List ℕ) (fits : at + length bytes ≤ length block) where
  drop-memcpy :
      (k : ℕ)
      → drop (at + length bytes + k) (memcpy block at bytes) ≡ drop (at + length bytes + k) block
  unfolding memcpy
  drop-memcpy k =
      ap (λ n. drop n (memcpy block at bytes))
        (omega (arith, length-append (take at block) bytes, length-take-at block at bytes fits))
      ∙ ap (drop (length (take at block ++ bytes) + k)) (sym (append_assoc (take at block) bytes _))
      ∙ drop-append_add k (take at block ++ bytes) (drop (at + length bytes) block)
      ∙ drop-drop k (at + length bytes) block

  -- Two writes side by side are one write of both.
  memcpy-memcpy :
      (more : List ℕ)
      → memcpy (memcpy block at bytes) (at + length bytes) more ≡ memcpy block at (bytes ++ more)
  unfolding memcpy
  memcpy-memcpy more =
      ap₂ (λ front back. front ++ (more ++ back)) (take-memcpy block at bytes fits)
        (drop-memcpy (length more))
      ∙ append_assoc (take at block) bytes _
      ∙ ap (◌++◌ (take at block)) (
          sym (append_assoc bytes more _)
          ∙ ap (λ n. (bytes ++ more) ++ drop n block) (omega (arith, length-append bytes more)))

module _ (s : Stream) (head msg : List ℕ) (v : IsValid s)
    (fits : s.size + (length head + length msg) ≤ s.capacity) where
  -- The two writes and the count are one append of the head and the message.
  pub write_both :
      add_size (length head + length msg) (write_end (length head) msg (write_end 0 head s))
      ≡ add_bytes (head ++ msg) s
  unfolding add_size write_end add_bytes
  write_both = rw (le→leb _ _ fits) (
      ap₂ (λ (b : List ℕ) (n : ℕ). record s { buf = b; size = n })
        (ap (λ n. memcpy (memcpy s.buf n head) (s.size + length head) msg) (omega arith)
          ∙ memcpy-memcpy s.buf s.size head (omega (arith, v.block)) msg)
        (omega (arith, length-append head msg)))

-- One write and the count are one append.
pub write_one :
    (s : Stream) (bytes : List ℕ)
    → s.size + length bytes ≤ s.capacity
    → add_size (length bytes) (write_end 0 bytes s) ≡ add_bytes bytes s
unfolding add_size write_end add_bytes
write_one s bytes fits = rw (le→leb _ _ fits) (
    ap (λ (n : ℕ). record s { buf = memcpy s.buf n bytes; size = s.size + length bytes })
      {x = s.size + 0} {y = s.size} (omega arith))
