-- ===== src/Stream/Buffer.antt =====
-- The invariant of a stream, and its operations as those of a queue of bytes, for
-- connclient/src/stream.cpp.
use defold_connclient.Prelude.{
  ℕ, ◌+◌, ◌-◌, ◌≤◌, ◌≡◌, inl, inr, refl, sym, ap, ◌∙◌, true, List, [], ◌++◌, length, take, drop,
  ltb, ℤ, pos, negsuc, arith, tests, length-append, length-take, length-drop, take_all, drop_all,
  take-append_left, drop-append_left, take-length-append, take-drop, drop-drop, Bool-cases,
}
use defold_connclient.Stream.{
  Stream, Allocator, memcpy, round_up, len, readable, shrink, reset, skip, empty, grow, add_bytes,
  grow_block, stream_max_size,
}

-- The offsets are in order, and the block has the size that `capacity` says.
pub record IsValid (s : Stream) : Type 0 where
  pub read : s.rpos ≤ s.size
  pub used : s.size ≤ s.capacity
  pub block : length s.buf ≡ s.capacity
  pub bounded : s.capacity ≤ stream_max_size

module _ (block : List ℕ) (at : ℕ) (bytes : List ℕ) (fits : at + length bytes ≤ length block) where
  pub length-memcpy : length (memcpy block at bytes) ≡ length block
  unfolding memcpy
  length-memcpy = omega (
    arith,
    length-append (take at block) (bytes ++ drop (at + length bytes) block),
    length-append bytes (drop (at + length bytes) block),
    length-take at block,
    length-drop (at + length bytes) block,
  )

  pub length-take-at : length (take at block) ≡ at
  length-take-at = omega (arith, length-take at block)

  pub take-memcpy : take (at + length bytes) (memcpy block at bytes) ≡ take at block ++ bytes
  unfolding memcpy
  take-memcpy =
      ap (λ n. take (n + length bytes) (memcpy block at bytes)) (sym length-take-at)
      ∙ take-length-append (length bytes) (take at block) (bytes ++ drop (at + length bytes) block)
      ∙ ap (◌++◌ (take at block))
          (take-append_left (length bytes) bytes _ (omega arith) ∙ take_all _ bytes (omega arith))

take-memcpy_zero :
    (block bytes : List ℕ) (n : ℕ)
    → n ≡ length bytes
    → n ≤ length block
    → take n (memcpy block 0 bytes) ≡ bytes
take-memcpy_zero block bytes n e fits =
    ap (λ k. take k (memcpy block 0 bytes)) (omega arith) ∙ take-memcpy block 0 bytes (omega arith)

pub readable-eq-drop : (s : Stream) → s.rpos ≤ s.size → readable s ≡ drop s.rpos (take s.size s.buf)
unfolding readable
readable-eq-drop s h =
    take-drop (s.size - s.rpos) s.rpos s.buf ∙ ap (λ n. drop s.rpos (take n s.buf)) (omega arith)

pub readable_none : (s : Stream) → s.size ≤ s.rpos → readable s ≡ []
unfolding readable
readable_none s h = ap (λ k. take k (drop s.rpos s.buf)) {x = s.size - s.rpos} {y = 0} (omega arith)

pub length-readable : (s : Stream) → IsValid s → length (readable s) ≡ len s
unfolding readable len
length-readable s v = omega (
  arith,
  length-take (s.size - s.rpos) (drop s.rpos s.buf),
  length-drop s.rpos s.buf,
  v.block,
  v.used,
)

-- A write behind the bytes in use, followed by `AddSize`, appends the bytes to what is readable.
pub readable-add_bytes :
    (s : Stream) (bytes : List ℕ)
    → IsValid s
    → s.size + length bytes ≤ s.capacity
    → readable (add_bytes bytes s) ≡ readable s ++ bytes
unfolding add_bytes
readable-add_bytes s bytes v fits =
    readable-eq-drop (add_bytes bytes s) (omega (arith, v.read))
    ∙ ap (drop s.rpos) (take-memcpy s.buf s.size bytes (omega (arith, v.block)))
    ∙ drop-append_left s.rpos (take s.size s.buf) bytes
        (omega (arith, length-take s.size s.buf, v.read, v.used, v.block))
    ∙ ap (λ r. r ++ bytes) (sym (readable-eq-drop s v.read))

pub add_bytes-IsValid :
    (s : Stream) (bytes : List ℕ)
    → IsValid s
    → s.size + length bytes ≤ s.capacity
    → IsValid (add_bytes bytes s)
unfolding add_bytes
add_bytes-IsValid s bytes v fits = record {
  read = omega (arith, v.read);
  used = fits;
  block = length-memcpy s.buf s.size bytes (omega (arith, v.block)) ∙ v.block;
  bounded = v.bounded;
}

pub shrink-IsValid : (s : Stream) → IsValid s → IsValid (shrink s)
unfolding shrink readable len
shrink-IsValid s v = elim (Bool-cases (ltb 0 s.rpos)) [
  | inl e ↦
      rw (e, shrink)
        (record {
          read = omega arith;
          used = omega (arith, v.used);
          block =
              length-memcpy s.buf 0 (readable s)
                (omega (arith, length-readable s v, v.read, v.used, v.block))
              ∙ v.block;
          bounded = v.bounded;
        })
  | inr e ↦ rw (e, shrink) v
]

pub readable-shrink : (s : Stream) → IsValid s → readable (shrink s) ≡ readable s
unfolding shrink readable len
readable-shrink s v = elim (Bool-cases (ltb 0 s.rpos)) [
  | inl e ↦
      rw (e, shrink)
        (ap (λ k. take k (memcpy s.buf 0 (readable s))) (omega arith)
          ∙ take-memcpy_zero s.buf (readable s) (s.size - s.rpos) (sym (length-readable s v))
              (omega (arith, v.used, v.block)))
  | inr e ↦ rw (e, shrink)
]

-- `Skip` drops bytes from the front, and empties the stream past its end.
pub readable-skip :
    (s : Stream) (n : ℕ) → IsValid s → readable (skip (pos n) s) ≡ drop n (readable s)
unfolding skip readable len
readable-skip s n v = elim (Bool-cases (ltb (s.rpos + n) s.size)) [
  | inl e ↦
      rw (e, skip)
        (ap (take (s.size - (s.rpos + n))) (sym (drop-drop n s.rpos s.buf))
          ∙ take-drop (s.size - (s.rpos + n)) n (drop s.rpos s.buf)
          ∙ ap (λ k. drop n (take k (drop s.rpos s.buf))) (omega tests))
  | inr e ↦
      rw (e, skip)
        (ap (λ k. take k s.buf) {x = 0 - 0} {y = 0} (omega arith)
          ∙ sym (drop_all n (readable s) (omega (tests, length-readable s v))))
]

pub skip-IsValid : (s : Stream) (n : ℤ) → IsValid s → IsValid (skip n s)
unfolding skip
skip-IsValid s (pos n) v = ground (arith, v.read, v.used, v.block, v.bounded)
skip-IsValid s (negsuc n) v = v

pub reset-IsValid : (s : Stream) → IsValid s → IsValid (reset s)
unfolding reset
reset-IsValid s v = ground (arith, v.block, v.bounded)

pub rpos-shrink : (s : Stream) → (shrink s).rpos ≡ 0
unfolding shrink
rpos-shrink s = ground arith

pub len-shrink : (s : Stream) → len (shrink s) ≡ len s
unfolding shrink len
len-shrink s = ground arith

module _ (a : Allocator) where
  pub empty-IsValid : IsValid (empty a)
  unfolding empty
  empty-IsValid = record {
    read = omega arith;
    used = omega arith;
    block = a.length-malloc _;
    bounded = omega arith;
  }

  pub grow-IsValid :
      (s : Stream) (n : ℕ) → IsValid s → s.size ≤ n → n ≤ stream_max_size → IsValid (grow a n s)
  unfolding grow round_up
  grow-IsValid s n v used bounded = record {
    read = v.read;
    used = omega arith;
    block = elim (Bool-cases (ltb 0 s.size)) [
      | inl e ↦
          rw (e, grow)
            (length-memcpy (a.malloc _) 0 (take s.size s.buf)
                (omega (arith, a.length-malloc (round_up n grow_block), length-take s.size s.buf))
              ∙ a.length-malloc _)
      | inr e ↦ rw (e, grow) (a.length-malloc _)
    ];
    bounded = omega arith;
  }

  pub readable-grow :
      (s : Stream) (n : ℕ) → IsValid s → s.size ≤ n → readable (grow a n s) ≡ readable s
  unfolding grow round_up
  readable-grow s n v used = elim (Bool-cases (ltb 0 s.size)) [
    | inl e ↦
        readable-eq-drop (grow a n s) v.read
        ∙ rw (e, grow) (ap (drop s.rpos) (kept e) ∙ sym (readable-eq-drop s v.read))
    | inr e ↦ readable_none (grow a n s) (omega tests) ∙ sym (readable_none s (omega tests))
  ]
    where
      kept :
          ltb 0 s.size ≡ true
          → take s.size (memcpy (a.malloc (round_up n grow_block)) 0 (take s.size s.buf))
            ≡ take s.size s.buf
      kept e =
          take-memcpy_zero (a.malloc _) (take s.size s.buf) s.size
            (omega (arith, length-take s.size s.buf, v.used, v.block))
            (omega (arith, a.length-malloc (round_up n grow_block)))

  -- After the growth the room is there.
  pub grow_room : (s : Stream) (n : ℕ) → n ≤ (grow a n s).capacity
  unfolding grow round_up
  grow_room s n = omega arith

  pub size-grow : (s : Stream) (n : ℕ) → (grow a n s).size ≡ s.size
  unfolding grow
  size-grow s n = refl
