-- ===== src/Stream/Room.antt =====
-- What `EnsureWritable` and `Append` of connclient/src/stream.cpp promise.
use defold_connclient.Prelude.{
  ℕ, zero, suc, ◌+◌, ◌^◌, ◌≤◌, ◌<◌, ◌≡◌, refl, ap, ◌∙◌, Bool, List, inl, inr, ◌++◌, length, ltb,
  leb, if◌then◌else◌, ℤ, pos, negsuc, arith, tests, lt→leb, Bool-cases, signed32, ◌%◌, ltb_ℤ,
  pos_part, subst, sym, lt→ltb, ap₂,
}
use defold_connclient.Stream.{
  Stream, Allocator, len, readable, shrink, reserve, ensure_writable, append, stream_max_size, grow,
}
use defold_connclient.Stream.Buffer.{
  IsValid, shrink-IsValid, readable-shrink, grow-IsValid, readable-grow, add_bytes-IsValid,
  grow_room, size-grow, rpos-shrink, len-shrink, readable-add_bytes,
}

-- Whether `n` more bytes stay within 16 MiB.
abbrev pub fits : Stream → ℕ → Bool
fits s n = leb (len s + n) stream_max_size

-- A count that can be added to an offset of a stream without an overflow of `int`.
abbrev pub IsCount : ℕ → Type 0
IsCount n = n + stream_max_size < 2 ^ 31

pub record HasRoom (s : Stream) (n : ℕ) (out : ℤ × Stream) : Type 0 where
  pub valid : IsValid out.1
  pub same : readable out.1 ≡ readable s
  pub code : out.0 ≡ (if fits s n then pos 0 else negsuc 0)
  pub room : out.0 ≡ pos 0 → out.1.size + n ≤ out.1.capacity

len-le-size : (s : Stream) → len s ≤ s.size
unfolding len
len-le-size s = omega arith

signed32_sum : (n : ℕ) → n < 2 ^ 31 → signed32 (n % 2 ^ 32) ≡ pos n
signed32_sum n h =
    ap signed32 {x = n % 2 ^ 32} {y = n} (omega (arith, h)) ∙ rw (lt→ltb n (2 ^ 31) h)

ltb_pos : (m n : ℕ) → ltb_ℤ (pos m) (pos n) ≡ ltb m n
ltb_pos m n = ap₂ ltb (omega arith) (omega arith)

module _ (a : Allocator) where
  -- `EnsureWritable` where no sum overflows.
  unfoldable plain : ℕ → Stream → ℤ × Stream
  plain n s =
      if ltb stream_max_size (s.size + n)
      then (negsuc 0, s)
      else if ltb s.capacity (s.size + n)
      then (pos 0, grow a (s.size + n) s)
      else (pos 0, s)

  reserve-plain : (s : Stream) (n : ℕ) → IsValid s → IsCount n → reserve a n s ≡ plain n s
  unfolding reserve plain
  reserve-plain s n v small =
      ap
        (λ (expect_size : ℤ).
          if ltb_ℤ (pos stream_max_size) expect_size
          then (negsuc 0, s)
          else if ltb_ℤ (pos s.capacity) expect_size
          then (pos 0, grow a (pos_part expect_size) s)
          else (pos 0, s))
        (signed32_sum (s.size + n) (omega (arith, v.used, v.bounded, small)))
      ∙ ap₂
          (λ (over large : Bool).
            if over
            then (negsuc 0, s)
            else if large
            then (pos 0, grow a (s.size + n) s)
            else (pos 0, s))
          (ltb_pos stream_max_size (s.size + n)) (ltb_pos s.capacity (s.size + n))

  plain-HasRoom : (s : Stream) (n : ℕ) → IsValid s → s.rpos ≡ 0 → HasRoom s n (plain n s)
  unfolding plain len
  plain-HasRoom s n v e = elim (Bool-cases (ltb stream_max_size (s.size + n))) [
    | inl over ↦
        rw (over, plain) (record { valid = v; same = refl; code = ground arith; room = λ h. cc })
    | inr under ↦ elim (Bool-cases (ltb s.capacity (s.size + n))) [
      | inl small ↦
          rw (under, plain, small)
            (record {
              valid = grow-IsValid a s (s.size + n) v (omega arith) (omega tests);
              same = readable-grow a s (s.size + n) v (omega arith);
              code = ground arith;
              room = λ h. omega (arith, grow_room a s (s.size + n), size-grow a s (s.size + n));
            })
      | inr large ↦
          rw (under, plain, large)
            (record { valid = v; same = refl; code = ground arith; room = λ h. omega tests })
    ]
  ]

  -- `EnsureWritable` of a count that is not negative, and small enough that no sum of `int` overflows,
  -- succeeds exactly when the unread bytes and the new ones stay within 16 MiB; then the room is
  -- there, and no unread byte changes either way.
  pub ensure_writable_lem :
      (s : Stream) (n : ℕ) → IsValid s → IsCount n → HasRoom s n (ensure_writable a (pos n) s)
  unfolding ensure_writable
  ensure_writable_lem s zero v small = record {
    valid = v;
    same = refl;
    code = ground (arith, v.used, v.bounded, len-le-size s);
    room = λ h. omega (arith, v.used);
  }
  ensure_writable_lem s (suc n) v small =
      let shrunk = shrink-IsValid s v in
      let r : HasRoom (shrink s) (suc n) (reserve a (suc n) (shrink s)) =
        subst (HasRoom (shrink s) (suc n)) (sym (reserve-plain (shrink s) (suc n) shrunk small))
          (plain-HasRoom (shrink s) (suc n) shrunk (rpos-shrink s)) in
      rw (lt→leb (suc n) 0 (omega arith), ensure_writable)
        (record {
          valid = r.valid;
          same = r.same ∙ readable-shrink s v;
          code = ground (arith, r.code, len-shrink s);
          room = r.room;
        })

  -- `Append` adds the bytes behind those that are unread, or refuses them and changes no unread
  -- byte, exactly when they would pass 16 MiB.
  pub append_lem :
      (s : Stream) (bytes : List ℕ)
      → IsValid s
      → IsCount (length bytes)
      → IsValid (append a bytes s).1
        × ((append a bytes s).0 ≡ (if fits s (length bytes) then pos 0 else negsuc 0))
        × (readable (append a bytes s).1
            ≡ (if fits s (length bytes) then readable s ++ bytes else readable s))
  unfolding append
  append_lem s bytes v small = elim (Bool-cases (fits s (length bytes))) [
    | inl e ↦
        let code : (ensure_writable a (pos (length bytes)) s).0 ≡ pos 0 = r.code ∙ rw e in
        rw (e, code, append)
          (
            add_bytes-IsValid _ bytes r.valid (r.room code),
            refl,
            readable-add_bytes _ bytes r.valid (r.room code) ∙ ap (λ xs. xs ++ bytes) r.same,
          )
    | inr e ↦
        let code : (ensure_writable a (pos (length bytes)) s).0 ≡ negsuc 0 = r.code ∙ rw e in
        rw (e, code, append) (r.valid, refl, r.same)
  ]
    where
      r : HasRoom s (length bytes) (ensure_writable a (pos (length bytes)) s)
      r = ensure_writable_lem s (length bytes) v small
