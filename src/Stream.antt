-- ===== src/Stream.antt =====
-- connclient/src/stream.h and stream.cpp: the byte buffer of a connection.
-- `buf` is the allocated block, of `capacity` bytes, with `size` bytes in use, of which the first
-- `rpos` are read already. `malloc` is a parameter that returns a block; the branch on a null
-- pointer, which ends the process, is not modelled. `EnsureWritable` keeps
-- `size` at 16 MiB at most. Its sum `size_ + data_len` is one of `int`, and wraps around. The sum
-- `rpos_ + offset` of `Skip` is written for offsets that keep it in the range of `int`, up to
-- 2 ^ 31 - 1 - 16 MiB: the client skips lengths of frames that have come and counts of bytes sent.
pub mod Buffer
pub mod Room
pub mod History
pub mod Tail
use defold_connclient.Prelude.{
  ℕ, ◌+◌, ◌-◌, ◌*◌, ◌/◌, ◌%◌, ◌^◌, ltb_ℤ, signed32, pos_part, ◌≡◌, List, ◌++◌, length, take, drop,
  ltb, leb, if◌then◌else◌, is_zero, ℤ, pos, negsuc,
}

abbrev pub grow_block : ℕ
grow_block = 64 * 1024

abbrev pub stream_max_size : ℕ
stream_max_size = 16 * 1024 * 1024

pub record Stream : Type 0 where
  pub buf : List ℕ
  pub rpos : ℕ
  pub size : ℕ
  pub capacity : ℕ

-- The allocator: a block of the size asked for.
pub record Allocator : Type 0 where
  pub malloc : ℕ → List ℕ
  pub length-malloc : (n : ℕ) → length (malloc n) ≡ n

-- memcpy of `bytes` to the offset `at` of a block.
unfoldable pub memcpy : List ℕ → ℕ → List ℕ → List ℕ
memcpy block at bytes = take at block ++ (bytes ++ drop (at + length bytes) block)

unfoldable pub round_up : ℕ → ℕ → ℕ
round_up x y = (x + (y - 1)) / y * y

unfoldable pub len : Stream → ℕ
len s = s.size - s.rpos

-- The unread bytes, those from `Buf()` on.
unfoldable pub readable : Stream → List ℕ
readable s = take (s.size - s.rpos) (drop s.rpos s.buf)

unfoldable pub shrink : Stream → Stream
unfolding memcpy
shrink s =
    if ltb 0 s.rpos
    then record s {
      buf = memcpy s.buf 0 (take (s.size - s.rpos) (drop s.rpos s.buf));
      rpos = 0;
      size = s.size - s.rpos;
    }
    else s

unfoldable pub reset : Stream → Stream
reset s = record s { rpos = 0; size = 0 }

-- For counts with which `rpos_ + offset` is within the range of `int`.
unfoldable pub skip : ℤ → Stream → Stream
skip (negsuc n) s = s
skip (pos offset) s =
    if ltb (s.rpos + offset) s.size
    then record s { rpos = s.rpos + offset }
    else record s { rpos = 0; size = 0 }

-- The code passes counts that are not negative.
unfoldable pub add_size : ℕ → Stream → Stream
add_size n s = if leb (s.size + n) s.capacity then record s { size = s.size + n } else s

-- A write through the pointer `End()`.
unfoldable pub write_end : ℕ → List ℕ → Stream → Stream
unfolding memcpy
write_end offset bytes s = record s { buf = memcpy s.buf (s.size + offset) bytes }

-- The copy of `Append`, once the room is there.
unfoldable pub add_bytes : List ℕ → Stream → Stream
unfolding memcpy
add_bytes bytes s = record s { buf = memcpy s.buf s.size bytes; size = s.size + length bytes }

module _ (a : Allocator) where
  unfoldable pub empty : Stream
  empty = record { buf = a.malloc grow_block; rpos = 0; size = 0; capacity = grow_block }

  -- The reallocation of `EnsureWritable`.
  unfoldable pub grow : ℕ → Stream → Stream
  unfolding memcpy round_up
  grow expect_size s =
      let capacity = round_up expect_size grow_block in
      record s {
        buf =
            if ltb 0 s.size
            then memcpy (a.malloc capacity) 0 (take s.size s.buf)
            else a.malloc capacity;
        capacity = capacity;
      }

  -- `EnsureWritable` behind `Shrink`. The sum wraps around in 32 bits with a sign.
  unfoldable pub reserve : ℕ → Stream → ℤ × Stream
  reserve data_len s =
      let expect_size = signed32 ((s.size + data_len) % 2 ^ 32) in
      if ltb_ℤ (pos stream_max_size) expect_size
      then (negsuc 0, s)
      else if ltb_ℤ (pos s.capacity) expect_size
      then (pos 0, grow (pos_part expect_size) s)
      else (pos 0, s)

  unfoldable pub ensure_writable : ℤ → Stream → ℤ × Stream
  ensure_writable (negsuc n) s = (pos 0, s)
  ensure_writable (pos data_len) s =
      if leb data_len 0 then (pos 0, s) else reserve data_len (shrink s)

  -- `Append` of a block of a known length.
  unfoldable pub append : List ℕ → Stream → ℤ × Stream
  append bytes s =
      let (r, s') = ensure_writable (pos (length bytes)) s in
      if is_zero r then (pos 0, add_bytes bytes s') else (negsuc 0, s')
