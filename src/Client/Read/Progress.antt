-- ===== src/Client/Read/Progress.antt =====
-- The rounds of the loop of `ReadStream` in connclient/src/conn_client.cpp, counted by the bytes
-- that are left to read.
use defold_connclient.Prelude.{
  ℕ, zero, suc, ◌-◌, ◌≤◌, ◌<◌, ◌≡◌, refl, Bool, true, false, List, length, drop, ltb, ltb_ℤ,
  if_elim, Bool-cases, inl, inr, ℤ, pos, negsuc, ◌<ℤ◌, signed32, arith, tests,
}
use defold_connclient.Stream.{Stream, readable, len, skip}
use defold_connclient.Wire.{CsConnHead, decode_head, swap32}
use defold_connclient.Client.State.{Env, Client, ConnClient}
use defold_connclient.Client.Read.{on_frame, skip_frame, on_head, read_step, read_loop, minus}
use defold_connclient.Client.Link.{Holds}
use defold_connclient.Client.Read.Unread.{Unread, on_frame-Unread}

skip_lt :
    (pkg_len : ℤ) (n : ℕ) (s : Stream)
    → pos 0 <ℤ pkg_len
    → 0 < n
    → len s ≤ n
    → len (skip pkg_len s) < n
unfolding skip len
skip_lt (pos k) n s h p b = ground arith
skip_lt (negsuc k) n s h p b = absurd (omega (arith, h))

-- Where the loop goes on, fewer than `n` bytes are left.
pub record Shrinks {O K : Type 0} (n : ℕ) (r : Bool × ConnClient O K) : Type 0 where
  pub less : r.0 ≡ true → len r.1.read_stream < n

abbrev pub pkg_len_of : {O K : Type 0} → ConnClient O K → ℤ
pkg_len_of c = signed32 (swap32 (decode_head (readable c.read_stream)).sec_pkg_len)

module _ (e : Env) (depth fuel cur_time : ℕ) where
  stops-Shrinks : (n : ℕ) (c : Client e) → Shrinks n (false, c)
  stops-Shrinks n c = record { less = λ h. cc }

  skip_frame-Shrinks :
      (pkg_len : ℤ) (n : ℕ) (r : Bool × Client e)
      → pos 0 <ℤ pkg_len
      → 0 < n
      → Holds (Unread n) r.1
      → Shrinks n (skip_frame e depth pkg_len r)
  unfolding skip_frame
  skip_frame-Shrinks pkg_len n (true, c) h p b = record {
    less = λ more. skip_lt pkg_len n c.read_stream h p b.holds;
  }
  skip_frame-Shrinks pkg_len n (false, c) h p b = stops-Shrinks n c

  on_head-Shrinks :
      (bytes : List ℕ) (head : CsConnHead) (n : ℕ) (c : Client e)
      → pos 0 <ℤ signed32 (swap32 head.sec_pkg_len)
      → 0 < n
      → Holds (Unread n) c
      → Shrinks n (on_head e depth fuel cur_time bytes head c)
  unfolding on_head
  on_head-Shrinks bytes head n c h p b =
      let pkg_len = signed32 (swap32 head.sec_pkg_len) in
      let framed = on_frame e depth fuel cur_time head.cmd (drop 10 bytes) (minus pkg_len 10) c in
      if_elim (Shrinks n) (ltb_ℤ (pos (length bytes)) pkg_len) (false, c)
        (skip_frame e depth pkg_len framed) (stops-Shrinks n c)
        (skip_frame-Shrinks pkg_len n framed h p
          (on_frame-Unread e depth n fuel cur_time head.cmd (drop 10 bytes) (minus pkg_len 10) c b))

  -- A round of `ReadStream` at a head with a positive length, after which the loop goes on, leaves
  -- fewer bytes to read.
  read_step-Shrinks :
      (c : Client e)
      → (10 ≤ len c.read_stream → pos 0 <ℤ pkg_len_of c)
      → Shrinks (len c.read_stream) (read_step e depth fuel cur_time c)
  unfolding read_step
  read_step-Shrinks c h = elim (Bool-cases (ltb (len c.read_stream) 10)) [
    | inl short ↦ rw (short, read_step) (stops-Shrinks _ c)
    | inr there ↦
        rw (there, read_step)
          (on_head-Shrinks _ _ _ _ (h (omega tests)) (omega tests) (record { holds = omega arith }))
  ]

  -- `d` is a state that the loop comes to from `c`.
  pub data Reaches : Client e → Client e → Type 0 where
    here : {c : Client e} → Reaches c c
    next :
        {c d : Client e}
        → (read_step e depth fuel cur_time c).0 ≡ true
        → Reaches (read_step e depth fuel cur_time c).1 d
        → Reaches c d

  -- Every head that the loop comes to has a positive length.
  abbrev pub HeadsPositive : Client e → Type 0
  HeadsPositive c = (d : Client e) → Reaches c d → 10 ≤ len d.read_stream → pos 0 <ℤ pkg_len_of d

  -- The loop stopped at a state that it came to.
  pub record Ends (c out : Client e) : Type 0 where
    pub last : Client e
    pub reached : Reaches c last
    pub stopped : (read_step e depth fuel cur_time last).0 ≡ false
    pub result : out ≡ (read_step e depth fuel cur_time last).1

  read_loop-Ends_below :
      (n k : ℕ) (c : Client e)
      → len c.read_stream ≤ n
      → HeadsPositive c
      → n < k
      → Ends c (read_loop e depth fuel cur_time k c)
  unfolding read_loop
  read_loop-Ends_below n zero c b h j = absurd (omega (arith, j))
  read_loop-Ends_below n (suc k) c b h j = elim (Bool-cases (read_step e depth fuel cur_time c).0) [
    | inr stop ↦
        rw (stop, read_loop) (record { last = c; reached = here; stopped = stop; result = refl })
    | inl more ↦
        let less = (read_step-Shrinks c (h c here)).less more in
        let rest =
          read_loop-Ends_below (n - 1) k (read_step e depth fuel cur_time c).1
            (omega (arith, less, b)) (λ d r. h d (next more r)) (omega (arith, less, b, j)) in
        rw (more, read_loop)
          (record {
            last = rest.last;
            reached = next more rest.reached;
            stopped = rest.stopped;
            result = rest.result;
          })
  ]

  -- Where every head that the loop of `ReadStream` comes to has a positive length, the loop ends:
  -- with more fuel than there are unread bytes it comes to a round that does not go on, and its
  -- result is that round's.
  pub read_loop-Ends :
      (k : ℕ) (c : Client e)
      → HeadsPositive c
      → len c.read_stream < k
      → Ends c (read_loop e depth fuel cur_time k c)
  read_loop-Ends k c h j = read_loop-Ends_below (len c.read_stream) k c (omega arith) h j
