-- ===== src/Client/Read/Stuck.antt =====
-- A head whose length is not positive, in `ReadStream` of connclient/src/conn_client.cpp.
use defold_connclient.Prelude.{
  ℕ, zero, suc, ◌+◌, ◌≤◌, ◌<◌, ◌≡◌, ◌≢◌, refl, ap, true, false, some, List, length, drop, ltb_ℤ,
  le→ltb, lt→ltb, if◌then◌else◌, ℤ, pos, negsuc, ◌≤ℤ◌, signed32, arith,
}
use defold_connclient.Stream.{Stream, readable, len, skip}
use defold_connclient.Wire.{decode_head, swap32}
use defold_connclient.Client.State.{Env, Client, ConnClient, exhausted}
use defold_connclient.Client.Read.{read_step, on_head, on_frame, skip_frame, minus, read_loop}

skip_nonpos : (n : ℤ) (s : Stream) → n ≤ℤ pos 0 → 0 < len s → skip n s ≡ s
unfolding skip len
skip_nonpos (negsuc n) s h l = refl
skip_nonpos (pos n) s h l =
    rw (lt→ltb (s.rpos + n) s.size (omega arith))
      (ap (λ (r : ℕ). record s { rpos = r }) {x = s.rpos + n} {y = s.rpos} (omega arith))

-- The unread bytes begin with a head whose length is not positive and whose command `ReadStream`
-- does not handle.
pub record IsStuck {O K : Type 0} (c : ConnClient O K) : Type 0 where
  pub head_there : 10 ≤ len c.read_stream
  pub pkg_len : signed32 (swap32 (decode_head (readable c.read_stream)).sec_pkg_len) ≤ℤ pos 0
  pub cmd : 4 < (decode_head (readable c.read_stream)).cmd
  pub other_cmd : (decode_head (readable c.read_stream)).cmd ≢ 7

module _ (e : Env) (depth : ℕ) where
  on_frame_ignored :
      (fuel cur_time cmd : ℕ) (bytes : List ℕ) (data_len : ℤ) (c : Client e)
      → 4 < cmd
      → cmd ≢ 7
      → on_frame e depth fuel cur_time cmd bytes data_len c ≡ (true, c)
  unfolding on_frame
  on_frame_ignored fuel cur_time cmd bytes data_len c h k = ground arith

  on_head_nonpos :
      (fuel cur_time : ℕ) (bytes : List ℕ) (pkg_len : ℤ) (cmd : ℕ) (c : Client e)
      → pkg_len ≤ℤ pos 0
      → 0 < len c.read_stream
      → 4 < cmd
      → cmd ≢ 7
      → (if ltb_ℤ (pos (length bytes)) pkg_len
          then (false, c)
          else skip_frame e depth pkg_len
              (on_frame e depth fuel cur_time cmd (drop 10 bytes) (minus pkg_len 10) c))
        ≡ (true, c)
  on_head_nonpos fuel cur_time bytes pkg_len cmd c h l k o =
      let fits : ltb_ℤ (pos (length bytes)) pkg_len ≡ false = le→ltb _ _ (omega arith) in
      rw (fits, on_frame_ignored fuel cur_time cmd (drop 10 bytes) (minus pkg_len 10) c k o)
        (unfold skip_frame in
          ap (λ (s : Stream). (true, record c { read_stream = s }))
            (skip_nonpos pkg_len c.read_stream h l))

  -- A round on such bytes goes on, and takes nothing off them.
  read_step-IsStuck :
      (fuel cur_time : ℕ) (c : Client e)
      → IsStuck c
      → read_step e depth fuel cur_time c ≡ (
        true,
        record c {
          flow = (decode_head (readable c.read_stream)).flow;
          magic = (decode_head (readable c.read_stream)).magic;
        },
      )
  unfolding read_step on_head
  read_step-IsStuck fuel cur_time c s =
      rw (le→ltb (len c.read_stream) 10 s.head_there, read_step)
        (on_head_nonpos fuel cur_time (readable c.read_stream)
          (signed32 (swap32 (decode_head (readable c.read_stream)).sec_pkg_len))
          (decode_head (readable c.read_stream)).cmd _ s.pkg_len (omega (arith, s.head_there)) s.cmd
          s.other_cmd)

  -- On such bytes the loop of `ReadStream` uses up any fuel that it is given: it never ends.
  pub read_loop-IsStuck :
      (kcp_fuel cur_time fuel : ℕ) (c : Client e)
      → IsStuck c
      → (read_loop e depth kcp_fuel cur_time fuel c).fault ≡ some exhausted
  unfolding read_loop
  read_loop-IsStuck kcp_fuel cur_time zero c s = refl
  read_loop-IsStuck kcp_fuel cur_time (suc fuel) c s =
      rw (read_step-IsStuck kcp_fuel cur_time c s) (
        read_loop-IsStuck kcp_fuel cur_time fuel _ (record {
          head_there = s.head_there;
          pkg_len = s.pkg_len;
          cmd = s.cmd;
          other_cmd = s.other_cmd;
        }))
