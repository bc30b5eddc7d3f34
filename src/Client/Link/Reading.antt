-- ===== src/Client/Link/Reading.antt =====
-- Reading from the sockets in connclient/src/conn_client.cpp keeps a connection well formed.
use defold_connclient.Prelude.{
  ℕ, zero, suc, ◌<◌, ◌≡◌, refl, ◌∙◌, Bool, true, false, inl, inr, List, length, drop, ltb, ltb_ℤ,
  if_elim, if_elim_by, if_elim_snd, Bool-cases, ℤ, pos, negsuc, arith, tests, signed32,
}
use defold_connclient.Stream.{Stream, len, skip}
use defold_connclient.Stream.Buffer.{skip-IsValid}
use defold_connclient.Wire.{CsConnHead, swap32}
use defold_connclient.Client.State.{Env, Client, ConnState, cs_logic_connected}
use defold_connclient.Client.Ping.{connect_success, reconnect_success}
use defold_connclient.Client.Read.{
  read_step, read_loop, on_head, on_frame, skip_frame, minus, on_sync_label,
}
use defold_connclient.Client.Link.{link, Holds}
use defold_connclient.Client.Link.Handlers.{on_frame-Holds}
use defold_connclient.Client.Link.Pings.{connect_success-Holds, reconnect_success-Holds}
use defold_connclient.Client.Link.WellFormed.{is_open}
use defold_connclient.Client.Link.Tracked.{Walk, Tracked, Tracked-Stable}
use defold_connclient.Client.Link.Spending.{
  spend, spend-positive, spend-Steady, raise-Tracked, announce-Tracked,
}
use defold_connclient.Client.Link.Entering.{set_conn_state-Tracked}

len-skip_none : (n : ℤ) (s : Stream) → len s ≡ 0 → len (skip n s) ≡ 0
unfolding skip len
len-skip_none (negsuc n) s h = h
len-skip_none (pos n) s h = ground arith

module _ (e : Env) (w : Walk)
    (labels : (s : ConnState) → is_open s ≡ true → w.allowed s → w.allowed cs_logic_connected)
    (depth fuel cur_time : ℕ) where
  skip_frame-Tracked :
      (pkg_len : ℤ) (r : Bool × Client e)
      → Holds (Tracked w) r.1
      → Holds (Tracked w) (skip_frame e (suc depth) pkg_len r).1
  unfolding skip_frame
  skip_frame-Tracked pkg_len (false, c) h = h
  skip_frame-Tracked pkg_len (true, c) h =
      let s = h.holds.steady.sound in
      let l = h.holds.linked in
      record {
        holds = record {
          steady = record {
            sound = record {
              sent = s.sent;
              unread = skip-IsValid c.read_stream pkg_len s.unread;
              sorted = s.sorted;
              few = s.few;
              count = s.count;
            };
            state = h.holds.steady.state;
            within = h.holds.steady.within;
          };
          linked = record {
            tcp = l.tcp;
            udp = l.udp;
            idle = λ down. len-skip_none pkg_len c.read_stream (l.idle down);
          };
        };
      }

  synced-Tracked :
      (c : Client e)
      → is_open c.conn_state ≡ true
      → Holds (Tracked w) c
      → Holds (Tracked w) (on_sync_label e (suc depth) c)
  unfolding on_sync_label
  synced-Tracked c up h =
      let tcp = h.holds.linked.tcp ∙ up in
      let udp = h.holds.linked.udp ∙ up in
      let state = labels c.conn_state up h.holds.steady.state in
      if_elim_by (Holds (Tracked w)) c.is_first_connect
        (connect_success e (suc depth) (record c { is_first_connect = false }))
        (reconnect_success e (suc depth) c)
        (λ first.
          connect_success-Holds e (Tracked (spend 1 w)) (Tracked-Stable (spend 1 w)) (suc depth)
            (Tracked w) (raise-Tracked w 1)
            (announce-Tracked w (spend-positive w (link c) first h.holds.steady))
            (record c { is_first_connect = false })
            (set_conn_state-Tracked e (spend 1 w) cs_logic_connected
              (record c { is_first_connect = false }) refl state tcp udp
              (record { holds = spend-Steady w (link c) first h.holds.steady })))
        (λ again. reconnect_success-Holds e (Tracked w) (Tracked-Stable w) (suc depth) c (
          set_conn_state-Tracked e w cs_logic_connected c refl state tcp udp
            (record { holds = h.holds.steady })))

  on_head-Tracked :
      (bytes : List ℕ) (head : CsConnHead) (c : Client e)
      → is_open c.conn_state ≡ true
      → Holds (Tracked w) c
      → Holds (Tracked w) (on_head e (suc depth) fuel cur_time bytes head c).1
  unfolding on_head
  on_head-Tracked bytes head c up h =
      let pkg_len = signed32 (swap32 head.sec_pkg_len) in
      let framed =
        on_frame e (suc depth) fuel cur_time head.cmd (drop 10 bytes) (minus pkg_len 10) c in
      if_elim_snd {A = Bool} (Holds (Tracked w)) (ltb_ℤ (pos (length bytes)) pkg_len) (false, c)
        (skip_frame e (suc depth) pkg_len framed) h
        (skip_frame-Tracked pkg_len framed (
          on_frame-Holds e (Tracked w) (Tracked-Stable w) (suc depth) fuel cur_time head.cmd
            (drop 10 bytes) (minus pkg_len 10) c (synced-Tracked c up h) h))

  open_there :
      (c : Client e) → Holds (Tracked w) c → 0 < len c.read_stream → is_open c.conn_state ≡ true
  open_there c h there = elim (Bool-cases (is_open c.conn_state)) [
    | inl up ↦ up
    | inr shut ↦ absurd (omega (arith, h.holds.linked.idle shut, there))
  ]

  read_step-Tracked :
      (c : Client e)
      → Holds (Tracked w) c
      → Holds (Tracked w) (read_step e (suc depth) fuel cur_time c).1
  unfolding read_step
  read_step-Tracked c h = elim (Bool-cases (ltb (len c.read_stream) 10)) [
    | inl short ↦ rw (short, read_step) h
    | inr there ↦
        rw (there, read_step)
          (on_head-Tracked _ _ _ (open_there c h (omega tests)) (record { holds = h.holds }))
  ]

  pub read_loop-Tracked :
      (n : ℕ) (c : Client e)
      → Holds (Tracked w) c
      → Holds (Tracked w) (read_loop e (suc depth) fuel cur_time n c)
  unfolding read_loop
  read_loop-Tracked zero c h = record { holds = h.holds }
  read_loop-Tracked (suc n) c h =
      let next = read_step-Tracked c h in
      if_elim (Holds (Tracked w)) _ _ _ (read_loop-Tracked n _ next) next
