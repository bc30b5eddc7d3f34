-- ===== src/Client/Link/Connecting.antt =====
-- Connecting, the timeout and the relinks of connclient/src/conn_client.cpp keep a connection well
-- formed.
use defold_connclient.Prelude.{
  ℕ, suc, or_false_snd, and_true_fst, get_or, ◌≡◌, true, ◌==◌, if_elim_by, leb→lt, ◌<◌, refl, not,
  ◌||◌, inl, inr, List, length, leb, is_some, if_elim, Bool-cases, ℤ, pos, arith,
}
use defold_connclient.Client.State.{
  Env, Client, ConnState, cs_init, cs_connecting, cs_connected, cs_logic_connected, rank,
  relink_event,
}
use defold_connclient.Client.Send.{inner_close}
use defold_connclient.Client.Connect.{
  connect_tcp, connect_udp, connect_both, inner_connect, check_timeout, relink, relink_due,
  check_relink,
}
use defold_connclient.Client.Link.{link, Holds}
use defold_connclient.Client.Link.Closing.{inner_close-Holds, enqueue_out-Holds}
use defold_connclient.Client.Link.WellFormed.{count-IsSound}
use defold_connclient.Client.Link.Tracked.{Walk, sockets-Steady, Steady, Tracked, Tracked-Stable}
use defold_connclient.Client.Link.Entering.{inner_close-Tracked, set_conn_state-Tracked}

module _ (e : Env) (w : Walk) (depth : ℕ) where
  pub closes :
      (reason : ℤ) (c : Client e)
      → Holds (Tracked w) c
      → Holds (Tracked w) (inner_close e (suc depth) reason c)
  closes reason c h = inner_close-Holds e (Tracked w) (Tracked-Stable w) (suc depth) reason c h

  connect_both-Tracked :
      w.allowed cs_connecting
      → (c : Client e) → Holds (Steady w) c
      → Holds (Tracked w) (connect_both e (suc depth) c).1
  unfolding connect_both connect_tcp connect_udp
  connect_both-Tracked dial c h =
      let c1 = connect_tcp e (suc depth) c in
      let c2 = connect_udp e (suc depth) c1 in
      let first : Holds (Steady w) c1 = record {
        holds = sockets-Steady w (link c) c1.tcp_sock c.udp_sock h.holds;
      } in
      let second : Holds (Steady w) c2 = record {
        holds = sockets-Steady w (link c) c2.tcp_sock c2.udp_sock h.holds;
      } in
      elim (Bool-cases (is_some c1.tcp_sock)) [
        | inr t ↦ rw (t, connect_both) (inner_close-Tracked e w depth (pos 5) c1 first)
        | inl t ↦ elim (Bool-cases (is_some c2.udp_sock)) [
          | inr u ↦ rw (t, u, connect_both) (inner_close-Tracked e w depth (pos 5) c2 second)
          | inl u ↦
              rw (t, u, connect_both)
                (set_conn_state-Tracked e w cs_connecting c2 refl dial t u second)
        ]
      ]

  pub inner_connect-Tracked :
      w.allowed cs_connecting
      → (ip : List ℕ) (port : ℕ) (timeout_ms : ℤ) (c : Client e) → Holds (Steady w) c
      → Holds (Tracked w) (inner_connect e (suc depth) ip port timeout_ms c).1
  unfolding inner_connect
  inner_connect-Tracked dial ip port timeout_ms c h =
      connect_both-Tracked dial _ (record { holds = h.holds })

  pub check_timeout-Tracked :
      (now : ℕ) (c : Client e)
      → Holds (Tracked w) c
      → Holds (Tracked w) (check_timeout e (suc depth) now c)
  unfolding check_timeout
  check_timeout-Tracked now c h = if_elim (Holds (Tracked w)) _ _ _ (closes _ c h) h

  relink-Tracked :
      w.allowed cs_connecting
      → (c : Client e) → c.relink_count < length c.relink_interval_ms_vec
      → Holds (Tracked w) c
      → Holds (Tracked w) (relink e (suc depth) c)
  unfolding relink
  relink-Tracked dial c left h =
      let start : Client e = record c { relink_count = suc c.relink_count } in
      let s = h.holds.steady.sound in
      let connected = inner_connect-Tracked dial c.ip c.port (pos 0) start (record {
        holds = record {
          sound = count-IsSound (link c) (suc c.relink_count) (omega (arith, s.few, left)) s;
          state = h.holds.steady.state;
          within = h.holds.steady.within;
        };
      }) in
      if_elim (Holds (Tracked w)) _ _ _
        (enqueue_out-Holds e (Tracked w) (Tracked-Stable w) relink_event _ refl connected) connected

  -- Only a connection that is down is dialed again.
  pub check_relink-Tracked :
      (w.allowed cs_init → w.allowed cs_connecting)
      → (now : ℕ) (c : Client e) → Holds (Tracked w) c
      → Holds (Tracked w) (check_relink e (suc depth) now c)
  unfolding check_relink
  check_relink-Tracked dials now c h =
      let interval = get_or c.relink_interval_ms_vec c.relink_count (pos 0) in
      elim (Bool-cases (not c.running || leb (length c.relink_interval_ms_vec) c.relink_count)) [
        | inl off ↦ rw (off, check_relink) h
        | inr on ↦
            rw (on, check_relink)
              (if_elim_by (Holds (Tracked w)) (relink_due e depth now interval c)
                (relink e (suc depth) c) c
                (λ due.
                  relink-Tracked
                    (dials (at_init c.conn_state (and_true_fst _ _ due) h.holds.steady.state)) c
                    (leb→lt _ _ (or_false_snd _ _ on)) h)
                (λ early. h))
      ]
    where
      at_init : (s : ConnState) → (rank s == rank cs_init) ≡ true → w.allowed s → w.allowed cs_init
      at_init cs_init at a = a
      at_init cs_connecting at a = cc
      at_init cs_connected at a = cc
      at_init cs_logic_connected at a = cc
