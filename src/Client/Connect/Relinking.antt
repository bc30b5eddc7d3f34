-- ===== src/Client/Connect/Relinking.antt =====
-- The relinks of connclient/src/conn_client.cpp: how often they are tried, and when a failure is
-- final.
use defold_connclient.Prelude.{
  or_false_fst, or_false_snd, of_not, ℕ, suc, ◌+◌, ◌%◌, ◌≤◌, ◌<◌, ◌≡◌, ◌∙◌, ◌⊎◌, inl, inr, true,
  false, not, ◌||◌, none, List, [], ◌∷◌, ◌++◌, length, get_or, leb, is_some, lt→ltb, le→ltb, leb→lt,
  le→leb, lt→leb, if◌then◌else◌, ℤ, pos, pos_part, neg_part, arith, Bool-cases,
}
use defold_connclient.Wire.{client_connect_timeout, client_connect_error}
use defold_connclient.Client.State.{
  Env, Client, Event, cs_init, cs_logic_connected, rank, disconnect_event, now_ms, set_conn_state,
  enter_state,
}
use defold_connclient.Client.Send.{enqueue_out, close_reason}
use defold_connclient.Client.Send.Closing.{
  Frame, Frame-refl, inner_close-Frame, inner_close_final, inner_close-IsClosed, IsClosed,
}
use defold_connclient.Client.Connect.{
  connect_tcp, connect_udp, connect_both, inner_connect, check_timeout, relink, check_relink,
  relink_due, timeout_of,
}

module _ (e : Env) (depth : ℕ) where
  pub connect_both-Frame : (b c : Client e) → Frame b c → Frame b (connect_both e depth c).1
  unfolding connect_both connect_tcp connect_udp set_conn_state now_ms enter_state
  connect_both-Frame b c f = ground (
    arith,
    inner_close-Frame e depth (pos client_connect_error) b (connect_tcp e depth c) (ground arith),
    inner_close-Frame e depth (pos client_connect_error) b
        (connect_udp e depth (connect_tcp e depth c)) (ground arith),
  )

  -- A relink counts one, whether its connect succeeds or fails.
  relink_count-relink :
      (c : Client e)
      → ((relink e depth c).relink_count ≡ suc c.relink_count)
        × ((relink e depth c).relink_interval_ms_vec ≡ c.relink_interval_ms_vec)
  unfolding relink inner_connect enqueue_out
  relink_count-relink c =
      let start : Client e = record c {
        relink_count = suc c.relink_count;
        port = c.port % 65536;
        connect_timeout_ms = timeout_of (pos 0) c.connect_timeout_ms;
      } in
      ground (arith, connect_both-Frame start start (Frame-refl start))

  -- `CheckRelink` changes nothing, or tries one relink and counts it: that it does only while the
  -- loop runs, in the state CS_INIT, with an interval left and once that interval has passed since
  -- the state was entered. The intervals stay as they were.
  pub check_relink-count :
      (now : ℕ) (c : Client e)
      → let c' = check_relink e depth now c in
        let interval = get_or c.relink_interval_ms_vec c.relink_count (pos 0) in
        (c' ≡ c)
        ⊎ ((c'.relink_count ≡ suc c.relink_count)
            × (c'.relink_interval_ms_vec ≡ c.relink_interval_ms_vec)
            × (c.relink_count < length c.relink_interval_ms_vec)
            × (c.running ≡ true)
            × (c.conn_state ≡ cs_init)
            × (c.conn_state_ts + pos_part interval < now + neg_part interval))
  unfolding check_relink
  check_relink-count now c =
      elim (Bool-cases (not c.running || leb (length c.relink_interval_ms_vec) c.relink_count)) [
        | inl off ↦ inl (rw (off, check_relink))
        | inr on ↦
            elim (Bool-cases
              (relink_due e depth now (get_or c.relink_interval_ms_vec c.relink_count (pos 0)) c)) [
                | inr early ↦ inl (rw (on, check_relink, early))
                | inl due ↦ inr (
                    rw (on, check_relink, due)
                      (
                        (relink_count-relink c).0,
                        (relink_count-relink c).1,
                        (leb→lt _ _ (or_false_snd _ _ on)),
                        of_not _ (or_false_fst _ _ on),
                        ground arith,
                        ground arith,
                      ))
              ]
      ]

  pub close_reason_kept :
      (reason : ℤ) (c : Client e)
      → c.relink_count < length c.relink_interval_ms_vec
      → close_reason e reason c ≡ reason
  unfolding close_reason
  close_reason_kept reason c left = rw (lt→leb _ _ left)

  pub close_reason_final :
      (reason : ℤ) (c : Client e)
      → length c.relink_interval_ms_vec ≤ c.relink_count
      → close_reason e reason c ≡ pos client_connect_timeout
  unfolding close_reason
  close_reason_final reason c gone = rw (le→leb _ _ gone)

  -- A connect that lasts too long with no interval left is given up for good: the client is closed,
  -- the session ends, the loop is to stop, and the last event is a disconnect for
  -- CLIENT_CONNECT_TIMEOUT, if a callback is set for it.
  pub check_timeout_final :
      (now : ℕ) (c : Client e)
      → 0 < rank c.conn_state
      → rank c.conn_state < rank cs_logic_connected
      → c.conn_state_ts + c.connect_timeout_ms < now
      → length c.relink_interval_ms_vec ≤ c.relink_count
      → let c' = check_timeout e (suc depth) now c in
        IsClosed c'
        × (c'.kcp_session.kcp ≡ none)
        × (c'.running ≡ false)
        × ((before : List Event) × (c'.out_queue ≡ (
              if is_some c.callbacks.disconnect_cb
              then before ++ disconnect_event (pos client_connect_timeout) ∷ []
              else before)))
  unfolding check_timeout
  check_timeout_final now c some' below late gone =
      rw (lt→ltb _ _ some', check_timeout, lt→ltb _ _ below, lt→ltb _ _ late, le→ltb _ _ gone)
        (let final = inner_close_final e depth (pos 4) c (rw reason (omega arith)) in
          (
            inner_close-IsClosed e depth (pos 4) c,
            final.0,
            final.1,
            (final.2.0, final.2.1 ∙ rw reason),
          ))
    where
      reason : close_reason e (pos 4) c ≡ pos 4
      reason = close_reason_final (pos 4) c gone
