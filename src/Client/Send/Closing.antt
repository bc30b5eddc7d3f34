-- ===== src/Client/Send/Closing.antt =====
-- What a close of connclient/src/conn_client.cpp leaves behind, and that it ends.
use defold_connclient.Prelude.{
  ℕ, zero, suc, ◌≡◌, refl, ap, ◌∙◌, Bool, true, false, none, List, [], ◌∷◌, ◌++◌, leb_ℤ, is_some,
  ◌&&◌, if◌then◌else◌, ℤ, pos, ◌<ℤ◌, ◌≤ℤ◌, arith, if_elim, lt→ltb, le→ltb, le→leb,
}
use defold_connclient.Stream
use defold_connclient.Stream.{Stream}
use defold_connclient.KcpSession.{flush, release}
use defold_connclient.Wire.{client_connect_error}
use defold_connclient.Client.State.{
  Env, Client, ConnClient, Event, disconnect_event, cs_init, now_ms, set_conn_state, enter_state,
}
use defold_connclient.Client.Send.{
  Close, inner_close, release_kcp, close_link, close_tcp, close_udp, notify_disconnect,
  close_reason, enqueue_out,
}
use defold_connclient.Client.Send.Keeps.{Keeps, deliver_keeps}

-- The members that no close and no send writes.
pub record Frame {O K : Type 0} (b c : ConnClient O K) : Type 0 where
  pub callbacks : c.callbacks ≡ b.callbacks
  pub relink_interval_ms_vec : c.relink_interval_ms_vec ≡ b.relink_interval_ms_vec
  pub relink_count : c.relink_count ≡ b.relink_count
  pub in_queue : c.in_queue ≡ b.in_queue
  pub ip : c.ip ≡ b.ip
  pub port : c.port ≡ b.port
  pub flow : c.flow ≡ b.flow
  pub joinable : c.joinable ≡ b.joinable
  pub is_first_connect : c.is_first_connect ≡ b.is_first_connect
  pub connect_timeout_ms : c.connect_timeout_ms ≡ b.connect_timeout_ms

pub Frame-refl : {O K : Type 0} (c : ConnClient O K) → Frame c c
Frame-refl c = ground arith

module _ (e : Env) where
  -- Each member that `close_link` and `notify_disconnect` leave alone.
  close_link-Frame : (b c : Client e) → Frame b c → Frame b (close_link e c)
  unfolding close_link close_tcp close_udp set_conn_state now_ms enter_state
  close_link-Frame b c f = ground arith

  notify_disconnect-Frame :
      (reason : ℤ) (b c : Client e) → Frame b c → Frame b (notify_disconnect e reason c)
  unfolding notify_disconnect enqueue_out
  notify_disconnect-Frame reason b c f = ground arith

  pub Frame-Keeps :
      (b : Client e) (close : Close e)
      → ((reason : ℤ) (c : Client e) → Frame b c → Frame b (close reason c))
      → Keeps e (Frame b) close
  Frame-Keeps b close by_close = record {
    by_close = by_close;
    by_io = λ os ws writable c valid f. ground arith;
  }

  -- The sends of the flush keep them too, by `deliver_keeps`.
  release_kcp-Frame :
      (b : Client e) (close : Close e)
      → ((reason : ℤ) (c : Client e) → Frame b c → Frame b (close reason c))
      → (c : Client e) → Frame b c
      → Frame b (release_kcp e close c)
  unfolding release_kcp
  release_kcp-Frame b close by_close c f =
      let sent =
        deliver_keeps e (Frame b) close (Frame-Keeps b close by_close) (flush e.lib c.kcp_session).1
          (record c { kcp_session = (flush e.lib c.kcp_session).0 }) (ground arith) in
      ground (arith, sent)

  pub inner_close-Frame :
      (depth : ℕ) (reason : ℤ) (b c : Client e) → Frame b c → Frame b (inner_close e depth reason c)
  unfolding inner_close
  inner_close-Frame zero reason b c f = ground arith
  inner_close-Frame (suc depth) reason b c f = notify_disconnect-Frame _ b _ (
      close_link-Frame b _ (
        if_elim (Frame b) _ _ _
          (release_kcp-Frame b (inner_close e depth) (λ r c'. inner_close-Frame depth r b c') c f)
          f))

-- Both descriptors are -1, nothing is buffered, and the write flag is ready for the next connect.
pub record IsClosed {O K : Type 0} (c : ConnClient O K) : Type 0 where
  pub tcp_sock : c.tcp_sock ≡ none
  pub udp_sock : c.udp_sock ≡ none
  pub conn_state : c.conn_state ≡ cs_init
  pub tcp_writable : c.tcp_writable ≡ true
  pub unsent : (c.write_stream.rpos ≡ 0) × (c.write_stream.size ≡ 0)
  pub unread : (c.read_stream.rpos ≡ 0) × (c.read_stream.size ≡ 0)

-- Whether the callback for a disconnect is run.
abbrev pub notifies : {O K : Type 0} → ℤ → ConnClient O K → Bool
notifies reason c = leb_ℤ (pos 0) reason && is_some c.callbacks.disconnect_cb

module _ (e : Env) where
  close_link-IsClosed : (c : Client e) → IsClosed (close_link e c)
  unfolding close_link close_tcp close_udp set_conn_state now_ms enter_state Stream.reset
  close_link-IsClosed c = ground arith

  notify_disconnect-IsClosed :
      (reason : ℤ) (c : Client e) → IsClosed c → IsClosed (notify_disconnect e reason c)
  unfolding notify_disconnect enqueue_out
  notify_disconnect-IsClosed reason c h = ground arith

  -- Whatever the reason and the state, and whatever the sends of the flush do, a close leaves the
  -- client closed.
  pub inner_close-IsClosed :
      (depth : ℕ) (reason : ℤ) (c : Client e) → IsClosed (inner_close e (suc depth) reason c)
  unfolding inner_close
  inner_close-IsClosed depth reason c = notify_disconnect-IsClosed _ _ (close_link-IsClosed _)

  -- What the end of a close adds to the state before it.
  pub link_end :
      (reason : ℤ) (c : Client e)
      → let c' = notify_disconnect e reason (close_link e c) in
        (c'.kcp_session ≡ c.kcp_session)
        × (c'.running ≡ c.running)
        × (c'.fault ≡ c.fault)
        × (c'.out_queue ≡ (
            if notifies reason c then c.out_queue ++ disconnect_event reason ∷ [] else c.out_queue))
  unfolding notify_disconnect enqueue_out close_link close_tcp close_udp set_conn_state now_ms
      enter_state
  link_end reason c = ground arith

  release_kcp_lem :
      (close : Close e) (c : Client e)
      → ((release_kcp e close c).kcp_session.kcp ≡ none) × ((release_kcp e close c).running ≡ false)
  unfolding release_kcp release
  release_kcp_lem close c = (refl, refl)

  -- A close whose reason, after `close_reason`, is below CLIENT_CONNECT_ERROR ends the session: the
  -- control block is released, the loop of the net thread is to stop, and where the reason is not
  -- negative and the callback is set, the last event is a disconnect with that reason.
  pub inner_close_final :
      (depth : ℕ) (reason : ℤ) (c : Client e)
      → close_reason e reason c <ℤ pos client_connect_error
      → let c' = inner_close e (suc depth) reason c in
        (c'.kcp_session.kcp ≡ none)
        × (c'.running ≡ false)
        × ((before : List Event) × (c'.out_queue ≡ (
              if notifies (close_reason e reason c) c
              then before ++ disconnect_event (close_reason e reason c) ∷ []
              else before)))
  unfolding inner_close
  inner_close_final depth reason c h =
      let r = release_kcp e (inner_close e depth) c in
      let end = link_end (close_reason e reason c) r in
      let f =
        release_kcp-Frame e c (inner_close e depth)
          (λ reason' c'. inner_close-Frame e depth reason' c c') c (Frame-refl c) in
      rw (lt→ltb _ _ h, inner_close)
        (
          ap (λ session. session.kcp) end.0 ∙ (release_kcp_lem (inner_close e depth) c).0,
          end.1 ∙ (release_kcp_lem (inner_close e depth) c).1,
          (
            r.out_queue,
            end.3
                ∙ ap
                    (λ callbacks.
                      if leb_ℤ (pos 0) (close_reason e reason c) && is_some callbacks.disconnect_cb
                      then r.out_queue ++ disconnect_event (close_reason e reason c) ∷ []
                      else r.out_queue)
                    f.callbacks,
          ),
        )

  -- A close whose reason, after `close_reason`, is CLIENT_CONNECT_ERROR or above keeps the session,
  -- the loop's flag and the fault as they were, and adds one disconnect event with that reason to
  -- the queue if the callback is set, and nothing else.
  pub inner_close_relinks :
      (depth : ℕ) (reason : ℤ) (c : Client e)
      → pos client_connect_error ≤ℤ close_reason e reason c
      → let c' = inner_close e (suc depth) reason c in
        (c'.kcp_session ≡ c.kcp_session)
        × (c'.running ≡ c.running)
        × (c'.fault ≡ c.fault)
        × (c'.out_queue ≡ (
            if is_some c.callbacks.disconnect_cb
            then c.out_queue ++ disconnect_event (close_reason e reason c) ∷ []
            else c.out_queue))
  unfolding inner_close
  inner_close_relinks depth reason c h =
      rw (le→ltb _ _ h, inner_close)
        (let end = link_end (close_reason e reason c) c in (end.0, end.1, end.2, end.3 ∙ rw nonneg))
    where
      nonneg : leb_ℤ (pos 0) (close_reason e reason c) ≡ true
      nonneg = le→leb _ _ (omega arith)
