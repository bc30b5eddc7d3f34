-- ===== src/Client/Link/Closing.antt =====
-- What a close of connclient/src/conn_client.cpp does to the connection.
use defold_connclient.Prelude.{
  ℕ, zero, suc, ◌≡◌, refl, subst, sym, false, ltb_ℤ, if_elim, ℤ, pos, arith,
}
use defold_connclient.Stream.{reset}
use defold_connclient.KcpSession.{Received, message, failed, is_null}
use defold_connclient.KcpSession
use defold_connclient.Client.State.{
  Env, Client, Event, disconnect_event, now_ms, set_conn_state, enter_state,
}
use defold_connclient.Client.Send.{
  Close, inner_close, close_link, close_tcp, close_udp, notify_disconnect, enqueue_out, release_kcp,
  close_reason,
}
use defold_connclient.Client.Send.Keeps.{Keeps, deliver_keeps}
use defold_connclient.Client.Link.{Link, link, down, is_success, Holds, Stable}

module _ (e : Env) where
  pub close_link-link : (c : Client e) → link (close_link e c) ≡ down (link c)
  unfolding close_link close_tcp close_udp set_conn_state now_ms enter_state reset
  close_link-link c = ground arith

module _ (e : Env) (Q : Link → Type 0) where
  pub Holds-link : (c d : Client e) → link d ≡ link c → Holds Q c → Holds Q d
  Holds-link c d same h = record { holds = subst Q (sym same) h.holds }

module _ (e : Env) (Q : Link → Type 0) (stable : Stable Q) where
  pub enqueue_out-Holds :
      (event : Event) (c : Client e)
      → is_success event ≡ false
      → Holds Q c
      → Holds Q (enqueue_out e event c)
  unfolding enqueue_out
  enqueue_out-Holds event c other h = record {
    holds = stable.by_event event (link c) other h.holds;
  }

  notify_disconnect-Holds :
      (reason : ℤ) (c : Client e) → Holds Q c → Holds Q (notify_disconnect e reason c)
  unfolding notify_disconnect
  notify_disconnect-Holds reason c h =
      if_elim (Holds Q) _ _ _ (enqueue_out-Holds (disconnect_event reason) c refl h) h

  close_link-enters :
      (R : Link → Type 0)
      → ((k : Link) → Q k → R (down k))
      → (c : Client e) → Holds Q c
      → Holds R (close_link e c)
  close_link-enters R enter c h = record {
    holds = subst R (sym (close_link-link e c)) (enter (link c) h.holds);
  }

  pub Holds-Keeps :
      (close : Close e)
      → ((reason : ℤ) (c : Client e) → Holds Q c → Holds Q (close reason c))
      → Keeps e (Holds Q) close
  Holds-Keeps close by_close = record {
    by_close = by_close;
    by_io =
        λ os ws writable c valid h. record { holds = stable.by_write (link c) ws valid h.holds };
  }

  pub release_kcp-Holds :
      (close : Close e)
      → ((reason : ℤ) (c : Client e) → Holds Q c → Holds Q (close reason c))
      → (c : Client e) → Holds Q c
      → Holds Q (release_kcp e close c)
  unfolding release_kcp
  release_kcp-Holds close by_close c h =
      let sent =
        deliver_keeps e (Holds Q) close (Holds-Keeps close by_close)
          (KcpSession.flush e.lib c.kcp_session).1
          (record c { kcp_session = (KcpSession.flush e.lib c.kcp_session).0 })
          (record { holds = h.holds }) in
      record { holds = sent.holds }

  pub inner_close-Holds :
      (depth : ℕ) (reason : ℤ) (c : Client e) → Holds Q c → Holds Q (inner_close e depth reason c)
  unfolding inner_close
  inner_close-Holds zero reason c h = record { holds = h.holds }
  inner_close-Holds (suc depth) reason c h = notify_disconnect-Holds _ _ (
      close_link-enters Q stable.by_close _ (
        if_elim (Holds Q) _ _ _
          (release_kcp-Holds (inner_close e depth) (λ r d. inner_close-Holds depth r d) c h) h))

  pub keeps : (depth : ℕ) → Keeps e (Holds Q) (inner_close e depth)
  keeps depth = Holds-Keeps (inner_close e depth) (λ r d. inner_close-Holds depth r d)

module _ (e : Env) (Q : Link → Type 0) (stable : Stable Q) where
  -- A close from any state enters what holds of a connection that is down.
  pub inner_close-enters :
      (R : Link → Type 0)
      → Stable R
      → ((k : Link) → Q k → R (down k))
      → (depth : ℕ) (reason : ℤ) (c : Client e) → Holds Q c
      → Holds R (inner_close e (suc depth) reason c)
  unfolding inner_close
  inner_close-enters R stable_r enter depth reason c h =
      let released =
        if_elim (Holds Q) (ltb_ℤ (close_reason e reason c) (pos 5))
          (release_kcp e (inner_close e depth) c) c
          (release_kcp-Holds e Q stable (inner_close e depth)
            (λ r d. inner_close-Holds e Q stable depth r d) c h)
          h in
      notify_disconnect-Holds e R stable_r _ _ (close_link-enters e Q stable R enter _ released)
