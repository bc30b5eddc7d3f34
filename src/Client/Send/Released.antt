-- ===== src/Client/Send/Released.antt =====
-- The descriptors that `InnerClose` of connclient/src/conn_client.cpp closes.
use defold_connclient.Prelude.{
  ℕ, suc, ◌≡◌, refl, ap, ◌∙◌, ◌⊎◌, inl, inr, none, some, List, ℤ, pos, ◌≤ℤ◌, le→ltb, if_elim, arith,
}
use defold_connclient.Wire.{client_connect_error}
use defold_connclient.Os.{Fd, get_time_ms}
use defold_connclient.SocketApi.{closesocket_ex}
use defold_connclient.SocketApi.Descriptors.{Ledger, without}
use defold_connclient.KcpSession.{flush}
use defold_connclient.Client.State.{Env, Client, set_conn_state, now_ms, enter_state}
use defold_connclient.Client.Send.{
  Close, inner_close, close_reason, close_link, close_tcp, close_udp, notify_disconnect,
  enqueue_out, release_kcp, deliver,
}
use defold_connclient.Client.Send.Closing.{IsClosed, inner_close-IsClosed}

abbrev pub without_fd : Fd → List ℕ → List ℕ
without_fd none fds = fds
without_fd (some fd) fds = without fd fds

module _ (e : Env) (l : Ledger e.os) where
  -- The descriptors that are open without the two of the client.
  abbrev pub others : Client e → List ℕ
  others c = without_fd c.udp_sock (without_fd c.tcp_sock (l.opened c.os))

  close_tcp_opened :
      (c : Client e) → l.opened (close_tcp e c).os ≡ without_fd c.tcp_sock (l.opened c.os)
  unfolding close_tcp closesocket_ex
  close_tcp_opened c = go c.tcp_sock
    where
      go :
          (fd : Fd)
          → l.opened
              (elim fd as (λ x. Client e) [
                | none ↦ c
                | some d ↦ record c { os = (closesocket_ex e.os (some d) c.os).1; tcp_sock = none }
              ]).os
            ≡ without_fd fd (l.opened c.os)
      go none = refl
      go (some fd) = l.by_close fd c.os

  close_udp_opened :
      (c : Client e) → l.opened (close_udp e c).os ≡ without_fd c.udp_sock (l.opened c.os)
  unfolding close_udp closesocket_ex
  close_udp_opened c = go c.udp_sock
    where
      go :
          (fd : Fd)
          → l.opened
              (elim fd as (λ x. Client e) [
                | none ↦ c
                | some d ↦ record c { os = (closesocket_ex e.os (some d) c.os).1; udp_sock = none }
              ]).os
            ≡ without_fd fd (l.opened c.os)
      go none = refl
      go (some fd) = l.by_close fd c.os

  udp_sock-close_tcp : (c : Client e) → (close_tcp e c).udp_sock ≡ c.udp_sock
  unfolding close_tcp
  udp_sock-close_tcp c = ground arith

  close_link_opened : (c : Client e) → l.opened (close_link e c).os ≡ others c
  unfolding close_link set_conn_state now_ms get_time_ms enter_state
  close_link_opened c =
      l.by_clock _
      ∙ close_udp_opened (close_tcp e c)
      ∙ ap (λ fd. without_fd fd (l.opened (close_tcp e c).os)) (udp_sock-close_tcp c)
      ∙ ap (without_fd c.udp_sock) (close_tcp_opened c)

  notify_disconnect_opened :
      (reason : ℤ) (c : Client e) → l.opened (notify_disconnect e reason c).os ≡ l.opened c.os
  unfolding notify_disconnect enqueue_out
  notify_disconnect_opened reason c = ground arith

  -- With no control block there is nothing to flush.
  others-release_kcp :
      (close : Close e) (c : Client e)
      → c.kcp_session.kcp ≡ none
      → others (release_kcp e close c) ≡ others c
  unfolding release_kcp flush deliver
  others-release_kcp close c h = rw (h, flush) (unfold deliver in refl)

  -- A close that keeps the session, or one of a client without a control block, closes in the system
  -- exactly the two sockets of the client, and leaves open all others.
  pub inner_close_opened :
      (depth : ℕ) (reason : ℤ) (c : Client e)
      → (pos client_connect_error ≤ℤ close_reason e reason c) ⊎ (c.kcp_session.kcp ≡ none)
      → IsClosed (inner_close e (suc depth) reason c)
        × (l.opened (inner_close e (suc depth) reason c).os ≡ others c)
  unfolding inner_close
  inner_close_opened depth reason c (inl kept) = (
    inner_close-IsClosed e depth reason c,
    notify_disconnect_opened _ _ ∙ close_link_opened _ ∙ rw (le→ltb _ _ kept) refl,
  )
  inner_close_opened depth reason c (inr null) = (
    inner_close-IsClosed e depth reason c,
    notify_disconnect_opened _ _
        ∙ close_link_opened _
        ∙ if_elim (λ (x : Client e). others x ≡ others c) _ _ _
            (others-release_kcp (inner_close e depth) c null) refl,
  )
