-- ===== src/Client/Blocking/Destroyed.antt =====
-- What the destructor of connclient/src/conn_client.cpp gives back.
use defold_connclient.Prelude.{
  ℕ, suc, ◌≡◌, refl, ap, ◌∙◌, Bool, true, false, inr, subst, List, if◌then◌else◌, pos, negsuc, none,
  some, arith, ◌<ℤ◌,
}
use defold_connclient.Os.{Fd}
use defold_connclient.Wire.{client_connect_error}
use defold_connclient.SocketApi.{closesocket_ex}
use defold_connclient.SocketApi.Descriptors.{Ledger}
use defold_connclient.Client.State.{Env, Client}
use defold_connclient.Client.Send.{inner_close, close_reason}
use defold_connclient.Client.Send.Closing.{Frame, Frame-refl, inner_close-Frame, inner_close_final}
use defold_connclient.Client.Send.Released.{without_fd, others, inner_close_opened}
use defold_connclient.Client.System.{Action, run}
use defold_connclient.Client.Blocking.{close_pipe, destroy}

module _ (e : Env) (l : Ledger e.os) where
  -- What the last step of the destructor leaves of the system and of the loop.
  pub record Left (opened : List ℕ) (c : Client e) : Type 0 where
    pub opened_left : l.opened c.os ≡ opened
    pub joined : c.joinable ≡ false
    pub stopped : c.running ≡ false
    pub session : c.kcp_session.kcp ≡ none

  close_pipe-Left :
      (r0 r1 : Fd) (opened : List ℕ) (c : Client e)
      → Left opened c
      → Left (without_fd r1 (without_fd r0 opened)) (close_pipe e r0 r1 c)
  unfolding close_pipe closesocket_ex
  close_pipe-Left none none opened c h = h
  close_pipe-Left none (some b) opened c h = record {
    opened_left = l.by_close b c.os ∙ ap (without_fd (some b)) h.opened_left;
    joined = h.joined;
    stopped = h.stopped;
    session = h.session;
  }
  close_pipe-Left (some a) none opened c h = record {
    opened_left = l.by_close a c.os ∙ ap (without_fd (some a)) h.opened_left;
    joined = h.joined;
    stopped = h.stopped;
    session = h.session;
  }
  close_pipe-Left (some a) (some b) opened c h = record {
    opened_left =
        l.by_close b _
        ∙ ap (without_fd (some b)) (l.by_close a c.os ∙ ap (without_fd (some a)) h.opened_left);
    joined = h.joined;
    stopped = h.stopped;
    session = h.session;
  }

  -- The close of the user is one that ends the session, with intervals left or not.
  close_reason_user : (c : Client e) → close_reason e (negsuc 0) c <ℤ pos client_connect_error
  unfolding close_reason
  close_reason_user c = ground arith

  inner_close-Left :
      (depth : ℕ) (c : Client e)
      → c.joinable ≡ false
      → c.kcp_session.kcp ≡ none
      → Left (others e l c) (inner_close e (suc depth) (negsuc 0) c)
  inner_close-Left depth c joined null =
      let frame : Frame c (inner_close e (suc depth) (negsuc 0) c) =
        inner_close-Frame e (suc depth) (negsuc 0) c c (Frame-refl c) in
      let final = inner_close_final e depth (negsuc 0) c (close_reason_user c) in
      record {
        opened_left = (inner_close_opened e l depth (negsuc 0) c (inr null)).1;
        joined = frame.joinable ∙ joined;
        stopped = final.1;
        session = final.0;
      }

  -- The mark of a joined thread changes nothing else.
  unjoined :
      (joinable : Bool) (ended stopped : Client e)
      → stopped.joinable ≡ joinable
      → let marked : Client e = if joinable then record ended { joinable = false } else stopped in
        let plain = if joinable then ended else stopped in
        (marked.joinable ≡ false)
        × (others e l marked ≡ others e l plain)
        × (marked.kcp_session.kcp ≡ plain.kcp_session.kcp)
  unjoined true ended stopped h = (refl, refl, refl)
  unjoined false ended stopped h = (h, refl, refl)

module _ (e : Env) (depth kcp_fuel frame_fuel : ℕ) (callable : ℕ → Bool) where
  -- The client once its thread is told to stop and has ended: `rest` is what it still did.
  abbrev pub at_join : List Action → Client e → Client e
  at_join rest c =
      let stopped : Client e = record c { running = false } in
      if c.joinable then run e (suc depth) kcp_fuel frame_fuel callable rest stopped else stopped

  -- Where the client has no control block of KCP once its thread has ended, the destructor closes in
  -- the system exactly the two sockets that the client has then and the two ends of the pipe, and
  -- leaves open all else; the thread is joined and the loop told to stop.
  pub destroy-Left :
      (l : Ledger e.os) (rest : List Action) (pipe0 pipe1 : Fd) (c : Client e)
      → (at_join rest c).kcp_session.kcp ≡ none
      → Left e l
          (without_fd pipe1 (without_fd pipe0 (others e l (at_join rest c))))
          (destroy e (suc depth) kcp_fuel frame_fuel callable rest pipe0 pipe1 c)
  unfolding destroy
  destroy-Left l rest pipe0 pipe1 c null =
      let stopped : Client e = record c { running = false } in
      let ended = run e (suc depth) kcp_fuel frame_fuel callable rest stopped in
      let j = unjoined e l c.joinable ended stopped refl in
      close_pipe-Left e l pipe0 pipe1 _ _ (
        subst
          (λ (opened : List ℕ). Left e l opened (
            inner_close e (suc depth) (negsuc 0)
              (if c.joinable then record ended { joinable = false } else stopped)))
          j.1 (inner_close-Left e l depth _ j.0 (j.2 ∙ null)))
