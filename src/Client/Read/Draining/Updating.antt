-- ===== src/Client/Read/Draining/Updating.antt =====
-- A message of the server in connclient/src/conn_client.cpp, from `InputToKcp` to `Update`.
use defold_connclient.Prelude.{
  ℕ, ◌%◌, ◌^◌, ◌<◌, ◌≡◌, refl, ap, ap₂, ◌∙◌, Bool, true, false, none, some, List, [], ◌++◌, map,
  length, is_zero, if◌then◌else◌, ℤ, pos, negsuc, ◌⊎◌, inl, inr,
}
use defold_connclient.KcpSession
use defold_connclient.KcpSession.{KcpLib, KcpSession, Received, message, failed}
use defold_connclient.Client.State.{Env, Client, output_event}
use defold_connclient.Client.Read.{drain, finish_drain, close_error, input_to_kcp}
use defold_connclient.Client.Api.{text, update, run_events}
use defold_connclient.Client.Api.Delivery.{run_events_outputs}
use defold_connclient.Client.Read.Draining.{
  Queue, ArePlain, bodies, bodies-AllNonempty, Drained, drain-Drained,
}

module _ (e : Env) (q : Queue e.lib) (depth f : ℕ) where
  -- `InputToKcp` after the input.
  abbrev after_input : ℕ → Client e → Bool → ℤ × KcpSession e.lib.Kcp → ℤ × Client e
  after_input fuel c null (ret, session) =
      let c' : Client e = record c { kcp_session = session } in
      if null
      then (negsuc 0, close_error e depth c)
      else if is_zero ret
      then finish_drain e depth (drain e depth fuel c')
      else (negsuc 0, close_error e depth c')

  input_some :
      (msg : List ℕ) (time : ℕ) (k : e.lib.Kcp) (s : KcpSession e.lib.Kcp)
      → s.kcp ≡ some k
      → (e.lib.input msg time k).0 ≡ pos 0
      → KcpSession.input e.lib msg time s
        ≡ (pos 0, record s { kcp = some (e.lib.input msg time k).1; update_now = true })
  unfolding KcpSession.input
  input_some msg time k s there ok =
      ap
        (λ o. elim o [
          | none ↦ (pos 0, s)
          | some k' ↦ (
            (e.lib.input msg time k').0,
            record s { kcp = some (e.lib.input msg time k').1; update_now = true },
          )
        ])
        there
      ∙ ap (λ a. (a, record s { kcp = some (e.lib.input msg time k).1; update_now = true })) ok

  -- The client whose session has taken an input.
  abbrev taking : Client e → e.lib.Kcp → Client e
  taking c k = record c { kcp_session = record c.kcp_session { kcp = some k; update_now = true } }

  input_to_kcp-drain :
      (fuel cur_time : ℕ) (msg : List ℕ) (k : e.lib.Kcp) (c : Client e)
      → c.kcp_session.kcp ≡ some k
      → (e.lib.input msg (cur_time % 2 ^ 32) k).0 ≡ pos 0
      → input_to_kcp e depth fuel msg cur_time c
        ≡ finish_drain e depth
            (drain e depth fuel (taking c (e.lib.input msg (cur_time % 2 ^ 32) k).1))
  unfolding input_to_kcp
  input_to_kcp-drain fuel cur_time msg k c there ok =
      ap₂ (after_input fuel c) (ap (λ o. elim o [ none ↦ true | some b ↦ false ]) there)
        (input_some msg (cur_time % 2 ^ 32) k c.kcp_session there ok)

  finish_drain_empty :
      (r : ℤ × Client e)
      → (r.0 ≡ negsuc 0) ⊎ (r.0 ≡ negsuc 1)
      → finish_drain e depth r ≡ (pos 0, r.1)
  unfolding finish_drain
  finish_drain_empty (ret, c) (inl h) = rw h refl
  finish_drain_empty (ret, c) (inr h) = rw h refl

  update-Drained :
      (callable : ℕ → Bool) (msgs : List (List ℕ)) (start : Client e) (r : ℤ × Client e)
      → Drained e q depth f [] msgs start r
      → ArePlain msgs
      → start.callbacks.output_cb ≡ some f
      → callable f ≡ true
      → (update e callable r.1).0
        ≡ map (λ body. record { callback = f; arg = text body }) (bodies msgs)
  unfolding update
  update-Drained callable msgs start r d plain set runs =
      ap (run_events e callable r.1) d.events
      ∙ run_events_outputs e callable r.1 f (bodies msgs) (ap (λ s. s.output_cb) d.set ∙ set) runs
          (bodies-AllNonempty msgs plain)

  -- Where the session has a control block whose input is taken, all messages that then wait are
  -- plain and fewer than the passes of the loop, the queue of events is empty, and the callback is
  -- set and callable, `InputToKcp` returns 0 without a fault, and the next `Update` calls the callback
  -- with each message behind its first byte, whole, once and in order. The library is taken to be a
  -- queue of the messages that have come whole.
  pub input_to_kcp-update :
      (callable : ℕ → Bool) (fuel cur_time : ℕ) (msg : List ℕ) (k : e.lib.Kcp) (c : Client e)
      → c.kcp_session.kcp ≡ some k
      → (e.lib.input msg (cur_time % 2 ^ 32) k).0 ≡ pos 0
      → ArePlain (q.pending (e.lib.input msg (cur_time % 2 ^ 32) k).1)
      → length (q.pending (e.lib.input msg (cur_time % 2 ^ 32) k).1) < fuel
      → c.callbacks.output_cb ≡ some f
      → callable f ≡ true
      → c.out_queue ≡ []
      → let r = input_to_kcp e depth fuel msg cur_time c in
        (r.0 ≡ pos 0)
        × (r.1.fault ≡ c.fault)
        × ((update e callable r.1).0
            ≡ map
                (λ body. record { callback = f; arg = text body })
                (bodies (q.pending (e.lib.input msg (cur_time % 2 ^ 32) k).1)))
  input_to_kcp-update callable fuel cur_time msg k c there ok plain enough set runs empty =
      let k' = (e.lib.input msg (cur_time % 2 ^ 32) k).1 in
      let msgs = q.pending k' in
      let d = drain-Drained e q depth f fuel msgs k' (taking c k') refl refl plain enough set in
      let from_empty : Drained e q depth f [] msgs c (drain e depth fuel (taking c k')) = record {
        code = d.code;
        events = d.events ∙ ap (λ b. b ++ map output_event (bodies msgs)) empty;
        set = d.set;
        fine = d.fine;
      } in
      rw
        (
          input_to_kcp-drain fuel cur_time msg k c there ok,
          finish_drain_empty (drain e depth fuel (taking c k')) d.code,
        )
        (refl, d.fine, update-Drained callable msgs c _ from_empty plain set runs)
