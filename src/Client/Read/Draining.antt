-- ===== src/Client/Read/Draining.antt =====
-- The loop of `InputToKcp` in connclient/src/conn_client.cpp.
pub mod Updating
use defold_connclient.Prelude.{
  ℕ, zero, suc, ◌%◌, ◌^◌, ◌≤◌, ◌<◌, ◌≡◌, refl, sym, ap, ap₂, ◌∙◌, subst, Bool, true, false, none,
  some, List, [], ◌∷◌, ◌++◌, map, length, is_zero, ◌==◌, if◌then◌else◌, ℤ, pos, negsuc, arith,
  append_assoc, append-nil, ◌⊎◌, inl, inr,
}
use defold_connclient.KcpSession
use defold_connclient.KcpSession.{KcpLib, KcpSession, Received, message, failed}
use defold_connclient.Wire.{control_disconnect}
use defold_connclient.Client.State.{Env, Client, Event, output_event}
use defold_connclient.Client.Send.{enqueue_out}
use defold_connclient.Client.Read.{
  output, on_kcp_message, drain, finish_drain, close_error, input_to_kcp, max_pkg_size,
}
use defold_connclient.Client.Api.{text, update, run_events}
use defold_connclient.Client.Api.Delivery.{AllNonempty, run_events_outputs}

-- The answer to a call for a message where no whole one is there: -1 with nothing received, -2 with
-- a part of a message.
abbrev pub HasNothing : Received → Type 0
HasNothing r = (r ≡ failed (negsuc 0)) ⊎ (r ≡ failed (negsuc 1))

-- The library as a queue of the messages that have come whole: `ikcp_recv` gives the oldest where it
-- fits, and -1 or -2 where there is none.
pub record Queue (lib : KcpLib) : Type 0 where
  pub pending : lib.Kcp → List (List ℕ)
  pub by_recv :
      (n : ℕ) (k : lib.Kcp) (msg : List ℕ) (rest : List (List ℕ))
      → pending k ≡ msg ∷ rest
      → length msg ≤ n
      → ((lib.recv n k).0 ≡ message msg) × (pending (lib.recv n k).1 ≡ rest)
  pub by_recv_none : (n : ℕ) (k : lib.Kcp) → pending k ≡ [] → HasNothing (lib.recv n k).0

-- Messages that fit, with a first byte that is not CONTROL_DISCONNECT and bytes behind it.
abbrev pub ArePlain : List (List ℕ) → Type 0
ArePlain [] = Unit {0}
ArePlain ([] ∷ rest) = ⊥
ArePlain ((cmd ∷ body) ∷ rest) =
    ((cmd == control_disconnect) ≡ false)
    × (0 < length body)
    × (length body < max_pkg_size)
    × ArePlain rest

abbrev pub bodies : List (List ℕ) → List (List ℕ)
bodies [] = []
bodies ([] ∷ rest) = bodies rest
bodies ((cmd ∷ body) ∷ rest) = body ∷ bodies rest

pub bodies-AllNonempty : (msgs : List (List ℕ)) → ArePlain msgs → AllNonempty (bodies msgs)
bodies-AllNonempty [] p = tt
bodies-AllNonempty ([] ∷ rest) p = absurd p
bodies-AllNonempty ((cmd ∷ body) ∷ rest) p = (p.1, bodies-AllNonempty rest p.3)

module _ (e : Env) (q : Queue e.lib) (depth f : ℕ) where
  on_kcp_message_plain :
      (cmd : ℕ) (body : List ℕ) (c : Client e)
      → (cmd == control_disconnect) ≡ false
      → 0 < length body
      → c.callbacks.output_cb ≡ some f
      → on_kcp_message e depth cmd body c ≡ enqueue_out e (output_event body) c
  unfolding on_kcp_message output
  on_kcp_message_plain cmd body c other full set = ground (arith, other, full, set)

  -- How the loop ends where all messages are plain.
  pub record Drained (before : List Event) (msgs : List (List ℕ)) (start : Client e)
      (r : ℤ × Client e) : Type 0 where
    pub code : (r.0 ≡ negsuc 0) ⊎ (r.0 ≡ negsuc 1)
    pub events : r.1.out_queue ≡ before ++ map output_event (bodies msgs)
    pub set : r.1.callbacks ≡ start.callbacks
    pub fine : r.1.fault ≡ start.fault

  -- A pass of the loop after the call of the library.
  abbrev after_recv : ℕ → Client e → Received × KcpSession e.lib.Kcp → ℤ × Client e
  after_recv fuel c (r, session) =
      let c' = record c { kcp_session = session } in
      elim r [
        | failed code ↦ (code, c')
        | message [] ↦ (pos 0, c')
        | message (cmd ∷ rest) ↦ drain e depth fuel (on_kcp_message e depth cmd rest c')
      ]

  abbrev with_block : Client e → e.lib.Kcp → KcpSession e.lib.Kcp
  with_block c k = record c.kcp_session { kcp = some k }

  recv_some :
      (k : e.lib.Kcp) (r : Received) (s : KcpSession e.lib.Kcp)
      → s.kcp ≡ some k
      → (e.lib.recv max_pkg_size k).0 ≡ r
      → KcpSession.recv e.lib max_pkg_size s
        ≡ (r, record s { kcp = some (e.lib.recv max_pkg_size k).1 })
  unfolding KcpSession.recv
  recv_some k r s there came =
      ap
        (λ o. elim o [
          | none ↦ (failed (pos 0), s)
          | some k' ↦ (
            (e.lib.recv max_pkg_size k').0,
            record s { kcp = some (e.lib.recv max_pkg_size k').1 },
          )
        ])
        there
      ∙ ap (λ a. (a, record s { kcp = some (e.lib.recv max_pkg_size k).1 })) came

  drain-recv :
      (fuel : ℕ) (k : e.lib.Kcp) (r : Received) (c : Client e)
      → c.kcp_session.kcp ≡ some k
      → (e.lib.recv max_pkg_size k).0 ≡ r
      → drain e depth (suc fuel) c
        ≡ after_recv fuel c (r, with_block c (e.lib.recv max_pkg_size k).1)
  unfolding drain
  drain-recv fuel k r c there came = ap (after_recv fuel c) (recv_some k r c.kcp_session there came)

  pub drain-Drained :
      (fuel : ℕ) (msgs : List (List ℕ)) (k : e.lib.Kcp) (c : Client e)
      → c.kcp_session.kcp ≡ some k
      → q.pending k ≡ msgs
      → ArePlain msgs
      → length msgs < fuel
      → c.callbacks.output_cb ≡ some f
      → Drained c.out_queue msgs c (drain e depth fuel c)
  unfolding enqueue_out
  drain-Drained zero msgs k c s p plain enough set = absurd (omega (arith, enough))
  drain-Drained (suc fuel) [] k c s p plain enough set = elim (q.by_recv_none max_pkg_size k p) [
    | inl nothing ↦
        subst (Drained c.out_queue [] c) (sym (drain-recv fuel k (failed (negsuc 0)) c s nothing))
          (record { code = inl refl; events = sym (append-nil _); set = refl; fine = refl })
    | inr part ↦
        subst (Drained c.out_queue [] c) (sym (drain-recv fuel k (failed (negsuc 1)) c s part))
          (record { code = inr refl; events = sym (append-nil _); set = refl; fine = refl })
  ]
  drain-Drained (suc fuel) ([] ∷ rest) k c s p plain enough set = absurd plain
  drain-Drained (suc fuel) ((cmd ∷ body) ∷ rest) k c s p plain enough set =
      let got = q.by_recv max_pkg_size k (cmd ∷ body) rest p (omega (arith, plain.2)) in
      let taken : Client e = record c {
        kcp_session = with_block c (e.lib.recv max_pkg_size k).1;
      } in
      let put = enqueue_out e (output_event body) taken in
      let later =
        drain-Drained fuel rest (e.lib.recv max_pkg_size k).1 put refl got.1 plain.3
          (omega (arith, enough)) set in
      subst (Drained c.out_queue ((cmd ∷ body) ∷ rest) c)
        (sym (
          drain-recv fuel k (message (cmd ∷ body)) c s got.0
          ∙ ap (drain e depth fuel) (on_kcp_message_plain cmd body taken plain.0 plain.1 set)))
        (record {
          code = later.code;
          events =
              later.events
              ∙ append_assoc c.out_queue (output_event body ∷ []) (map output_event (bodies rest));
          set = later.set;
          fine = later.fine;
        })
