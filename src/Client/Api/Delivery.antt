-- ===== src/Client/Api/Delivery.antt =====
-- How the callbacks of connclient/src/conn_client.cpp get their values.
use defold_connclient.Prelude.{
  ℕ, ◌<◌, ◌≡◌, append_assoc, lt→ltb, refl, sym, ap, ap₂, ◌∙◌, Bool, true, some, List, [], ◌∷◌, ◌++◌,
  map, length, pos, arith,
}
use defold_connclient.Client.State.{Env, Client, Event, disconnect_event, output_event}
use defold_connclient.Client.Send.{notify_disconnect, enqueue_out}
use defold_connclient.Client.Api.{
  text, number, lua_arg, call_lua_callback, run_event, run_events, update,
}

-- Every message has a byte.
abbrev pub AllNonempty : List (List ℕ) → Type 0
AllNonempty [] = Unit {0}
AllNonempty (msg ∷ msgs) = (0 < length msg) × AllNonempty msgs

module _ (e : Env) (callable : ℕ → Bool) where
  run_events-append :
      (c : Client e) (xs ys : List Event)
      → run_events e callable c (xs ++ ys)
        ≡ run_events e callable c xs ++ run_events e callable c ys
  unfolding run_events
  run_events-append c [] ys = refl
  run_events-append c (x ∷ xs) ys =
      ap (◌++◌ (run_event e callable c x)) (run_events-append c xs ys)
      ∙ sym (append_assoc (run_event e callable c x) _ _)

  pub run_events_outputs :
      (c : Client e) (f : ℕ) (msgs : List (List ℕ))
      → c.callbacks.output_cb ≡ some f
      → callable f ≡ true
      → AllNonempty msgs
      → run_events e callable c (map output_event msgs)
        ≡ map (λ msg. record { callback = f; arg = text msg }) msgs
  unfolding run_events run_event call_lua_callback lua_arg
  run_events_outputs c f [] h k n = refl
  run_events_outputs c f (msg ∷ msgs) h k n =
      rw (h, k, lt→ltb 0 (length msg) n.0)
        (ap (◌∷◌ (record { callback = f; arg = text msg })) (run_events_outputs c f msgs h k n.1))

  run_events_disconnect :
      (c : Client e) (g reason : ℕ)
      → c.callbacks.disconnect_cb ≡ some g
      → callable g ≡ true
      → run_events e callable c (disconnect_event (pos reason) ∷ [])
        ≡ record { callback = g; arg = number (pos reason) } ∷ []
  unfolding run_events run_event call_lua_callback lua_arg
  run_events_disconnect c g reason k kg = ground arith

  notify_disconnect_set :
      (c : Client e) (g reason : ℕ)
      → c.callbacks.disconnect_cb ≡ some g
      → notify_disconnect e (pos reason) c ≡ enqueue_out e (disconnect_event (pos reason)) c
  unfolding notify_disconnect
  notify_disconnect_set c g reason k = ground arith

  -- With both callbacks set and callable, a queue of messages that are not empty, and behind it a
  -- disconnect that is put in with a reason: `Update` hands over each message whole and once, in
  -- the order in which they came, then exactly that reason, and leaves the queue empty.
  pub update_outputs :
      (c : Client e) (f g reason : ℕ) (msgs : List (List ℕ))
      → c.callbacks.output_cb ≡ some f
      → c.callbacks.disconnect_cb ≡ some g
      → callable f ≡ true
      → callable g ≡ true
      → AllNonempty msgs
      → c.out_queue ≡ map output_event msgs
      → let c' = notify_disconnect e (pos reason) c in
        ((update e callable c').0
          ≡ map (λ msg. record { callback = f; arg = text msg }) msgs
            ++ record { callback = g; arg = number (pos reason) } ∷ [])
        × ((update e callable c').1.out_queue ≡ [])
  update_outputs c f g reason msgs h k hf kg n q = rw (notify_disconnect_set c g reason k) (
      unfold update enqueue_out in
      (
        ap (λ xs. run_events e callable after' (xs ++ disconnect_event (pos reason) ∷ [])) q
            ∙ run_events-append after' (map output_event msgs) (disconnect_event (pos reason) ∷ [])
            ∙ ap₂ ◌++◌ (run_events_outputs after' f msgs h hf n)
                (run_events_disconnect after' g reason k kg),
        refl,
      ))
    where
      after' : Client e
      after' = record c { out_queue = c.out_queue ++ disconnect_event (pos reason) ∷ [] }
