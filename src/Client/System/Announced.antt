-- ===== src/Client/System/Announced.antt =====
-- How often connclient/src/conn_client.cpp announces a first connect.
use defold_connclient.Prelude.{ℕ, suc, ◌+◌, ◌-◌, ◌≤◌, ◌≡◌, subst, Bool, List, [], ◌∷◌, ◌++◌, arith}
use defold_connclient.Os.{RefusesNone}
use defold_connclient.Client.State.{Env, Client, Event, init}
use defold_connclient.Client.Api
use defold_connclient.Client.Link.{link, Holds}
use defold_connclient.Client.Link.Tracked.{Tracked, successes}
use defold_connclient.Client.Link.Spending.{spend, take-Tracked}
use defold_connclient.Client.Link.Entering.{init-Tracked}
use defold_connclient.Client.System.{Action, updates, perform}
use defold_connclient.Client.System.Steps.{perform-Tracked}
use defold_connclient.Client.System.Invariant.{anywhere, anywhere-Permits}

-- What the call of `Update` takes from the queue, where the action is one.
abbrev pub taken : Action → List Event → List Event
taken updates queue = queue
taken _ queue = []

successes-++ : (xs ys : List Event) → successes (xs ++ ys) ≡ successes xs + successes ys
successes-++ [] ys = omega arith
successes-++ (x ∷ xs) ys = omega (arith, successes-++ xs ys)

taken_le : (action : Action) (queue : List Event) → successes (taken action queue) ≤ successes queue
taken_le updates queue = omega arith
taken_le action queue = omega arith

module _ (e : Env) (depth kcp_fuel frame_fuel : ℕ) (callable : ℕ → Bool) where
  -- The events that a run takes from the queue and those that it leaves there, in their order.
  unfoldable pub announcements : List Action → Client e → List Event
  announcements [] c = c.out_queue
  announcements (action ∷ rest) c =
      taken action c.out_queue
      ++ announcements rest (perform e depth kcp_fuel frame_fuel callable action c)

module _ (e : Env) (refuses : RefusesNone e.os) (depth kcp_fuel frame_fuel : ℕ)
    (callable : ℕ → Bool) where
  step-Tracked :
      (n : ℕ) (action : Action) (c : Client e)
      → Holds (Tracked (anywhere n)) c
      → Holds
          (Tracked (spend (successes (taken action c.out_queue)) (anywhere n)))
          (perform e (suc depth) kcp_fuel frame_fuel callable action c)
  unfolding perform Api.update
  step-Tracked n updates c h = record { holds = take-Tracked (anywhere n) (link c) h.holds }
  step-Tracked n action c h =
      let later = perform e (suc depth) kcp_fuel frame_fuel callable action c in
      subst (λ (m : ℕ). Holds (Tracked (anywhere m)) later) (omega arith)
        (perform-Tracked e (anywhere n) refuses depth kcp_fuel frame_fuel callable action c
          (anywhere-Permits n action) h)

  run-announcements :
      (n : ℕ) (actions : List Action) (c : Client e)
      → Holds (Tracked (anywhere n)) c
      → successes (announcements e (suc depth) kcp_fuel frame_fuel callable actions c) ≤ n
  unfolding announcements
  run-announcements n [] c h = omega (arith, h.holds.steady.within)
  run-announcements n (action ∷ rest) c h =
      let took = taken action c.out_queue in
      let later = perform e (suc depth) kcp_fuel frame_fuel callable action c in
      let left = run-announcements (n - successes took) rest later (step-Tracked n action c h) in
      omega (
        arith,
        left,
        taken_le action c.out_queue,
        h.holds.steady.within,
        successes-++ took (announcements e (suc depth) kcp_fuel frame_fuel callable rest later),
      )

  -- From a new client, over any actions of the two threads in any order, the callback for the
  -- success of a connect is put out at most once: counted are the events that each `Update` takes
  -- and those that are left in the queue at the end. It is assumed that `recv` on the descriptor
  -- -1 fails.
  pub announcements-once :
      (os : e.os.State) (actions : List Action)
      → successes (announcements e (suc depth) kcp_fuel frame_fuel callable actions (init e os)) ≤ 1
  announcements-once os actions =
      run-announcements 1 actions _ (init-Tracked e (anywhere 1) os tt (omega arith))
