-- ===== src/Client/Loop/Sending.antt =====
-- The way of the messages of connclient/src/conn_client.cpp from `SendMsg` to the KCP library.
use defold_connclient.Prelude.{
  ℕ, suc, ◌%◌, ◌^◌, ◌<◌, ◌≤◌, ◌≡◌, refl, sym, ap, ◌∙◌, subst, Bool, ◌⊎◌, inl, inr, some, List, [],
  ◌∷◌, ◌++◌, map, length, arith, append_assoc, append-nil,
}
use defold_connclient.KcpSession
use defold_connclient.KcpSession.{KcpLib, KcpSession, Datagram}
use defold_connclient.Client.State.{
  Env, Client, cs_init, cs_logic_connected, Task, send_task, rank, now_ms,
}
use defold_connclient.Client.Send.{inner_close, deliver}
use defold_connclient.Client.Send.Keeps.{deliver_keeps}
use defold_connclient.Client.Send.Closing.{inner_close-IsClosed}
use defold_connclient.Client.Api
use defold_connclient.Client.Api.{enqueue_in}
use defold_connclient.Client.Loop.{run_task, run_all, run_tasks, send_kcp_buf}
use defold_connclient.Client.System.{sends, perform, run}

-- The library as a queue of the messages that it was given: `ikcp_send` puts one that is not empty
-- and of at most `limit` bytes behind the others. It refuses one of 10000 fragments or more.
pub record SendQueue (lib : KcpLib) : Type 0 where
  pub limit : ℕ
  pub given : lib.Kcp → List (List ℕ)
  pub by_send :
      (msg : List ℕ) (now : ℕ) (k : lib.Kcp)
      → 0 < length msg
      → length msg ≤ limit
      → given (lib.send_ex msg now k).1 ≡ given k ++ msg ∷ []

-- Messages that are not empty and have at most this many bytes.
abbrev pub AllFit : ℕ → List (List ℕ) → Type 0
AllFit limit [] = Unit {0}
AllFit limit (msg ∷ rest) = (0 < length msg) × (length msg ≤ limit) × AllFit limit rest

module _ (e : Env) (q : SendQueue e.lib) (depth kcp_fuel frame_fuel : ℕ) where
  -- The session has been given these messages, or the connection is down.
  abbrev pub Sent : List (List ℕ) → Client e → Type 0
  Sent msgs c =
      (c.conn_state ≡ cs_init)
      ⊎ ((c.conn_state ≡ cs_logic_connected)
          × ((k : e.lib.Kcp) × (c.kcp_session.kcp ≡ some k) × (q.given k ≡ msgs)))

  deliver-Sent :
      (msgs : List (List ℕ)) (bufs : List Datagram) (c : Client e)
      → Sent msgs c
      → Sent msgs (deliver e (inner_close e (suc depth)) bufs c)
  deliver-Sent msgs = deliver_keeps e (Sent msgs) (inner_close e (suc depth)) (record {
    by_close = λ reason c s. inl (inner_close-IsClosed e depth reason c).conn_state;
    by_io = λ os ws writable c valid s. s;
  })

  send_kcp_buf_down :
      (msg : List ℕ) (c : Client e)
      → c.conn_state ≡ cs_init
      → (send_kcp_buf e (suc depth) kcp_fuel frame_fuel msg c).1 ≡ c
  unfolding send_kcp_buf
  send_kcp_buf_down msg c down = ground (arith, ap rank down)

  -- The client that the datagrams of `ikcp_send` find.
  abbrev given_to : List ℕ → Client e → Client e
  given_to msg c =
      let (now, c1) = now_ms e c in
      record c1 { kcp_session = (KcpSession.send e.lib msg (now % 2 ^ 32) c1.kcp_session).1 }

  abbrev put_out : List ℕ → Client e → List Datagram
  put_out msg c =
      let (now, c1) = now_ms e c in (KcpSession.send e.lib msg (now % 2 ^ 32) c1.kcp_session).2

  send_kcp_buf_up :
      (msg : List ℕ) (c : Client e)
      → 0 < length msg
      → c.conn_state ≡ cs_logic_connected
      → (send_kcp_buf e (suc depth) kcp_fuel frame_fuel msg c).1
        ≡ deliver e (inner_close e (suc depth)) (put_out msg c) (given_to msg c)
  unfolding send_kcp_buf
  send_kcp_buf_up msg c full up = ground (arith, ap rank up)

  kcp-send :
      (msg : List ℕ) (now : ℕ) (s : KcpSession e.lib.Kcp) (k : e.lib.Kcp)
      → s.kcp ≡ some k
      → (KcpSession.send e.lib msg now s).1.kcp ≡ some (e.lib.send_ex msg now k).1
  unfolding KcpSession.send
  kcp-send msg now s k at = rw at refl

  send_kcp_buf-Sent :
      (msg : List ℕ) (msgs : List (List ℕ)) (c : Client e)
      → 0 < length msg
      → length msg ≤ q.limit
      → Sent msgs c
      → Sent (msgs ++ msg ∷ []) (send_kcp_buf e (suc depth) kcp_fuel frame_fuel msg c).1
  unfolding now_ms
  send_kcp_buf-Sent msg msgs c full fits (inl down) =
      subst (Sent (msgs ++ msg ∷ [])) (sym (send_kcp_buf_down msg c down)) (inl down)
  send_kcp_buf-Sent msg msgs c full fits (inr (up, (k, at, so_far))) =
      let now = (now_ms e c).0 % 2 ^ 32 in
      subst (Sent (msgs ++ msg ∷ [])) (sym (send_kcp_buf_up msg c full up)) (
        deliver-Sent (msgs ++ msg ∷ []) (put_out msg c) (given_to msg c) (
          inr (
            up,
            (
              (e.lib.send_ex msg now k).1,
              kcp-send msg now c.kcp_session k at,
              q.by_send msg now k full fits ∙ ap (λ before. before ++ msg ∷ []) so_far,
            ),
          )))

  run_all-Sent :
      (tasks msgs : List (List ℕ)) (c : Client e)
      → AllFit q.limit tasks
      → Sent msgs c
      → Sent (msgs ++ tasks) (run_all e (suc depth) kcp_fuel frame_fuel (map send_task tasks) c)
  unfolding run_all run_task
  run_all-Sent [] msgs c full s = subst (λ all. Sent all c) (sym (append-nil msgs)) s
  run_all-Sent (msg ∷ rest) msgs c full s =
      let after =
        (send_kcp_buf e (suc depth) kcp_fuel frame_fuel msg
          (record c { in_queue = map send_task rest })).1 in
      subst (λ all. Sent all (run_all e (suc depth) kcp_fuel frame_fuel (map send_task rest) after))
        (append_assoc msgs (msg ∷ []) rest)
        (run_all-Sent rest (msgs ++ msg ∷ []) after full.2
          (send_kcp_buf-Sent msg msgs _ full.0 full.1 s))

  module _ (callable : ℕ → Bool) where
    -- The calls of `SendMsg`, while the connection is open.
    perform-sends :
        (msg : List ℕ) (c : Client e)
        → c.conn_state ≡ cs_logic_connected
        → perform e (suc depth) kcp_fuel frame_fuel callable (sends msg) c
          ≡ enqueue_in e (send_task msg) c
    unfolding perform Api.send_msg
    perform-sends msg c up = ground (arith, ap rank up)

    run-sends :
        (msgs : List (List ℕ)) (c : Client e)
        → c.conn_state ≡ cs_logic_connected
        → run e (suc depth) kcp_fuel frame_fuel callable (map sends msgs) c
          ≡ record c { in_queue = c.in_queue ++ map send_task msgs }
    unfolding run enqueue_in
    run-sends [] c up =
        ap (λ (queue : List Task). record c { in_queue = queue }) (sym (append-nil c.in_queue))
    run-sends (msg ∷ rest) c up =
        ap (λ (d : Client e). run e (suc depth) kcp_fuel frame_fuel callable (map sends rest) d)
          (perform-sends msg c up)
        ∙ run-sends rest (enqueue_in e (send_task msg) c) up
        ∙ ap (λ (queue : List Task). record c { in_queue = queue })
            (append_assoc c.in_queue (send_task msg ∷ []) (map send_task rest))

    -- Messages that are not empty and not above the library's limit are given to `SendMsg` one after
    -- the other on an open connection with a session and no task waiting. Where the connection is not
    -- closed while the net thread runs its tasks, the KCP library has then been given all of them,
    -- whole, once and in order, behind what it had been given before. It is assumed that the library
    -- keeps what it is given, up to that limit, in a queue.
    pub run_tasks-sends :
        (msgs : List (List ℕ)) (k : e.lib.Kcp) (c : Client e)
        → AllFit q.limit msgs
        → c.in_queue ≡ []
        → c.conn_state ≡ cs_logic_connected
        → c.kcp_session.kcp ≡ some k
        → let c' =
            run_tasks e
              (suc depth)
              kcp_fuel
              frame_fuel
              (run e (suc depth) kcp_fuel frame_fuel callable (map sends msgs) c) in
          Sent (q.given k ++ msgs) c'
    unfolding run_tasks
    run_tasks-sends msgs k c full idle up at =
        let waiting : Client e = record c { in_queue = map send_task msgs } in
        let queued =
          run-sends msgs c up
          ∙ ap (λ (queue : List Task). record c { in_queue = queue ++ map send_task msgs }) idle in
        subst
          (λ (d : Client e).
            Sent (q.given k ++ msgs) (run_all e (suc depth) kcp_fuel frame_fuel d.in_queue d))
          (sym queued) (run_all-Sent msgs (q.given k) waiting full (inr (up, (k, at, refl))))
