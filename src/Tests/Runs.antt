-- ===== src/Tests/Runs.antt =====
-- Runs of the two threads of connclient/src/conn_client.cpp on the small client.
use defold_connclient.Prelude.{
  ◌*◌, ◌+◌, ◌/◌, ◌≤◌, ℕ, ◌≡◌, refl, List, ℕ, true, none, some, [], ◌∷◌, pos, arith,
}
use defold_connclient.KcpSession
use defold_connclient.Os.{RefusesNone, Clock, get_time_ms}
use defold_connclient.Stream.Buffer.{empty-IsValid}
use defold_connclient.Client.State.{Env, Client, disconnect_event, init}
use defold_connclient.Client.Link.{link}
use defold_connclient.Client.Link.WellFormed.{WellFormed}
use defold_connclient.Client.Loop.{tick_kcp}
use defold_connclient.Client.Loop.Retries.{tick_kcp-none}
use defold_connclient.Client.System.{
  Action, connects, sends, starts, selects, runs_task, closes, run, perform,
}
use defold_connclient.Client.System.Invariant.{run-WellFormed}
use defold_connclient.Client.Blocking.{connect_block}
use defold_connclient.Client.Blocking.Ends.{Ended, connect_block-Ended}
use defold_connclient.Client.Api.{update}
use defold_connclient.Client.Log.Lines.{
  debugs, infos, errors, call_of, log_lines, Logs, update-log_lines,
}
use defold_connclient.Tests.{callbacks, os, env, lib, alloc, client, cut, cut_all}

os-RefusesNone : RefusesNone os
os-RefusesNone = record {
  recv_none = λ n s. refl;
  send_none = λ bytes s. refl;
  errno_none = λ bytes s. refl;
}

os_reads : (s : ℕ) → (get_time_ms os s).0 ≡ s * 1000 + 0 / 1000
unfolding get_time_ms
os_reads s = refl

abbrev os_clock : Clock os
os_clock = record {
  time = λ s. s * 1000 + 0 / 1000;
  by_get = os_reads;
  by_send = λ fd bytes s. omega arith;
  by_close = λ fd s. omega arith;
}

abbrev actions : List Action
actions =
    connects (49 ∷ []) 10101 (pos 3000)
    ∷ starts
    ∷ runs_task
    ∷ selects
    ∷ sends (1 ∷ [])
    ∷ closes
    ∷ runs_task
    ∷ []

run-WellFormed_example : WellFormed (link (run env 4 8 8 (λ r. true) actions (init env 8000)))
run-WellFormed_example = run-WellFormed env os-RefusesNone 3 8 8 (λ r. true) 8000 actions

-- A library whose update sends what waits.
abbrev resending : Env
resending = record env { lib = record lib { update = λ now k. (k, cut_all k) } }

-- The session of the small client has a datagram, and its update is due.
abbrev waiting : Client resending
waiting = record client { tcp_sock = none }

tick_kcp-none_example :
    let c' = tick_kcp resending 4 8 8 4100 waiting in
    (c'.out_queue ≡ disconnect_event (pos 5) ∷ []) × (8000000 ≤ c'.conn_state_ts)
unfolding KcpSession.tick KcpSession.schedule KcpSession.update
tick_kcp-none_example =
    tick_kcp-none resending os-RefusesNone os_clock 3 8 8 4100 (cut (1 ∷ 2 ∷ [])) waiting refl refl
      (empty-IsValid alloc) (omega arith) refl

-- The net thread reads its tasks in each sleep.
connect_block-Ended_example :
    let r =
      connect_block env 4 8 8 (λ f. true) (λ n. runs_task ∷ []) (49 ∷ []) 10101 (pos 30) client in
    Ended env 4 8 8
      (λ f. true)
      (λ n. runs_task ∷ [])
      3
      (perform env 4 8 8 (λ f. true) (connects (49 ∷ []) 10101 (pos 30)) client)
      r.0
      r.2
connect_block-Ended_example =
    connect_block-Ended env 4 8 8 (λ f. true) (λ n. runs_task ∷ []) (49 ∷ []) 10101 (pos 30) client

-- A client with the callbacks for log lines.
abbrev logging : Client env
logging = record client {
  callbacks = record callbacks {
    log_debug_cb = some 1;
    log_info_cb = some 2;
    log_error_cb = some 3;
  };
}

logging-Logs : Logs env 1 2 3 logging
logging-Logs = record { mode = refl; debug = refl; info = refl; error = refl }

update-log_lines_example :
    (update env
      (λ f. true)
      (log_lines env (errors (7 ∷ []) ∷ debugs (8 ∷ []) ∷ infos (9 ∷ []) ∷ []) logging)).0
    ≡ call_of 1 2 3 (errors (7 ∷ []))
      ∷ call_of 1 2 3 (debugs (8 ∷ []))
      ∷ call_of 1 2 3 (infos (9 ∷ []))
      ∷ []
update-log_lines_example =
    update-log_lines env 1 2 3 (λ f. true) (errors (7 ∷ []) ∷ debugs (8 ∷ []) ∷ infos (9 ∷ []) ∷ [])
      logging logging-Logs refl refl refl (omega arith, (omega arith, (omega arith, tt))) refl
