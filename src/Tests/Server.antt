-- ===== src/Tests/Server.antt =====
-- Runs of the two threads of connclient/src/conn_client.cpp against a server that answers each
-- connect with the label of a session.
use defold_connclient.Prelude.{
  ℕ, zero, suc, ◌+◌, get_or, ◌≡◌, ◌≤◌, refl, true, if◌then◌else◌, leb, Option, none, some, List, [],
  ◌∷◌, ◌++◌, length, pos, negsuc, arith,
}
use defold_connclient.Os.{Fd, RefusesNone, sock_stream, sock_dgram}
use defold_connclient.Client.State.{
  Env, Client, init, output_event, cs_init, cs_logic_connected, disconnect_event,
  connect_success_event,
}
use defold_connclient.Client.System.{
  Action, connects, sets_callbacks, adds_interval, starts, selects, runs_task, updates, switches,
  relinks, sends, run, perform,
}
use defold_connclient.Client.System.Announced.{announcements, announcements-once}
use defold_connclient.Client.System.Phases.{Follows, perform-Follows}
use defold_connclient.Client.System.Invariant.{run-WellFormed}
use defold_connclient.Client.Link.Tracked.{successes}
use defold_connclient.Stream.Buffer.{empty-IsValid, readable_none}
use defold_connclient.Client.Send.Broken.{Broken}
use defold_connclient.Client.Ping.Lost.{on_sync_label-Lost}
use defold_connclient.Client.Read.{on_sync_label}
use defold_connclient.Client.Loop.{run_tasks}
use defold_connclient.Client.Loop.Sending.{SendQueue, Sent, run_tasks-sends}
use defold_connclient.Stream.{empty}
use defold_connclient.Wire.{encode_head, swap32}
use defold_connclient.Client.Send.Framing.{frame, frame_head}
use defold_connclient.Client.Read.Reassembly.{Reading}
use defold_connclient.Client.Read.Reassembly.Chunks.{on_tcp_reads, on_tcp_reads-frames}
use defold_connclient.Tests.{lib, alloc, client, callbacks, os, env, cut}

-- A frame without a message, of the command 7.
abbrev label : List ℕ
label = 0 ∷ 0 ∷ 0 ∷ 10 ∷ 0 ∷ 0 ∷ 0 ∷ 0 ∷ 117 ∷ 7 ∷ []

unfoldable greet : Fd → ℕ → Option (List ℕ)
greet none n = none
greet (some fd) n = if leb 10 n then some label else none

greet-le : (fd : Fd) (n : ℕ) (bytes : List ℕ) → greet fd n ≡ some bytes → length bytes ≤ n
unfolding greet
greet-le none n bytes h = cc
greet-le (some fd) n bytes h = ground arith

-- All sockets are ready.
abbrev server : Env
server = record env {
  os = record os {
    recv = λ fd n s. (greet fd n, s);
    recv-le = λ fd n s bytes h. greet-le fd n bytes h;
    socket = λ type s. (elim type [ sock_stream ↦ some 7 | sock_dgram ↦ some 8 ], s);
    select = λ r w x t s. (record { retval = pos 1; rset = 7 ∷ []; wset = 7 ∷ []; eset = [] }, s);
  };
}

server-RefusesNone : RefusesNone server.os
unfolding greet
server-RefusesNone = record {
  recv_none = λ n s. refl;
  send_none = λ bytes s. refl;
  errno_none = λ bytes s. refl;
}

-- A connect with an interval for a relink and two callbacks set.
abbrev dialing : List Action
dialing =
    sets_callbacks (λ c. record c { connect_success_cb = some 1; reconnect_success_cb = some 2 })
    ∷ adds_interval (pos 100)
    ∷ connects (49 ∷ []) 10101 (pos 3000)
    ∷ starts
    ∷ runs_task
    ∷ []

-- A session, a switch of the network, and the session again.
abbrev sessions : List Action
sessions = dialing ++ selects ∷ updates ∷ switches ∷ relinks 9000000 ∷ selects ∷ []

abbrev after : List Action → Client server
after actions = run server 4 8 8 (λ r. true) actions (init server 8000)

perform-Follows_example :
    let c = after dialing in
    Follows selects c.conn_state (perform server 4 8 8 (λ r. true) selects c).conn_state
perform-Follows_example =
    perform-Follows server server-RefusesNone 3 8 8 (λ r. true) selects (after dialing)
      (run-WellFormed server server-RefusesNone 3 8 8 (λ r. true) 8000 dialing)

announcements-once_example :
    successes (announcements server 4 8 8 (λ r. true) sessions (init server 8000)) ≤ 1
announcements-once_example =
    announcements-once server server-RefusesNone 3 8 8 (λ r. true) 8000 sessions

-- The system in which the server has closed every connection.
abbrev gone : Env
gone = record env { os = record os { send = λ fd bytes s. (negsuc 0, s) } }

gone-Broken : Broken gone.os (some 7)
gone-Broken = record { send_fails = λ bytes s. refl; errno = λ bytes s. refl }

abbrev greeted : Client gone
greeted = record client {
  callbacks = record callbacks { connect_success_cb = some 1; disconnect_cb = some 5 };
}

on_sync_label-Lost_example :
    let c' = on_sync_label gone 3 greeted in
    (c'.conn_state ≡ cs_init)
    × (c'.out_queue ≡ disconnect_event (pos 5) ∷ connect_success_event ∷ [])
on_sync_label-Lost_example =
    on_sync_label-Lost gone 2 (some 7) gone-Broken greeted 5 1 refl (empty-IsValid alloc)
      (omega arith) refl refl refl

-- A library that sends each message as one datagram at once.
abbrev sending : Env
sending = record env {
  lib = record lib { send_ex = λ msg now k. (pos 0, k ++ msg ∷ [], cut msg ∷ []) };
}

sending-SendQueue : SendQueue sending.lib
sending-SendQueue = record { limit = 1000; given = λ k. k; by_send = λ msg now k full fits. refl }

abbrev chatting : Client sending
chatting = record client { conn_state = cs_logic_connected; enable_udp = true }

run_tasks-sends_example :
    Sent sending sending-SendQueue 2 8 8 ((1 ∷ 2 ∷ []) ∷ (9 ∷ []) ∷ (8 ∷ 7 ∷ []) ∷ []) (
      run_tasks sending 3 8 8
        (run sending 3 8 8 (λ r. true) (sends (9 ∷ []) ∷ sends (8 ∷ 7 ∷ []) ∷ []) chatting))
unfolding sending-SendQueue
run_tasks-sends_example =
    run_tasks-sends sending sending-SendQueue 2 8 8 (λ r. true) ((9 ∷ []) ∷ (8 ∷ 7 ∷ []) ∷ [])
      ((1 ∷ 2 ∷ []) ∷ []) chatting (omega arith, omega arith, (omega arith, omega arith, tt)) refl
      refl refl

-- The frames of two messages, cut within the second one's head.
abbrev pieces : List (List ℕ)
pieces =
    (0 ∷ 0 ∷ 0 ∷ 12 ∷ 77 ∷ 0 ∷ 0 ∷ 0 ∷ 117 ∷ 1 ∷ 1 ∷ 2 ∷ 0 ∷ 0 ∷ 0 ∷ [])
    ∷ (11 ∷ 77 ∷ 0 ∷ 0 ∷ 0 ∷ 117 ∷ 1 ∷ 3 ∷ [])
    ∷ []

unfoldable give : Fd → ℕ → ℕ → Option (List ℕ)
give none n s = none
give (some fd) n s = if leb 15 n then some (get_or pieces s []) else none

give-le : (fd : Fd) (n s : ℕ) (bytes : List ℕ) → give fd n s ≡ some bytes → length bytes ≤ n
unfolding give
give-le none n s bytes h = cc
give-le (some fd) n zero bytes h = ground arith
give-le (some fd) n (suc zero) bytes h = ground arith
give-le (some fd) n (suc (suc s)) bytes h = ground arith

-- The system counts the pieces that it has given.
abbrev cutting : Env
cutting = record env {
  os = record os {
    recv = λ fd n s. (give fd n s, s + 1);
    recv-le = λ fd n s bytes h. give-le fd n s bytes h;
  };
}

abbrev listening : Client cutting
listening = record client { os = 0 }

listening-Reading : Reading 0 (some 7) 4 [] [] listening
listening-Reading = record {
  system = refl;
  socket = refl;
  fine = refl;
  valid = empty-IsValid alloc;
  unread = unfold empty in readable_none (empty alloc) (omega arith);
  events = refl;
  set = refl;
}

on_tcp_reads-frames_example :
    Reading 2
      (some 7)
      4
      (output_event (1 ∷ 2 ∷ []) ∷ output_event (3 ∷ []) ∷ [])
      []
      (on_tcp_reads cutting 3 8 3 0 pieces listening)
unfolding give frame frame_head encode_head swap32
on_tcp_reads-frames_example =
    on_tcp_reads-frames cutting 3 8 4 77 117 (omega arith) (some 7) 3 0 pieces
      ((1 ∷ 2 ∷ []) ∷ (3 ∷ []) ∷ []) [] 0 listening (omega arith) (omega arith, (omega arith, tt))
      (refl, omega arith, (refl, omega arith, tt)) refl listening-Reading
