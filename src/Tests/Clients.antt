-- ===== src/Tests/Clients.antt =====
-- The theorems on the client at a concrete client.
use defold_connclient.Prelude.{
  ℕ, ◌+◌, ◌<◌, ◌≡◌, refl, true, false, List, [], ◌∷◌, ◌++◌, length, sym, ap, ◌∙◌, ◌≤◌, ◌⊎◌, pos,
  arith,
}
use defold_connclient.Stream.{readable, empty, add_bytes}
use defold_connclient.Wire.{encode_head, le32, swap32}
use defold_connclient.Stream.Buffer.{
  IsValid, empty-IsValid, readable_none, add_bytes-IsValid, readable-add_bytes,
}
use defold_connclient.Client.State.{Client, cs_init}
use defold_connclient.Client.Send.{inner_close, close_reason, write_frame, enqueue_out}
use defold_connclient.Client.Send.Closing.{inner_close_final, inner_close_relinks}
use defold_connclient.Client.Connect.{check_timeout, check_relink, relink}
use defold_connclient.Client.Connect.Session.{SameSession, relink-SameSession}
use defold_connclient.Client.Connect.Relinking.{check_relink-count, check_timeout_final}
use defold_connclient.Client.Read.{read_step, skip_frame, on_frame, on_unreliable, output}
use defold_connclient.Client.Send.Framing.{frame, frame_head, write_frame_lem}
use defold_connclient.Client.Read.Frames.{read_step-frame, write_frame-read_step}
use defold_connclient.Tests.{env, alloc, client}

inner_close_final_example : (inner_close env 2 (pos 0) client).running ≡ false
unfolding close_reason
inner_close_final_example = (inner_close_final env 1 (pos 0) client (omega arith)).1

inner_close_relinks_example : (inner_close env 2 (pos 7) client).running ≡ true
unfolding close_reason
inner_close_relinks_example = (inner_close_relinks env 1 (pos 7) client (omega arith)).1

abbrev given_up : Client env
given_up = record client { relink_count = 2 }

check_timeout_final_example : (check_timeout env 2 7001 given_up).running ≡ false
check_timeout_final_example =
    (check_timeout_final env 1 7001 given_up (omega arith) (omega arith) (omega arith)
      (omega arith)).2

-- An idle client: nothing happens until the interval of its next relink has passed.
abbrev idle : Client env
idle = record client { conn_state = cs_init }

check_relink-count_example :
    let c' = check_relink env 2 9000000 idle in
    (c' ≡ idle)
    ⊎ ((c'.relink_count ≡ 2)
        × (c'.relink_interval_ms_vec ≡ idle.relink_interval_ms_vec)
        × (1 < 2)
        × (true ≡ true)
        × (cs_init ≡ cs_init)
        × (4000 + 100 < 9000000 + 0))
check_relink-count_example = check_relink-count env 2 9000000 idle

-- The message 5, 6 of the sender as it stands in the receiver's stream, in front of a byte 9.
abbrev pub receiver : Client env
receiver = record client {
  read_stream = add_bytes (frame 77 117 1 (5 ∷ 6 ∷ []) ++ 9 ∷ []) (empty alloc);
}

abbrev pub bytes : List ℕ
bytes = frame 77 117 1 (5 ∷ 6 ∷ []) ++ 9 ∷ []

room : (empty alloc).size + length bytes ≤ (empty alloc).capacity
unfolding empty frame frame_head encode_head le32 swap32
room = omega arith

no_bytes : readable (empty alloc) ≡ []
unfolding empty
no_bytes = readable_none (empty alloc) (omega arith)

pub receiver-readable : readable receiver.read_stream ≡ bytes
receiver-readable =
    readable-add_bytes (empty alloc) bytes (empty-IsValid alloc) room
    ∙ ap (λ b. b ++ bytes) no_bytes

receiver-IsValid : IsValid receiver.read_stream
receiver-IsValid = add_bytes-IsValid (empty alloc) bytes (empty-IsValid alloc) room

pub after_frame :
    read_step env 2 10 0 receiver
    ≡ skip_frame env 2 (pos 12) (
        on_frame env 2 10 0 1 (5 ∷ 6 ∷ 9 ∷ []) (pos 2) (record receiver { flow = 77; magic = 117 }))
after_frame =
    read_step-frame env 2 10 0 77 117 1 (5 ∷ 6 ∷ []) (9 ∷ []) receiver receiver-IsValid
      receiver-readable (omega arith) (omega arith) (omega arith)

write_room : (empty alloc).size + 12 ≤ (empty alloc).capacity
unfolding empty
write_room = omega arith

sent :
    readable receiver.read_stream
    ≡ readable (write_frame env 1 (5 ∷ 6 ∷ []) client).write_stream ++ 9 ∷ []
sent =
    receiver-readable
    ∙ ap (λ b. b ++ 9 ∷ [])
        (sym (
          (write_frame_lem env 1 (5 ∷ 6 ∷ []) client (empty-IsValid alloc) write_room).1
          ∙ ap (λ b. b ++ frame 77 117 1 (5 ∷ 6 ∷ [])) no_bytes))

write_frame-read_step_example : readable (read_step env 2 10 0 receiver).1.read_stream ≡ 9 ∷ []
unfolding on_frame on_unreliable output enqueue_out
write_frame-read_step_example =
    (write_frame-read_step env 2 10 0 1 (5 ∷ 6 ∷ []) (9 ∷ []) client receiver (empty-IsValid alloc)
      write_room no_bytes receiver-IsValid sent (omega arith) (omega arith) refl refl).1

abbrev first_relink : Client env
first_relink = record client { conn_state = cs_init; relink_count = 0 }

relink-SameSession_example : SameSession first_relink (relink env 2 first_relink)
relink-SameSession_example = relink-SameSession env 1 first_relink (omega arith)
