-- ===== src/Tests/Scripts.antt =====
-- The theorems on a frame without length, on callbacks and on the script functions at concrete
-- inputs.
use defold_connclient.Prelude.{
  ℕ, ◌+◌, ◌≤◌, ◌≡◌, refl, sym, ap, ◌∙◌, true, some, List, [], ◌∷◌, ◌++◌, length, pos, arith,
  append-nil,
}
use defold_connclient.Stream.{readable, empty, add_bytes, len}
use defold_connclient.Stream.Buffer.{
  empty-IsValid, readable_none, add_bytes-IsValid, readable-add_bytes, length-readable,
}
use defold_connclient.Wire.{CsConnHead, encode_head, decode_head, swap32}
use defold_connclient.Wire.RoundTrip.{decode_head-encode_head}
use defold_connclient.Client.State.{Client, exhausted, output_event}
use defold_connclient.Client.Send.{notify_disconnect}
use defold_connclient.Client.Read.{read_loop}
use defold_connclient.Client.Read.Stuck.{IsStuck, read_loop-IsStuck}
use defold_connclient.Client.Api.{text, number, update}
use defold_connclient.Client.Api.Delivery.{update_outputs}
use defold_connclient.Extension.{
  ClientApi, light_userdata, returned, Extension, is_connection_valid, find_connection,
  remove_connection, erase_connection, pop_conn_client, with_client, lua_create, lua_close,
  lua_send, lua_set_magic_num, on_update,
}
use defold_connclient.Extension.Script.{
  ScriptStep, create, send, close, set_magic_num, frame, call_method, run_script,
}
use defold_connclient.Extension.Script.Handles.{view, AllFresh}
use defold_connclient.Extension.Script.Independence.{run_script-alone}
use defold_connclient.Client.State.{close_task}
use defold_connclient.Extension.Closing.{on_update_after_close}
use defold_connclient.Extension.Instance.{conn_client}
use defold_connclient.Extension.Registry.{AllDistinct, closed_state, lua_close_valid, on_update_at}
use defold_connclient.Tests.{env, alloc, client}

-- A head that says the length 0, with the command CONTROL_LOG.
abbrev head : CsConnHead
head = record { sec_pkg_len = 0; flow = 77; magic = 117; cmd = 6 }

abbrev stuck : Client env
stuck = record client { read_stream = add_bytes (encode_head head) (empty alloc) }

room : (empty alloc).size + length (encode_head head) ≤ (empty alloc).capacity
unfolding empty encode_head
room = omega arith

no_bytes : readable (empty alloc) ≡ []
unfolding empty
no_bytes = readable_none (empty alloc) (omega arith)

stuck-readable : readable stuck.read_stream ≡ encode_head head ++ []
stuck-readable =
    readable-add_bytes (empty alloc) (encode_head head) (empty-IsValid alloc) room
    ∙ ap (λ b. b ++ encode_head head) no_bytes
    ∙ sym (append-nil (encode_head head))

decoded : decode_head (readable stuck.read_stream) ≡ head
decoded = ap decode_head stuck-readable ∙ decode_head-encode_head head [] (omega arith)

stuck-len : 10 ≤ len stuck.read_stream
unfolding encode_head
stuck-len =
    let valid = add_bytes-IsValid (empty alloc) (encode_head head) (empty-IsValid alloc) room in
    rw (sym (length-readable stuck.read_stream valid), stuck-readable) (omega arith)

stuck-IsStuck : IsStuck stuck
stuck-IsStuck = record {
  head_there = stuck-len;
  pkg_len = rw decoded (unfold swap32 in omega arith);
  cmd = rw decoded (omega arith);
  other_cmd = rw decoded (omega arith);
}

read_loop-IsStuck_example : (read_loop env 2 10 0 1000 stuck).fault ≡ some exhausted
read_loop-IsStuck_example = read_loop-IsStuck env 2 10 0 1000 stuck stuck-IsStuck

abbrev waiting : Client env
waiting = record client { out_queue = output_event (1 ∷ []) ∷ output_event (2 ∷ 3 ∷ []) ∷ [] }

update_outputs_example :
    (update env (λ n. true) (notify_disconnect env (pos 4) waiting)).0
    ≡ record { callback = 4; arg = text (1 ∷ []) }
      ∷ record { callback = 4; arg = text (2 ∷ 3 ∷ []) }
      ∷ record { callback = 5; arg = number (pos 4) }
      ∷ []
update_outputs_example =
    (update_outputs env (λ n. true) waiting 4 5 4 ((1 ∷ []) ∷ (2 ∷ 3 ∷ []) ∷ []) refl refl refl refl
      (omega arith) refl).0

-- A client that counts its updates; a close adds 100.
abbrev api : ClientApi
api = record {
  Client = ℕ;
  new = 0;
  connect = λ ip port t c. (pos 0, c);
  close = λ c. c + 100;
  send_msg = λ msg c. (pos 0, c);
  add_relink_interval = λ t c. c;
  set_magic_num = λ m c. c;
  set_log_debug_cb = λ f c. c;
  set_log_info_cb = λ f c. c;
  set_log_error_cb = λ f c. c;
  set_output_cb = λ f c. c;
  set_disconnect_cb = λ f c. c;
  set_connect_success_cb = λ f c. c;
  set_relink_success_cb = λ f c. c;
  set_relink_cb = λ f c. c;
  update = λ c. c + 1;
}

abbrev two : Extension ℕ
two = record { clients = 16 ∷ 32 ∷ []; heap = λ i. 0 }

two-AllDistinct : AllDistinct two.clients
unfolding find_connection
two-AllDistinct = (refl, (refl, tt))

lua_close_valid_example :
    is_connection_valid 32 (closed_state api 16 two).clients ≡ is_connection_valid 32 two.clients
unfolding is_connection_valid find_connection
lua_close_valid_example = (lua_close_valid api 16 32 two (λ c. c) two-AllDistinct refl).2

on_update_at_example : (on_update api two).heap 16 ≡ 1
unfolding find_connection
on_update_at_example = on_update_at api two 16 two-AllDistinct

abbrev clients : Extension (Client env)
clients = record { clients = 16 ∷ 32 ∷ []; heap = λ i. waiting }

on_update_after_close_example :
    let api = conn_client env (λ n. true) 8000 in
    (t : Extension (Client env)) × (lua_close api (light_userdata 16) clients ≡ returned t)
    × (((on_update api t).heap 16).out_queue ≡ waiting.out_queue)
    × (((on_update api t).heap 16).in_queue ≡ waiting.in_queue ++ close_task ∷ [])
unfolding is_connection_valid find_connection
on_update_after_close_example =
    on_update_after_close env (λ n. true) 8000 16 clients two-AllDistinct refl

-- Two clients, of which one is closed and then used.
abbrev steps : List ScriptStep
steps =
    create 16 117
    ∷ create 32 117
    ∷ frame
    ∷ send (light_userdata 32) (1 ∷ [])
    ∷ close (light_userdata 16)
    ∷ frame
    ∷ set_magic_num (light_userdata 16) 118
    ∷ create 16 117
    ∷ frame
    ∷ []

steps-AllFresh : AllFresh api steps (record { clients = []; heap = λ i. 0 })
unfolding call_method lua_create lua_send lua_close lua_set_magic_num on_update with_client
    pop_conn_client is_connection_valid find_connection remove_connection erase_connection
steps-AllFresh =
    ((refl, refl), ((refl, refl), (tt, (tt, (tt, (tt, (tt, ((refl, refl), (tt, tt)))))))))

run_script-alone_example :
    view api 32 (run_script api steps (record { clients = []; heap = λ i. 0 })) ≡ some 3
run_script-alone_example =
    run_script-alone api (λ ip port timeout_ms c. refl) 32 steps (λ i. 0) steps-AllFresh
