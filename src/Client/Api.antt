-- ===== src/Client/Api.antt =====
-- connclient/src/conn_client.cpp: the calls of the main thread, those of `ConnClient` that pass
-- them on to `ConnClientPrivate`, and the run of the callbacks. What a Lua function does while it
-- runs as a callback is not modelled.
pub mod Delivery
use defold_connclient.Prelude.{
  ℕ, zero, suc, ◌+◌, ◌-◌, Bool, true, false, Option, none, some, List, [], ◌∷◌, ◌++◌, length, leb,
  ltb, if◌then◌else◌, ℤ, pos, negsuc,
}
use defold_connclient.Client.State.{
  Env, Client, Callbacks, Event, disconnect_event, connect_success_event, reconnect_success_event,
  relink_event, output_event, log_debug_event, log_info_event, log_error_event, Task, connect_task,
  close_task, send_task, cs_logic_connected, rank,
}
use defold_connclient.Client.Relink

-- The value that a callback gets beside the user data.
pub data LuaArg : Type 0 where
  no_arg : LuaArg
  text : List ℕ → LuaArg
  number : ℤ → LuaArg

pub record LuaCall : Type 0 where
  pub callback : ℕ
  pub arg : LuaArg

abbrev pub number_of : ℤ → LuaArg
number_of (pos (suc n)) = number (pos n)
number_of _ = no_arg

-- The choice of `CallLuaCallback`: the data, or the text, or a number that is `text_len - 1`.
unfoldable pub lua_arg : List ℕ → List ℕ → ℤ → LuaArg
lua_arg bytes str text_len =
    if ltb 0 (length bytes)
    then text bytes
    else if ltb 0 (length str)
    then text str
    else number_of text_len

-- `callable` says of a callback that the script system holds it valid and can set it up.
unfoldable pub call_lua_callback : (ℕ → Bool) → Option ℕ → List ℕ → List ℕ → ℤ → List LuaCall
call_lua_callback callable none bytes str text_len = []
call_lua_callback callable (some callback) bytes str text_len =
    if callable callback
    then record { callback = callback; arg = lua_arg bytes str text_len } ∷ []
    else []

abbrev pub plus_one : ℤ → ℤ
plus_one (pos n) = pos (suc n)
plus_one (negsuc zero) = pos 0
plus_one (negsuc (suc n)) = negsuc n

module _ (e : Env) (callable : ℕ → Bool) where
  -- The closures of `out_queue_`; that of a relink reads the count when it runs.
  unfoldable pub run_event : Client e → Event → List LuaCall
  run_event c (disconnect_event reason) =
      call_lua_callback callable c.callbacks.disconnect_cb [] [] (plus_one reason)
  run_event c connect_success_event =
      call_lua_callback callable c.callbacks.connect_success_cb [] [] (pos 0)
  run_event c reconnect_success_event =
      call_lua_callback callable c.callbacks.reconnect_success_cb [] [] (pos 0)
  run_event c relink_event =
      call_lua_callback callable c.callbacks.relink_cb [] [] (pos c.relink_count)
  run_event c (output_event bytes) =
      call_lua_callback callable c.callbacks.output_cb bytes [] (pos 0)
  run_event c (log_debug_event str) =
      call_lua_callback callable c.callbacks.log_debug_cb [] str (pos (length str))
  run_event c (log_info_event str) =
      call_lua_callback callable c.callbacks.log_info_cb [] str (pos (length str))
  run_event c (log_error_event str) =
      call_lua_callback callable c.callbacks.log_error_cb [] str (pos (length str))

  unfoldable pub run_events : Client e → List Event → List LuaCall
  run_events c [] = []
  run_events c (event ∷ rest) = run_event c event ++ run_events c rest

  unfoldable pub update : Client e → List LuaCall × Client e
  update c = (run_events c c.out_queue, record c { out_queue = [] })

module _ (e : Env) where
  unfoldable pub enqueue_in : Task → Client e → Client e
  enqueue_in task c = record c { in_queue = c.in_queue ++ task ∷ [] }

  -- A thread that has ended stays joinable.
  unfoldable pub start_net_thread_loop : Client e → Client e
  start_net_thread_loop c = if c.joinable then c else record c { joinable = true }

  unfoldable pub connect : List ℕ → ℕ → ℤ → Client e → ℤ × Client e
  connect ip port timeout_ms c =
      (pos 0, start_net_thread_loop (enqueue_in (connect_task ip port timeout_ms) c))

  unfoldable pub close : Client e → Client e
  close c = enqueue_in close_task c

  unfoldable pub send_msg : List ℕ → Client e → ℤ × Client e
  send_msg msg c =
      if ltb (rank c.conn_state) (rank cs_logic_connected)
      then (negsuc 0, c)
      else (pos 0, enqueue_in (send_task msg) c)

  unfoldable pub set_debug_log_mode : Client e → Client e
  set_debug_log_mode c = record c { debug_log_mode = true }

  unfoldable pub set_error_log_mode : Client e → Client e
  set_error_log_mode c = record c { debug_log_mode = false }

  unfoldable pub set_callbacks : (Callbacks → Callbacks) → Client e → Client e
  set_callbacks change c = record c { callbacks = change c.callbacks }

  unfoldable pub set_log_debug_cb : Option ℕ → Client e → Client e
  set_log_debug_cb cb = set_callbacks (λ s. record s { log_debug_cb = cb })

  unfoldable pub set_log_info_cb : Option ℕ → Client e → Client e
  set_log_info_cb cb = set_callbacks (λ s. record s { log_info_cb = cb })

  unfoldable pub set_log_error_cb : Option ℕ → Client e → Client e
  set_log_error_cb cb = set_callbacks (λ s. record s { log_error_cb = cb })

  unfoldable pub set_output_cb : Option ℕ → Client e → Client e
  set_output_cb cb = set_callbacks (λ s. record s { output_cb = cb })

  unfoldable pub set_disconnect_cb : Option ℕ → Client e → Client e
  set_disconnect_cb cb = set_callbacks (λ s. record s { disconnect_cb = cb })

  unfoldable pub set_connect_success_cb : Option ℕ → Client e → Client e
  set_connect_success_cb cb = set_callbacks (λ s. record s { connect_success_cb = cb })

  unfoldable pub set_relink_success_cb : Option ℕ → Client e → Client e
  set_relink_success_cb cb = set_callbacks (λ s. record s { reconnect_success_cb = cb })

  unfoldable pub set_relink_cb : Option ℕ → Client e → Client e
  set_relink_cb cb = set_callbacks (λ s. record s { relink_cb = cb })

  unfoldable pub set_magic_num : ℕ → Client e → Client e
  set_magic_num magic c = record c { magic = magic }

  unfoldable pub enable_kcp_log : Client e → Client e
  enable_kcp_log c = record c { enable_kcp_log = true }

  unfoldable pub add_relink_interval : ℤ → Client e → Client e
  add_relink_interval msec c = record c {
    relink_interval_ms_vec = Relink.add_relink_interval msec c.relink_interval_ms_vec;
  }

  unfoldable pub clear_relink_interval : Client e → Client e
  clear_relink_interval c = record c {
    relink_interval_ms_vec = Relink.clear_relink_interval c.relink_interval_ms_vec;
  }
