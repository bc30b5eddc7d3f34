-- ===== src/Extension/Script.antt =====
-- The table of the methods of connclient/src/myextension.cpp that a script calls, and scripts as
-- lists of calls and frames.
pub mod Handles
pub mod Independence
use defold_connclient.Prelude.{ℕ, Option, List, [], ◌∷◌, ℤ}
use defold_connclient.Extension.{
  ClientApi, LuaValue, Outcome, returned, raised, Extension, lua_create, lua_connect, lua_close,
  lua_send, lua_add_relink_interval, lua_set_magic_num, lua_set_logdebug_cb, lua_set_loginfo_cb,
  lua_set_logerror_cb, lua_set_output_cb, lua_set_disconnect_cb, lua_set_connectsuccess_cb,
  lua_set_relinksuccess_cb, lua_set_relink_cb, on_update,
}

-- The methods in the order of the table, with their arguments; `create` gets the address that the
-- allocation gives. The last one is the update of a frame.
pub data ScriptStep : Type 0 where
  create : ℕ → ℕ → ScriptStep
  connect : LuaValue → List ℕ → ℕ → ℤ → ScriptStep
  close : LuaValue → ScriptStep
  send : LuaValue → List ℕ → ScriptStep
  add_relink_interval : LuaValue → ℤ → ScriptStep
  set_magic_num : LuaValue → ℕ → ScriptStep
  set_logdebug_cb : LuaValue → Option ℕ → ScriptStep
  set_loginfo_cb : LuaValue → Option ℕ → ScriptStep
  set_logerror_cb : LuaValue → Option ℕ → ScriptStep
  set_output_cb : LuaValue → Option ℕ → ScriptStep
  set_disconnect_cb : LuaValue → Option ℕ → ScriptStep
  set_connectsuccess_cb : LuaValue → Option ℕ → ScriptStep
  set_relinksuccess_cb : LuaValue → Option ℕ → ScriptStep
  set_relink_cb : LuaValue → Option ℕ → ScriptStep
  frame : ScriptStep

module _ (api : ClientApi) where
  unfoldable pub call_method : ScriptStep → Extension api.Client → Outcome (Extension api.Client)
  call_method (create address magic) s = returned (lua_create api address magic s)
  call_method (connect v ip port timeout_ms) s = lua_connect api ip port timeout_ms v s
  call_method (close v) s = lua_close api v s
  call_method (send v msg) s = lua_send api msg v s
  call_method (add_relink_interval v interval) s = lua_add_relink_interval api interval v s
  call_method (set_magic_num v magic) s = lua_set_magic_num api magic v s
  call_method (set_logdebug_cb v cb) s = lua_set_logdebug_cb api cb v s
  call_method (set_loginfo_cb v cb) s = lua_set_loginfo_cb api cb v s
  call_method (set_logerror_cb v cb) s = lua_set_logerror_cb api cb v s
  call_method (set_output_cb v cb) s = lua_set_output_cb api cb v s
  call_method (set_disconnect_cb v cb) s = lua_set_disconnect_cb api cb v s
  call_method (set_connectsuccess_cb v cb) s = lua_set_connectsuccess_cb api cb v s
  call_method (set_relinksuccess_cb v cb) s = lua_set_relinksuccess_cb api cb v s
  call_method (set_relink_cb v cb) s = lua_set_relink_cb api cb v s
  call_method frame s = returned (on_update api s)

  -- A script goes on behind a call that raises an error, as `pcall` does. The state is as before:
  -- only a connect that fails changes it, and that is not followed further.
  unfoldable pub run_script : List ScriptStep → Extension api.Client → Extension api.Client
  run_script [] s = s
  run_script (step ∷ rest) s = elim (call_method step s) [
    | returned t ↦ run_script rest t
    | raised err ↦ run_script rest s
  ]
