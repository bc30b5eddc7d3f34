-- ===== src/Extension/Script/Independence.antt =====
-- A script of connclient/src/myextension.cpp sees its connections as independent objects.
use defold_connclient.Prelude.{
  ℕ, ◌≡◌, refl, true, none, List, [], ◌∷◌, is_zero, subst, sym, ◌∙◌, ap, ℤ, arith,
}
use defold_connclient.Extension.{
  ClientApi, LuaValue, light_userdata, other_value, Extension, find_connection, is_connection_valid,
  pop_conn_client, with_client, lua_create, lua_close, lua_send, lua_add_relink_interval,
  lua_set_magic_num, lua_set_logdebug_cb, lua_set_loginfo_cb, lua_set_logerror_cb,
  lua_set_output_cb, lua_set_disconnect_cb, lua_set_connectsuccess_cb, lua_set_relinksuccess_cb,
  lua_set_relink_cb, on_update,
}
use defold_connclient.Extension.Registry.{AllDistinct, remove-AllDistinct}
use defold_connclient.Extension.Script.{
  ScriptStep, create, connect, close, send, add_relink_interval, set_magic_num, set_logdebug_cb,
  set_loginfo_cb, set_logerror_cb, set_output_cb, set_disconnect_cb, set_connectsuccess_cb,
  set_relinksuccess_cb, set_relink_cb, frame, call_method, run_script,
}
use defold_connclient.Extension.Script.Handles.{
  view, alone, run_alone, outcome, Fresh, AllFresh, with_client-view, close-view, frame-view,
  create-view, connect-view, append-AllDistinct,
}

module _ (api : ClientApi) where
  clients-with_client :
      (f : api.Client → api.Client) (v : LuaValue) (s : Extension api.Client)
      → (outcome api (with_client api f v s) s).clients ≡ s.clients
  unfolding with_client pop_conn_client
  clients-with_client f other_value s = refl
  clients-with_client f (light_userdata i) s = ground arith

  lua_close-AllDistinct :
      (v : LuaValue) (s : Extension api.Client)
      → AllDistinct s.clients
      → AllDistinct (outcome api (lua_close api v s) s).clients
  unfolding lua_close pop_conn_client
  lua_close-AllDistinct other_value s d = d
  lua_close-AllDistinct (light_userdata i) s d = ground (arith, remove-AllDistinct i s.clients d)

module _ (api : ClientApi)
    (succeeds : (ip : List ℕ) (port : ℕ) (timeout_ms : ℤ) (c : api.Client)
      → is_zero (api.connect ip port timeout_ms c).0 ≡ true) where
  abbrev kept :
      (f : api.Client → api.Client) (v : LuaValue) (s : Extension api.Client)
      → AllDistinct s.clients
      → AllDistinct (outcome api (with_client api f v s) s).clients
  kept f v s d = subst AllDistinct (sym (clients-with_client api f v s)) d

  call_method-AllDistinct :
      (step : ScriptStep) (s : Extension api.Client)
      → AllDistinct s.clients
      → Fresh api step s
      → AllDistinct (outcome api (call_method api step s) s).clients
  unfolding call_method lua_create lua_send lua_add_relink_interval lua_set_magic_num
      lua_set_logdebug_cb lua_set_loginfo_cb lua_set_logerror_cb lua_set_output_cb
      lua_set_disconnect_cb lua_set_connectsuccess_cb lua_set_relinksuccess_cb lua_set_relink_cb
      on_update
  call_method-AllDistinct (create address magic) s d new =
      append-AllDistinct api address s.clients d new.1
  call_method-AllDistinct (connect v ip port timeout_ms) s d new =
      subst (λ (t : Extension api.Client). AllDistinct t.clients)
        (sym (connect-view api 0 ip port timeout_ms v s (succeeds ip port timeout_ms)))
        (kept (λ c. (api.connect ip port timeout_ms c).1) v s d)
  call_method-AllDistinct (close v) s d new = lua_close-AllDistinct api v s d
  call_method-AllDistinct (send v msg) s d new = kept (λ c. (api.send_msg msg c).1) v s d
  call_method-AllDistinct (add_relink_interval v ms) s d new =
      kept (api.add_relink_interval ms) v s d
  call_method-AllDistinct (set_magic_num v magic) s d new = kept (api.set_magic_num magic) v s d
  call_method-AllDistinct (set_logdebug_cb v cb) s d new = kept (api.set_log_debug_cb cb) v s d
  call_method-AllDistinct (set_loginfo_cb v cb) s d new = kept (api.set_log_info_cb cb) v s d
  call_method-AllDistinct (set_logerror_cb v cb) s d new = kept (api.set_log_error_cb cb) v s d
  call_method-AllDistinct (set_output_cb v cb) s d new = kept (api.set_output_cb cb) v s d
  call_method-AllDistinct (set_disconnect_cb v cb) s d new = kept (api.set_disconnect_cb cb) v s d
  call_method-AllDistinct (set_connectsuccess_cb v cb) s d new =
      kept (api.set_connect_success_cb cb) v s d
  call_method-AllDistinct (set_relinksuccess_cb v cb) s d new =
      kept (api.set_relink_success_cb cb) v s d
  call_method-AllDistinct (set_relink_cb v cb) s d new = kept (api.set_relink_cb cb) v s d
  call_method-AllDistinct frame s d new = d

  call_method-alone :
      (conn : ℕ) (step : ScriptStep) (s : Extension api.Client)
      → AllDistinct s.clients
      → Fresh api step s
      → view api conn (outcome api (call_method api step s) s)
        ≡ alone api conn step (view api conn s)
  unfolding call_method lua_send lua_add_relink_interval lua_set_magic_num lua_set_logdebug_cb
      lua_set_loginfo_cb lua_set_logerror_cb lua_set_output_cb lua_set_disconnect_cb
      lua_set_connectsuccess_cb lua_set_relinksuccess_cb lua_set_relink_cb
  call_method-alone conn (create address magic) s d new = create-view api conn address magic s new.0
  call_method-alone conn (connect v ip port timeout_ms) s d new =
      ap (view api conn)
        (connect-view api conn ip port timeout_ms v s (succeeds ip port timeout_ms))
      ∙ with_client-view api conn (λ c. (api.connect ip port timeout_ms c).1) v s
  call_method-alone conn (close v) s d new = close-view api conn v s d
  call_method-alone conn (send v msg) s d new =
      with_client-view api conn (λ c. (api.send_msg msg c).1) v s
  call_method-alone conn (add_relink_interval v ms) s d new =
      with_client-view api conn (api.add_relink_interval ms) v s
  call_method-alone conn (set_magic_num v magic) s d new =
      with_client-view api conn (api.set_magic_num magic) v s
  call_method-alone conn (set_logdebug_cb v cb) s d new =
      with_client-view api conn (api.set_log_debug_cb cb) v s
  call_method-alone conn (set_loginfo_cb v cb) s d new =
      with_client-view api conn (api.set_log_info_cb cb) v s
  call_method-alone conn (set_logerror_cb v cb) s d new =
      with_client-view api conn (api.set_log_error_cb cb) v s
  call_method-alone conn (set_output_cb v cb) s d new =
      with_client-view api conn (api.set_output_cb cb) v s
  call_method-alone conn (set_disconnect_cb v cb) s d new =
      with_client-view api conn (api.set_disconnect_cb cb) v s
  call_method-alone conn (set_connectsuccess_cb v cb) s d new =
      with_client-view api conn (api.set_connect_success_cb cb) v s
  call_method-alone conn (set_relinksuccess_cb v cb) s d new =
      with_client-view api conn (api.set_relink_success_cb cb) v s
  call_method-alone conn (set_relink_cb v cb) s d new =
      with_client-view api conn (api.set_relink_cb cb) v s
  call_method-alone conn frame s d new = frame-view api conn s d

  run_script-step :
      (step : ScriptStep) (rest : List ScriptStep) (s : Extension api.Client)
      → run_script api (step ∷ rest) s
        ≡ run_script api rest (outcome api (call_method api step s) s)
  unfolding run_script
  run_script-step step rest s = ground arith

  run_from :
      (conn : ℕ) (steps : List ScriptStep) (s : Extension api.Client)
      → AllDistinct s.clients
      → AllFresh api steps s
      → view api conn (run_script api steps s) ≡ run_alone api conn steps (view api conn s)
  unfolding run_script
  run_from conn [] s d new = refl
  run_from conn (step ∷ rest) s d new =
      ap (view api conn) (run_script-step step rest s)
      ∙ run_from conn rest (outcome api (call_method api step s) s)
          (call_method-AllDistinct step s d new.0) new.1
      ∙ ap (run_alone api conn rest) (call_method-alone conn step s d new.0)

  -- A script that starts without connections, and gets an address for each new client that no
  -- registered one has, sees every handle as an object of its own: no client before it is created
  -- and from its close on, and in between the client that exactly the calls at that handle and the
  -- frames make of a new one. It is assumed that a connect of a client returns 0.
  pub run_script-alone :
      (conn : ℕ) (steps : List ScriptStep) (heap : ℕ → api.Client)
      → AllFresh api steps (record { clients = []; heap = heap })
      → view api conn (run_script api steps (record { clients = []; heap = heap }))
        ≡ run_alone api conn steps none
  unfolding is_connection_valid find_connection
  run_script-alone conn steps heap new =
      let start : Extension api.Client = record { clients = []; heap = heap } in
      let nothing : view api conn start ≡ none = ground arith in
      run_from conn steps start tt new ∙ ap (run_alone api conn steps) nothing
