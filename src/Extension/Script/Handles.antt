-- ===== src/Extension/Script/Handles.antt =====
-- Each connection of connclient/src/myextension.cpp as an object of its own.
use defold_connclient.Prelude.{
  ℕ, ◌≡◌, ◌≢◌, refl, true, false, Option, none, some, List, [], ◌∷◌, ◌++◌, ◌||◌, ◌==◌,
  if◌then◌else◌, is_zero, arith, ◌∙◌, ℤ, sym, subst, inl, inr, Bool-cases, ==→eq,
}
use defold_connclient.Extension.{
  ClientApi, LuaValue, light_userdata, other_value, Outcome, returned, raised, Extension,
  find_connection, is_connection_valid, pop_conn_client, with_client, lua_create, lua_connect,
  lua_close, on_update,
}
use defold_connclient.Extension.Registry.{AllDistinct, eq_refl, valid-remove, on_update_at}
use defold_connclient.Extension.Script.{
  ScriptStep, create, connect, close, send, add_relink_interval, set_magic_num, set_logdebug_cb,
  set_loginfo_cb, set_logerror_cb, set_output_cb, set_disconnect_cb, set_connectsuccess_cb,
  set_relinksuccess_cb, set_relink_cb, frame, call_method,
}

module _ (api : ClientApi) where
  -- The client behind a handle, while the registry has it.
  abbrev pub view : ℕ → Extension api.Client → Option api.Client
  view conn s = if is_connection_valid conn s.clients then some (s.heap conn) else none

  abbrev change : (api.Client → api.Client) → Option api.Client → Option api.Client
  change f none = none
  change f (some c) = some (f c)

  -- What a method does to one connection, where the handle is that connection's.
  abbrev aimed :
      ℕ → (Option api.Client → Option api.Client) → LuaValue → Option api.Client → Option api.Client
  aimed conn f other_value c = c
  aimed conn f (light_userdata i) c = if i == conn then f c else c

  -- A connection by itself: nothing, or a client.
  abbrev pub alone : ℕ → ScriptStep → Option api.Client → Option api.Client
  alone conn (create address magic) c =
      if address == conn then some (api.set_magic_num magic api.new) else c
  alone conn (connect v ip port timeout_ms) c =
      aimed conn (change (λ d. (api.connect ip port timeout_ms d).1)) v c
  alone conn (close v) c = aimed conn (λ d. none) v c
  alone conn (send v msg) c = aimed conn (change (λ d. (api.send_msg msg d).1)) v c
  alone conn (add_relink_interval v ms) c = aimed conn (change (api.add_relink_interval ms)) v c
  alone conn (set_magic_num v magic) c = aimed conn (change (api.set_magic_num magic)) v c
  alone conn (set_logdebug_cb v cb) c = aimed conn (change (api.set_log_debug_cb cb)) v c
  alone conn (set_loginfo_cb v cb) c = aimed conn (change (api.set_log_info_cb cb)) v c
  alone conn (set_logerror_cb v cb) c = aimed conn (change (api.set_log_error_cb cb)) v c
  alone conn (set_output_cb v cb) c = aimed conn (change (api.set_output_cb cb)) v c
  alone conn (set_disconnect_cb v cb) c = aimed conn (change (api.set_disconnect_cb cb)) v c
  alone conn (set_connectsuccess_cb v cb) c =
      aimed conn (change (api.set_connect_success_cb cb)) v c
  alone conn (set_relinksuccess_cb v cb) c = aimed conn (change (api.set_relink_success_cb cb)) v c
  alone conn (set_relink_cb v cb) c = aimed conn (change (api.set_relink_cb cb)) v c
  alone conn frame c = change api.update c

  abbrev pub run_alone : ℕ → List ScriptStep → Option api.Client → Option api.Client
  run_alone conn [] c = c
  run_alone conn (step ∷ rest) c = run_alone conn rest (alone conn step c)

  abbrev pub outcome : Outcome (Extension api.Client) → Extension api.Client → Extension api.Client
  outcome (returned t) s = t
  outcome (raised err) s = s

  -- A new client gets an address that no registered one has, and that is not null.
  abbrev pub Fresh : ScriptStep → Extension api.Client → Type 0
  Fresh (create address magic) s =
      ((address == 0) ≡ false) × (find_connection address s.clients ≡ false)
  Fresh step s = Unit {0}

  abbrev pub AllFresh : List ScriptStep → Extension api.Client → Type 0
  AllFresh [] s = Unit {0}
  AllFresh (step ∷ rest) s = Fresh step s × AllFresh rest (outcome (call_method api step s) s)

  -- The call reaches no connection but that of its handle.
  with_client_other :
      (conn i : ℕ) (f : api.Client → api.Client) (s : Extension api.Client)
      → conn ≢ i
      → view conn (outcome (with_client api f (light_userdata i) s) s) ≡ view conn s
  unfolding with_client pop_conn_client
  with_client_other conn i f s h = ground arith

  with_client_self :
      (conn : ℕ) (f : api.Client → api.Client) (s : Extension api.Client)
      → view conn (outcome (with_client api f (light_userdata conn) s) s) ≡ change f (view conn s)
  unfolding with_client pop_conn_client
  with_client_self conn f s = ground arith

  close_other :
      (conn i : ℕ) (s : Extension api.Client)
      → AllDistinct s.clients
      → conn ≢ i
      → view conn (outcome (lua_close api (light_userdata i) s) s) ≡ view conn s
  unfolding lua_close pop_conn_client
  close_other conn i s d h = ground (arith, valid-remove i conn s.clients d)

  close_self :
      (conn : ℕ) (s : Extension api.Client)
      → AllDistinct s.clients
      → view conn (outcome (lua_close api (light_userdata conn) s) s) ≡ none
  unfolding lua_close pop_conn_client
  close_self conn s d = ground (arith, valid-remove conn conn s.clients d)

  pub frame-view :
      (conn : ℕ) (s : Extension api.Client)
      → AllDistinct s.clients
      → view conn (on_update api s) ≡ change api.update (view conn s)
  unfolding is_connection_valid on_update
  frame-view conn s d = ground (arith, on_update_at api s conn d)

  -- A method at a handle, from what it does to that handle's connection and to another.
  aimed-view :
      (conn : ℕ) (f : Option api.Client → Option api.Client)
      (after : LuaValue → Extension api.Client) (s : Extension api.Client)
      → (view conn (after other_value) ≡ view conn s)
      → ((i : ℕ) → conn ≢ i → view conn (after (light_userdata i)) ≡ view conn s)
      → view conn (after (light_userdata conn)) ≡ f (view conn s)
      → (v : LuaValue) → view conn (after v) ≡ aimed conn f v (view conn s)
  aimed-view conn f after s none_aimed others self other_value = none_aimed
  aimed-view conn f after s none_aimed others self (light_userdata i) =
      elim (Bool-cases (i == conn)) [
        | inl same ↦
            subst
              (λ (j : ℕ).
                view conn (after (light_userdata j))
                ≡ aimed conn f (light_userdata j) (view conn s))
              (sym (==→eq i conn same)) (self ∙ rw (eq_refl conn) refl)
        | inr differs ↦ others i (λ h. ne i differs h) ∙ rw differs refl
      ]
    where
      ne : (i : ℕ) → (i == conn) ≡ false → conn ≢ i
      ne i h = ground arith

  pub with_client-view :
      (conn : ℕ) (f : api.Client → api.Client) (v : LuaValue) (s : Extension api.Client)
      → view conn (outcome (with_client api f v s) s) ≡ aimed conn (change f) v (view conn s)
  unfolding with_client pop_conn_client
  with_client-view conn f v s =
      aimed-view conn (change f) (λ u. outcome (with_client api f u s) s) s refl
        (λ i h. with_client_other conn i f s h) (with_client_self conn f s) v

  pub close-view :
      (conn : ℕ) (v : LuaValue) (s : Extension api.Client)
      → AllDistinct s.clients
      → view conn (outcome (lua_close api v s) s) ≡ aimed conn (λ d. none) v (view conn s)
  unfolding lua_close pop_conn_client
  close-view conn v s d =
      aimed-view conn (λ u. none) (λ u. outcome (lua_close api u s) s) s refl
        (λ i h. close_other conn i s d h) (close_self conn s d) v

  find-append :
      (conn address : ℕ) (cs : List ℕ)
      → find_connection conn (cs ++ address ∷ []) ≡ (find_connection conn cs || (address == conn))
  unfolding find_connection
  find-append conn address [] = ground arith
  find-append conn address (c ∷ cs) = ground (arith, find-append conn address cs)

  pub append-AllDistinct :
      (address : ℕ) (cs : List ℕ)
      → AllDistinct cs
      → find_connection address cs ≡ false
      → AllDistinct (cs ++ address ∷ [])
  unfolding find_connection
  append-AllDistinct address [] d new = (refl, tt)
  append-AllDistinct address (c ∷ cs) d new =
      ground (arith, find-append c address cs, append-AllDistinct address cs d.1, d.0)

  pub create-view :
      (conn address magic : ℕ) (s : Extension api.Client)
      → (address == 0) ≡ false
      → view conn (lua_create api address magic s) ≡ alone conn (create address magic) (view conn s)
  unfolding lua_create is_connection_valid
  create-view conn address magic s h = ground (arith, find-append conn address s.clients)

  -- A connect that does not fail is a change of the client.
  pub connect-view :
      (conn : ℕ) (ip : List ℕ) (port : ℕ) (timeout_ms : ℤ) (v : LuaValue) (s : Extension api.Client)
      → ((c : api.Client) → is_zero (api.connect ip port timeout_ms c).0 ≡ true)
      → outcome (lua_connect api ip port timeout_ms v s) s
        ≡ outcome (with_client api (λ c. (api.connect ip port timeout_ms c).1) v s) s
  unfolding lua_connect with_client pop_conn_client
  connect-view conn ip port timeout_ms other_value s succeeds = refl
  connect-view conn ip port timeout_ms (light_userdata i) s succeeds =
      ground (arith, succeeds (s.heap i))
