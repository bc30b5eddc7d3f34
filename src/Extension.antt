-- ===== src/Extension.antt =====
-- connclient/src/myextension.cpp: the registry of connections and the functions that a script
-- calls. A connection is the number of its address, 0 the null pointer; the clients stand in a heap
-- behind their addresses. The client's calls are the interface `ClientApi`, and the address of a
-- new client is an argument. The life-cycle callbacks that only log are left out.
pub mod Registry
pub mod Instance
pub mod Closing
pub mod Script
use defold_connclient.Prelude.{
  ℕ, suc, Bool, true, false, not, ◌&&◌, ◌||◌, Option, none, some, List, [], ◌∷◌, ◌++◌, ◌==◌,
  if◌then◌else◌, ℤ, pos, is_zero,
}

-- The calls of `ConnClient` that the extension makes.
pub record ClientApi : Type 1 where
  pub Client : Type 0
  pub new : Client
  pub connect : List ℕ → ℕ → ℤ → Client → ℤ × Client
  pub close : Client → Client
  pub send_msg : List ℕ → Client → ℤ × Client
  pub add_relink_interval : ℤ → Client → Client
  pub set_magic_num : ℕ → Client → Client
  pub set_log_debug_cb : Option ℕ → Client → Client
  pub set_log_info_cb : Option ℕ → Client → Client
  pub set_log_error_cb : Option ℕ → Client → Client
  pub set_output_cb : Option ℕ → Client → Client
  pub set_disconnect_cb : Option ℕ → Client → Client
  pub set_connect_success_cb : Option ℕ → Client → Client
  pub set_relink_success_cb : Option ℕ → Client → Client
  pub set_relink_cb : Option ℕ → Client → Client
  pub update : Client → Client

-- The first argument of a call from Lua.
pub data LuaValue : Type 0 where
  light_userdata : ℕ → LuaValue
  other_value : LuaValue

pub data LuaError : Type 0 where
  not_userdata invalid_connection connect_failed : LuaError

pub data Outcome {ℓ} (A : Type ℓ) : Type ℓ where
  returned : A → Outcome A
  raised : LuaError → Outcome A

unfoldable pub find_connection : ℕ → List ℕ → Bool
find_connection conn [] = false
find_connection conn (c ∷ rest) = (c == conn) || find_connection conn rest

unfoldable pub is_connection_valid : ℕ → List ℕ → Bool
is_connection_valid conn clients = not (conn == 0) && find_connection conn clients

-- The first entry that is the connection goes.
unfoldable pub erase_connection : ℕ → List ℕ → List ℕ
erase_connection conn [] = []
erase_connection conn (c ∷ rest) = if c == conn then rest else c ∷ erase_connection conn rest

unfoldable pub remove_connection : ℕ → List ℕ → List ℕ
remove_connection conn clients = if conn == 0 then clients else erase_connection conn clients

pub record Extension (C : Type 0) : Type 0 where
  pub clients : List ℕ
  pub heap : ℕ → C

abbrev pub store : {C : Type 0} → ℕ → C → (ℕ → C) → ℕ → C
store conn c heap i = if i == conn then c else heap i

unfoldable pub pop_conn_client : {C : Type 0} → LuaValue → Extension C → Outcome ℕ
pop_conn_client other_value s = raised not_userdata
pop_conn_client (light_userdata conn) s =
    if is_connection_valid conn s.clients then returned conn else raised invalid_connection

module _ (api : ClientApi) where
  abbrev State : Type 0
  State = Extension api.Client

  unfoldable pub lua_create : ℕ → ℕ → State → State
  lua_create address magic s = record s {
    clients = s.clients ++ address ∷ [];
    heap = store address (api.set_magic_num magic api.new) s.heap;
  }

  -- A function that changes the client of its first argument.
  unfoldable pub with_client : (api.Client → api.Client) → LuaValue → State → Outcome State
  with_client change v s = elim (pop_conn_client v s) [
    | raised err ↦ raised err
    | returned conn ↦ returned (record s { heap = store conn (change (s.heap conn)) s.heap })
  ]

  -- A client that cannot connect is deleted, and stays in the registry.
  unfoldable pub lua_connect : List ℕ → ℕ → ℤ → LuaValue → State → Outcome State
  lua_connect ip port timeout_ms v s = elim (pop_conn_client v s) [
    | raised err ↦ raised err
    | returned conn ↦
        let (ret, c) = api.connect ip port timeout_ms (s.heap conn) in
        if is_zero ret
        then returned (record s { heap = store conn c s.heap })
        else raised connect_failed
  ]

  unfoldable pub lua_close : LuaValue → State → Outcome State
  lua_close v s = elim (pop_conn_client v s) [
    | raised err ↦ raised err
    | returned conn ↦ returned (record s {
      clients = remove_connection conn s.clients;
      heap = store conn (api.close (s.heap conn)) s.heap;
    })
  ]

  unfoldable pub lua_send : List ℕ → LuaValue → State → Outcome State
  lua_send msg = with_client (λ c. (api.send_msg msg c).1)

  unfoldable pub lua_add_relink_interval : ℤ → LuaValue → State → Outcome State
  lua_add_relink_interval interval = with_client (api.add_relink_interval interval)

  unfoldable pub lua_set_magic_num : ℕ → LuaValue → State → Outcome State
  lua_set_magic_num magic = with_client (api.set_magic_num magic)

  unfoldable pub lua_set_logdebug_cb : Option ℕ → LuaValue → State → Outcome State
  lua_set_logdebug_cb cb = with_client (api.set_log_debug_cb cb)

  unfoldable pub lua_set_loginfo_cb : Option ℕ → LuaValue → State → Outcome State
  lua_set_loginfo_cb cb = with_client (api.set_log_info_cb cb)

  unfoldable pub lua_set_logerror_cb : Option ℕ → LuaValue → State → Outcome State
  lua_set_logerror_cb cb = with_client (api.set_log_error_cb cb)

  unfoldable pub lua_set_output_cb : Option ℕ → LuaValue → State → Outcome State
  lua_set_output_cb cb = with_client (api.set_output_cb cb)

  unfoldable pub lua_set_disconnect_cb : Option ℕ → LuaValue → State → Outcome State
  lua_set_disconnect_cb cb = with_client (api.set_disconnect_cb cb)

  unfoldable pub lua_set_connectsuccess_cb : Option ℕ → LuaValue → State → Outcome State
  lua_set_connectsuccess_cb cb = with_client (api.set_connect_success_cb cb)

  unfoldable pub lua_set_relinksuccess_cb : Option ℕ → LuaValue → State → Outcome State
  lua_set_relinksuccess_cb cb = with_client (api.set_relink_success_cb cb)

  unfoldable pub lua_set_relink_cb : Option ℕ → LuaValue → State → Outcome State
  lua_set_relink_cb cb = with_client (api.set_relink_cb cb)

  -- The loop over the registry, as it is at the start of the frame: no callback changes it meanwhile.
  unfoldable pub update_all : List ℕ → (ℕ → api.Client) → ℕ → api.Client
  update_all [] heap = heap
  update_all (conn ∷ rest) heap = update_all rest (store conn (api.update (heap conn)) heap)

  unfoldable pub on_update : State → State
  on_update s = record s { heap = update_all s.clients s.heap }
