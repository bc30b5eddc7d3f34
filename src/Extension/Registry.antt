-- ===== src/Extension/Registry.antt =====
-- Which connections the functions of connclient/src/myextension.cpp accept, and which client each
-- call reaches.
use defold_connclient.Prelude.{
  ℕ, if_elim, ◌≡◌, ◌≢◌, refl, ◌∙◌, true, false, List, [], ◌∷◌, ◌==◌, if◌then◌else◌, arith,
}
use defold_connclient.Extension.{
  ClientApi, light_userdata, returned, raised, invalid_connection, Extension, find_connection,
  is_connection_valid, erase_connection, remove_connection, pop_conn_client, store, with_client,
  lua_close, update_all, on_update,
}

-- No connection stands in the registry twice.
abbrev pub AllDistinct : List ℕ → Type 0
AllDistinct [] = Unit {0}
AllDistinct (c ∷ cs) = (find_connection c cs ≡ false) × AllDistinct cs

find-erase_self :
    (conn : ℕ) (cs : List ℕ)
    → AllDistinct cs
    → find_connection conn (erase_connection conn cs) ≡ false
unfolding find_connection erase_connection
find-erase_self conn [] d = refl
find-erase_self conn (c ∷ cs) d = ground (arith, find-erase_self conn cs d.1, d.0)

find-erase_ne :
    (conn other : ℕ) (cs : List ℕ)
    → conn ≢ other
    → find_connection other (erase_connection conn cs) ≡ find_connection other cs
unfolding find_connection erase_connection
find-erase_ne conn other [] h = refl
find-erase_ne conn other (c ∷ cs) h = ground (arith, find-erase_ne conn other cs h)

erase-AllDistinct :
    (conn : ℕ) (cs : List ℕ) → AllDistinct cs → AllDistinct (erase_connection conn cs)
unfolding erase_connection find_connection
erase-AllDistinct conn [] d = tt
erase-AllDistinct conn (c ∷ cs) d =
    ground (arith, erase-AllDistinct conn cs d.1, find-erase_ne conn c cs, d.0)

pub remove-AllDistinct :
    (conn : ℕ) (cs : List ℕ) → AllDistinct cs → AllDistinct (remove_connection conn cs)
unfolding remove_connection
remove-AllDistinct conn cs d =
    if_elim AllDistinct (conn == 0) cs (erase_connection conn cs) d (erase-AllDistinct conn cs d)

pub valid-remove :
    (conn other : ℕ) (cs : List ℕ)
    → AllDistinct cs
    → is_connection_valid other (remove_connection conn cs)
      ≡ (if other == conn then false else is_connection_valid other cs)
unfolding is_connection_valid remove_connection
valid-remove conn other cs d =
    ground (arith, find-erase_self conn cs d, find-erase_ne conn other cs)

pub eq_refl : (n : ℕ) → (n == n) ≡ true
eq_refl n = ground arith

find-remove_self :
    (conn : ℕ) (cs : List ℕ)
    → AllDistinct cs
    → is_connection_valid conn cs ≡ true
    → find_connection conn (remove_connection conn cs) ≡ false
unfolding is_connection_valid remove_connection
find-remove_self conn cs d h = ground (arith, find-erase_self conn cs d)

module _ (api : ClientApi) where
  -- The state after `close` on a connection.
  abbrev pub closed_state : ℕ → Extension api.Client → Extension api.Client
  closed_state conn s = record {
    clients = remove_connection conn s.clients;
    heap = store conn (api.close (s.heap conn)) s.heap;
  }

  pub lua_close_registered :
      (conn : ℕ) (s : Extension api.Client)
      → is_connection_valid conn s.clients ≡ true
      → lua_close api (light_userdata conn) s ≡ returned (closed_state conn s)
  unfolding lua_close pop_conn_client
  lua_close_registered conn s h = rw (h, lua_close, pop_conn_client)

  gone :
      (conn : ℕ) (s : Extension api.Client) (change : api.Client → api.Client)
      → AllDistinct s.clients
      → with_client api change (light_userdata conn) (closed_state conn s)
        ≡ raised invalid_connection
  unfolding with_client pop_conn_client
  gone conn s change d =
      let e : is_connection_valid conn (remove_connection conn s.clients) ≡ false =
        valid-remove conn conn s.clients d ∙ rw (eq_refl conn) in
      rw (e, with_client, pop_conn_client)

  -- `close` on a registered connection, in a registry without doubles, takes it and no other out of
  -- the registry and keeps that free of doubles; a later call on it that would change its client is
  -- refused.
  pub lua_close_valid :
      (conn other : ℕ) (s : Extension api.Client) (change : api.Client → api.Client)
      → AllDistinct s.clients
      → is_connection_valid conn s.clients ≡ true
      → let t = closed_state conn s in
        (lua_close api (light_userdata conn) s ≡ returned t)
        × AllDistinct t.clients
        × (is_connection_valid other t.clients
            ≡ (if other == conn then false else is_connection_valid other s.clients))
        × (with_client api change (light_userdata conn) t ≡ raised invalid_connection)
  lua_close_valid conn other s change d h = (
    lua_close_registered conn s h,
    remove-AllDistinct conn s.clients d,
    valid-remove conn other s.clients d,
    gone conn s change d,
  )

  update_all_at :
      (cs : List ℕ) (heap : ℕ → api.Client) (i : ℕ)
      → AllDistinct cs
      → update_all api cs heap i ≡ (if find_connection i cs then api.update (heap i) else heap i)
  unfolding update_all find_connection
  update_all_at [] heap i d = refl
  update_all_at (c ∷ cs) heap i d =
      ground (arith, update_all_at cs (store c (api.update (heap c)) heap) i d.1, d.0)

  -- With a registry without doubles, the update of a frame reaches every registered client once,
  -- and no other client.
  pub on_update_at :
      (s : Extension api.Client) (i : ℕ)
      → AllDistinct s.clients
      → (on_update api s).heap i
        ≡ (if find_connection i s.clients then api.update (s.heap i) else s.heap i)
  unfolding on_update
  on_update_at s i d = update_all_at s.clients s.heap i d

  -- A registered client of a registry without doubles is not updated by the frame after its `close`:
  -- what its net thread still reports, such as the disconnect, stays in its queue.
  pub on_update_closed :
      (conn : ℕ) (s : Extension api.Client)
      → AllDistinct s.clients
      → is_connection_valid conn s.clients ≡ true
      → (on_update api (closed_state conn s)).heap conn ≡ api.close (s.heap conn)
  on_update_closed conn s d h =
      on_update_at (closed_state conn s) conn (remove-AllDistinct conn s.clients d)
      ∙ rw (find-remove_self conn s.clients d h, eq_refl conn)
