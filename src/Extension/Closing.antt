-- ===== src/Extension/Closing.antt =====
-- connclient/src/myextension.cpp over the client of connclient/src/conn_client.cpp: a client that a
-- script has closed.
use defold_connclient.Prelude.{ℕ, ◌≡◌, refl, ap, ◌∙◌, Bool, true, [], ◌∷◌, ◌++◌}
use defold_connclient.Client.State.{Env, Client, close_task}
use defold_connclient.Client.Api
use defold_connclient.Client.Api.{enqueue_in}
use defold_connclient.Extension.{
  Extension, is_connection_valid, on_update, lua_close, light_userdata, returned,
}
use defold_connclient.Extension.Instance.{conn_client}
use defold_connclient.Extension.Registry.{
  AllDistinct, closed_state, lua_close_registered, on_update_closed,
}

module _ (e : Env) (callable : ℕ → Bool) (os : e.os.State) where
  -- `close` on a registered client, in a registry without doubles, returns and puts the task to
  -- close into the client's queue; the update of the frame after it runs no callback of that client: the
  -- events that it has queued, whatever they are, stay where they are.
  pub on_update_after_close :
      (conn : ℕ) (s : Extension (Client e))
      → AllDistinct s.clients
      → is_connection_valid conn s.clients ≡ true
      → let api = conn_client e callable os in
        (t : Extension (Client e)) × (lua_close api (light_userdata conn) s ≡ returned t)
        × (((on_update api t).heap conn).out_queue ≡ (s.heap conn).out_queue)
        × (((on_update api t).heap conn).in_queue ≡ (s.heap conn).in_queue ++ close_task ∷ [])
  on_update_after_close conn s d h =
      let api = conn_client e callable os in
      let same = on_update_closed api conn s d h in
      (
        closed_state api conn s,
        lua_close_registered api conn s h,
        ap (λ (c : Client e). c.out_queue) same ∙ unfold Api.close enqueue_in in refl,
        ap (λ (c : Client e). c.in_queue) same ∙ unfold Api.close enqueue_in in refl,
      )
