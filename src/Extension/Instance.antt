-- ===== src/Extension/Instance.antt =====
-- connclient/src/conn_client.cpp, the class `ConnClient`: each call goes on to `ConnClientPrivate`.
-- With it the extension drives the client of Client. A new client starts at a state of the system.
use defold_connclient.Prelude.{ℕ, Bool}
use defold_connclient.Client.State.{Env, Client}
use defold_connclient.Client.State
use defold_connclient.Client.Api
use defold_connclient.Extension.{ClientApi}

abbrev pub conn_client : (e : Env) (callable : ℕ → Bool) → e.os.State → ClientApi
conn_client e callable os = record {
  Client = Client e;
  new = State.init e os;
  connect = Api.connect e;
  close = Api.close e;
  send_msg = Api.send_msg e;
  add_relink_interval = Api.add_relink_interval e;
  set_magic_num = Api.set_magic_num e;
  set_log_debug_cb = Api.set_log_debug_cb e;
  set_log_info_cb = Api.set_log_info_cb e;
  set_log_error_cb = Api.set_log_error_cb e;
  set_output_cb = Api.set_output_cb e;
  set_disconnect_cb = Api.set_disconnect_cb e;
  set_connect_success_cb = Api.set_connect_success_cb e;
  set_relink_success_cb = Api.set_relink_success_cb e;
  set_relink_cb = Api.set_relink_cb e;
  update = λ c. (Api.update e callable c).1;
}
