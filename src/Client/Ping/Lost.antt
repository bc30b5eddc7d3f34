-- ===== src/Client/Ping/Lost.antt =====
-- A session that opens in connclient/src/conn_client.cpp on a connection that the server has closed.
use defold_connclient.Prelude.{
  ℕ, suc, ◌<◌, ◌≡◌, refl, ap, ◌∙◌, true, false, some, [], ◌∷◌, ◌++◌, length, is_some, pos, arith,
  append_assoc,
}
use defold_connclient.Stream.Buffer.{IsValid}
use defold_connclient.Os.{Fd}
use defold_connclient.Wire.{control_ping, client_connect_error, le64, le32}
use defold_connclient.TimeExpire
use defold_connclient.Client.State.{
  Env, Client, Callbacks, cs_init, cs_logic_connected, disconnect_event, connect_success_event,
  now_ms, set_conn_state, enter_state,
}
use defold_connclient.Client.Send.{inner_close, enqueue_out}
use defold_connclient.Client.Send.Broken.{Broken, send_tcp_buf-Broken}
use defold_connclient.Client.Send.Closing.{
  inner_close_relinks, inner_close-IsClosed, inner_close-Frame, Frame-refl,
}
use defold_connclient.Client.Connect.Relinking.{close_reason_kept}
use defold_connclient.Client.Ping.{ping_tcp, send_tcp_ping, enter_logic, connect_success}
use defold_connclient.Client.Read.{on_sync_label}

module _ (e : Env) (depth : ℕ) where
  -- The close that the ping meets, of a client `d` that is as `c` in what the close reads.
  pub record Lost (c : Client e) : Type 0 where
    pub before : Client e
    pub out :
        enter_logic e (suc depth) c ≡ inner_close e (suc depth) (pos client_connect_error) before
    pub callbacks : before.callbacks ≡ c.callbacks
    pub out_queue : before.out_queue ≡ c.out_queue
    pub left : before.relink_count < length before.relink_interval_ms_vec

  enter_logic-Lost :
      (fd : Fd) (broken : Broken e.os fd) (c : Client e)
      → c.tcp_sock ≡ fd
      → IsValid c.write_stream
      → 0 < length c.relink_interval_ms_vec
      → Lost c
  unfolding enter_logic send_tcp_ping ping_tcp now_ms set_conn_state enter_state
  enter_logic-Lost fd broken c at valid some_left =
      let (now, c2) = now_ms e (set_conn_state e cs_logic_connected c) in
      let ready : Client e = record c2 {
        tcp_ping_expire = TimeExpire.reset now c2.tcp_ping_expire;
        ping_seq = now;
      } in
      let sent =
        send_tcp_buf-Broken e fd broken (λ os. Unit {0}) (inner_close e (suc depth)) control_ping
          (le64 now) ready at valid (unfold le64 le32 in omega arith) tt (λ bytes. tt) in
      record {
        before = record ready { os = sent.0; write_stream = sent.1 };
        out = sent.2;
        callbacks = refl;
        out_queue = refl;
        left = some_left;
      }

  -- `ConnectSuccess` on such a connection.
  connect_success-Lost :
      (c : Client e) (on_disconnect on_success : ℕ)
      → Lost c
      → c.callbacks.disconnect_cb ≡ some on_disconnect
      → c.callbacks.connect_success_cb ≡ some on_success
      → let c' = connect_success e (suc depth) c in
        (c'.conn_state ≡ cs_init)
        × (c'.out_queue
            ≡ (c.out_queue ++ disconnect_event (pos client_connect_error) ∷ [])
              ++ connect_success_event ∷ [])
  unfolding connect_success enqueue_out
  connect_success-Lost c on_disconnect on_success lost dcb scb =
      let b = lost.before in
      let d = inner_close e (suc depth) (pos client_connect_error) b in
      let acts = close_reason_kept e depth (pos client_connect_error) b lost.left in
      let closed =
        inner_close_relinks e depth (pos client_connect_error) b (rw acts (omega arith)) in
      let set : is_some d.callbacks.connect_success_cb ≡ true =
        ap (λ (cbs : Callbacks). is_some cbs.connect_success_cb)
          ((inner_close-Frame e (suc depth) (pos client_connect_error) b b (Frame-refl b)).callbacks
            ∙ lost.callbacks)
        ∙ ap is_some scb in
      let told : is_some b.callbacks.disconnect_cb ≡ true =
        ap (λ (cbs : Callbacks). is_some cbs.disconnect_cb) lost.callbacks ∙ ap is_some dcb in
      rw (lost.out, set)
        (
          (inner_close-IsClosed e depth (pos client_connect_error) b).conn_state,
          ap (λ queue. queue ++ connect_success_event ∷ [])
              (closed.3
                ∙ rw (told, acts)
                    (ap (λ queue. queue ++ disconnect_event (pos client_connect_error) ∷ [])
                      lost.out_queue)),
        )

  -- On the first label, with an interval and both callbacks set, and a socket on which every send
  -- fails for good: the ping closes the client before its success is put out. The state is then
  -- CS_INIT, and the queue gets the disconnect for CLIENT_CONNECT_ERROR and behind it the success of
  -- the connect.
  pub on_sync_label-Lost :
      (fd : Fd) (broken : Broken e.os fd) (c : Client e) (on_disconnect on_success : ℕ)
      → c.tcp_sock ≡ fd
      → IsValid c.write_stream
      → 0 < length c.relink_interval_ms_vec
      → c.is_first_connect ≡ true
      → c.callbacks.disconnect_cb ≡ some on_disconnect
      → c.callbacks.connect_success_cb ≡ some on_success
      → let c' = on_sync_label e (suc depth) c in
        (c'.conn_state ≡ cs_init)
        × (c'.out_queue
            ≡ c.out_queue
              ++ disconnect_event (pos client_connect_error) ∷ connect_success_event ∷ [])
  unfolding on_sync_label connect_success enqueue_out
  on_sync_label-Lost fd broken c on_disconnect on_success at valid some_left first dcb scb =
      let start : Client e = record c { is_first_connect = false } in
      let lost = enter_logic-Lost fd broken start at valid some_left in
      let both = connect_success-Lost start on_disconnect on_success lost dcb scb in
      rw first (
        both.0,
        both.1
            ∙ append_assoc c.out_queue (disconnect_event (pos client_connect_error) ∷ [])
                (connect_success_event ∷ []),
      )
