-- ===== src/Client/Link/Handlers.antt =====
-- The handlers of connclient/src/conn_client.cpp, on the way of a frame or a datagram, keep any
-- stable predicate on the connection.
use defold_connclient.Prelude.{
  ℕ, zero, suc, ◌%◌, ◌^◌, ◌||◌, ◌&&◌, ◌==◌, refl, Bool, true, false, some, List, [], ◌∷◌, take,
  leb_ℤ, ltb_ℤ, is_some, is_zero, if◌then◌else◌, if_elim, if_elim_snd, ℤ, pos, negsuc, pos_part,
}
use defold_connclient.KcpSession.{Received, message, failed, is_null, Datagram}
use defold_connclient.KcpSession
use defold_connclient.Wire.{load32, ControlKcpInfo, client_connect_error}
use defold_connclient.Client.State.{Env, Client, now_ms, terminated}
use defold_connclient.Client.Send.{inner_close, deliver}
use defold_connclient.Client.Send.Keeps.{deliver_keeps}
use defold_connclient.Client.Read.{
  output, on_kcp_message, drain, finish_drain, input_to_kcp, start_kcp, create_kcp, on_unreliable,
  on_kcp_info, on_disconnect, on_sync_label, on_frame, eq_ℤ,
}
use defold_connclient.Client.Link.{Link, Holds, Stable}
use defold_connclient.Client.Link.Closing.{enqueue_out-Holds, inner_close-Holds, keeps}

module _ (e : Env) (Q : Link → Type 0) (stable : Stable Q) (depth : ℕ) where
  closes : (reason : ℤ) (c : Client e) → Holds Q c → Holds Q (inner_close e depth reason c)
  closes reason c h = inner_close-Holds e Q stable depth reason c h

  pub deliver-Holds :
      (bufs : List Datagram) (c : Client e)
      → Holds Q c
      → Holds Q (deliver e (inner_close e depth) bufs c)
  deliver-Holds bufs c h =
      deliver_keeps e (Holds Q) (inner_close e depth) (keeps e Q stable depth) bufs c h

  pub output-Holds : (bytes : List ℕ) (c : Client e) → Holds Q c → Holds Q (output e depth bytes c)
  unfolding output
  output-Holds bytes c h = if_elim (Holds Q) _ _ _ (enqueue_out-Holds e Q stable _ c refl h) h

  on_kcp_message-Holds :
      (cmd : ℕ) (rest : List ℕ) (c : Client e)
      → Holds Q c
      → Holds Q (on_kcp_message e depth cmd rest c)
  unfolding on_kcp_message
  on_kcp_message-Holds cmd rest c h =
      if_elim (Holds Q) _ _ _ (closes _ c h) (if_elim (Holds Q) _ _ _ (output-Holds rest c h) h)

  drain-Holds : (fuel : ℕ) (c : Client e) → Holds Q c → Holds Q (drain e depth fuel c).1
  unfolding drain
  drain-Holds zero c h = record { holds = h.holds }
  drain-Holds (suc fuel) c h =
      by_answer (KcpSession.recv e.lib 3145728 c.kcp_session).0
        (record c { kcp_session = (KcpSession.recv e.lib 3145728 c.kcp_session).1 })
        (record { holds = h.holds }) (λ d k. drain-Holds fuel d k)
    where
      by_answer :
          (r : Received) (c' : Client e)
          → Holds Q c'
          → ((d : Client e) → Holds Q d → Holds Q (drain e depth fuel d).1)
          → Holds Q
              (elim r as (λ _. ℤ × Client e) [
                | failed code ↦ (code, c')
                | message [] ↦ (pos 0, c')
                | message (cmd ∷ rest) ↦ drain e depth fuel (on_kcp_message e depth cmd rest c')
              ]).1
      by_answer (failed code) c' k rest_keeps = k
      by_answer (message []) c' k rest_keeps = k
      by_answer (message (cmd ∷ rest)) c' k rest_keeps =
          rest_keeps _ (on_kcp_message-Holds cmd rest c' k)

  finish_drain-Holds : (r : ℤ × Client e) → Holds Q r.1 → Holds Q (finish_drain e depth r).1
  unfolding finish_drain
  finish_drain-Holds (recv_len, c) h = if_elim_snd (Holds Q) _ _ _ (closes _ c h) h

  pub input_to_kcp-Holds :
      (fuel : ℕ) (msg : List ℕ) (cur_time : ℕ) (c : Client e)
      → Holds Q c
      → Holds Q (input_to_kcp e depth fuel msg cur_time c).1
  unfolding input_to_kcp
  input_to_kcp-Holds fuel msg cur_time c h =
      let fed = KcpSession.input e.lib msg (cur_time % 2 ^ 32) c.kcp_session in
      let c' : Client e = record c { kcp_session = fed.1 } in
      let k : Holds Q c' = record { holds = h.holds } in
      let drained = drain e depth fuel c' in
      if_elim_snd {A = ℤ} (Holds Q) (is_null c.kcp_session)
        (negsuc 0, inner_close e depth (pos client_connect_error) c)
        (if is_zero fed.0
          then finish_drain e depth drained
          else (negsuc 0, inner_close e depth (pos client_connect_error) c'))
        (closes _ c h)
        (if_elim_snd {A = ℤ} (Holds Q) (is_zero fed.0) (finish_drain e depth drained)
          (negsuc 0, inner_close e depth (pos client_connect_error) c')
          (finish_drain-Holds drained (drain-Holds fuel c' k)) (closes _ c' k))

  start_kcp-Holds :
      (info : ControlKcpInfo) (c : Client e) → Holds Q c → Holds Q (start_kcp e depth info c)
  unfolding start_kcp now_ms
  start_kcp-Holds info c h = deliver-Holds _ _ (record { holds = h.holds })

  create_kcp-Holds :
      (info : ControlKcpInfo) (c : Client e) → Holds Q c → Holds Q (create_kcp e depth info c)
  unfolding create_kcp
  create_kcp-Holds info c h =
      let made = KcpSession.create_kcp e.lib info true c.enable_kcp_log c.kcp_session in
      let c' : Client e = record c { kcp_session = made.1 } in
      let k : Holds Q c' = record { holds = h.holds } in
      if_elim (Holds Q) (is_zero made.0) (start_kcp e depth info c') c' (start_kcp-Holds info c' k)
        k

  on_unreliable-Holds :
      (bytes : List ℕ) (data_len : ℤ) (c : Client e)
      → Holds Q c
      → Holds Q (on_unreliable e depth bytes data_len c).1
  unfolding on_unreliable
  on_unreliable-Holds bytes data_len c h =
      if_elim_snd {A = Bool} (Holds Q) (is_some c.callbacks.output_cb && ltb_ℤ data_len (pos 0))
        (false, record c { fault = some terminated })
        (true, output e depth (take (pos_part data_len) bytes) c) (record { holds = h.holds })
        (output-Holds _ c h)

  on_kcp_info-Holds :
      (bytes : List ℕ) (data_len : ℤ) (c : Client e)
      → Holds Q c
      → Holds Q (on_kcp_info e depth bytes data_len c).1
  unfolding on_kcp_info
  on_kcp_info-Holds bytes data_len c h =
      if_elim_snd (Holds Q) _ _ _ (create_kcp-Holds _ c h) (closes _ c h)

  on_disconnect-Holds :
      (bytes : List ℕ) (data_len : ℤ) (c : Client e)
      → Holds Q c
      → Holds Q (on_disconnect e depth bytes data_len c).1
  unfolding on_disconnect
  on_disconnect-Holds bytes data_len c h =
      let reason = load32 0 bytes in
      let known = reason == 0 || (reason == 1 || reason == 2) in
      if_elim_snd {A = Bool} (Holds Q) (leb_ℤ (pos 4) data_len)
        (if known then (false, inner_close e depth (pos reason) c) else (true, c))
        (true, inner_close e depth (pos 0) c)
        (if_elim_snd {A = Bool} (Holds Q) known (false, inner_close e depth (pos reason) c)
          (true, c) (closes _ c h) h)
        (closes _ c h)

  pub on_frame-Holds :
      (fuel cur_time cmd : ℕ) (bytes : List ℕ) (data_len : ℤ) (c : Client e)
      → Holds Q (on_sync_label e depth c)
      → Holds Q c
      → Holds Q (on_frame e depth fuel cur_time cmd bytes data_len c).1
  unfolding on_frame
  on_frame-Holds fuel cur_time cmd bytes data_len c synced h =
      let close = inner_close e depth (pos client_connect_error) c in
      let ping = if eq_ℤ data_len (pos 8) then (true, c) else (false, close) in
      let fed = input_to_kcp e depth fuel (take (pos_part data_len) bytes) cur_time c in
      let label : Bool × Client e =
        if cmd == 7 then (true, on_sync_label e depth c) else (true, c) in
      let fini = if cmd == 4 then on_disconnect e depth bytes data_len c else label in
      let info = if cmd == 3 then on_kcp_info e depth bytes data_len c else fini in
      let unreliable = if cmd == 1 then on_unreliable e depth bytes data_len c else info in
      let reliable : Bool × Client e = if cmd == 0 then (true, fed.1) else unreliable in
      if_elim_snd {A = Bool} (Holds Q) (cmd == 2) ping reliable
        (if_elim_snd {A = Bool} (Holds Q) (eq_ℤ data_len (pos 8)) (true, c) (false, close) h
          (closes _ c h))
        (if_elim_snd {A = Bool} (Holds Q) (cmd == 0) (true, fed.1) unreliable
          (input_to_kcp-Holds fuel _ cur_time c h)
          (if_elim_snd {A = Bool} (Holds Q) (cmd == 1) (on_unreliable e depth bytes data_len c) info
            (on_unreliable-Holds bytes data_len c h)
            (if_elim_snd {A = Bool} (Holds Q) (cmd == 3) (on_kcp_info e depth bytes data_len c) fini
              (on_kcp_info-Holds bytes data_len c h)
              (if_elim_snd {A = Bool} (Holds Q) (cmd == 4) (on_disconnect e depth bytes data_len c)
                label (on_disconnect-Holds bytes data_len c h)
                (if_elim_snd {A = Bool} (Holds Q) (cmd == 7) (true, on_sync_label e depth c)
                  (true, c) synced h)))))
