-- ===== src/Client/Link/Rounds.antt =====
-- The round of the net thread of connclient/src/conn_client.cpp keeps a connection well formed.
use defold_connclient.Prelude.{
  ℕ, suc, ◌%◌, ◌^◌, ◌≡◌, refl, ◌∙◌, true, false, not, ◌&&◌, ◌==◌, Option, none, some, inl, inr,
  List, length, drop, ltb, leb, is_some, is_zero, if◌then◌else◌, if_elim, if_elim_snd, Bool-cases,
  ℤ, pos, negsuc,
}
use defold_connclient.KcpSession
use defold_connclient.Os.{RefusesNone, Selected}
use defold_connclient.SocketApi.{recvfrom_ex, get_last_error}
use defold_connclient.Wire.{decode_udp_head}
use defold_connclient.Client.State.{
  Env, Client, Task, connect_task, close_task, send_task, ConnState, cs_init, cs_connecting,
  cs_connected, cs_logic_connected, now_ms, rank,
}
use defold_connclient.Client.Send.{inner_close, deliver, may_retry_udp}
use defold_connclient.Client.Send.Keeps.{on_tcp_write_keeps}
use defold_connclient.Client.Read.{on_datagram, on_udp_read, output, input_to_kcp}
use defold_connclient.Client.Loop.{
  on_tcp_writable, on_tcp_ready, on_udp_ready, on_selected, send_kcp_buf, run_task, tick_kcp,
}
use defold_connclient.Client.Link.{Holds}
use defold_connclient.Client.Link.Closing.{keeps}
use defold_connclient.Client.Link.Handlers.{deliver-Holds, output-Holds, input_to_kcp-Holds}
use defold_connclient.Client.Link.Receiving.{on_tcp_read-Tracked}
use defold_connclient.Client.Link.WellFormed.{is_open}
use defold_connclient.Client.Link.Tracked.{Walk, Tracked, Tracked-Stable}
use defold_connclient.Client.Link.Entering.{set_conn_state-Tracked}
use defold_connclient.Client.Link.Connecting.{closes, inner_connect-Tracked}

module _ (e : Env) (w : Walk) (depth kcp_fuel frame_fuel : ℕ) where
  pub tick_kcp-Tracked :
      (now : ℕ) (c : Client e)
      → Holds (Tracked w) c
      → Holds (Tracked w) (tick_kcp e (suc depth) kcp_fuel frame_fuel now c)
  unfolding tick_kcp
  tick_kcp-Tracked now c h =
      deliver-Holds e (Tracked w) (Tracked-Stable w) (suc depth) _ _ (record { holds = h.holds })

  send_kcp_buf-Tracked :
      (msg : List ℕ) (c : Client e)
      → Holds (Tracked w) c
      → Holds (Tracked w) (send_kcp_buf e (suc depth) kcp_fuel frame_fuel msg c).1
  unfolding send_kcp_buf now_ms
  send_kcp_buf-Tracked msg c h =
      let (now, c1) = now_ms e c in
      let (ret, session, out) = KcpSession.send e.lib msg (now % 2 ^ 32) c1.kcp_session in
      let c2 = deliver e (inner_close e (suc depth)) out (record c1 { kcp_session = session }) in
      let sent : Holds (Tracked w) c2 =
        deliver-Holds e (Tracked w) (Tracked-Stable w) (suc depth) out _
          (record { holds = h.holds }) in
      let late : ℤ × Client e = if is_zero ret then (pos 0, c2) else (negsuc 0, c2) in
      let ready : ℤ × Client e = if ltb (rank c.conn_state) 3 then (negsuc 0, c) else late in
      if_elim_snd {A = ℤ} (Holds (Tracked w)) (leb (length msg) 0) (pos 0, c) ready h
        (if_elim_snd {A = ℤ} (Holds (Tracked w)) (ltb (rank c.conn_state) 3) (negsuc 0, c) late h
          (if_elim_snd {A = ℤ} (Holds (Tracked w)) (is_zero ret) (pos 0, c2) (negsuc 0, c2) sent
            sent))

  pub run_task-Tracked :
      w.allowed cs_connecting
      → (task : Task) (c : Client e) → Holds (Tracked w) c
      → Holds (Tracked w) (run_task e (suc depth) kcp_fuel frame_fuel task c)
  unfolding run_task
  run_task-Tracked dial (connect_task ip port timeout_ms) c h =
      inner_connect-Tracked e w depth dial ip port timeout_ms c (record { holds = h.holds.steady })
  run_task-Tracked dial close_task c h = closes e w depth _ c h
  run_task-Tracked dial (send_task msg) c h = send_kcp_buf-Tracked msg c h

  on_tcp_writable-Tracked :
      (w.allowed cs_connecting → w.allowed cs_connected)
      → (c : Client e) → Holds (Tracked w) c
      → Holds (Tracked w) (on_tcp_writable e (suc depth) kcp_fuel frame_fuel c)
  unfolding on_tcp_writable
  on_tcp_writable-Tracked wakes c h = elim (Bool-cases (rank c.conn_state == rank cs_connecting)) [
    | inl at ↦
        rw (at, on_tcp_writable)
          (record {
            holds =
                (set_conn_state-Tracked e w cs_connected (record c { tcp_writable = false }) refl
                  (wakes (from c.conn_state at h.holds.steady.state))
                  (h.holds.linked.tcp ∙ up c.conn_state at)
                  (h.holds.linked.udp ∙ up c.conn_state at)
                  (record { holds = h.holds.steady })).holds;
          })
    | inr other ↦
        rw (other, on_tcp_writable)
          (on_tcp_write_keeps e (Holds (Tracked w)) (inner_close e (suc depth))
            (keeps e (Tracked w) (Tracked-Stable w) (suc depth)) _ (record { holds = h.holds }))
  ]
    where
      from : (s : ConnState) → (rank s == 1) ≡ true → w.allowed s → w.allowed cs_connecting
      from cs_init at a = cc
      from cs_connecting at a = a
      from cs_connected at a = cc
      from cs_logic_connected at a = cc

      up : (s : ConnState) → (rank s == 1) ≡ true → is_open s ≡ true
      up cs_init at = cc
      up cs_connecting at = refl
      up cs_connected at = refl
      up cs_logic_connected at = refl

  on_datagram-Tracked :
      (cur_time : ℕ) (pkg : List ℕ) (c : Client e)
      → Holds (Tracked w) c
      → Holds (Tracked w) (on_datagram e (suc depth) kcp_fuel cur_time pkg c)
  unfolding on_datagram
  on_datagram-Tracked cur_time pkg c h =
      let head = decode_udp_head pkg in
      let msg = drop 6 pkg in
      let close = inner_close e (suc depth) (pos 0) c in
      let fini = if head.cmd == 4 then close else c in
      let fed = (input_to_kcp e (suc depth) kcp_fuel msg cur_time c).1 in
      let reliable = if head.cmd == 0 then fed else fini in
      let given = if head.cmd == 1 then output e (suc depth) msg c else reliable in
      let own = if not (head.flow == c.flow) then c else given in
      if_elim (Holds (Tracked w)) (length pkg == 12 && head.flow == 0) c own h (
        if_elim (Holds (Tracked w)) (not (head.flow == c.flow)) c given h (
          if_elim (Holds (Tracked w)) (head.cmd == 1) (output e (suc depth) msg c) reliable
            (output-Holds e (Tracked w) (Tracked-Stable w) (suc depth) msg c h)
            (if_elim (Holds (Tracked w)) (head.cmd == 0) fed fini
              (input_to_kcp-Holds e (Tracked w) (Tracked-Stable w) (suc depth) kcp_fuel msg cur_time
                c h)
              (if_elim (Holds (Tracked w)) (head.cmd == 4) close c (closes e w depth (pos 0) c h)
                h))))

  on_udp_read-Tracked :
      (cur_time : ℕ) (c : Client e)
      → Holds (Tracked w) c
      → Holds (Tracked w) (on_udp_read e (suc depth) kcp_fuel cur_time c)
  unfolding on_udp_read recvfrom_ex
  on_udp_read-Tracked cur_time c h =
      if_elim (Holds (Tracked w)) (not (is_some c.udp_sock)) c _ h
        (by_answer (e.os.recvfrom c.udp_sock 2048 c.os).0)
    where
      c' : Client e
      c' = record c { os = (e.os.recvfrom c.udp_sock 2048 c.os).1 }

      k : Holds (Tracked w) c'
      k = record { holds = h.holds }

      by_answer :
          (got : Option (List ℕ))
          → Holds (Tracked w) (elim got as (λ _. Client e) [
            | none ↦
                if may_retry_udp (get_last_error e.os c'.os)
                then c'
                else inner_close e (suc depth) (pos 5) c'
            | some pkg ↦
                if leb 6 (length pkg)
                then on_datagram e (suc depth) kcp_fuel cur_time pkg c'
                else c'
          ])
      by_answer none =
          if_elim (Holds (Tracked w)) (may_retry_udp (get_last_error e.os c'.os)) c'
            (inner_close e (suc depth) (pos 5) c') k (closes e w depth (pos 5) c' k)
      by_answer (some pkg) =
          if_elim (Holds (Tracked w)) (leb 6 (length pkg))
            (on_datagram e (suc depth) kcp_fuel cur_time pkg c') c'
            (on_datagram-Tracked cur_time pkg c' k) k

  module _
      (labels : (s : ConnState) → is_open s ≡ true → w.allowed s → w.allowed cs_logic_connected)
      (wakes : w.allowed cs_connecting → w.allowed cs_connected) (refuses : RefusesNone e.os) where
    pub on_selected-Tracked :
        (sel : Selected) (c : Client e)
        → Holds (Tracked w) c
        → Holds (Tracked w) (on_selected e (suc depth) kcp_fuel frame_fuel sel c)
    unfolding on_selected on_tcp_ready on_udp_ready now_ms
    on_selected-Tracked sel c h =
        let (cur_time, c1) = now_ms e c in
        let k : Holds (Tracked w) c1 = record { holds = h.holds } in
        let tcp : Holds (Tracked w)
            (on_tcp_ready e (suc depth) kcp_fuel frame_fuel sel cur_time c1) =
          if_elim (Holds (Tracked w)) _ _ _
            (on_tcp_read-Tracked e w labels refuses depth kcp_fuel frame_fuel cur_time c1 k)
            (if_elim (Holds (Tracked w)) _ _ _ (on_tcp_writable-Tracked wakes c1 k) k) in
        if_elim (Holds (Tracked w)) _ _ _
          (if_elim (Holds (Tracked w)) _ _ _ (on_udp_read-Tracked cur_time _ tcp) tcp) h
