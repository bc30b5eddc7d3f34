-- ===== src/Client/Connect/Session.antt =====
-- What a relink of connclient/src/conn_client.cpp does to the KCP session.
use defold_connclient.Prelude.{ℕ, suc, ◌%◌, ◌<◌, ◌≡◌, length, pos, arith}
use defold_connclient.Wire.{client_connect_error}
use defold_connclient.Client.State.{Env, Client, ConnClient, set_conn_state, now_ms, enter_state}
use defold_connclient.Client.Send.{inner_close, enqueue_out}
use defold_connclient.Client.Send.Closing.{inner_close_relinks}
use defold_connclient.Client.Connect.{
  connect_tcp, connect_udp, connect_both, inner_connect, relink, timeout_of,
}
use defold_connclient.Client.Connect.Relinking.{close_reason_kept}

-- The session, the loop's flag and the fault are those of `b`.
pub record SameSession {O K : Type 0} (b c : ConnClient O K) : Type 0 where
  pub kcp_session : c.kcp_session ≡ b.kcp_session
  pub running : c.running ≡ b.running
  pub fault : c.fault ≡ b.fault

module _ (e : Env) (depth : ℕ) where
  close-SameSession :
      (c : Client e)
      → c.relink_count < length c.relink_interval_ms_vec
      → SameSession c (inner_close e (suc depth) (pos client_connect_error) c)
  close-SameSession c left =
      let kept =
        inner_close_relinks e depth (pos 5) c
          (rw (close_reason_kept e depth (pos 5) c left) (omega arith)) in
      record { kcp_session = kept.0; running = kept.1; fault = kept.2 }

  connect_both-SameSession :
      (c : Client e)
      → c.relink_count < length c.relink_interval_ms_vec
      → SameSession c (connect_both e (suc depth) c).1
  unfolding connect_both connect_tcp connect_udp set_conn_state now_ms enter_state
  connect_both-SameSession c left =
      let first = close-SameSession (connect_tcp e (suc depth) c) left in
      let second =
        close-SameSession (connect_udp e (suc depth) (connect_tcp e (suc depth) c)) left in
      record {
        kcp_session = ground (arith, first.kcp_session, second.kcp_session);
        running = ground (arith, first.running, second.running);
        fault = ground (arith, first.fault, second.fault);
      }

  -- A relink that is not the last one keeps the KCP session, the flag of the loop and the fault,
  -- whether its connect succeeds or fails.
  pub relink-SameSession :
      (c : Client e)
      → suc c.relink_count < length c.relink_interval_ms_vec
      → SameSession c (relink e (suc depth) c)
  unfolding relink inner_connect enqueue_out
  relink-SameSession c left =
      let start : Client e = record c {
        relink_count = suc c.relink_count;
        port = c.port % 65536;
        connect_timeout_ms = timeout_of (pos 0) c.connect_timeout_ms;
      } in
      let kept = connect_both-SameSession start left in
      record {
        kcp_session = ground (arith, kept.kcp_session);
        running = ground (arith, kept.running);
        fault = ground (arith, kept.fault);
      }
