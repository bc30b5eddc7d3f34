-- ===== src/Client/Read/Unread.antt =====
-- What is left to read after a frame is handled in connclient/src/conn_client.cpp.
use defold_connclient.Prelude.{ℕ, ◌≤◌, List, if_elim, ℤ, arith}
use defold_connclient.Stream.{len, reset}
use defold_connclient.Client.State.{
  Env, Client, cs_logic_connected, now_ms, set_conn_state, enter_state,
}
use defold_connclient.Client.Read.{on_sync_label, on_frame}
use defold_connclient.Client.Link.{Link, Holds, Stable}
use defold_connclient.Client.Link.Handlers.{on_frame-Holds}
use defold_connclient.Client.Link.Pings.{connect_success-Holds, reconnect_success-Holds}

-- At most `n` bytes are left to read.
abbrev pub Unread : ℕ → Link → Type 0
Unread n k = len k.read_stream ≤ n

Unread-Stable : (n : ℕ) → Stable (Unread n)
unfolding reset len
Unread-Stable n = record {
  by_write = λ k ws valid h. h;
  by_close = λ k h. omega arith;
  by_event = λ event k other h. h;
}

module _ (e : Env) (depth n : ℕ) where
  set_conn_state-Unread :
      (c : Client e) → Holds (Unread n) c → Holds (Unread n) (set_conn_state e cs_logic_connected c)
  unfolding set_conn_state now_ms enter_state
  set_conn_state-Unread c h = record { holds = h.holds }

  on_sync_label-Unread :
      (c : Client e) → Holds (Unread n) c → Holds (Unread n) (on_sync_label e depth c)
  unfolding on_sync_label
  on_sync_label-Unread c h =
      if_elim (Holds (Unread n)) _ _ _
        (connect_success-Holds e (Unread n) (Unread-Stable n) depth (Unread n) (λ k u. u) (λ k u. u)
          _ (set_conn_state-Unread _ (record { holds = h.holds })))
        (reconnect_success-Holds e (Unread n) (Unread-Stable n) depth c (set_conn_state-Unread c h))

  -- No handler of a frame adds to what is left to read.
  pub on_frame-Unread :
      (fuel cur_time cmd : ℕ) (bytes : List ℕ) (data_len : ℤ) (c : Client e)
      → Holds (Unread n) c
      → Holds (Unread n) (on_frame e depth fuel cur_time cmd bytes data_len c).1
  on_frame-Unread fuel cur_time cmd bytes data_len c h =
      on_frame-Holds e (Unread n) (Unread-Stable n) depth fuel cur_time cmd bytes data_len c
        (on_sync_label-Unread c h) h
