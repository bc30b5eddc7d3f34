-- ===== src/Client/Connect.antt =====
-- connclient/src/conn_client.cpp: connecting, the timeout of a connect, and the relinks. `depth` is
-- the depth of `inner_close`.
pub mod Relinking
pub mod Sockets
pub mod Descriptors
pub mod Session
use defold_connclient.Prelude.{
  ℕ, suc, ◌+◌, ◌%◌, Bool, true, false, not, ◌&&◌, ◌||◌, Option, none, some, List, [], length,
  get_or, ltb, leb, ltb_ℤ, is_some, ◌==◌, if◌then◌else◌, ℤ, pos, negsuc, pos_part, neg_part,
}
use defold_connclient.Wire.{
  client_connect_timeout, client_connect_error, client_connect_timeout_continue,
  client_connect_switch,
}
use defold_connclient.Os.{Os, Fd, SockType, sock_stream, sock_dgram, Errno, einprogress}
use defold_connclient.SocketApi.{
  is_socket_error, connect_ex, socket_ex, setsocketnonblocking_ex, setsockopt_ex, closesocket_ex,
  get_host_address_v4, get_last_error,
}
use defold_connclient.Client.State.{
  Env, Client, cs_init, cs_connecting, cs_logic_connected, rank, relink_event, set_conn_state,
  is_connected,
}
use defold_connclient.Client.Send.{inner_close, enqueue_out}

abbrev pub is_einprogress : Errno → Bool
is_einprogress einprogress = true
is_einprogress _ = false

abbrev pub is_dgram : SockType → Bool
is_dgram sock_dgram = true
is_dgram sock_stream = false

-- The `bool` that `connect_ex` returns, as the `int` that `CreateConnect` keeps it in.
abbrev pub int_of_bool : Bool → ℤ
int_of_bool true = pos 1
int_of_bool false = pos 0

module _ (os : Os) where
  -- The type of service of a datagram socket: setsockopt(sock, IPPROTO_IP, IP_TOS, 0xB8).
  unfoldable pub set_tos : SockType → Fd → os.State → Fd × os.State
  set_tos type sock s =
      if is_dgram type then (sock, (setsockopt_ex os sock 0 1 0xb8 s).1) else (sock, s)

  -- `CreateConnect` once it has a socket that does not block.
  unfoldable pub start_connect : SockType → Fd → List ℕ → os.State → Fd × os.State
  start_connect type sock addr s =
      let (connected, s') = connect_ex os sock addr s in
      if is_socket_error (int_of_bool connected) && not (is_einprogress (get_last_error os s'))
      then (none, (closesocket_ex os sock s').1)
      else set_tos type sock s'

  unfoldable pub open_socket : SockType → List ℕ → os.State → Fd × os.State
  open_socket type addr s =
      let (sock, s1) = socket_ex os type s in
      let (nonblocking, s2) = setsocketnonblocking_ex os sock true s1 in
      if not (is_some sock)
      then (none, s1)
      else if nonblocking
      then start_connect type sock addr s2
      else (none, (closesocket_ex os sock s2).1)

  unfoldable pub create_connect : List ℕ → ℕ → SockType → os.State → Fd × os.State
  create_connect ip port type s =
      let (found, s') = get_host_address_v4 os ip port type s in
      elim found [ none ↦ (none, s') | some addr ↦ open_socket type addr s' ]

-- A timeout above ten seconds is cut, and one that is not positive leaves the last one.
abbrev pub timeout_of : ℤ → ℕ → ℕ
timeout_of (negsuc n) old = old
timeout_of (pos t) old = if ltb 10000 t then 10000 else if ltb 0 t then t else old

module _ (e : Env) (depth : ℕ) where
  unfoldable pub connect_tcp : Client e → Client e
  connect_tcp c =
      let (sock, os') = create_connect e.os c.ip c.port sock_stream c.os in
      record c { tcp_sock = sock; os = os' }

  unfoldable pub connect_udp : Client e → Client e
  connect_udp c =
      let (sock, os') = create_connect e.os c.ip c.port sock_dgram c.os in
      record c { udp_sock = sock; os = os' }

  unfoldable pub connect_both : Client e → ℤ × Client e
  connect_both c =
      let c1 = connect_tcp c in
      let c2 = connect_udp c1 in
      if not (is_some c1.tcp_sock)
      then (negsuc 0, inner_close e depth (pos client_connect_error) c1)
      else if not (is_some c2.udp_sock)
      then (negsuc 0, inner_close e depth (pos client_connect_error) c2)
      else (pos 0, set_conn_state e cs_connecting c2)

  unfoldable pub inner_connect : List ℕ → ℕ → ℤ → Client e → ℤ × Client e
  inner_connect ip port timeout_ms c = connect_both (record c {
    ip = ip;
    port = port % 65536;
    connect_timeout_ms = timeout_of timeout_ms c.connect_timeout_ms;
  })

  unfoldable pub check_timeout : ℕ → Client e → Client e
  check_timeout now c =
      if ltb 0 (rank c.conn_state)
        && (ltb (rank c.conn_state) (rank cs_logic_connected)
            && ltb (c.conn_state_ts + c.connect_timeout_ms) now)
      then inner_close e depth
          (if ltb c.relink_count (length c.relink_interval_ms_vec)
            then pos client_connect_timeout_continue
            else pos client_connect_timeout)
          c
      else c

  -- `CheckRelink` once the interval is over.
  unfoldable pub relink : Client e → Client e
  relink c =
      let c' =
        (inner_connect c.ip c.port (pos 0) (record c { relink_count = suc c.relink_count })).1 in
      if is_some c'.callbacks.relink_cb then enqueue_out e relink_event c' else c'

  abbrev pub relink_due : ℕ → ℤ → Client e → Bool
  relink_due now interval c =
      (rank c.conn_state == rank cs_init)
      && ltb (c.conn_state_ts + pos_part interval) (now + neg_part interval)

  unfoldable pub check_relink : ℕ → Client e → Client e
  check_relink now c =
      if not c.running || leb (length c.relink_interval_ms_vec) c.relink_count
      then c
      else if relink_due now (get_or c.relink_interval_ms_vec c.relink_count (pos 0)) c
      then relink c
      else c

  unfoldable pub switch_network : Client e → Client e
  switch_network c =
      if is_connected e c && (c.relink_count == 0)
      then inner_close e depth (pos client_connect_switch) c
      else c
