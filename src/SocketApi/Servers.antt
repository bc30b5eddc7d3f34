-- ===== src/SocketApi/Servers.antt =====
-- connclient/src/socket_api.cpp: the calls for servers, for blocking sockets and for options, which
-- the client does not make, in their branches for systems other than Windows.
use defold_connclient.Prelude.{
  ℕ, Bool, true, false, not, Option, none, some, List, [], ◌∷◌, ltb_ℤ, leb_ℤ, is_some,
  if◌then◌else◌, ℤ, pos,
}
use defold_connclient.FileApi.{availablefile_ex}
use defold_connclient.Os.{Os, Fd, Selected, sock_dgram}
use defold_connclient.SocketApi.{
  is_socket_error, has, socket_ex, bind_ex, setsockopt_ex, closesocket_ex, setsocketnonblocking_ex,
}

module _ (os : Os) where
  unfoldable pub select_ex : List ℕ → List ℕ → List ℕ → ℕ → os.State → Selected × os.State
  select_ex readset writeset exceptset timeout s = os.select readset writeset exceptset timeout s

  -- The overload of `connect_ex` with a timeout, on a socket that is open.
  unfoldable pub connect_within : ℕ → List ℕ → ℕ → os.State → Bool × os.State
  connect_within fd addr timeout_ms s =
      let (nonblocking, s1) = setsocketnonblocking_ex os (some fd) true s in
      let (ret, s2) = os.connect (some fd) addr s1 in
      let (sel, s3) = select_ex [] (fd ∷ []) (fd ∷ []) timeout_ms s2 in
      if not nonblocking
      then (false, s1)
      else if not (is_socket_error ret)
      then (true, s2)
      else if leb_ℤ sel.retval (pos 0)
      then (false, (closesocket_ex os (some fd) s3).1)
      else if has fd sel.eset
      then (false, s3)
      else (true, (setsocketnonblocking_ex os (some fd) false s3).1)

  unfoldable pub listen_ex : Fd → ℤ → os.State → Bool × os.State
  listen_ex fd backlog s =
      let (ret, s') = os.listen fd backlog s in (if is_socket_error ret then false else true, s')

  unfoldable pub accept_ex : Fd → os.State → (Fd × List ℕ) × os.State
  accept_ex fd s = os.accept fd s

  -- With the value of the option.
  unfoldable pub getsockopt_ex : Fd → ℕ → ℕ → os.State → (Bool × ℕ) × os.State
  getsockopt_ex fd level opt_name s =
      let ((ret, opt_val), s') = os.getsockopt fd level opt_name s in
      ((if is_socket_error ret then false else true, opt_val), s')

  unfoldable pub sendto_ex : Fd → List ℕ → List ℕ → os.State → ℤ × os.State
  sendto_ex fd buf to s = os.sendto fd buf to s

  unfoldable pub ioctlsocket_ex : Fd → ℕ → os.State → Bool × os.State
  ioctlsocket_ex fd cmd s = (true, s)

  unfoldable pub availablesocket_ex : Fd → os.State → ℕ × os.State
  availablesocket_ex fd s = availablefile_ex os fd s

  unfoldable pub shutdown_ex : Fd → ℕ → os.State → Bool × os.State
  shutdown_ex fd how s =
      let (ret, s') = os.shutdown fd how s in (if ltb_ℤ ret (pos 0) then false else true, s')

  -- SOL_SOCKET with SO_SNDBUF and SO_RCVBUF
  unfoldable pub set_send_buf : Fd → ℕ → os.State → os.State
  set_send_buf fd len s = (setsockopt_ex os fd 1 7 len s).1

  unfoldable pub set_recv_buf : Fd → ℕ → os.State → os.State
  set_recv_buf fd len s = (setsockopt_ex os fd 1 8 len s).1

  -- The socket of `InitUDPListenSocket` once it has an address. `SO_REUSEADDR` comes after `bind`.
  unfoldable pub bind_listen : Fd → List ℕ → Bool → os.State → Fd × os.State
  bind_listen listen_sock addr nonblock s =
      let (ret, s1) = bind_ex os listen_sock addr s in
      if not ret then (none, (closesocket_ex os listen_sock s1).1) else (
        listen_sock,
        (setsocketnonblocking_ex os listen_sock nonblock
            (setsockopt_ex os listen_sock 1 2 1 s1).1).1,
      )

  -- The same from `inet_addr` on. The address is that of the host with the port behind it, highest
  -- byte first.
  unfoldable pub listen_at :
      (List ℕ → ℕ → List ℕ) → Option (List ℕ) → ℕ → Bool → Fd → os.State → Fd × os.State
  listen_at sockaddr none port nonblock listen_sock s = (none, (closesocket_ex os listen_sock s).1)
  listen_at sockaddr (some sin_addr) port nonblock listen_sock s =
      bind_listen listen_sock (sockaddr sin_addr port) nonblock s

  unfoldable pub init_udp_listen_socket :
      (List ℕ → ℕ → List ℕ) → List ℕ → ℕ → Bool → os.State → Fd × os.State
  init_udp_listen_socket sockaddr ip port nonblock s =
      let (listen_sock, s') = socket_ex os sock_dgram s in
      if is_some listen_sock
      then listen_at sockaddr (os.inet_addr ip) port nonblock listen_sock s'
      else (none, s')
