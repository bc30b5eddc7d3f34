-- ===== src/Client/Connect/Descriptors.antt =====
-- The descriptors that `CreateConnect` and `InnerConnect` of connclient/src/conn_client.cpp open.
use defold_connclient.Prelude.{
  ℕ, ◌%◌, ◌≡◌, refl, ap, ◌∙◌, ◌≢◌, true, not, none, some, List, ◌∷◌, if◌then◌else◌, if_elim,
  is_some, ℤ, pos, negsuc, Option-cases, inl, inr,
}
use defold_connclient.Os.{Os, Fd, SockType, get_time_ms, sock_stream, sock_dgram}
use defold_connclient.SocketApi.{
  socket_ex, connect_ex, setsockopt_ex, setsocketnonblocking_ex, get_host_address_v4,
}
use defold_connclient.SocketApi.Descriptors.{
  Ledger, Adds, with_fd, closed_again, opened-setsocketnonblocking_ex,
}
use defold_connclient.Client.State.{Env, Client, set_conn_state, now_ms, enter_state, cs_connecting}
use defold_connclient.Client.Connect.{
  create_connect, open_socket, start_connect, set_tos, connect_tcp, connect_udp, connect_both,
  inner_connect, timeout_of,
}

module _ (os : Os) (l : Ledger os) where
  set_tos-Adds :
      (type : SockType) (fd : Fd) (s s' : os.State)
      → Adds os l s (fd, s')
      → Adds os l s (set_tos os type fd s')
  unfolding set_tos setsockopt_ex
  set_tos-Adds type fd s s' made =
      if_elim (Adds os l s) _ _ _ (l.by_setsockopt _ _ _ _ _ ∙ made) made

  start_connect-Adds :
      (type : SockType) (fd : ℕ) (addr : List ℕ) (s s' : os.State)
      → Adds os l s (some fd, s')
      → Adds os l s (start_connect os type (some fd) addr s')
  unfolding start_connect connect_ex
  start_connect-Adds type fd addr s s' made =
      let tried = l.by_connect (some fd) addr s' ∙ made in
      if_elim (Adds os l s) _ _ _ (closed_again os l fd s _ tried)
        (set_tos-Adds type (some fd) s _ tried)

  open_socket-Adds :
      (type : SockType) (addr : List ℕ) (s : os.State) → Adds os l s (open_socket os type addr s)
  unfolding open_socket socket_ex
  open_socket-Adds type addr s = elim (Option-cases (os.socket type s).0) [
    | inl failed ↦ rw failed (l.by_socket type s ∙ rw failed refl)
    | inr (fd, made) ↦
        let start : Adds os l s
            (some fd, (setsocketnonblocking_ex os (some fd) true (os.socket type s).1).1) =
          opened-setsocketnonblocking_ex os l (some fd) true (os.socket type s).1
          ∙ l.by_socket type s
          ∙ rw made refl in
        rw made (
          if_elim (Adds os l s) _ _ _ (start_connect-Adds type fd addr s _ start)
            (closed_again os l fd s _ start))
  ]

  opened-get_host_address_v4 :
      (ip : List ℕ) (port : ℕ) (type : SockType) (s : os.State)
      → l.opened (get_host_address_v4 os ip port type s).1 ≡ l.opened s
  unfolding get_host_address_v4
  opened-get_host_address_v4 ip port type s = l.by_getaddrinfo ip port type s

  -- `CreateConnect` leaves open what was open before, and beside that exactly the socket that it
  -- returns: on no path does it leave a socket open that it does not return.
  pub create_connect-Adds :
      (ip : List ℕ) (port : ℕ) (type : SockType) (s : os.State)
      → Adds os l s (create_connect os ip port type s)
  unfolding create_connect get_host_address_v4
  create_connect-Adds ip port type s =
      let asked = opened-get_host_address_v4 ip port type s in
      elim (Option-cases (get_host_address_v4 os ip port type s).0) [
        | inl unknown ↦ rw unknown asked
        | inr (addr, found) ↦ rw found (
            open_socket-Adds type addr (get_host_address_v4 os ip port type s).1
            ∙ ap (with_fd (open_socket os type addr (get_host_address_v4 os ip port type s).1).0)
                asked)
      ]

not_zero : negsuc 0 ≢ pos 0
not_zero h = cc

abbrev answer : {A : Type 0} → Fd → Fd → A → A → A → ℤ × A
answer tcp_sock udp_sock no_tcp no_udp both =
    if not (is_some tcp_sock)
    then (negsuc 0, no_tcp)
    else if not (is_some udp_sock)
    then (negsuc 0, no_udp)
    else (pos 0, both)

-- The code 0 is only returned with both sockets.
of_zero :
    {A : Type 0} (P : ℤ × A → Type 0) (tcp_sock udp_sock : Fd) (no_tcp no_udp both : A)
    → (answer tcp_sock udp_sock no_tcp no_udp both).0 ≡ pos 0
    → ((tcp udp : ℕ) → tcp_sock ≡ some tcp → udp_sock ≡ some udp → P (pos 0, both))
    → P (answer tcp_sock udp_sock no_tcp no_udp both)
of_zero P none udp_sock no_tcp no_udp both ok p = absurd (not_zero ok)
of_zero P (some tcp) none no_tcp no_udp both ok p = absurd (not_zero ok)
of_zero P (some tcp) (some udp) no_tcp no_udp both ok p = p tcp udp refl refl

module _ (e : Env) (l : Ledger e.os) (depth : ℕ) where
  -- A client with two new sockets.
  pub Both : Client e → ℤ × Client e → Type 0
  Both c r =
      (tcp : ℕ) × (udp : ℕ) × (r.1.tcp_sock ≡ some tcp)
      × (r.1.udp_sock ≡ some udp)
      × (l.opened r.1.os ≡ udp ∷ tcp ∷ l.opened c.os)

  connecting-Both :
      (tcp udp : ℕ) (c : Client e)
      → (connect_tcp e depth c).tcp_sock ≡ some tcp
      → (connect_udp e depth (connect_tcp e depth c)).udp_sock ≡ some udp
      → Both c (pos 0, set_conn_state e cs_connecting (connect_udp e depth (connect_tcp e depth c)))
  unfolding Both connect_tcp connect_udp set_conn_state now_ms get_time_ms enter_state
  connecting-Both tcp udp c made_tcp made_udp = (
    tcp,
    udp,
    made_tcp,
    made_udp,
    l.by_clock _
        ∙ create_connect-Adds e.os l c.ip c.port sock_dgram _
        ∙ rw (made_udp) (
            ap (◌∷◌ udp)
              (create_connect-Adds e.os l c.ip c.port sock_stream c.os ∙ rw made_tcp refl)),
  )

  -- Where `InnerConnect` returns 0, exactly the two sockets of the client are open beside all that
  -- was open before: sockets that the client had open are not closed.
  pub inner_connect_opened :
      (ip : List ℕ) (port : ℕ) (timeout_ms : ℤ) (c : Client e)
      → (inner_connect e depth ip port timeout_ms c).0 ≡ pos 0
      → Both c (inner_connect e depth ip port timeout_ms c)
  unfolding inner_connect connect_both Both
  inner_connect_opened ip port timeout_ms c ok =
      let start : Client e = record c {
        ip = ip;
        port = port % 65536;
        connect_timeout_ms = timeout_of timeout_ms c.connect_timeout_ms;
      } in
      of_zero (Both c) (connect_tcp e depth start).tcp_sock
        (connect_udp e depth (connect_tcp e depth start)).udp_sock _ _ _ ok
        (λ tcp udp made_tcp made_udp. connecting-Both tcp udp start made_tcp made_udp)
