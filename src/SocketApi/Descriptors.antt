-- ===== src/SocketApi/Descriptors.antt =====
-- The descriptors that the calls of connclient/src/socket_api.cpp open and close.
use defold_connclient.Prelude.{
  ℕ, ◌≡◌, refl, ap, ◌∙◌, Bool, true, Option, none, some, List, [], ◌∷◌, ◌==◌, if◌then◌else◌,
  if_elim, is_some, arith, Option-cases, inl, inr,
}
use defold_connclient.Os.{Os, Fd, SockType, sock_dgram}
use defold_connclient.SocketApi.{
  socket_ex, bind_ex, setsockopt_ex, closesocket_ex, setsocketnonblocking_ex,
}
use defold_connclient.SocketApi.Servers.{bind_listen, listen_at, init_udp_listen_socket}

-- The descriptors without one.
abbrev pub without : ℕ → List ℕ → List ℕ
without fd [] = []
without fd (x ∷ xs) = if fd == x then xs else x ∷ without fd xs

abbrev pub with_fd : Fd → List ℕ → List ℕ
with_fd none fds = fds
with_fd (some fd) fds = fd ∷ fds

-- The descriptors that the process has open, the last one first: `socket` adds the one that it
-- returns, `close` takes one out, and the other calls leave them as they are.
pub record Ledger (os : Os) : Type 0 where
  pub opened : os.State → List ℕ
  pub by_socket :
      (type : SockType) (s : os.State)
      → opened (os.socket type s).1 ≡ with_fd (os.socket type s).0 (opened s)
  pub by_close : (fd : ℕ) (s : os.State) → opened (os.close (some fd) s) ≡ without fd (opened s)
  pub by_clock : (s : os.State) → opened (os.gettimeofday s).1 ≡ opened s
  pub by_getaddrinfo :
      (host : List ℕ) (port : ℕ) (type : SockType) (s : os.State)
      → opened (os.getaddrinfo host port type s).1 ≡ opened s
  pub by_connect :
      (fd : Fd) (addr : List ℕ) (s : os.State) → opened (os.connect fd addr s).1 ≡ opened s
  pub by_bind : (fd : Fd) (addr : List ℕ) (s : os.State) → opened (os.bind fd addr s).1 ≡ opened s
  pub by_setsockopt :
      (fd : Fd) (level opt_name opt_val : ℕ) (s : os.State)
      → opened (os.setsockopt fd level opt_name opt_val s).1 ≡ opened s
  pub by_getfl : (fd : Fd) (s : os.State) → opened (os.getfl fd s).1 ≡ opened s
  pub by_setfl : (fd : Fd) (flags : ℕ) (s : os.State) → opened (os.setfl fd flags s) ≡ opened s

pub without_head : (fd : ℕ) (fds : List ℕ) → without fd (fd ∷ fds) ≡ fds
without_head fd fds = ground arith

module _ (os : Os) (l : Ledger os) where
  pub opened-setsocketnonblocking_ex :
      (fd : Fd) (on : Bool) (s : os.State)
      → l.opened (setsocketnonblocking_ex os fd on s).1 ≡ l.opened s
  unfolding setsocketnonblocking_ex
  opened-setsocketnonblocking_ex fd on s = l.by_setfl _ _ _ ∙ l.by_getfl _ _

  -- What was open before is open, and beside that exactly the socket that a call returns.
  abbrev pub Adds : os.State → Fd × os.State → Type 0
  Adds s r = l.opened r.1 ≡ with_fd r.0 (l.opened s)

  pub closed_again :
      (fd : ℕ) (s s' : os.State)
      → Adds s (some fd, s')
      → Adds s (none, (closesocket_ex os (some fd) s').1)
  unfolding closesocket_ex
  closed_again fd s s' made = l.by_close fd s' ∙ ap (without fd) made ∙ without_head fd (l.opened s)

  bind_listen-Adds :
      (fd : ℕ) (addr : List ℕ) (nonblock : Bool) (s s' : os.State)
      → Adds s (some fd, s')
      → Adds s (bind_listen os (some fd) addr nonblock s')
  unfolding bind_listen bind_ex setsockopt_ex
  bind_listen-Adds fd addr nonblock s s' made =
      if_elim (Adds s) _ _ _ (closed_again fd s _ (l.by_bind (some fd) addr s' ∙ made)) (
        opened-setsocketnonblocking_ex (some fd) nonblock _
        ∙ l.by_setsockopt _ _ _ _ _
        ∙ l.by_bind _ _ _
        ∙ made)

  listen_at-Adds :
      (sockaddr : List ℕ → ℕ → List ℕ) (sin_addr : Option (List ℕ)) (port : ℕ) (nonblock : Bool)
      (listen_sock : Fd) (s s' : os.State)
      → is_some listen_sock ≡ true
      → Adds s (listen_sock, s')
      → Adds s (listen_at os sockaddr sin_addr port nonblock listen_sock s')
  unfolding listen_at
  listen_at-Adds sockaddr sin_addr port nonblock none s s' there made = cc
  listen_at-Adds sockaddr none port nonblock (some fd) s s' there made = closed_again fd s s' made
  listen_at-Adds sockaddr (some sin_addr) port nonblock (some fd) s s' there made =
      bind_listen-Adds fd _ nonblock s s' made

  -- `InitUDPListenSocket` leaves open what was open before, and beside that exactly the socket that
  -- it returns: where it fails, it has closed the socket that it made.
  pub init_udp_listen_socket-Adds :
      (sockaddr : List ℕ → ℕ → List ℕ) (ip : List ℕ) (port : ℕ) (nonblock : Bool) (s : os.State)
      → Adds s (init_udp_listen_socket os sockaddr ip port nonblock s)
  unfolding init_udp_listen_socket socket_ex
  init_udp_listen_socket-Adds sockaddr ip port nonblock s =
      elim (Option-cases (os.socket sock_dgram s).0) [
        | inl failed ↦ rw failed (l.by_socket sock_dgram s ∙ rw failed refl)
        | inr (fd, made) ↦ rw made (
            listen_at-Adds sockaddr (os.inet_addr ip) port nonblock (some fd) s _ refl
              (l.by_socket sock_dgram s ∙ rw made refl))
      ]
