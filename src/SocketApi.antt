-- ===== src/SocketApi.antt =====
-- connclient/src/socket_api.h and socket_api.cpp, the calls that the client makes, in their
-- branches for systems other than Windows, over the system calls of `Os`.
pub mod Addresses
pub mod Servers
pub mod Descriptors
use Prim.Native.Nat.{bit_and, bit_or}
use defold_connclient.Prelude.{
  ℕ, zero, suc, ◌-◌, ◌^◌, Bool, true, false, not, ◌||◌, Option, none, some, List, [], ◌∷◌, ◌==◌,
  if◌then◌else◌, ℤ, pos, negsuc,
}
use defold_connclient.FileApi.{o_nonblock}
use defold_connclient.Os.{Os, Fd, Errno, SockType, AddrInfo}

-- A return code that is `SOCKET_ERROR`, -1.
abbrev pub is_socket_error : ℤ → Bool
is_socket_error (negsuc zero) = true
is_socket_error (negsuc (suc n)) = false
is_socket_error (pos n) = false

-- The first address of the family AF_INET.
unfoldable pub first_inet : List AddrInfo → Option (List ℕ)
first_inet [] = none
first_inet (p ∷ rest) = if p.is_inet then some p.addr else first_inet rest

-- FD_ISSET
abbrev pub has : ℕ → List ℕ → Bool
has fd [] = false
has fd (x ∷ xs) = (fd == x) || has fd xs

module _ (os : Os) where
  unfoldable pub get_last_error : os.State → Errno
  get_last_error s = os.errno s

  unfoldable pub socket_ex : SockType → os.State → Fd × os.State
  socket_ex type s = os.socket type s

  unfoldable pub connect_ex : Fd → List ℕ → os.State → Bool × os.State
  connect_ex fd addr s =
      let (ret, s') = os.connect fd addr s in (if is_socket_error ret then false else true, s')

  unfoldable pub bind_ex : Fd → List ℕ → os.State → Bool × os.State
  bind_ex fd addr s =
      let (ret, s') = os.bind fd addr s in (if is_socket_error ret then false else true, s')

  unfoldable pub setsockopt_ex : Fd → ℕ → ℕ → ℕ → os.State → Bool × os.State
  setsockopt_ex fd level opt_name opt_val s =
      let (ret, s') = os.setsockopt fd level opt_name opt_val s in
      (if is_socket_error ret then false else true, s')

  unfoldable pub send_ex : Fd → List ℕ → os.State → ℤ × os.State
  send_ex fd buf s = os.send fd buf s

  unfoldable pub recv_ex : Fd → ℕ → os.State → Option (List ℕ) × os.State
  recv_ex fd len s = os.recv fd len s

  unfoldable pub recvfrom_ex : Fd → ℕ → os.State → Option (List ℕ) × os.State
  recvfrom_ex fd len s = os.recvfrom fd len s

  unfoldable pub closesocket_ex : Fd → os.State → Bool × os.State
  closesocket_ex fd s = (true, os.close fd s)

  unfoldable pub getsocketnonblocking_ex : Fd → os.State → Bool × os.State
  getsocketnonblocking_ex fd s =
      let (flags, s') = os.getfl fd s in (not (bit_or flags o_nonblock == 0), s')

  unfoldable pub setsocketnonblocking_ex : Fd → Bool → os.State → Bool × os.State
  setsocketnonblocking_ex fd on s =
      let (flags, s') = os.getfl fd s in
      let flags' =
        if on then bit_or flags o_nonblock else bit_and flags (2 ^ 32 - 1 - o_nonblock) in
      (true, os.setfl fd flags' s')

  -- setsockopt(fd, IPPROTO_TCP, TCP_NODELAY, 1)
  unfoldable pub set_tcp_no_delay : Fd → os.State → Bool × os.State
  set_tcp_no_delay fd s = setsockopt_ex fd 6 1 1 s

  -- The address of the host, or `none` for the code -1.
  unfoldable pub get_host_address_v4 : List ℕ → ℕ → SockType → os.State → Option (List ℕ) × os.State
  get_host_address_v4 ip port type s =
      let (servinfo, s') = os.getaddrinfo ip port type s in
      (elim servinfo [ none ↦ none | some list ↦ first_inet list ], s')
