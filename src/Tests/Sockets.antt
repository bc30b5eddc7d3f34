-- ===== src/Tests/Sockets.antt =====
-- Sockets, addresses and files: a system that keeps an account of the descriptors, and a directory.
use defold_connclient.Prelude.{
  ℕ, ◌+◌, ◌≤◌, ◌≡◌, refl, true, false, Option, none, some, List, [], ◌∷◌, ◌++◌, length, pos, negsuc,
  inr,
}
use defold_connclient.Os.{Os, Fd, get_time_ms, einprogress, sock_stream}
use defold_connclient.SocketApi.{
  get_host_address_v4, first_inet, socket_ex, connect_ex, setsocketnonblocking_ex, setsockopt_ex,
}
use defold_connclient.SocketApi.Addresses.{
  is_ipv4_addr, get_sock_addr_str, scan_ip, scan_int, SockaddrIn,
}
use defold_connclient.SocketApi.Addresses.Texts.{get_sock_addr_str_lem}
use defold_connclient.SocketApi.Descriptors.{Ledger, Adds, without, init_udp_listen_socket-Adds}
use defold_connclient.SocketApi.Servers.{init_udp_listen_socket}
use defold_connclient.FileApi.{Disk, list_files}
use defold_connclient.FileApi.Listing.{list_files_lem}
use defold_connclient.KcpSession
use defold_connclient.Client.State.{Env, Client, init, set_conn_state, enter_state, now_ms}
use defold_connclient.Client.Send.{inner_close}
use defold_connclient.Client.Blocking.{destroy}
use defold_connclient.Client.Blocking.Destroyed.{Left, destroy-Left}
use defold_connclient.Client.System.{run, perform, run_next, runs_task}
use defold_connclient.Client.Send.Closing.{IsClosed}
use defold_connclient.Client.Send.Released.{inner_close_opened}
use defold_connclient.Client.Connect.{
  inner_connect, create_connect, connect_both, connect_tcp, connect_udp, open_socket, start_connect,
  set_tos,
}
use defold_connclient.Client.Connect.Descriptors.{Both, create_connect-Adds, inner_connect_opened}
use defold_connclient.Tests.{lib, alloc}

no_bytes :
    (fd : Fd) (n : ℕ) (s : List ℕ) (bytes : List ℕ)
    → ◌≡◌ {A = Option (List ℕ)} none (some bytes)
    → length bytes ≤ n
no_bytes fd n s bytes h = cc

-- The state is the list of the open descriptors. Every connect is in progress.
abbrev counting : Os
counting = record {
  State = List ℕ;
  gettimeofday = λ s. ((1, 0), s);
  errno = λ s. einprogress;
  getaddrinfo =
      λ host port type s. (some (record { is_inet = true; addr = 127 ∷ 0 ∷ 0 ∷ 1 ∷ [] } ∷ []), s);
  socket = λ type s. (some (3 + length s), (3 + length s) ∷ s);
  connect = λ fd addr s. (negsuc 0, s);
  bind = λ fd addr s. (negsuc 0, s);
  setsockopt = λ fd level opt_name opt_val s. (pos 0, s);
  getfl = λ fd s. (0, s);
  setfl = λ fd flags s. s;
  close = λ fd s. elim fd [ none ↦ s | some d ↦ without d s ];
  send = λ fd bytes s. (pos (length bytes), s);
  recv = λ fd n s. (none, s);
  recvfrom = λ fd n s. (none, s);
  select = λ r w x t s. (record { retval = pos 0; rset = []; wset = []; eset = [] }, s);
  listen = λ fd backlog s. (pos 0, s);
  accept = λ fd s. ((none, []), s);
  getsockopt = λ fd level opt_name s. ((pos 0, 0), s);
  sendto = λ fd bytes addr s. (pos (length bytes), s);
  shutdown = λ fd how s. (pos 0, s);
  ioctl = λ fd request n s. (n, s);
  inet_addr = λ ip. some (127 ∷ 0 ∷ 0 ∷ 1 ∷ []);
  recv-le = no_bytes;
}

abbrev ledger : Ledger counting
ledger = record {
  opened = λ s. s;
  by_socket = λ type s. refl;
  by_close = λ fd s. refl;
  by_clock = λ s. refl;
  by_getaddrinfo = λ host port type s. refl;
  by_connect = λ fd addr s. refl;
  by_bind = λ fd addr s. refl;
  by_setsockopt = λ fd level opt_name opt_val s. refl;
  by_getfl = λ fd s. refl;
  by_setfl = λ fd flags s. refl;
}

-- The bind is refused here.
init_udp_listen_socket-Adds_example :
    Adds counting ledger
      (4 ∷ [])
      (init_udp_listen_socket counting (λ a p. a) (49 ∷ []) 80 true (4 ∷ []))
init_udp_listen_socket-Adds_example =
    init_udp_listen_socket-Adds counting ledger (λ a p. a) (49 ∷ []) 80 true (4 ∷ [])

create_connect-Adds_example :
    Adds counting ledger (4 ∷ []) (create_connect counting (49 ∷ []) 80 sock_stream (4 ∷ []))
create_connect-Adds_example = create_connect-Adds counting ledger (49 ∷ []) 80 sock_stream (4 ∷ [])

abbrev counted : Env
counted = record { os = counting; lib = lib; alloc = alloc }

-- Two descriptors are open before.
inner_connect_opened_example :
    Both counted ledger 2
      (init counted (4 ∷ 3 ∷ []))
      (inner_connect counted 2 (49 ∷ []) 10101 (pos 3000) (init counted (4 ∷ 3 ∷ [])))
unfolding inner_connect connect_both connect_tcp connect_udp create_connect open_socket
    start_connect set_tos get_host_address_v4 first_inet socket_ex connect_ex
    setsocketnonblocking_ex setsockopt_ex
inner_connect_opened_example =
    inner_connect_opened counted ledger 2 (49 ∷ []) 10101 (pos 3000) (init counted (4 ∷ 3 ∷ []))
      refl

-- Of three open descriptors two are the client's.
abbrev dialled : Client counted
dialled = record (init counted (9 ∷ 4 ∷ 3 ∷ [])) { tcp_sock = some 4; udp_sock = some 9 }

inner_close_opened_example :
    IsClosed (inner_close counted 2 (pos 0) dialled)
    × ((inner_close counted 2 (pos 0) dialled).os ≡ 3 ∷ [])
unfolding init KcpSession.init set_conn_state enter_state now_ms get_time_ms inner_close
inner_close_opened_example = inner_close_opened counted ledger 1 (pos 0) dialled (inr refl)

-- The thread of the client has nothing more to do. Of six open descriptors one is not the client's.
abbrev running : Client counted
running = record (init counted (12 ∷ 11 ∷ 9 ∷ 4 ∷ 3 ∷ [])) {
  tcp_sock = some 4;
  udp_sock = some 9;
  running = true;
  joinable = true;
}

destroy-Left_example :
    Left counted ledger
      (3 ∷ [])
      (destroy counted 2 8 8 (λ f. true) (runs_task ∷ []) (some 11) (some 12) running)
unfolding init KcpSession.init set_conn_state enter_state now_ms get_time_ms run perform run_next
destroy-Left_example =
    destroy-Left counted 1 8 8 (λ f. true) ledger (runs_task ∷ []) (some 11) (some 12) running refl

abbrev localhost : SockaddrIn
localhost = record { s_addr = 16777343; sin_port = 20480 }

get_sock_addr_str_lem_example :
    (ip : List ℕ) × (port : List ℕ) × (get_sock_addr_str localhost
      ≡ (b'i' ∷ b'p' ∷ b'[' ∷ [])
        ++ ip
        ++ (b']' ∷ b' ' ∷ b'p' ∷ b'o' ∷ b'r' ∷ b't' ∷ b'[' ∷ [])
        ++ port
        ++ b']' ∷ [])
    × (is_ipv4_addr ip ≡ true)
    × (scan_ip ip ≡ some (pos 127, pos 0, pos 0, pos 1))
    × (scan_int port ≡ some (pos 80, []))
get_sock_addr_str_lem_example = get_sock_addr_str_lem localhost

-- A directory with a hidden entry, a match, the bare suffix and another entry.
abbrev disk : Disk ℕ
disk = record {
  open_file = λ name flags s. (none, s);
  open_mode = λ name flags mode s. (none, s);
  mkdir = λ name mode s. (pos 0, s);
  read = λ fd n s. (none, s);
  write = λ fd bytes s. (pos (length bytes), s);
  close = λ fd s. s;
  dup = λ fd s. (fd, s);
  lseek = λ fd offset whence s. (offset, s);
  opendir = λ path s. (some 3, s + 1);
  readdir = λ dir s.
      ((b'.' ∷ b'a' ∷ b'c' ∷ []) ∷ (b'a' ∷ b'c' ∷ []) ∷ (b'c' ∷ []) ∷ (b'a' ∷ b'b' ∷ []) ∷ [], s);
  closedir = λ dir s. s + 100;
}

list_files_lem_example :
    list_files disk (b'd' ∷ []) (some (b'c' ∷ [])) false [] 0
    ≡ (some ((b'd' ∷ b'/' ∷ b'a' ∷ b'c' ∷ []) ∷ []), 101)
list_files_lem_example = list_files_lem disk (b'd' ∷ []) (b'c' ∷ []) false [] 3 0 refl
