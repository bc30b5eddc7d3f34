-- ===== src/Tests.antt =====
-- A small system, KCP library, allocator and client on which the theorems are tried. In this
-- system a connect is refused, and a send on a socket takes all bytes.
pub mod Buffers
pub mod Sessions
pub mod Clients
pub mod Scripts
pub mod Reading
pub mod Runs
pub mod Server
pub mod Sockets
use defold_connclient.Prelude.{
  ℕ, ◌+◌, ◌≤◌, ◌≡◌, refl, Bool, true, false, Option, none, some, List, [], ◌∷◌, length, replicate,
  length-replicate, ℤ, pos, negsuc, take, length-take, arith,
}
use defold_connclient.Stream
use defold_connclient.Stream.{Allocator}
use defold_connclient.TimeExpire
use defold_connclient.KcpSession.{KcpLib, KcpSession, Received, failed, Datagram}
use defold_connclient.Os.{Os, Fd, sock_stream, sock_dgram, other, Errno}
use defold_connclient.Client.State.{
  Env, Client, ConnClient, Callbacks, cs_init, cs_connecting, no_callbacks,
}

abbrev pub alloc : Allocator
alloc = record { malloc = λ n. replicate n 0; length-malloc = λ n. length-replicate n 0 }

pub no_bytes :
    (fd : Fd) (n : ℕ) (s : ℕ) (bytes : List ℕ)
    → ◌≡◌ {A = Option (List ℕ)} none (some bytes)
    → length bytes ≤ n
no_bytes fd n s bytes h = cc

-- The state of the system is its clock, in seconds.
abbrev pub os : Os
os = record {
  State = ℕ;
  gettimeofday = λ s. ((s, 0), s);
  errno = λ s. other;
  getaddrinfo =
      λ host port type s. (some (record { is_inet = true; addr = 127 ∷ 0 ∷ 0 ∷ 1 ∷ [] } ∷ []), s);
  socket = λ type s. (some 7, s);
  connect = λ fd addr s. (negsuc 0, s);
  bind = λ fd addr s. (pos 0, s);
  setsockopt = λ fd level opt_name opt_val s. (pos 0, s);
  getfl = λ fd s. (0, s);
  setfl = λ fd flags s. s;
  close = λ fd s. s;
  send = λ fd bytes s. (elim fd [ none ↦ negsuc 0 | some d ↦ pos (length bytes) ], s);
  recv = λ fd n s. (none, s);
  recvfrom = λ fd n s. (none, s);
  select = λ r w x t s. (record { retval = pos 0; rset = []; wset = []; eset = [] }, s);
  listen = λ fd backlog s. (pos 0, s);
  accept = λ fd s. ((some 9, []), s);
  getsockopt = λ fd level opt_name s. ((pos 0, 0), s);
  sendto = λ fd bytes addr s. (pos (length bytes), s);
  shutdown = λ fd how s. (pos 0, s);
  ioctl = λ fd request n s. (n, s);
  inet_addr = λ ip. some (127 ∷ 0 ∷ 0 ∷ 1 ∷ []);
  recv-le = no_bytes;
}

-- A datagram of the first bytes of a text.
abbrev pub cut : List ℕ → Datagram
cut text = record { bytes = take 1400 text; bytes-le = omega (arith, length-take 1400 text) }

abbrev pub cut_all : List (List ℕ) → List Datagram
cut_all [] = []
cut_all (text ∷ rest) = cut text ∷ cut_all rest

-- A control block is the list of the datagrams that wait for a flush.
abbrev pub lib : KcpLib
lib = record {
  Kcp = List (List ℕ);
  create = λ conv. some [];
  nodelay = λ a b c d k. k;
  wndsize = λ a b k. k;
  setdupsend = λ a b c d f k. k;
  setmtu = λ a k. k;
  set_logmask = λ a k. k;
  set_rx_minrto = λ a k. k;
  set_fastresend = λ a k. k;
  release = λ k. tt;
  input = λ bytes now k. (pos 0, k);
  send_ex = λ bytes now k. (pos 0, bytes ∷ k, []);
  recv = λ n k. (failed (negsuc 0), k);
  check = λ now k. now + 10;
  update = λ now k. ([], cut_all k);
  flush = λ k. ([], cut_all k);
  peeksize = λ k. negsuc 0;
  waitsnd = λ k. pos (length k);
  nsnd_que = λ k. pos 0;
  snd_wnd = λ k. pos 32;
  snd_una = λ k. pos 0;
  snd_nxt = λ k. pos 0;
  nsnd_buf = λ k. pos 0;
  nrcv_que = λ k. pos 0;
  rcv_wnd = λ k. pos 128;
  nrcv_buf = λ k. pos 0;
  rcv_nxt = λ k. pos 0;
  rx_srtt = λ k. pos 0;
  state = λ k. pos 0;
  xmit = λ k. pos 0;
}

abbrev pub env : Env
env = record { os = os; lib = lib; alloc = alloc }

abbrev pub session : KcpSession (List (List ℕ))
session = record {
  kcp = some ((1 ∷ 2 ∷ []) ∷ []);
  kcp_conv = 9;
  next_time_ms = 50;
  update_now = false;
}

abbrev pub callbacks : Callbacks
callbacks = record no_callbacks { output_cb = some 4; disconnect_cb = some 5 }

-- A client that is connecting, with an interval for one relink more.
abbrev pub client : Client env
client = record {
  os = 8000;
  fault = none;
  running = true;
  joinable = true;
  in_queue = [];
  out_queue = [];
  ip = 49 ∷ [];
  port = 10101;
  tcp_sock = some 7;
  udp_sock = some 8;
  tcp_writable = false;
  conn_state = cs_connecting;
  conn_state_ts = 4000;
  write_stream = Stream.empty alloc;
  read_stream = Stream.empty alloc;
  flow = 77;
  magic = 117;
  debug_log_mode = true;
  tcp_ping_expire = TimeExpire.init 2000;
  udp_ping_expire = TimeExpire.init 2000;
  ping_seq = 0;
  kcp_session = session;
  enable_udp = false;
  enable_kcp_log = false;
  is_first_connect = true;
  relink_interval_ms_vec = pos 0 ∷ pos 100 ∷ [];
  relink_count = 1;
  connect_timeout_ms = 3000;
  callbacks = callbacks;
}
