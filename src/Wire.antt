-- ===== src/Wire.antt =====
-- connclient/src/conn_protocol.h: the packed heads and messages, as the bytes that a cast of the
-- buffer reads and writes on a little-endian host, and `htonl` / `ntohl` of that host.
-- A field of 32 or 64 bits is its bit pattern, a number below 2 ^ 32 or 2 ^ 64.
pub mod RoundTrip
use defold_connclient.Prelude.{ℕ, ◌+◌, ◌*◌, ◌/◌, ◌%◌, List, [], ◌∷◌, ◌++◌, get_or}

abbrev pub cs_conn_head_size : ℕ
cs_conn_head_size = 10

abbrev pub cs_udp_conn_head_size : ℕ
cs_udp_conn_head_size = 6

abbrev pub cs_ping_size : ℕ
cs_ping_size = 8

abbrev pub kcp_info_size : ℕ
kcp_info_size = 93

-- enum CsConnCmd
abbrev pub control_reliable_msg : ℕ
control_reliable_msg = 0

abbrev pub control_unreliable_msg : ℕ
control_unreliable_msg = 1

abbrev pub control_ping : ℕ
control_ping = 2

abbrev pub control_kcp_info : ℕ
control_kcp_info = 3

abbrev pub control_disconnect : ℕ
control_disconnect = 4

abbrev pub control_sync_label : ℕ
control_sync_label = 7

-- enum ControlDisconnectReason
abbrev pub control_server_close : ℕ
control_server_close = 0

abbrev pub control_server_full : ℕ
control_server_full = 1

abbrev pub control_flow_not_exist : ℕ
control_flow_not_exist = 2

abbrev pub client_connect_timeout : ℕ
client_connect_timeout = 4

abbrev pub client_connect_error : ℕ
client_connect_error = 5

abbrev pub client_connect_timeout_continue : ℕ
client_connect_timeout_continue = 6

abbrev pub client_connect_switch : ℕ
client_connect_switch = 7

-- The bytes of an integer in memory, lowest first.
unfoldable pub le32 : ℕ → List ℕ
le32 w = (w % 256) ∷ (w / 256 % 256) ∷ (w / 65536 % 256) ∷ (w / 16777216 % 256) ∷ []

unfoldable pub le64 : ℕ → List ℕ
unfolding le32
le64 w = le32 (w % 4294967296) ++ le32 (w / 4294967296 % 4294967296)

-- Reads through a cast pointer, at an offset of a buffer.
unfoldable pub load8 : ℕ → List ℕ → ℕ
load8 at bytes = get_or bytes at 0

unfoldable pub load32 : ℕ → List ℕ → ℕ
load32 at bytes =
    get_or bytes at 0
    + 256 * get_or bytes (at + 1) 0
    + 65536 * get_or bytes (at + 2) 0
    + 16777216 * get_or bytes (at + 3) 0

unfoldable pub load64 : ℕ → List ℕ → ℕ
unfolding load32
load64 at bytes = load32 at bytes + 4294967296 * load32 (at + 4) bytes

-- htonl and ntohl: the four bytes in reverse.
unfoldable pub swap32 : ℕ → ℕ
swap32 w =
    w / 16777216 % 256 + 256 * (w / 65536 % 256) + 65536 * (w / 256 % 256) + 16777216 * (w % 256)

pub record CsConnHead : Type 0 where
  pub sec_pkg_len : ℕ
  pub flow : ℕ
  pub magic : ℕ
  pub cmd : ℕ

-- The stores into the ten bytes of a head; a store into `uint8_t` keeps the low eight bits.
unfoldable pub encode_head : CsConnHead → List ℕ
unfolding le32
encode_head h = le32 h.sec_pkg_len ++ (le32 h.flow ++ (h.magic % 256) ∷ (h.cmd % 256) ∷ [])

unfoldable pub decode_head : List ℕ → CsConnHead
unfolding load32 load8
decode_head bytes = record {
  sec_pkg_len = load32 0 bytes;
  flow = load32 4 bytes;
  magic = load8 8 bytes;
  cmd = load8 9 bytes;
}

pub record CsUdpConnHead : Type 0 where
  pub flow : ℕ
  pub magic : ℕ
  pub cmd : ℕ

unfoldable pub encode_udp_head : CsUdpConnHead → List ℕ
unfolding le32
encode_udp_head h = le32 h.flow ++ (h.magic % 256) ∷ (h.cmd % 256) ∷ []

unfoldable pub decode_udp_head : List ℕ → CsUdpConnHead
unfolding load32 load8
decode_udp_head bytes = record { flow = load32 0 bytes; magic = load8 4 bytes; cmd = load8 5 bytes }

-- The packed layout, 93 bytes; an `int` field is its bit pattern.
pub record ControlKcpInfo : Type 0 where
  pub dup_send_count : ℕ
  pub kcp_conv : ℕ
  pub nodelay : ℕ
  pub interval : ℕ
  pub resend : ℕ
  pub nc : ℕ
  pub mtu : ℕ
  pub rx_minrto : ℕ
  pub fastresend : ℕ
  pub snd_wnd : ℕ
  pub rcv_wnd : ℕ
  pub rmt_wnd : ℕ
  pub enable_udp : ℕ
  pub dup_ack : ℕ
  pub dup_dynamic : ℕ
  pub dup_wait : ℕ
  pub dup_wnd_on : ℕ
  pub enable_simulator : ℕ
  pub rtt_min : ℕ
  pub rtt_max : ℕ
  pub lost_rate_low : ℕ
  pub lost_rate_high : ℕ
  pub low_lost_period : ℕ
  pub high_lost_period : ℕ

unfoldable pub decode_kcp_info : List ℕ → ControlKcpInfo
unfolding load32 load8
decode_kcp_info b = record {
  dup_send_count = load32 0 b;
  kcp_conv = load32 4 b;
  nodelay = load32 8 b;
  interval = load32 12 b;
  resend = load32 16 b;
  nc = load32 20 b;
  mtu = load32 24 b;
  rx_minrto = load32 28 b;
  fastresend = load32 32 b;
  snd_wnd = load32 36 b;
  rcv_wnd = load32 40 b;
  rmt_wnd = load32 44 b;
  enable_udp = load32 48 b;
  dup_ack = load32 52 b;
  dup_dynamic = load32 56 b;
  dup_wait = load32 60 b;
  dup_wnd_on = load32 64 b;
  enable_simulator = load8 68 b;
  rtt_min = load32 69 b;
  rtt_max = load32 73 b;
  lost_rate_low = load32 77 b;
  lost_rate_high = load32 81 b;
  low_lost_period = load32 85 b;
  high_lost_period = load32 89 b;
}
