-- ===== src/Client/State.antt =====
-- connclient/src/conn_client.cpp: the members of `ConnClientPrivate`, and the functions that set
-- them. The log lines of the other functions are left out: with the flags and callbacks for them
-- set, they add events as in Client/Log to the queue of callbacks and change nothing else.
use defold_connclient.Prelude.{ℕ, Bool, true, false, Option, none, List, [], ℤ}
use defold_connclient.Stream.{Stream, Allocator}
use defold_connclient.Stream
use defold_connclient.TimeExpire.{TimeExpire}
use defold_connclient.TimeExpire
use defold_connclient.KcpSession.{KcpLib, KcpSession}
use defold_connclient.KcpSession
use defold_connclient.Os.{Os, Fd, get_time_ms}

-- enum ConnState, in the order that `<` and `>=` on it read.
pub data ConnState : Type 0 where
  cs_init cs_connecting cs_connected cs_logic_connected : ConnState

abbrev pub rank : ConnState → ℕ
rank cs_init = 0
rank cs_connecting = 1
rank cs_connected = 2
rank cs_logic_connected = 3

-- What the main thread puts into `in_queue_` for the net thread.
pub data Task : Type 0 where
  connect_task : List ℕ → ℕ → ℤ → Task
  close_task : Task
  send_task : List ℕ → Task

-- What the net thread puts into `out_queue_` for the main thread: a callback to run.
pub data Event : Type 0 where
  -- with the reason, which the callback gets as `reason + 1` in place of a text's length
  disconnect_event : ℤ → Event
  connect_success_event : Event
  reconnect_success_event : Event
  relink_event : Event
  output_event : List ℕ → Event
  log_debug_event : List ℕ → Event
  log_info_event : List ℕ → Event
  log_error_event : List ℕ → Event

-- The Lua callbacks that are set; `none` is a null pointer.
pub record Callbacks : Type 0 where
  pub log_debug_cb : Option ℕ
  pub log_info_cb : Option ℕ
  pub log_error_cb : Option ℕ
  pub output_cb : Option ℕ
  pub disconnect_cb : Option ℕ
  pub connect_success_cb : Option ℕ
  pub reconnect_success_cb : Option ℕ
  pub relink_cb : Option ℕ

-- Why a run of the model has no counterpart: the fuel of a loop or of the recursion between a close
-- and the output of KCP ran out, or the process ended by an exception that nothing catches.
pub data Fault : Type 0 where
  exhausted terminated : Fault

-- The parameters of the client: the system, the KCP library, the allocator.
pub record Env : Type 1 where
  pub os : Os
  pub lib : KcpLib
  pub alloc : Allocator

pub record ConnClient (O K : Type 0) : Type 0 where
  pub os : O
  pub fault : Option Fault
  pub running : Bool
  pub joinable : Bool
  pub in_queue : List Task
  pub out_queue : List Event
  pub ip : List ℕ
  pub port : ℕ
  pub tcp_sock : Fd
  pub udp_sock : Fd
  pub tcp_writable : Bool
  pub conn_state : ConnState
  pub conn_state_ts : ℕ
  pub write_stream : Stream
  pub read_stream : Stream
  pub flow : ℕ
  pub magic : ℕ
  pub debug_log_mode : Bool
  pub tcp_ping_expire : TimeExpire
  pub udp_ping_expire : TimeExpire
  pub ping_seq : ℕ
  pub kcp_session : KcpSession K
  pub enable_udp : Bool
  pub enable_kcp_log : Bool
  pub is_first_connect : Bool
  pub relink_interval_ms_vec : List ℤ
  pub relink_count : ℕ
  pub connect_timeout_ms : ℕ
  pub callbacks : Callbacks

abbrev pub Client : Env → Type 0
Client e = ConnClient e.os.State e.lib.Kcp

abbrev pub no_callbacks : Callbacks
no_callbacks = record {
  log_debug_cb = none;
  log_info_cb = none;
  log_error_cb = none;
  output_cb = none;
  disconnect_cb = none;
  connect_success_cb = none;
  reconnect_success_cb = none;
  relink_cb = none;
}

module _ (e : Env) where
  -- TimeAPI::GetTimeMs, called at a point of a member function.
  unfoldable pub now_ms : Client e → ℕ × Client e
  now_ms c = let (now, os') = get_time_ms e.os c.os in (now, record c { os = os' })

  unfoldable pub enter_state : ConnState → Client e → Client e
  enter_state cs_init c = record c { tcp_writable = true }
  enter_state cs_connecting c = c
  enter_state cs_connected c = c
  enter_state cs_logic_connected c = record c { relink_count = 0 }

  unfoldable pub set_conn_state : ConnState → Client e → Client e
  set_conn_state state c =
      let (now, c') = now_ms c in
      enter_state state (record c' { conn_state = state; conn_state_ts = now })

  -- The members at the start of the constructor's body.
  unfoldable pub init : e.os.State → Client e
  init os = set_conn_state cs_init (record {
    os = os;
    fault = none;
    running = false;
    joinable = false;
    in_queue = [];
    out_queue = [];
    ip = [];
    port = 0;
    tcp_sock = none;
    udp_sock = none;
    tcp_writable = false;
    conn_state = cs_init;
    conn_state_ts = 0;
    write_stream = Stream.empty e.alloc;
    read_stream = Stream.empty e.alloc;
    flow = 0;
    magic = 0;
    debug_log_mode = true;
    tcp_ping_expire = TimeExpire.init 2000;
    udp_ping_expire = TimeExpire.init 2000;
    ping_seq = 0;
    kcp_session = KcpSession.init;
    enable_udp = false;
    enable_kcp_log = false;
    is_first_connect = true;
    relink_interval_ms_vec = [];
    relink_count = 0;
    connect_timeout_ms = 3000;
    callbacks = no_callbacks;
  })

  unfoldable pub is_connected : Client e → Bool
  is_connected c = elim c.conn_state [ cs_logic_connected ↦ true | _ ↦ false ]
