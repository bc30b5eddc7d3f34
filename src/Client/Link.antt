-- ===== src/Client/Link.antt =====
-- The members of `ConnClientPrivate` in connclient/src/conn_client.cpp that make up its connection,
-- and the predicates on them that the handlers keep.
pub mod Closing
pub mod Handlers
pub mod Pings
pub mod WellFormed
pub mod Tracked
pub mod Spending
pub mod Entering
pub mod Reading
pub mod Receiving
pub mod Connecting
pub mod Rounds
use defold_connclient.Prelude.{
  ℕ, ◌≡◌, Bool, true, false, Option, none, some, List, [], ◌∷◌, ◌++◌, ℤ,
}
use defold_connclient.Stream.{Stream, reset, skip}
use defold_connclient.Stream.Buffer.{IsValid}
use defold_connclient.Os.{Fd}
use defold_connclient.Client.State.{ConnClient, ConnState, cs_init, Event, connect_success_event}

pub record Link : Type 0 where
  pub tcp_sock : Fd
  pub udp_sock : Fd
  pub conn_state : ConnState
  pub write_stream : Stream
  pub read_stream : Stream
  pub relink_interval_ms_vec : List ℤ
  pub relink_count : ℕ
  pub is_first_connect : Bool
  pub out_queue : List Event

abbrev pub link : {O K : Type 0} → ConnClient O K → Link
link c = record {
  tcp_sock = c.tcp_sock;
  udp_sock = c.udp_sock;
  conn_state = c.conn_state;
  write_stream = c.write_stream;
  read_stream = c.read_stream;
  relink_interval_ms_vec = c.relink_interval_ms_vec;
  relink_count = c.relink_count;
  is_first_connect = c.is_first_connect;
  out_queue = c.out_queue;
}

-- A connection that is down.
abbrev pub down : Link → Link
down k = record k {
  tcp_sock = none;
  udp_sock = none;
  conn_state = cs_init;
  write_stream = reset k.write_stream;
  read_stream = reset k.read_stream;
}

pub record Holds {O K : Type 0} (Q : Link → Type 0) (c : ConnClient O K) : Type 0 where
  pub holds : Q (link c)

abbrev pub is_success : Event → Bool
is_success connect_success_event = true
is_success _ = false

-- A connection with one event more for the main thread.
abbrev pub put : Event → Link → Link
put event k = record k { out_queue = k.out_queue ++ event ∷ [] }

-- What a predicate needs in order to hold after any send, any close, and any event but that of the
-- first connect.
pub record Stable (Q : Link → Type 0) : Type 0 where
  pub by_write :
      (k : Link) (ws : Stream)
      → (IsValid k.write_stream → IsValid ws)
      → Q k
      → Q (record k { write_stream = ws })
  pub by_close : (k : Link) → Q k → Q (down k)
  pub by_event : (event : Event) (k : Link) → is_success event ≡ false → Q k → Q (put event k)
