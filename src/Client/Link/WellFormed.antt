-- ===== src/Client/Link/WellFormed.antt =====
-- The invariant of a connection of connclient/src/conn_client.cpp.
use defold_connclient.Prelude.{ℕ, ◌≤◌, ◌≡◌, Bool, true, false, List, length, is_some, ℤ, arith}
use defold_connclient.Stream.{Stream, len}
use defold_connclient.Stream.Buffer.{IsValid, reset-IsValid}
use defold_connclient.Os.{Fd}
use defold_connclient.Client.State.{
  ConnState, cs_init, cs_connecting, cs_connected, cs_logic_connected,
}
use defold_connclient.Client.Relink.Sorted.{IsSorted}
use defold_connclient.Client.Link.{Link, down}

abbrev pub is_open : ConnState → Bool
is_open cs_init = false
is_open cs_connecting = true
is_open cs_connected = true
is_open cs_logic_connected = true

-- Both streams are valid, and at most five intervals are there, in order, of which at most that
-- many were used.
pub record IsSound (k : Link) : Type 0 where
  pub sent : IsValid k.write_stream
  pub unread : IsValid k.read_stream
  pub sorted : IsSorted k.relink_interval_ms_vec
  pub few : length k.relink_interval_ms_vec ≤ 5
  pub count : k.relink_count ≤ 5

-- The sockets are open exactly while the state is not CS_INIT, and only then are there bytes to
-- read.
pub record IsLinked (k : Link) : Type 0 where
  pub tcp : is_some k.tcp_sock ≡ is_open k.conn_state
  pub udp : is_some k.udp_sock ≡ is_open k.conn_state
  pub idle : is_open k.conn_state ≡ false → len k.read_stream ≡ 0

pub record WellFormed (k : Link) : Type 0 where
  pub sound : IsSound k
  pub linked : IsLinked k

pub down-IsSound : (k : Link) → IsSound k → IsSound (down k)
down-IsSound k s = record {
  sent = reset-IsValid k.write_stream s.sent;
  unread = reset-IsValid k.read_stream s.unread;
  sorted = s.sorted;
  few = s.few;
  count = s.count;
}

pub write-IsSound :
    (k : Link) (ws : Stream)
    → (IsValid k.write_stream → IsValid ws)
    → IsSound k
    → IsSound (record k { write_stream = ws })
write-IsSound k ws valid s = record {
  sent = valid s.sent;
  unread = s.unread;
  sorted = s.sorted;
  few = s.few;
  count = s.count;
}

-- The sockets and the state do not matter to it.
pub sockets-IsSound :
    (k : Link) (tcp udp : Fd) (state : ConnState)
    → IsSound k
    → IsSound (record k { tcp_sock = tcp; udp_sock = udp; conn_state = state })
sockets-IsSound k tcp udp state s = record {
  sent = s.sent;
  unread = s.unread;
  sorted = s.sorted;
  few = s.few;
  count = s.count;
}

-- Nor does the count of relinks, below the bound.
pub count-IsSound : (k : Link) (n : ℕ) → n ≤ 5 → IsSound k → IsSound (record k { relink_count = n })
count-IsSound k n below s = record {
  sent = s.sent;
  unread = s.unread;
  sorted = s.sorted;
  few = s.few;
  count = below;
}

-- The intervals and the count may change within their bounds.
pub relinks-IsSound :
    (k : Link) (vec : List ℤ) (n : ℕ)
    → IsSorted vec
    → length vec ≤ 5
    → n ≤ 5
    → IsSound k
    → IsSound (record k { relink_interval_ms_vec = vec; relink_count = n })
relinks-IsSound k vec n sorted few below s = record {
  sent = s.sent;
  unread = s.unread;
  sorted = sorted;
  few = few;
  count = below;
}

-- A connection in another state; CS_LOGIC_CONNECTED sets the count of relinks back.
abbrev pub enter : ConnState → Link → Link
enter cs_init k = record k { conn_state = cs_init }
enter cs_connecting k = record k { conn_state = cs_connecting }
enter cs_connected k = record k { conn_state = cs_connected }
enter cs_logic_connected k = record k { conn_state = cs_logic_connected; relink_count = 0 }

pub enter-IsSound : (state : ConnState) (k : Link) → IsSound k → IsSound (enter state k)
enter-IsSound cs_init k s = sockets-IsSound k k.tcp_sock k.udp_sock cs_init s
enter-IsSound cs_connecting k s = sockets-IsSound k k.tcp_sock k.udp_sock cs_connecting s
enter-IsSound cs_connected k s = sockets-IsSound k k.tcp_sock k.udp_sock cs_connected s
enter-IsSound cs_logic_connected k s =
    sockets-IsSound (record k { relink_count = 0 }) k.tcp_sock k.udp_sock cs_logic_connected
      (count-IsSound k 0 (omega arith) s)

pub enter-IsLinked :
    (state : ConnState) (k : Link)
    → is_open state ≡ true
    → is_some k.tcp_sock ≡ true
    → is_some k.udp_sock ≡ true
    → IsLinked (enter state k)
enter-IsLinked cs_init k up tcp udp = cc
enter-IsLinked cs_connecting k up tcp udp = record { tcp = tcp; udp = udp; idle = λ h. cc }
enter-IsLinked cs_connected k up tcp udp = record { tcp = tcp; udp = udp; idle = λ h. cc }
enter-IsLinked cs_logic_connected k up tcp udp = record { tcp = tcp; udp = udp; idle = λ h. cc }
