-- ===== src/KcpSession.antt =====
-- connclient/src/kcp_session.h and kcp_session.cpp: the session over the KCP library.
-- The library (ikcp.h, ikcp.cpp, a copy of another project) is the parameter `KcpLib`: a control
-- block of an abstract type, and the calls that the session makes. A call during which the library
-- runs its output callback returns the datagrams of those callbacks, in order: the library does not
-- read what the callback returns. The control block's `output`, `user` and `writelog` pointers are
-- set once and have no counterpart.
pub mod Ticking
pub mod Guards
use defold_connclient.Prelude.{
  ℕ, zero, suc, ◌<◌, ◌≤◌, length, Bool, true, false, not, ◌&&◌, ◌||◌, Option, none, some, List, [],
  ltb, leb, ltb_ℤ, if◌then◌else◌, ℤ, pos, negsuc, signed32,
}
use defold_connclient.Wire.{ControlKcpInfo}

abbrev pub kcp_mtu : ℤ
kcp_mtu = pos 500

-- `pvp_ikcp_recv`: a message, or a code that is not positive.
pub data Received : Type 0 where
  message : List ℕ → Received
  failed : ℤ → Received

-- What the output callback is given, at most the MTU of the library, which is 1400 bytes at first and
-- is only made smaller.
pub record Datagram : Type 0 where
  pub bytes : List ℕ
  pub bytes-le : length bytes ≤ 1400

pub record KcpLib : Type 1 where
  pub Kcp : Type 0
  pub create : ℕ → Option Kcp
  pub nodelay : ℤ → ℤ → ℤ → ℤ → Kcp → Kcp
  pub wndsize : ℤ → ℤ → Kcp → Kcp
  pub setdupsend : ℤ → ℤ → ℤ → ℤ → ℤ → Kcp → Kcp
  pub setmtu : ℤ → Kcp → Kcp
  pub set_logmask : ℕ → Kcp → Kcp
  pub set_rx_minrto : ℤ → Kcp → Kcp
  pub set_fastresend : ℤ → Kcp → Kcp
  pub release : Kcp → Unit {0}
  pub input : List ℕ → ℕ → Kcp → ℤ × Kcp
  pub send_ex : List ℕ → ℕ → Kcp → ℤ × Kcp × List Datagram
  pub recv : ℕ → Kcp → Received × Kcp
  pub check : ℕ → Kcp → ℕ
  pub update : ℕ → Kcp → Kcp × List Datagram
  pub flush : Kcp → Kcp × List Datagram
  pub peeksize : Kcp → ℤ
  pub waitsnd : Kcp → ℤ
  pub nsnd_que : Kcp → ℤ
  pub snd_wnd : Kcp → ℤ
  pub snd_una : Kcp → ℤ
  pub snd_nxt : Kcp → ℤ
  pub nsnd_buf : Kcp → ℤ
  pub nrcv_que : Kcp → ℤ
  pub rcv_wnd : Kcp → ℤ
  pub nrcv_buf : Kcp → ℤ
  pub rcv_nxt : Kcp → ℤ
  pub rx_srtt : Kcp → ℤ
  pub state : Kcp → ℤ
  pub xmit : Kcp → ℤ

-- `none` is the null pointer.
pub record KcpSession (K : Type 0) : Type 0 where
  pub kcp : Option K
  pub kcp_conv : ℕ
  pub next_time_ms : ℕ
  pub update_now : Bool

unfoldable pub init : {K : Type 0} → KcpSession K
init = record { kcp = none; kcp_conv = 0; next_time_ms = 0; update_now = false }

abbrev pub is_null : {K : Type 0} → KcpSession K → Bool
is_null s = elim s.kcp [ none ↦ true | some k ↦ false ]

unfoldable pub get_conv : {K : Type 0} → KcpSession K → ℕ
get_conv s = s.kcp_conv

module _ (lib : KcpLib) where
  abbrev Session : Type 0
  Session = KcpSession lib.Kcp

  -- The settings of a new control block.
  unfoldable pub configure : ControlKcpInfo → Bool → Bool → lib.Kcp → lib.Kcp
  configure info has_log enable_kcp_log k =
      let k1 =
        lib.nodelay (signed32 info.nodelay) (signed32 info.interval) (signed32 info.resend)
          (signed32 info.nc) k in
      let k2 = lib.wndsize (signed32 info.snd_wnd) (signed32 info.rcv_wnd) k1 in
      let k3 =
        if ltb_ℤ (pos 0) (signed32 info.dup_send_count)
        then lib.setdupsend (signed32 info.dup_send_count) (signed32 info.dup_ack)
            (signed32 info.dup_dynamic) (signed32 info.dup_wait) (signed32 info.dup_wnd_on) k2
        else k2 in
      let mtu = signed32 info.mtu in
      let k4 = lib.setmtu (if ltb_ℤ kcp_mtu mtu then kcp_mtu else mtu) k3 in
      let k5 = if has_log && enable_kcp_log then lib.set_logmask 0x7fffffff k4 else k4 in
      lib.set_fastresend (signed32 info.fastresend) (lib.set_rx_minrto (signed32 info.rx_minrto) k5)

  unfoldable pub create_kcp : ControlKcpInfo → Bool → Bool → Session → ℤ × Session
  create_kcp info has_log enable_kcp_log s = elim (lib.create info.kcp_conv) [
    | none ↦ (negsuc 0, record s { kcp = none; kcp_conv = info.kcp_conv })
    | some k ↦ (
      pos 0,
      record s { kcp = some (configure info has_log enable_kcp_log k); kcp_conv = info.kcp_conv },
    )
  ]

  unfoldable pub input : List ℕ → ℕ → Session → ℤ × Session
  input buf cur_time s = elim s.kcp [
    | none ↦ (pos 0, s)
    | some k ↦
        let (ret, k') = lib.input buf cur_time k in
        (ret, record s { kcp = some k'; update_now = true })
  ]

  unfoldable pub send : List ℕ → ℕ → Session → ℤ × Session × List Datagram
  send buf cur_time s = elim s.kcp [
    | none ↦ (pos 0, s, [])
    | some k ↦
        let (ret, k', out) = lib.send_ex buf cur_time k in (ret, record s { kcp = some k' }, out)
  ]

  -- A null session answers 0, as an empty message.
  unfoldable pub recv : ℕ → Session → Received × Session
  recv len s = elim s.kcp [
    | none ↦ (failed (pos 0), s)
    | some k ↦ let (r, k') = lib.recv len k in (r, record s { kcp = some k' })
  ]

  unfoldable pub check : ℕ → Session → ℕ
  check current_ms s = elim s.kcp [ none ↦ 0 | some k ↦ lib.check current_ms k ]

  unfoldable pub update : ℕ → Session → Session × List Datagram
  update current_ms s = elim s.kcp [
    | none ↦ (s, [])
    | some k ↦
        let (k', out) = lib.update current_ms k in
        (record s { kcp = some k'; update_now = false }, out)
  ]

  -- The library's `release` frees the block, which leaves nothing of it.
  unfoldable pub release : Session → Session
  release s =
      let freed : Unit {0} = elim s.kcp [ none ↦ tt | some k ↦ lib.release k ] in
      record s { kcp = none; kcp_conv = 0 }

  unfoldable pub flush : Session → Session × List Datagram
  flush s = elim s.kcp [
    | none ↦ (s, [])
    | some k ↦ let (k', out) = lib.flush k in (record s { kcp = some k' }, out)
  ]

  -- The read of one field or count, 0 for a null session.
  unfoldable pub read : (lib.Kcp → ℤ) → Session → ℤ
  read field s = elim s.kcp [ none ↦ pos 0 | some k ↦ field k ]

  unfoldable pub peek_size : Session → ℤ
  unfolding read
  peek_size = read lib.peeksize

  unfoldable pub wait_snd : Session → ℤ
  unfolding read
  wait_snd = read lib.waitsnd

  unfoldable pub nsnd_que : Session → ℤ
  unfolding read
  nsnd_que = read lib.nsnd_que

  unfoldable pub snd_wnd : Session → ℤ
  unfolding read
  snd_wnd = read lib.snd_wnd

  unfoldable pub snd_una : Session → ℤ
  unfolding read
  snd_una = read lib.snd_una

  unfoldable pub snd_nxt : Session → ℤ
  unfolding read
  snd_nxt = read lib.snd_nxt

  unfoldable pub nsnd_buf : Session → ℤ
  unfolding read
  nsnd_buf = read lib.nsnd_buf

  unfoldable pub nrcv_que : Session → ℤ
  unfolding read
  nrcv_que = read lib.nrcv_que

  unfoldable pub rcv_wnd : Session → ℤ
  unfolding read
  rcv_wnd = read lib.rcv_wnd

  unfoldable pub nrcv_buf : Session → ℤ
  unfolding read
  nrcv_buf = read lib.nrcv_buf

  unfoldable pub rcv_nxt : Session → ℤ
  unfolding read
  rcv_nxt = read lib.rcv_nxt

  unfoldable pub rx_srtt : Session → ℤ
  unfolding read
  rx_srtt = read lib.rx_srtt

  unfoldable pub state : Session → ℤ
  unfolding read
  state = read lib.state

  unfoldable pub xmit : Session → ℤ
  unfolding read
  xmit = read lib.xmit

  unfoldable pub schedule : ℕ → Session × List Datagram → Session × List Datagram
  schedule current_ms (s, out) = (record s { next_time_ms = check current_ms s }, out)

  -- `Tick` updates once the time is come, or at once after an input.
  unfoldable pub tick : ℕ → Session → Session × List Datagram
  tick current_ms s =
      if not (is_null s) && (leb s.next_time_ms current_ms || s.update_now)
      then schedule current_ms (update current_ms s)
      else (s, [])
