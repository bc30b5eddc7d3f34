-- ===== src/Os.antt =====
-- The operating system that the client calls, as a parameter: an abstract state, and for each
-- system call its result and the state after it. A descriptor of -1 is `none`. Also
-- connclient/src/time_api.cpp, which reads the clock.
use defold_connclient.Prelude.{
  ℕ, Bool, none, negsuc, some, ◌≡◌, ◌+◌, ◌*◌, ◌/◌, ◌≤◌, Option, List, length, ℤ,
}

-- The values of `errno` that the client tells apart.
pub data Errno : Type 0 where
  ewouldblock eagain eintr einprogress other : Errno

pub data SockType : Type 0 where
  sock_stream sock_dgram : SockType

-- An entry of the list that `getaddrinfo` returns.
pub record AddrInfo : Type 0 where
  pub is_inet : Bool
  pub addr : List ℕ

abbrev pub Fd : Type 0
Fd = Option ℕ

-- What `select` leaves: its result, and the descriptors in the three sets.
pub record Selected : Type 0 where
  pub retval : ℤ
  pub rset : List ℕ
  pub wset : List ℕ
  pub eset : List ℕ

pub record Os : Type 1 where
  pub State : Type 0
  -- seconds and microseconds
  pub gettimeofday : State → (ℕ × ℕ) × State
  pub errno : State → Errno
  pub getaddrinfo : List ℕ → ℕ → SockType → State → Option (List AddrInfo) × State
  pub socket : SockType → State → Fd × State
  -- 0, or -1 on an error
  pub connect : Fd → List ℕ → State → ℤ × State
  pub bind : Fd → List ℕ → State → ℤ × State
  pub setsockopt : Fd → ℕ → ℕ → ℕ → State → ℤ × State
  pub getfl : Fd → State → ℕ × State
  pub setfl : Fd → ℕ → State → State
  pub close : Fd → State → State
  -- the number of bytes taken, or -1
  pub send : Fd → List ℕ → State → ℤ × State
  -- the bytes that came, or `none` for -1; `some []` is the end of the stream
  pub recv : Fd → ℕ → State → Option (List ℕ) × State
  pub recvfrom : Fd → ℕ → State → Option (List ℕ) × State
  -- on the read, write and error sets, with a timeout in milliseconds
  pub select : List ℕ → List ℕ → List ℕ → ℕ → State → Selected × State
  pub listen : Fd → ℤ → State → ℤ × State
  -- the descriptor and the address of the other end
  pub accept : Fd → State → (Fd × List ℕ) × State
  -- with the value of the option
  pub getsockopt : Fd → ℕ → ℕ → State → (ℤ × ℕ) × State
  pub sendto : Fd → List ℕ → List ℕ → State → ℤ × State
  pub shutdown : Fd → ℕ → State → ℤ × State
  -- of a request, a descriptor and the value in the cell that is passed: the value after the call
  pub ioctl : Fd → ℕ → ℕ → State → ℕ × State
  -- `none` for INADDR_NONE
  pub inet_addr : List ℕ → Option (List ℕ)
  -- a system call fills the buffer that it is given at most
  pub recv-le :
      (fd : Fd) (n : ℕ) (s : State) (bytes : List ℕ)
      → (recv fd n s).0 ≡ some bytes
      → length bytes ≤ n

module _ (os : Os) where
  -- TimeAPI::GetTimeMs
  unfoldable pub get_time_ms : os.State → ℕ × os.State
  get_time_ms s = let ((sec, usec), s') = os.gettimeofday s in (sec * 1000 + usec / 1000, s')

-- Calls on the descriptor -1 fail with EBADF.
pub record RefusesNone (os : Os) : Type 0 where
  pub recv_none : (n : ℕ) (s : os.State) → (os.recv none n s).0 ≡ none
  pub send_none : (bytes : List ℕ) (s : os.State) → (os.send none bytes s).0 ≡ negsuc 0
  pub errno_none : (bytes : List ℕ) (s : os.State) → os.errno (os.send none bytes s).1 ≡ other

-- A clock that shows a time of the state, which neither a send nor a close sets back.
pub record Clock (os : Os) : Type 0 where
  pub time : os.State → ℕ
  pub by_get : (s : os.State) → (get_time_ms os s).0 ≡ time s
  pub by_send : (fd : Fd) (bytes : List ℕ) (s : os.State) → time s ≤ time (os.send fd bytes s).1
  pub by_close : (fd : Fd) (s : os.State) → time s ≤ time (os.close fd s)
