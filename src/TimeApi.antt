-- ===== src/TimeApi.antt =====
-- connclient/src/time_api.cpp but for `GetTimeMs`, which stands in Os, and connclient/src/sys_api.cpp,
-- in their branches for systems other than Windows.
pub mod Widths
use defold_connclient.Prelude.{
  ℕ, zero, ◌+◌, ◌-◌, ◌/◌, Bool, true, false, List, [], ◌∷◌, ◌++◌, length, replicate, if◌then◌else◌,
  ◌&&◌, ℤ, pos, negsuc,
}
use defold_connclient.Os.{Os}
use defold_connclient.SocketApi.Addresses.{show_int}

-- struct tm
pub record Tm : Type 0 where
  pub tm_year : ℕ
  pub tm_mon : ℕ
  pub tm_mday : ℕ
  pub tm_hour : ℕ
  pub tm_min : ℕ
  pub tm_sec : ℕ

-- `setw(width) << n` with the fill character 0
unfoldable pub set_width : ℕ → ℕ → List ℕ
set_width width n = let digits = show_int n in replicate (width - length digits) b'0' ++ digits

unfoldable pub time_text : Tm → ℕ → List ℕ
time_text tm ms =
    show_int (1900 + tm.tm_year)
    ++ set_width 2 (1 + tm.tm_mon)
    ++ set_width 2 tm.tm_mday
    ++ b'-' ∷ []
    ++ set_width 2 tm.tm_hour
    ++ b':' ∷ []
    ++ set_width 2 tm.tm_min
    ++ b':' ∷ []
    ++ set_width 2 tm.tm_sec
    ++ b'.' ∷ []
    ++ set_width 3 ms

-- What `getpriority` answers, with whether it has set `errno`, and `setpriority`.
pub record Scheduler (State : Type 0) : Type 0 where
  pub getpriority : State → (ℤ × Bool) × State
  pub setpriority : ℤ → State → ℤ × State

abbrev is_minus_one : ℤ → Bool
is_minus_one (negsuc zero) = true
is_minus_one _ = false

module _ {State : Type 0} (scheduler : Scheduler State) where
  unfoldable pub get_priority : State → ℤ × State
  get_priority s =
      let ((ret, failed), s') = scheduler.getpriority s in
      (if is_minus_one ret && failed then pos 0 else ret, s')

  unfoldable pub set_priority : ℤ → State → ℤ × State
  set_priority priority s = scheduler.setpriority priority s

module _ (os : Os) where
  -- `localtime` stands for localtime_r.
  unfoldable pub get_cur_time_str : (ℕ → Tm) → os.State → List ℕ × os.State
  get_cur_time_str localtime s =
      let ((sec, usec), s') = os.gettimeofday s in (time_text (localtime sec) (usec / 1000), s')

  unfoldable pub sleep_ms : ℕ → os.State → os.State
  sleep_ms ms s = (os.select [] [] [] ms s).1
