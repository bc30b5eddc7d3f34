-- ===== src/TimeApi/Widths.antt =====
-- The width of the text of the time in connclient/src/time_api.cpp.
use defold_connclient.Prelude.{
  ℕ, zero, suc, ◌+◌, ◌-◌, ◌/◌, ◌%◌, ◌<◌, ◌≤◌, ◌≡◌, refl, [], ◌∷◌, length, length-append,
  length-replicate, replicate, ltb, lt→ltb, le→ltb, arith, Bool-cases, inl, inr,
}
use defold_connclient.SocketApi.Addresses.{show_digits, show_int}
use defold_connclient.SocketApi.Addresses.Scanning.{ten_to}
use defold_connclient.TimeApi.{Tm, set_width, time_text}

length-show_digits :
    (fuel width n : ℕ) → n < ten_to (suc width) → length (show_digits fuel n) ≤ suc width
unfolding show_digits
length-show_digits zero width n small = omega arith
length-show_digits (suc fuel) zero n small = rw (lt→ltb n 10 small) (omega arith)
length-show_digits (suc fuel) (suc width) n small = elim (Bool-cases (ltb n 10)) [
  | inl one ↦ rw one (omega arith)
  | inr more ↦ rw more (
      omega (
        arith,
        length-append (show_digits fuel (n / 10)) ((b'0' + n % 10) ∷ []),
        length-show_digits fuel width (n / 10) (omega (arith, small)),
      ))
]

length-set_width :
    (width n : ℕ) → n < ten_to (suc width) → length (set_width (suc width) n) ≡ suc width
unfolding set_width
length-set_width width n small = omega (
  arith,
  length-append (replicate (suc width - length (show_int n)) b'0') (show_int n),
  length-replicate {A = ℕ} (suc width - length (show_int n)) b'0',
  length-show_digits 10 width n small,
)

length-show_year : (n : ℕ) → 1000 ≤ n → n < 10000 → length (show_int n) ≡ 4
unfolding show_digits
length-show_year n large small =
    rw
      (
        le→ltb n 10 (omega (arith, large)),
        le→ltb (n / 10) 10 (omega (arith, large)),
        le→ltb (n / 10 / 10) 10 (omega (arith, large)),
        lt→ltb (n / 10 / 10 / 10) 10 (omega (arith, small)),
      )
      refl

-- A time whose fields are in their ranges, of a year of four digits.
pub record InRange (tm : Tm) : Type 0 where
  pub year : tm.tm_year < 8100
  pub mon : tm.tm_mon < 12
  pub mday : tm.tm_mday < 32
  pub hour : tm.tm_hour < 24
  pub min : tm.tm_min < 60
  pub sec : tm.tm_sec < 61

-- The text of such a time has 21 characters.
length-time_text : (tm : Tm) (ms : ℕ) → InRange tm → ms < 1000 → length (time_text tm ms) ≡ 21
unfolding time_text
length-time_text tm ms h less = simp (
  length-append,
  length-show_year (1900 + tm.tm_year) (omega arith) (omega (arith, h.year)),
  length-set_width 1 (1 + tm.tm_mon) (omega (arith, h.mon)),
  length-set_width 1 tm.tm_mday (omega (arith, h.mday)),
  length-set_width 1 tm.tm_hour (omega (arith, h.hour)),
  length-set_width 1 tm.tm_min (omega (arith, h.min)),
  length-set_width 1 tm.tm_sec (omega (arith, h.sec)),
  length-set_width 2 ms (omega (arith, less)),
)
