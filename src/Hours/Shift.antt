-- ===== src/Hours/Shift.antt =====
-- The hours of the weekly shift, from the two timestamps of a declaration.
use sigecat_oraculos.Prelude.{
  ℕ, zero, suc, ◌+◌, ◌-◌, ◌*◌, ◌%◌, ◌≤◌, ◌<◌, ◌≡◌, refl, ap, Bool, false, some, [], ◌∷◌, Text, All,
  arith,
}
use sigecat_oraculos.Js.Strings.{is_empty, is_time_separator}
use sigecat_oraculos.Js.Numbers.{nat, pad2, add, negated, times}
use sigecat_oraculos.Js.Splitting.{NoSpace, split_on-append, split_on-last, is_empty-append}
use sigecat_oraculos.Js.Decimals.{pad2-IsClockText}
use sigecat_oraculos.Time.Host.{Host}
use sigecat_oraculos.Time.Clock.{clock_text}
use sigecat_oraculos.Time.ClockLaws.{
  oracle_text, hour_of_day, parse_oracle_to_time_input-oracle_text,
}
use sigecat_oraculos.Hours.{
  is_colon, minutes_of_clock, daily_minutes, shift_of_clocks, calc_weekly_shift_hours,
}

no_colon : (t : Text) → All (λ c. is_time_separator c ≡ false) t → All (λ c. is_colon c ≡ false) t
no_colon [] h = tt
no_colon (c ∷ t) (p, h) = (ground arith, no_colon t h)

minutes_of_clock-clock_text :
    (h m : ℕ) → h < 100 → m < 100 → minutes_of_clock (clock_text (nat h) (nat m)) ≡ nat (h * 60 + m)
unfolding minutes_of_clock add times
minutes_of_clock-clock_text h m hs ms =
    let a = pad2-IsClockText h hs in
    let b = pad2-IsClockText m ms in
    rw
      (split_on-append is_colon (pad2 (nat h)) b':' (pad2 (nat m)) (no_colon _ a.no_separator) refl)
      (rw (split_on-last is_colon (pad2 (nat m)) (no_colon _ b.no_separator))
        (rw (a.number, b.number) (ap nat (omega arith))))

daily_minutes-nat :
    (s e : ℕ) → s < 1440 → e < 1440 → daily_minutes (nat s) (nat e) ≡ nat ((e + 1440 - s) % 1440)
unfolding daily_minutes add negated
daily_minutes-nat zero e hs he = ground arith
daily_minutes-nat (suc s) e hs he = ground arith

shift_of_filled :
    (a b : Text)
    → is_empty a ≡ false
    → is_empty b ≡ false
    → shift_of_clocks a b ≡ times 5 (daily_minutes (minutes_of_clock a) (minutes_of_clock b))
unfolding shift_of_clocks
shift_of_filled [] b h k = cc
shift_of_filled (c ∷ s) [] h k = cc
shift_of_filled (c ∷ s) (d ∷ e) h k = refl

-- minutes since midnight
abbrev pub minute_of_day : ℕ → ℕ → Bool → ℕ
minute_of_day hour minute pm = hour_of_day hour pm * 60 + minute

-- the minutes from one time of the day to the next time that the clock shows the other
abbrev pub minutes_until : ℕ → ℕ → ℕ
minutes_until s e = (e + 1440 - s) % 1440

shift_of_clocks-clock_text :
    (h m h' m' : ℕ)
    → h < 24
    → m < 60
    → h' < 24
    → m' < 60
    → shift_of_clocks (clock_text (nat h) (nat m)) (clock_text (nat h') (nat m'))
      ≡ nat (5 * minutes_until (h * 60 + m) (h' * 60 + m'))
shift_of_clocks-clock_text h m h' m' a b c d =
    rw
      (shift_of_filled _ _ (is_empty-append (pad2 (nat h)) _ _)
        (is_empty-append (pad2 (nat h')) _ _))
      (rw (minutes_of_clock-clock_text h m (omega arith) (omega arith)) (
        rw (minutes_of_clock-clock_text h' m' (omega arith) (omega arith)) (
          rw (daily_minutes-nat (h * 60 + m) (h' * 60 + m') (omega arith) (omega arith))
            (unfold times in refl))))

hour_of_day-lt : (h : ℕ) (pm : Bool) → hour_of_day h pm < 24
hour_of_day-lt h pm = ground arith

-- For two Oracle timestamps the weekly shift is five times the time from the one to the other on
-- the clock: a shift that passes midnight counts to the next day.
pub calc_weekly_shift_hours-oracle_text :
    (host : Host) (c c' : ℕ) (date date' tail tail' : Text) (h m h' m' : ℕ) (pm pm' : Bool)
    → NoSpace (c ∷ date)
    → NoSpace (c' ∷ date')
    → NoSpace tail
    → NoSpace tail'
    → 1 ≤ h
    → h ≤ 12
    → m < 60
    → 1 ≤ h'
    → h' ≤ 12
    → m' < 60
    → calc_weekly_shift_hours host
        (some (oracle_text c date h m tail pm))
        (some (oracle_text c' date' h' m' tail' pm'))
      ≡ nat (5 * minutes_until (minute_of_day h m pm) (minute_of_day h' m' pm'))
unfolding calc_weekly_shift_hours
calc_weekly_shift_hours-oracle_text host c c' date date' tail tail' h m h' m' pm pm' d d' t t' l u s
      l' u' s' =
    rw (parse_oracle_to_time_input-oracle_text host c date tail h m pm d t l u s) (
      rw (parse_oracle_to_time_input-oracle_text host c' date' tail' h' m' pm' d' t' l' u' s') (
        shift_of_clocks-clock_text (hour_of_day h pm) m (hour_of_day h' pm') m'
          (hour_of_day-lt h pm) s (hour_of_day-lt h' pm') s'))
