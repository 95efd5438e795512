-- ===== src/Hours/Tests.antt =====
-- Declared functions, durations and a night shift.
use sigecat_oraculos.Prelude.{◌*◌, ◌≡◌, refl, List, [], ◌∷◌, some, txt, true, false, arith}
use sigecat_oraculos.Js.Strings.{is_space, to_lower, lower_unit}
use sigecat_oraculos.Js.Numbers.{nat}
use sigecat_oraculos.Declarations.{JobFunction}
use sigecat_oraculos.Hours.{
  total_units_from, calc_total_declared_hours, multiplier, calc_weekly_shift_hours,
}
use sigecat_oraculos.Hours.Shift.{minutes_until, minute_of_day, calc_weekly_shift_hours-oracle_text}
use sigecat_oraculos.Time.ClockLaws.{oracle_text}
use sigecat_oraculos.Time.Samples.{sample}
use sigecat_oraculos.Hours.Samples.{daily}

abbrev quarterly : JobFunction
quarterly = record daily { frequency = some (txt "Trimestral"); duration_minutes = some 60 }

abbrev declared : List JobFunction
declared = daily ∷ daily ∷ []

total_of_declared : calc_total_declared_hours declared ≡ 750
unfolding calc_total_declared_hours total_units_from multiplier to_lower lower_unit
total_of_declared = refl

-- 60 quarterly minutes are exported as an hour of every week
quarterly_hour : calc_total_declared_hours (quarterly ∷ []) ≡ 100
unfolding calc_total_declared_hours total_units_from multiplier to_lower lower_unit
quarterly_hour = refl

-- from ten in the evening to four in the morning
calc_weekly_shift_hours-oracle_text_example :
    calc_weekly_shift_hours sample
      (some (oracle_text b'1' (txt "2") 10 0 (txt "0") true))
      (some (oracle_text b'1' (txt "3") 4 0 (txt "0") false))
    ≡ nat (5 * minutes_until (minute_of_day 10 0 true) (minute_of_day 4 0 false))
unfolding is_space
calc_weekly_shift_hours-oracle_text_example =
    calc_weekly_shift_hours-oracle_text sample b'1' b'1' (txt "2") (txt "3") (txt "0") (txt "0") 10
      0 4 0 true false (refl, (refl, tt)) (refl, (refl, tt)) (refl, tt) (refl, tt) (omega arith)
      (omega arith) (omega arith) (omega arith) (omega arith) (omega arith)
