-- ===== src/Hours.antt =====
-- Hours of a declaration: `calcTotalDeclaredHours`, `calcWeeklyShiftHours` and
-- `sumDurationsInHours` of client/src/utils/declarationExport.ts, and the weekly minutes of
-- client/src/features/employee/DeclarationFunctions.tsx. Quotients are kept exact, where the source
-- computes with doubles: a duration counts in units of 1/3120 of an hour, which every multiplier of
-- the source divides evenly, and a rounded total in hundredths of an hour.
pub mod Declared
pub mod Frequencies
pub mod Shift
mod Tests
pub mod Samples
use sigecat_oraculos.Prelude.{
  Bool, ℕ, ◌+◌, ◌*◌, ◌/◌, ◌==◌, Option, none, some, List, [], ◌∷◌, Text, txt, includes, or_else,
  text_eq, if◌then◌else◌,
}
use sigecat_oraculos.Js.Strings.{to_lower, split_on}
use sigecat_oraculos.Js.Numbers.{Number, nan, nat, below, plus, to_number, add, negated, times}
use sigecat_oraculos.Declarations.{JobFunction}
use sigecat_oraculos.Time.Host.{Host}
use sigecat_oraculos.Time.Clock.{parse_oracle_to_time_input}

-- units in a minute that is worked once a week
abbrev pub weekly : ℕ
weekly = 52

-- the `multiplier` of `calcTotalDeclaredHours`, in units for each minute
unfoldable pub multiplier : Text → ℕ
multiplier freq =
    if includes freq (txt "diario")
    then 5 * weekly
    else if includes freq (txt "semanal")
    then weekly
    else if includes freq (txt "quincenal")
    then 26
    else if includes freq (txt "mensual")
    then 13
    else if includes freq (txt "anual")
    then 1
    else weekly

-- `jf.duration_minutes || 0` and `jf.frequency?.toLowerCase() || ''`
abbrev pub minutes_of : JobFunction → ℕ
minutes_of jf = or_else jf.duration_minutes 0

abbrev pub frequency_of : JobFunction → Text
frequency_of jf = to_lower (or_else jf.frequency [])

-- the loop, from a running total; a duration of 0 is skipped
unfoldable pub total_units_from : ℕ → List JobFunction → ℕ
total_units_from total [] = total
total_units_from total (jf ∷ rest) =
    total_units_from
      (if minutes_of jf == 0 then total else total + minutes_of jf * multiplier (frequency_of jf))
      rest

-- `Math.round(total * 100) / 100`, in hundredths. The exact total is rounded here. The source rounds a sum of
-- doubles, which may lie just below half a hundredth where the exact total is there (60 minutes a week
-- and 3 a fortnight), and may then differ by a hundredth.
unfoldable pub calc_total_declared_hours : List JobFunction → ℕ
unfolding total_units_from multiplier
calc_total_declared_hours jfs = (total_units_from 0 jfs * 200 + 3120) / 6240

unfoldable pub total_minutes_from : ℕ → List ℕ → ℕ
total_minutes_from total [] = total
total_minutes_from total (d ∷ ds) = total_minutes_from (total + d) ds

-- the durations of the entries, in hundredths of an hour
unfoldable pub sum_durations_in_hours : List ℕ → ℕ
unfolding total_minutes_from
sum_durations_in_hours durations = (total_minutes_from 0 durations * 200 + 60) / 120

-- `clock.split(':').map(Number)`, the minutes since midnight
abbrev pub minutes_of_pieces : List Text → Number
minutes_of_pieces (h ∷ m ∷ rest) = add (times 60 (to_number h)) (to_number m)
minutes_of_pieces _ = nan

abbrev pub is_colon : ℕ → Bool
is_colon c = c == b':'

unfoldable pub minutes_of_clock : Text → Number
minutes_of_clock clock = minutes_of_pieces (split_on is_colon clock)

unfoldable pub daily_minutes : Number → Number → Number
daily_minutes start end = let d = add end (negated start) in if below d 0 then plus d 1440 else d

unfoldable pub shift_of_clocks : Text → Text → Number
unfolding minutes_of_clock daily_minutes
shift_of_clocks [] end = nat 0
shift_of_clocks (c ∷ s) [] = nat 0
shift_of_clocks (c ∷ s) (d ∷ e) =
    times 5 (daily_minutes (minutes_of_clock (c ∷ s)) (minutes_of_clock (d ∷ e)))

-- the hours of the weekly shift, in minutes; a missing time parses to the empty text
unfoldable pub calc_weekly_shift_hours : Host → Option Text → Option Text → Number
unfolding shift_of_clocks
calc_weekly_shift_hours host start end =
    shift_of_clocks (parse_oracle_to_time_input host start) (parse_oracle_to_time_input host end)

-- `FREQUENCY_PER_WEEK[frequency] ?? 1` of the declaration form, in the same units
unfoldable pub frequency_per_week : Text → ℕ
frequency_per_week f =
    if text_eq f (txt "Diario")
    then 5 * weekly
    else if text_eq f (txt "Semanal")
    then weekly
    else if text_eq f (txt "Quincenal")
    then 26
    else if text_eq f (txt "Mensual")
    then 13
    else if text_eq f (txt "Trimestral")
    then 4
    else if text_eq f (txt "Semestral")
    then 2
    else weekly

abbrev pub frequencies : List Text
frequencies =
    txt "Diario"
    ∷ txt "Semanal"
    ∷ txt "Quincenal"
    ∷ txt "Mensual"
    ∷ txt "Trimestral"
    ∷ txt "Semestral"
    ∷ []

-- `weeklyMinutes(r)` in units
unfoldable pub weekly_minutes : ℕ → Text → ℕ
unfolding frequency_per_week
weekly_minutes minutes frequency = minutes * frequency_per_week frequency
