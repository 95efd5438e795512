-- ===== src/Details/Totals.antt =====
-- What the dialogs of a declaration compute before they are drawn, in
-- client/src/features/admin/declarations/DeclarationsDetailsModal.tsx and in
-- client/src/features/employee/EmployeesDeclarationsModal.tsx: the declared hours against the weekly
-- shift, the sections that are shown, and the text of a duration.
use sigecat_oraculos.Prelude.{
  ℕ, ◌+◌, ◌*◌, ◌/◌, ◌%◌, ◌==◌, ltb, Bool, true, false, ◌&&◌, ◌||◌, map, Option, none, some, List,
  [], ◌∷◌, ◌++◌, Text, txt, if◌then◌else◌,
}
use sigecat_oraculos.Js.Numbers.{Number, nan, nat, neg, nat_text}
use sigecat_oraculos.Time.Host.{Host}
use sigecat_oraculos.Declarations.{Declaration, JobFunction, RestTime, License}
use sigecat_oraculos.Hours.{
  calc_total_declared_hours, sum_durations_in_hours, calc_weekly_shift_hours,
}
use sigecat_oraculos.Details.{State, catalog_functions}

-- a duration of `h` hours and `m` minutes, of which one is not 0
unfoldable pub hours_and_minutes : ℕ → ℕ → Text
unfolding nat_text
hours_and_minutes h m =
    if ltb 0 h && ltb 0 m
    then nat_text h ++ (txt " h " ++ (nat_text m ++ txt " min"))
    else if ltb 0 h
    then nat_text h ++ txt " h"
    else nat_text m ++ txt " min"

-- minutes are whole numbers from 0 here
unfoldable pub format_duration_hm : ℕ → Text
unfolding hours_and_minutes
format_duration_hm total =
    if total == 0 then txt "0 min" else hours_and_minutes (total / 60) (total % 60)

-- `job_functions = []` of a declaration that may be missing
abbrev pub functions_of : Option Declaration → List JobFunction
functions_of none = []
functions_of (some declaration) = declaration.job_functions

abbrev pub rest_minutes : List RestTime → List ℕ
rest_minutes rests = map (λ r. r.duration_minutes) rests

abbrev pub license_minutes : List License → List ℕ
license_minutes licenses = map (λ l. l.duration_minutes) licenses

-- `baseFunctionHours + restHours + licenseHours`, in hundredths of an hour
unfoldable pub total_declared_hours : List JobFunction → List RestTime → List License → ℕ
unfolding calc_total_declared_hours sum_durations_in_hours
total_declared_hours jfs rests licenses =
    calc_total_declared_hours jfs
    + sum_durations_in_hours (rest_minutes rests)
    + sum_durations_in_hours (license_minutes licenses)

-- `weeklyShiftHours`; the shift is in minutes
abbrev pub weekly_shift_hours : Host → Option Declaration → Number
weekly_shift_hours host none = calc_weekly_shift_hours host none none
weekly_shift_hours host (some declaration) =
    calc_weekly_shift_hours host declaration.shift_starts_at declaration.shift_ends_at

-- `weeklyShiftHours > 0`
abbrev pub shift_hours_known : Number → Bool
shift_hours_known nan = false
shift_hours_known (nat minutes) = ltb 0 minutes
shift_hours_known (neg n) = false

-- `total > weeklyShiftHours`, of hundredths of an hour against minutes
abbrev pub more_than_shift : ℕ → Number → Bool
more_than_shift total nan = false
more_than_shift total (nat minutes) = ltb (minutes * 100) (total * 60)
more_than_shift total (neg n) = true

unfoldable pub is_hours_exceeded : Host → Option Declaration → List RestTime → List License → Bool
unfolding calc_weekly_shift_hours total_declared_hours
is_hours_exceeded host declaration rests licenses =
    shift_hours_known (weekly_shift_hours host declaration)
    && more_than_shift (total_declared_hours (functions_of declaration) rests licenses)
        (weekly_shift_hours host declaration)

abbrev pub has_rows : {A : Type 0} → List A → Bool
has_rows [] = false
has_rows (row ∷ rows) = true

unfoldable pub show_functions_section : State → Bool
unfolding catalog_functions
show_functions_section s =
    has_rows (functions_of s.local_declaration)
    || has_rows (catalog_functions (functions_of s.local_declaration) s.official_fns_for_job)
    || s.loading_official_fns

unfoldable pub has_extra_entries : State → Bool
has_extra_entries s = has_rows s.rest_times || has_rows s.license_times || s.loading_extra
