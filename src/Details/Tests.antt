-- ===== src/Details/Tests.antt =====
-- A declaration under revision, runs of the effect whose answers cross, and a shift that is just filled.
use sigecat_oraculos.Prelude.{
  ℕ, ◌+◌, ◌*◌, ◌<◌, ◌⊎◌, arith, true, false, none, some, List, [], ◌∷◌, Text, txt, ◌≡◌, refl, ok,
  err,
}
use sigecat_oraculos.Declarations.{Declaration, RestTime, License, coffee}
use sigecat_oraculos.Js.Strings.{is_space, to_lower, lower_unit}
use sigecat_oraculos.Js.Numbers.{nat}
use sigecat_oraculos.Hours.{
  multiplier, total_units_from, total_minutes_from, calc_total_declared_hours,
  sum_durations_in_hours,
}
use sigecat_oraculos.Hours.Samples.{daily}
use sigecat_oraculos.Hours.Shift.{calc_weekly_shift_hours-oracle_text}
use sigecat_oraculos.Time.Samples.{sample}
use sigecat_oraculos.Time.ClockLaws.{oracle_text}
use sigecat_oraculos.Js.Numbers.{nat_text}
use sigecat_oraculos.Details.Totals.{
  hours_and_minutes, format_duration_hm, is_hours_exceeded, weekly_shift_hours,
  total_declared_hours,
}
use sigecat_oraculos.Details.Exceeded.{exact_units, is_hours_exceeded_within}
use sigecat_oraculos.Status.{revision, approved, rejected, admin, status_transitions}
use sigecat_oraculos.Status.Workflow.{Permitted}
use sigecat_oraculos.Details.{
  State, Api, Arrival, started, extra_answered, functions_answered, effect, arrive, receive,
  arrive_all, handle_open_status_change, valid_next_statuses,
}
use sigecat_oraculos.Shift.Samples.{position}
use sigecat_oraculos.Services.{ServiceError}
use sigecat_oraculos.Details.Loading.{Marks, arrive_all-Marks}
use sigecat_oraculos.Details.Review.{
  Event, change_clicked, status_chosen, declaration_given, effect_ran, arrived, run, step,
  IsCalmRun, run-Permitted,
}

abbrev declaration : Declaration
declaration = record {
  declaration_id = txt "d";
  user_id = txt "u";
  job_position_id = txt "p";
  shift_starts_at = none;
  shift_ends_at = none;
  justification = none;
  current_status = some revision;
  created_at = [];
  job_position = none;
  job = none;
  status_history = [];
  job_functions = [];
}

abbrev shown : State
shown = record {
  local_declaration = some declaration;
  selected_status = none;
  status_dialog_open = false;
  is_changing_status = false;
  status_error = none;
  official_fns_for_job = [];
  loading_official_fns = false;
  rest_times = [];
  license_times = [];
  loading_extra = false;
  mounted = 2;
  notices = [];
}

abbrev rest : Text → RestTime
rest id = record { rest_time_id = id; rest_type = coffee; duration_minutes = 15 }

-- the answer to the first run comes last
abbrev crossed : List Arrival
crossed =
    started 2
    ∷ extra_answered 2 (ok (rest (txt "new") ∷ [], []))
    ∷ extra_answered 1 (ok (rest (txt "old") ∷ [], []))
    ∷ []

crossed_shows_new : (arrive_all crossed shown).rest_times ≡ rest (txt "new") ∷ []
unfolding arrive_all arrive receive
crossed_shows_new = refl

abbrev server : Api ℕ
server = record {
  change_status = λ id status n. (n, ok tt);
  get_declaration = λ id n. ok declaration;
}

-- the modal opens on the declaration, its lists load, and a status is chosen
abbrev reviewed : List Event
reviewed =
    declaration_given (some declaration)
    ∷ effect_ran
    ∷ arrived (started 3)
    ∷ change_clicked
    ∷ status_chosen approved
    ∷ []

run-Permitted_example : Permitted revision approved admin false
unfolding run step handle_open_status_change valid_next_statuses status_transitions arrive receive
    IsCalmRun
run-Permitted_example =
    run-Permitted server reviewed 0 shown declaration revision approved false
      (refl, (tt, (tt, (tt, (tt, tt))))) refl refl refl refl refl

-- another declaration arrives behind the open dialog, and the status chosen stays
abbrev other : Declaration
other = record declaration { current_status = some rejected }

disturbed :
    let s =
      (run server
        (declaration_given (some declaration)
          ∷ change_clicked
          ∷ status_chosen approved
          ∷ declaration_given (some other)
          ∷ [])
        0
        shown).1 in
    (s.status_dialog_open ≡ true)
    × (s.local_declaration ≡ some other)
    × (s.selected_status ≡ some approved)
unfolding run step handle_open_status_change valid_next_statuses status_transitions
disturbed = (refl, refl, refl)

-- twenty four minutes a day, two hours a week
abbrev filled : Declaration
filled = record declaration {
  shift_starts_at = some (oracle_text b'1' (txt "2") 8 0 (txt "0") false);
  shift_ends_at = some (oracle_text b'1' (txt "2") 8 24 (txt "0") false);
  job_functions =
      record daily { frequency = some (txt "Semanal"); duration_minutes = some 40 } ∷ [];
}

abbrev forty : RestTime
forty = record { rest_time_id = txt "r"; rest_type = coffee; duration_minutes = 40 }

abbrev leave : License
leave = record { license_time_id = txt "l"; license_type_name = none; duration_minutes = 40 }

filled_shift : weekly_shift_hours sample (some filled) ≡ nat 120
unfolding is_space
filled_shift =
    calc_weekly_shift_hours-oracle_text sample b'1' b'1' (txt "2") (txt "2") (txt "0") (txt "0") 8 0
      8 24 false false (refl, (refl, tt)) (refl, (refl, tt)) (refl, tt) (refl, tt) (omega arith)
      (omega arith) (omega arith) (omega arith) (omega arith) (omega arith)

abbrev two_hours : ℕ
two_hours = 120

is_hours_exceeded_within_example :
    ((is_hours_exceeded sample (some filled) (forty ∷ []) (leave ∷ []) ≡ true)
      × (0 < 120)
      × (52 * 120 * 10 < exact_units filled.job_functions (forty ∷ []) (leave ∷ []) * 10 + 468))
    ⊎ ((is_hours_exceeded sample (some filled) (forty ∷ []) (leave ∷ []) ≡ false)
        × ((two_hours ≡ 0)
            ⊎ (exact_units filled.job_functions (forty ∷ []) (leave ∷ []) * 10
                < 52 * 120 * 10 + 468)))
is_hours_exceeded_within_example =
    is_hours_exceeded_within sample (some filled) (forty ∷ []) (leave ∷ []) 120 filled_shift

-- forty minutes three times fill two hours and do not exceed them
filled_exact : exact_units filled.job_functions (forty ∷ []) (leave ∷ []) ≡ 52 * 120
unfolding multiplier to_lower lower_unit
filled_exact = refl

filled_is_marked : is_hours_exceeded sample (some filled) (forty ∷ []) (leave ∷ []) ≡ true
unfolding is_hours_exceeded total_declared_hours calc_total_declared_hours sum_durations_in_hours
    total_units_from total_minutes_from multiplier to_lower lower_unit
filled_is_marked = rw filled_shift refl

abbrev refused : ServiceError
refused = record { code = []; message = none }

abbrev placed : Declaration
placed = record declaration { job_position = some position }

-- the license list of the last run fails, and an answer to the run before comes in between
abbrev delayed : List Arrival
delayed =
    started 2
    ∷ extra_answered 2 (err refused)
    ∷ functions_answered 1 (ok [])
    ∷ functions_answered 2 (ok [])
    ∷ []

arrive_all-Marks_example : Marks true shown (arrive_all delayed shown)
unfolding effect
arrive_all-Marks_example =
    arrive_all-Marks true (some placed) false (ok []) (err refused) delayed shown refl

-- two hours and five minutes
long_duration : format_duration_hm 125 ≡ txt "2 h 5 min"
unfolding format_duration_hm hours_and_minutes nat_text
long_duration = refl
