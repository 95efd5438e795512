-- ===== src/Completion.antt =====
-- The last step of a declaration, client/src/app/pages/AdditionalInformationPage.tsx: when a
-- justification is required, and `handleComplete`. Hours are hundredths of an hour and the weekly
-- shift is minutes, as in Hours; the floating-point sum of the source is taken as exact.
pub mod Laws
mod Tests
use sigecat_oraculos.Prelude.{
  ℕ, ◌+◌, ◌*◌, ltb, Bool, true, false, ◌&&◌, not, Option, none, some, List, [], ◌∷◌, ◌++◌, map,
  Text, txt, or_else, Result, ok, err, if◌then◌else◌,
}
use sigecat_oraculos.Js.Strings.{trim, is_empty}
use sigecat_oraculos.Js.Numbers.{Number, nan, nat, neg}
use sigecat_oraculos.Time.Host.{Host}
use sigecat_oraculos.Declarations.{Declaration, RestTime, License}
use sigecat_oraculos.Hours.{
  calc_total_declared_hours, calc_weekly_shift_hours, sum_durations_in_hours,
}

-- `totalReportedHours`
unfoldable pub total_reported_hours : Declaration → List License → List RestTime → ℕ
unfolding calc_total_declared_hours sum_durations_in_hours
total_reported_hours d licenses rests =
    calc_total_declared_hours d.job_functions
    + sum_durations_in_hours (map (λ l. l.duration_minutes) licenses)
    + sum_durations_in_hours (map (λ r. r.duration_minutes) rests)

-- hundredths of an hour against minutes; nothing exceeds NaN
abbrev pub exceeds_minutes : ℕ → Number → Bool
exceeds_minutes hundredths nan = false
exceeds_minutes hundredths (nat minutes) = ltb (minutes * 100) (hundredths * 60)
exceeds_minutes hundredths (neg minutes) = true

unfoldable pub is_required : Host → Declaration → List License → List RestTime → Bool
unfolding total_reported_hours calc_weekly_shift_hours
is_required host d licenses rests =
    exceeds_minutes (total_reported_hours d licenses rests)
      (calc_weekly_shift_hours host d.shift_starts_at d.shift_ends_at)

pub record Page : Type 0 where
  pub declaration_id : Option Text
  pub justification : Text
  pub justification_required : Bool
  pub validation_error : Option Text

-- what `loadData` leaves: a justification that is no more required is forgotten
unfoldable pub load_data : Host → Declaration → List License → List RestTime → Page → Page
unfolding is_required
load_data host d licenses rests page =
    if is_required host d licenses rests
    then record page { justification_required = true }
    else record page { justification_required = false; justification = []; validation_error = none }

-- the requests of the page, in order
pub data Call : Type 0 where
  update_justification : Text → Text → Call
  complete_declaration : Text → Call

pub data Notice : Type 0 where
  error success : Text → Notice

unfoldable pub is_valid : Page → Bool
unfolding trim
is_valid page = not (page.justification_required && is_empty (trim page.justification))

abbrev pub failure : Option Text → Notice
failure message = error (or_else message (txt "Error al completar la declaración."))

abbrev pub completed : Text → List Call → Result {0, 0} (Option Text) Unit → List Call × Notice
completed id calls (ok done) =
    (calls ++ complete_declaration id ∷ [], success (txt "Declaración completada exitosamente."))
completed id calls (err message) = (calls ++ complete_declaration id ∷ [], failure message)

module _ (send : Call → Result {0, 0} (Option Text) Unit) where
  abbrev pub justified : Text → Text → Result {0, 0} (Option Text) Unit → List Call × Notice
  justified id text (ok done) =
      completed id (update_justification id text ∷ []) (send (complete_declaration id))
  justified id text (err message) = (update_justification id text ∷ [], failure message)

  abbrev pub complete_for : Page → Option Text → List Call × Notice
  unfolding is_valid trim
  complete_for page none = ([], error (txt "No se encontró la declaración."))
  complete_for page (some id) =
      if is_empty id
      then ([], error (txt "No se encontró la declaración."))
      else if not (is_valid page)
      then ([], error (txt "Corrija los errores antes de continuar."))
      else if is_empty (trim page.justification)
      then completed id [] (send (complete_declaration id))
      else justified id (trim page.justification)
          (send (update_justification id (trim page.justification)))

  -- the requests that are sent, and what the snackbar shows
  unfoldable pub handle_complete : Page → List Call × Notice
  handle_complete page = complete_for page page.declaration_id
