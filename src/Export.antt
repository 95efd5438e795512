-- ===== src/Export.antt =====
-- The exported document of a declaration: `functionLabel`, `buildDeclarationCsv` and the file names
-- of client/src/utils/declarationExport.ts.
pub mod Rows
pub mod Document
mod Tests
use sigecat_oraculos.Prelude.{
  ℕ, ◌+◌, ltb, Bool, true, false, Option, none, some, List, [], ◌∷◌, ◌++◌, map, any, Text, txt,
  text_eq, or_else, if◌then◌else◌,
}
use sigecat_oraculos.Js.Strings.{is_empty}
use sigecat_oraculos.Js.Numbers.{Number, nan, nat, neg, nat_text}
use sigecat_oraculos.Status.{DeclarationStatus, status_translations}
use sigecat_oraculos.Declarations.{
  JobFunction, FunctionType, official, custom, OfficialFunction, JobPosition, Job, RestTime,
  License, StatusEntry, Declaration,
}
use sigecat_oraculos.RestTime.{rest_type_labels}
use sigecat_oraculos.Time.Host.{Host}
use sigecat_oraculos.Time.Dates.{format_oracle_date, format_oracle_time}
use sigecat_oraculos.Hours.{
  calc_total_declared_hours, sum_durations_in_hours, calc_weekly_shift_hours,
}
use sigecat_oraculos.Csv.{csv_row, csv_lines}

abbrev pub dash : Text
dash = txt "—"

-- `value || '—'`
abbrev pub or_dash : Option Text → Text
or_dash none = dash
or_dash (some []) = dash
or_dash (some (c ∷ s)) = c ∷ s

-- `f.id === id`, where the id may be null
abbrev pub is_id : Option Text → OfficialFunction → Bool
is_id none f = false
is_id (some id) f = text_eq f.id id

unfoldable pub function_label : JobFunction → List OfficialFunction → Text
function_label jf official_fns = elim jf.function_type [
  | none ↦ txt "Oficial"
  | some custom ↦ txt "Personalizada"
  | some official ↦
      if any (is_id jf.official_function_id) official_fns
      then txt "Propia del Cargo"
      else txt "De otro Cargo"
]

-- the cell of the job: `(code) name`, the name alone, or a dash
abbrev pub named_job : Option Text → Option Text → Text
named_job none name = or_else name dash
named_job (some []) name = or_else name dash
named_job (some (c ∷ s)) name = b'(' ∷ ((c ∷ s) ++ (b')' ∷ 32 ∷ or_else name []))

abbrev pub job_cell : Option Job → Text
job_cell none = dash
job_cell (some job) = named_job job.job_code job.name

abbrev pub number_cell : Option JobPosition → Text
number_cell none = dash
number_cell (some p) = p.job_position_number

abbrev pub shift_cell : Option JobPosition → Text
shift_cell none = dash
shift_cell (some p) = or_else p.job_shift dash

abbrev pub status_cell : Option DeclarationStatus → Text
status_cell none = dash
status_cell (some s) = or_dash (some (status_translations s))

abbrev pub overtime_cell : Option ℕ → Text
overtime_cell none = txt "No"
overtime_cell (some n) = if ltb 0 n then txt "Sí" else txt "No"

abbrev pub total_hours : Declaration → List RestTime → List License → ℕ
total_hours d rests licenses =
    calc_total_declared_hours d.job_functions
    + sum_durations_in_hours (map RestTime.duration_minutes rests)
    + sum_durations_in_hours (map License.duration_minutes licenses)

abbrev pub function_line : List OfficialFunction → JobFunction → Text
function_line official_fns jf = csv_row (
    or_dash jf.function_name
    ∷ function_label jf official_fns
    ∷ or_dash jf.function_description
    ∷ nat_text (or_else jf.duration_minutes 0)
    ∷ or_dash jf.frequency
    ∷ overtime_cell jf.overtime_minutes
    ∷ or_dash jf.justification
    ∷ [])

unfoldable pub function_lines : List OfficialFunction → List JobFunction → List Text
function_lines official_fns jfs =
    csv_row (txt "Funciones" ∷ [])
    ∷ csv_row (
        txt "Función"
        ∷ txt "Tipo"
        ∷ txt "Descripción"
        ∷ txt "Duración (min)"
        ∷ txt "Frecuencia"
        ∷ txt "Extras"
        ∷ txt "Justificación"
        ∷ [])
    ∷ (map (function_line official_fns) jfs ++ ([] ∷ []))

abbrev pub rest_line : RestTime → Text
rest_line rt = csv_row (rest_type_labels rt.rest_type ∷ nat_text rt.duration_minutes ∷ [])

unfoldable pub rest_lines : List RestTime → List Text
rest_lines [] = []
rest_lines (rt ∷ rts) =
    csv_row (txt "Descansos" ∷ [])
    ∷ csv_row (txt "Tipo" ∷ txt "Duración (min)" ∷ [])
    ∷ (map rest_line (rt ∷ rts) ++ ([] ∷ []))

abbrev pub license_line : License → Text
license_line l = csv_row (or_dash l.license_type_name ∷ nat_text l.duration_minutes ∷ [])

unfoldable pub license_lines : List License → List Text
license_lines [] = []
license_lines (l ∷ ls) =
    csv_row (txt "Licencias" ∷ [])
    ∷ csv_row (txt "Tipo" ∷ txt "Duración (min)" ∷ [])
    ∷ (map license_line (l ∷ ls) ++ ([] ∷ []))

-- How JavaScript prints a quotient `a / b` of hours: the digits of a double are the host's.
module _ (host : Host) (quotient_text : ℕ → ℕ → Text) where
  abbrev pub shift_hours_cell : Number → Text
  shift_hours_cell (nat minutes) = if ltb 0 minutes then quotient_text minutes 60 else dash
  shift_hours_cell _ = dash

  unfoldable pub summary_lines : Declaration → List RestTime → List License → List Text
  summary_lines d rests licenses =
      csv_row (txt "Puesto" ∷ job_cell d.job ∷ [])
      ∷ csv_row (txt "Número de Plaza" ∷ number_cell d.job_position ∷ [])
      ∷ csv_row (txt "Jornada" ∷ shift_cell d.job_position ∷ [])
      ∷ csv_row (txt "Estado" ∷ status_cell d.current_status ∷ [])
      ∷ csv_row (txt "Fecha de creación" ∷ format_oracle_date host (some d.created_at) true ∷ [])
      ∷ csv_row (
          txt "Horario del turno"
          ∷ (format_oracle_time host d.shift_starts_at
              ++ (txt " - " ++ format_oracle_time host d.shift_ends_at))
          ∷ [])
      ∷ csv_row (txt "Justificación" ∷ or_else d.justification dash ∷ [])
      ∷ csv_row (txt "Horas declaradas" ∷ quotient_text (total_hours d rests licenses) 100 ∷ [])
      ∷ csv_row (
          txt "Horas de jornada semanal"
          ∷ shift_hours_cell (calc_weekly_shift_hours host d.shift_starts_at d.shift_ends_at)
          ∷ [])
      ∷ []
      ∷ []

  abbrev pub history_line : StatusEntry → Text
  history_line e =
      csv_row
        (status_translations e.status_value ∷ format_oracle_date host (some e.created_at) true ∷ [])

  unfoldable pub history_lines : List StatusEntry → List Text
  history_lines [] = []
  history_lines (e ∷ es) =
      csv_row (txt "Historial de Estados" ∷ [])
      ∷ csv_row (txt "Estado" ∷ txt "Fecha" ∷ [])
      ∷ map history_line (e ∷ es)

  unfoldable pub build_declaration_csv :
      Declaration → List RestTime → List License → List OfficialFunction → Text
  unfolding summary_lines function_lines rest_lines license_lines history_lines
  build_declaration_csv d rests licenses official_fns = csv_lines (
      summary_lines d rests licenses
      ++ (function_lines official_fns d.job_functions
          ++ (rest_lines rests ++ (license_lines licenses ++ history_lines d.status_history))))

abbrev pub plaza_of : Option JobPosition → Text
plaza_of none = txt "export"
plaza_of (some p) = if is_empty p.job_position_number then txt "export" else p.job_position_number

unfoldable pub declaration_csv_filename : Declaration → Text
declaration_csv_filename d = txt "declaracion_plaza#" ++ (plaza_of d.job_position ++ txt ".csv")

unfoldable pub declaration_pdf_filename : Declaration → Text
declaration_pdf_filename d = txt "declaracion_plaza#" ++ (plaza_of d.job_position ++ txt ".pdf")
