-- ===== src/Export/Rows.antt =====
-- The exported document as the table that it stands for.
use sigecat_oraculos.Prelude.{ℕ, some, List, [], ◌∷◌, ◌++◌, map, Text, txt, or_else, true}
use sigecat_oraculos.Js.Numbers.{nat_text}
use sigecat_oraculos.Status.{status_translations}
use sigecat_oraculos.Declarations.{
  JobFunction, OfficialFunction, RestTime, License, StatusEntry, Declaration,
}
use sigecat_oraculos.RestTime.{rest_type_labels}
use sigecat_oraculos.Time.Host.{Host}
use sigecat_oraculos.Time.Dates.{format_oracle_date, format_oracle_time}
use sigecat_oraculos.Hours.{calc_weekly_shift_hours}
use sigecat_oraculos.Export

-- a row with one empty cell: the reader's view of an empty line
abbrev pub blank : List (List Text)
blank = ([] ∷ []) ∷ []

-- a titled table
abbrev pub table : Text → List Text → List (List Text) → List (List Text)
table title heads rows = (title ∷ []) ∷ heads ∷ rows

-- a part of the document that is left out where it has no rows
abbrev pub optional : Text → List Text → List (List Text) → List (List Text) → List (List Text)
optional title heads [] after = []
optional title heads (row ∷ rows) after = table title heads (row ∷ rows) ++ after

abbrev pub function_row : List OfficialFunction → JobFunction → List Text
function_row fns jf =
    Export.or_dash jf.function_name
    ∷ Export.function_label jf fns
    ∷ Export.or_dash jf.function_description
    ∷ nat_text (or_else jf.duration_minutes 0)
    ∷ Export.or_dash jf.frequency
    ∷ Export.overtime_cell jf.overtime_minutes
    ∷ Export.or_dash jf.justification
    ∷ []

abbrev pub rest_row : RestTime → List Text
rest_row rt = rest_type_labels rt.rest_type ∷ nat_text rt.duration_minutes ∷ []

abbrev pub license_row : License → List Text
license_row l = Export.or_dash l.license_type_name ∷ nat_text l.duration_minutes ∷ []

abbrev pub function_rows : List OfficialFunction → List JobFunction → List (List Text)
function_rows fns jfs =
    table (txt "Funciones")
      (txt "Función"
        ∷ txt "Tipo"
        ∷ txt "Descripción"
        ∷ txt "Duración (min)"
        ∷ txt "Frecuencia"
        ∷ txt "Extras"
        ∷ txt "Justificación"
        ∷ [])
      (map (function_row fns) jfs ++ blank)

abbrev pub duration_heads : List Text
duration_heads = txt "Tipo" ∷ txt "Duración (min)" ∷ []

abbrev pub rest_rows : List RestTime → List (List Text)
rest_rows rests = optional (txt "Descansos") duration_heads (map rest_row rests) blank

abbrev pub license_rows : List License → List (List Text)
license_rows licenses = optional (txt "Licencias") duration_heads (map license_row licenses) blank

module _ (host : Host) (quotient_text : ℕ → ℕ → Text) where
  abbrev pub summary_rows : Declaration → List RestTime → List License → List (List Text)
  summary_rows d rests licenses =
      (txt "Puesto" ∷ Export.job_cell d.job ∷ [])
      ∷ (txt "Número de Plaza" ∷ Export.number_cell d.job_position ∷ [])
      ∷ (txt "Jornada" ∷ Export.shift_cell d.job_position ∷ [])
      ∷ (txt "Estado" ∷ Export.status_cell d.current_status ∷ [])
      ∷ (txt "Fecha de creación" ∷ format_oracle_date host (some d.created_at) true ∷ [])
      ∷ (txt "Horario del turno"
          ∷ (format_oracle_time host d.shift_starts_at
              ++ (txt " - " ++ format_oracle_time host d.shift_ends_at))
          ∷ [])
      ∷ (txt "Justificación" ∷ or_else d.justification Export.dash ∷ [])
      ∷ (txt "Horas declaradas" ∷ quotient_text (Export.total_hours d rests licenses) 100 ∷ [])
      ∷ (txt "Horas de jornada semanal"
          ∷ Export.shift_hours_cell host quotient_text
              (calc_weekly_shift_hours host d.shift_starts_at d.shift_ends_at)
          ∷ [])
      ∷ blank

  abbrev pub history_row : StatusEntry → List Text
  history_row e =
      status_translations e.status_value ∷ format_oracle_date host (some e.created_at) true ∷ []

  abbrev pub history_rows : List StatusEntry → List (List Text)
  history_rows es =
      optional (txt "Historial de Estados") (txt "Estado" ∷ txt "Fecha" ∷ []) (map history_row es)
        []

  abbrev pub declaration_rows :
      Declaration → List RestTime → List License → List OfficialFunction → List (List Text)
  declaration_rows d rests licenses fns =
      summary_rows d rests licenses
      ++ (function_rows fns d.job_functions
          ++ (rest_rows rests ++ (license_rows licenses ++ history_rows d.status_history)))
