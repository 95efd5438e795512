-- ===== src/Export/Tests.antt =====
-- A declaration with one function, one rest time and one license.
use sigecat_oraculos.Prelude.{ℕ, any, false, refl, ◌≡◌, [], ◌∷◌, ◌++◌, some, none, Text, txt}
use sigecat_oraculos.Js.Strings.{split_spaces, to_upper, trim, split_on, to_lower}
use sigecat_oraculos.Js.Numbers.{nat_text, pad2, parse_int}
use sigecat_oraculos.Time.Dates.{format_oracle_date, format_oracle_time}
use sigecat_oraculos.Time.Clock.{parse_oracle_to_time_input}
use sigecat_oraculos.RestTime.{rest_type_labels}
use sigecat_oraculos.Hours.{
  calc_total_declared_hours, sum_durations_in_hours, calc_weekly_shift_hours,
}
use sigecat_oraculos.Status.{revision, status_translations}
use sigecat_oraculos.Declarations.{Declaration, OfficialFunction, RestTime, License, coffee}
use sigecat_oraculos.Csv.{csv_row, csv_field, join}
use sigecat_oraculos.Csv.RoundTrip.{is_return}
use sigecat_oraculos.Csv.Reader.{read_csv, read_from}
use sigecat_oraculos.Export.{build_declaration_csv, function_label}
use sigecat_oraculos.Export.Rows.{declaration_rows}
use sigecat_oraculos.Export.Document.{read_csv-build_declaration_csv}
use sigecat_oraculos.Hours.Samples.{daily}
use sigecat_oraculos.Time.Samples.{sample}

abbrev quotient : ℕ → ℕ → Text
unfolding nat_text
quotient a b = nat_text a ++ txt "/" ++ nat_text b

abbrev declaration : Declaration
declaration = record {
  declaration_id = txt "d1";
  user_id = txt "u1";
  job_position_id = txt "p1";
  shift_starts_at = none;
  shift_ends_at = none;
  justification = some (txt "Comas, y \"comillas\"");
  current_status = some revision;
  created_at = txt "01-JUL-26 08.00.00 AM";
  job_position = none;
  job = none;
  status_history = [];
  job_functions = daily ∷ [];
}

abbrev rest : RestTime
rest = record { rest_time_id = txt "r1"; rest_type = coffee; duration_minutes = 15 }

abbrev license : License
license = record { license_time_id = txt "l1"; license_type_name = none; duration_minutes = 60 }

abbrev official_function : OfficialFunction
official_function = record {
  id = txt "of1";
  name = txt "Atender";
  description = none;
  job_id = txt "j1";
  is_deleted = 0;
}

read_csv-build_declaration_csv_example :
    read_csv (
      build_declaration_csv sample quotient declaration
        (rest ∷ [])
        (license ∷ [])
        (official_function ∷ []))
    ≡ declaration_rows sample quotient declaration
        (rest ∷ [])
        (license ∷ [])
        (official_function ∷ [])
unfolding status_translations format_oracle_date split_spaces to_upper trim split_on pad2 parse_int
    format_oracle_time calc_total_declared_hours to_lower sum_durations_in_hours
    calc_weekly_shift_hours parse_oracle_to_time_input function_label rest_type_labels
read_csv-build_declaration_csv_example =
    read_csv-build_declaration_csv sample quotient declaration (rest ∷ []) (license ∷ [])
      (official_function ∷ []) plain
  where
    plain :
        any (any (any is_return)) (
          declaration_rows sample quotient declaration
            (rest ∷ [])
            (license ∷ [])
            (official_function ∷ []))
        ≡ false
    plain = refl

-- a name that holds a carriage return is written as it stands, and breaks its row
returned_breaks :
    read_csv (csv_row ((b'a' ∷ 13 ∷ b'b' ∷ []) ∷ [])) ≡ ((b'a' ∷ []) ∷ []) ∷ ((b'b' ∷ []) ∷ []) ∷ []
unfolding read_csv csv_row csv_field read_from join
returned_breaks = refl
