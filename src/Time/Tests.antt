-- ===== src/Time/Tests.antt =====
-- Timestamps that the API sends, and each theorem at an input that meets its conditions.
use mathlib.Core.Path.{◌≡◌}
use sigecat_oraculos.Prelude.{refl, true, false, some, none, txt, arith}
use sigecat_oraculos.Js.Strings.{is_space, split_spaces, to_upper, trim, split_on}
use sigecat_oraculos.Js.Numbers.{nat, pad2, parse_int}
use sigecat_oraculos.Time.Samples.{sample}
use sigecat_oraculos.Time.Clock.{clock_text, parse_oracle_to_time_input}
use sigecat_oraculos.Time.Dates.{months, date_at, parse_oracle_date, format_oracle_date}
use sigecat_oraculos.Time.ClockLaws.{
  hour_of_day, oracle_text, parse_oracle_to_time_input-oracle_text,
}
use sigecat_oraculos.Time.DateLaws.{format_oracle_date-parse_oracle_date}

reads_afternoon :
    parse_oracle_to_time_input sample (some (txt "12-jul-26 02.30.00.000000 pm")) ≡ txt "14:30"
unfolding parse_oracle_to_time_input split_spaces to_upper trim split_on parse_int pad2
reads_afternoon = refl

reads_midnight : parse_oracle_to_time_input sample (some (txt " 01-ENE-26 12:05 AM")) ≡ txt "00:05"
unfolding parse_oracle_to_time_input split_spaces to_upper trim split_on parse_int pad2
reads_midnight = refl

parse_oracle_to_time_input-oracle_text_example :
    parse_oracle_to_time_input sample
      (some (oracle_text b'0' (txt "1-JUL-26") 8 30 (txt "00.000000") true))
    ≡ clock_text (nat (hour_of_day 8 true)) (nat 30)
unfolding is_space
parse_oracle_to_time_input-oracle_text_example =
    parse_oracle_to_time_input-oracle_text sample b'0' (txt "1-JUL-26") (txt "00.000000") 8 30 true
      (refl, (refl, (refl, (refl, (refl, (refl, (refl, (refl, (refl, tt)))))))))
      (refl, (refl, (refl, (refl, (refl, (refl, (refl, (refl, (refl, tt))))))))) (omega arith)
      (omega arith) (omega arith)

format_oracle_date-parse_oracle_date_example :
    format_oracle_date sample (some (txt "01-JUL-26 02.30.00 PM")) true ≡ txt "14:30"
unfolding parse_oracle_date split_spaces to_upper trim split_on parse_int pad2
format_oracle_date-parse_oracle_date_example =
    format_oracle_date-parse_oracle_date sample b'0' (txt "1-JUL-26 02.30.00 PM") true
      {d = (14, 30)} refl (omega arith) refl

-- SET, a Spanish September that the table does not know, is shown as January
set_is_rejected : parse_oracle_date sample (some (txt "15-SET-26 02.30.00 PM")) ≡ none
unfolding parse_oracle_date split_spaces to_upper trim split_on parse_int months date_at pad2
set_is_rejected = refl

set_is_shown : format_oracle_date sample (some (txt "15-SET-26 02.30.00 PM")) false ≡ txt "fecha"
unfolding format_oracle_date split_spaces to_upper trim split_on parse_int months date_at pad2
set_is_shown = refl
