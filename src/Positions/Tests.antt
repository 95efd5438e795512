-- ===== src/Positions/Tests.antt =====
-- A form that is complete.
use sigecat_oraculos.Prelude.{◌≡◌, refl, true, some, txt}
use sigecat_oraculos.Positions.{Form, unit, validate_form, only_digits}
use sigecat_oraculos.Js.Strings.{trim, trim_start, trim_end}

abbrev form : Form
form = record {
  job_position_number = txt " 100 ";
  description = txt "Plaza";
  job_id = txt "j1";
  user_id = txt "u1";
  job_shift = txt "Diurna";
  parent_type = some unit;
  parent_id = txt "un1";
}

form_is_sent : validate_form form ≡ true
unfolding validate_form trim trim_start trim_end only_digits
form_is_sent = refl
