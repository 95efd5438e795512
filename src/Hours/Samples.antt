-- ===== src/Hours/Samples.antt =====
-- A function of a declaration, for tests.
use sigecat_oraculos.Prelude.{some, none, txt}
use sigecat_oraculos.Declarations.{JobFunction}

abbrev pub daily : JobFunction
daily = record {
  job_function_id = txt "jf1";
  official_function_id = some (txt "of1");
  custom_function_id = none;
  overtime_minutes = none;
  justification = none;
  frequency = some (txt "Diario");
  duration_minutes = some 45;
  function_name = some (txt "Atender");
  function_description = none;
  function_type = none;
}
