-- ===== src/Shift/Samples.antt =====
-- A job position, for tests.
use sigecat_oraculos.Prelude.{none, some, txt}
use sigecat_oraculos.Declarations.{JobPosition}

abbrev pub position : JobPosition
position = record {
  job_position_id = txt "p1";
  job_position_number = txt "100";
  description = none;
  job_id = txt "j1";
  area_id = none;
  department_id = none;
  section_id = none;
  unit_id = some (txt "un1");
  user_id = some (txt "u1");
  job_shift = some (txt "Nocturna");
}
