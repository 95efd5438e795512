-- ===== src/Licenses/Tests.antt =====
-- A license added and removed, on a server that counts its requests.
use sigecat_oraculos.Prelude.{ℕ, ◌+◌, true, false, none, some, [], ◌∷◌, txt, refl, ok}
use sigecat_oraculos.Js.Numbers.{nat}
use sigecat_oraculos.Reports.Minutes.{entered_minutes}
use sigecat_oraculos.Js.Numbers.{add, times}
use sigecat_oraculos.Licenses.{
  Api, LicensesState, LicenseResponse, handle_add, validate, total_input_minutes,
}
use sigecat_oraculos.Licenses.Laws.{IsUndone, handle_add-IsUndone}

abbrev answered : LicenseResponse
answered = record {
  license_time_id = txt "l2";
  license_type_id = txt "t";
  license_type_name = none;
  duration_minutes = 90;
}

abbrev server : Api ℕ
server = record {
  check_incomplete = λ n. ok (record { has_incomplete = true; declaration_id = some (txt "d") });
  get_declaration = λ id n. ok tt;
  get_types = λ n. ok [];
  licenses_of = λ id n. ok [];
  create = λ payload n. (n + 1, ok answered);
  delete = λ id n. (n + 1, ok tt);
}

abbrev filled_form : LicensesState
filled_form = record {
  loading = false;
  declaration_id = some (txt "d");
  types = record { id = txt "t"; name = txt "Lactancia" } ∷ [];
  licenses =
      record {
        id = txt "l1";
        type_id = txt "t";
        type_name = txt "Lactancia";
        total_minutes = nat 60;
      }
      ∷ [];
  type_id = txt "t";
  duration_hours = some (nat 1);
  duration_minutes = some (nat 30);
  type_error = none;
  time_error = none;
  is_submitting = false;
  notices = [];
}

handle_add-IsUndone_example :
    IsUndone server filled_form answered 2 (handle_add server 0 filled_form)
unfolding validate total_input_minutes entered_minutes add times
handle_add-IsUndone_example =
    handle_add-IsUndone server (txt "d") answered 0 1 2 filled_form refl refl refl (refl, tt) refl
