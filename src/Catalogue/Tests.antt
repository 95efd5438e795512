-- ===== src/Catalogue/Tests.antt =====
-- The pages of the administration on small servers, client/src/app/pages/admin/.
use sigecat_oraculos.Prelude.{none, some, Text, List, [], ◌∷◌, txt, length, ◌≡◌, refl}
use sigecat_oraculos.Js.Strings.{trim, trim_start, trim_end}
use sigecat_oraculos.Js.Numbers.{is_digit, nat_text}
use sigecat_oraculos.Js.Fractions.{number}
use sigecat_oraculos.Catalogue.{State, start, load, is_valid, handle_delete, open_edit}
use sigecat_oraculos.Catalogue.Events.{
  Event, create_clicked, confirmed, delete_confirmed, delete_clicked, field_changed, page_chosen,
  run,
}
use sigecat_oraculos.Catalogue.Laws.{IsTidy, run-IsTidy}
use sigecat_oraculos.Catalogue.Errors.{AreCurrent, run-AreCurrent}
use sigecat_oraculos.Catalogue.Refinement.{IsSynced, run-IsSynced}
use sigecat_oraculos.Catalogue.Kinds.{kinds_lem}
use sigecat_oraculos.Catalogue.Writes.{Writes, run-Writes}
use sigecat_oraculos.Catalogue.LastPage.{delete-empties_page}
use sigecat_oraculos.Catalogue.Organization.{Area, AreaField, name, areas}
use sigecat_oraculos.Catalogue.Jobs.{
  JobField, name as job_name, description as job_description, code, job_class_id,
}
use sigecat_oraculos.Catalogue.Units.{OrgUnit}
use sigecat_oraculos.Catalogue.Functions.{
  TimedFunction, FunctionsState, functions, build_payload, handle_confirm,
}
use sigecat_oraculos.Catalogue.InUse.{IsResent, handle_confirm-IsResent}
use sigecat_oraculos.Catalogue.Samples.{
  function_server, in_use, area, area_server, area_server-Serves, eleven,
}

-- a name that is taken, then one that is not, then a deletion
abbrev day : List (Event Area AreaField)
day =
    create_clicked
    ∷ confirmed
    ∷ field_changed name (txt " a ")
    ∷ confirmed
    ∷ field_changed name (txt "z")
    ∷ confirmed
    ∷ page_chosen 2
    ∷ delete_clicked (area (txt "11") (txt "k"))
    ∷ delete_confirmed
    ∷ []

run-IsTidy_example : IsTidy ((run areas area_server day eleven (start areas)).1)
run-IsTidy_example = run-IsTidy areas area_server day eleven

run-AreCurrent_example : AreCurrent areas ((run areas area_server day eleven (start areas)).1)
run-AreCurrent_example = run-AreCurrent areas area_server ((kinds_lem.0).1) day eleven

run-IsSynced_example :
    IsSynced areas area_server area_server-Serves
      ((run areas area_server day eleven (load areas area_server eleven (start areas))).0)
      ((run areas area_server day eleven (load areas area_server eleven (start areas))).1)
run-IsSynced_example =
    run-IsSynced areas area_server area_server-Serves ((kinds_lem.0).0) day eleven

run-Writes_example :
    Writes areas area_server
      (λ a. a.name ≡ txt "k")
      eleven
      ((run areas area_server day eleven (start areas)).0)
run-Writes_example =
    run-Writes areas area_server (λ a. a.name ≡ txt "k") day eleven
      (tt, (tt, (tt, (tt, (tt, (tt, (tt, (refl, (tt, tt)))))))))

-- the second page, with the deletion of its one row asked for
abbrev at_last : State Area AreaField
unfolding run load areas
at_last =
    (run areas area_server (page_chosen 2 ∷ delete_clicked (area (txt "11") (txt "k")) ∷ []) eleven
      (load areas area_server eleven (start areas))).1

delete-empties_page_example :
    (length ((handle_delete areas area_server eleven at_last).1).rows ≡ 0)
    × (((handle_delete areas area_server eleven at_last).1).page ≡ 2)
unfolding at_last run load areas
delete-empties_page_example =
    delete-empties_page areas area_server area_server-Serves ((kinds_lem.0).0)
      (area (txt "11") (txt "k")) eleven _ at_last refl refl (refl, refl) refl refl

-- a job that is named in a form
abbrev job_sample : JobField → Text
job_sample job_name = txt "Chofer"
job_sample job_description = []
job_sample code = txt "120.0"
job_sample job_class_id = txt "c1"

abbrev unit_sample : OrgUnit
unit_sample = record {
  id = txt "u";
  section_id = none;
  department_id = some (txt "d");
  name = txt "Unidad";
  description = none;
}

abbrev fn_sample : TimedFunction
fn_sample = record {
  id = txt "f";
  name = txt "Atención";
  description = none;
  job_id = txt "j";
  expected_time = some 30;
}

-- the page while the form of the function is open
abbrev editing : FunctionsState
unfolding functions open_edit
editing = record { page = open_edit functions fn_sample (start functions); pending_update = none }

handle_confirm-IsResent_example :
    IsResent function_server fn_sample
      (build_payload editing.page.form)
      0
      editing.page.notices
      (handle_confirm function_server 0 editing)
unfolding editing functions open_edit is_valid trim trim_start trim_end nat_text number is_digit
handle_confirm-IsResent_example =
    handle_confirm-IsResent function_server fn_sample 0 0 in_use editing refl refl refl refl
