-- ===== src/Catalogue/Functions.antt =====
-- FunctionsPage.tsx, client/src/app/pages/admin/: the kind of the official functions, and the update
-- of a function that declarations use, which the administrator has to confirm.
use sigecat_oraculos.Prelude.{
  ℕ, Bool, true, false, ◌||◌, Option, none, some, [], ◌∷◌, Text, txt, text_eq, or_else,
  if◌then◌else◌, Result, ok, err,
}
use sigecat_oraculos.Js.Strings.{trim, is_empty}
use sigecat_oraculos.Js.Numbers.{nat_text}
use sigecat_oraculos.Js.Fractions.{Decimal, number, is_nan, is_negative}
use sigecat_oraculos.Positions.{or_undefined, required}
use sigecat_oraculos.Services.{ServiceError, Service}
use sigecat_oraculos.Catalogue.{
  Kind, State, close_modal, clear_delete, reload, announce, success, is_valid, load, notify, close,
  shown, perform_all, done,
}
use sigecat_oraculos.Catalogue.Jobs.{name_error, long_description_error}

pub record TimedFunction : Type 0 where
  pub id : Text
  pub name : Text
  pub description : Option Text
  pub job_id : Text
  pub expected_time : Option ℕ

pub data FunctionField : Type 0 where
  name description job_id expected_time : FunctionField

abbrev pub function_field_name : FunctionField → Text
function_field_name name = txt "name"
function_field_name description = txt "description"
function_field_name job_id = txt "job_id"
function_field_name expected_time = txt "expected_time"

-- a field that is `none` is not in the request; `confirm` is, where it is true
pub record FunctionPayload : Type 0 where
  pub name : Text
  pub description : Option Text
  pub job_id : Text
  pub expected_time : Option Decimal
  pub confirm : Bool

abbrev pub time_text : Option ℕ → Text
time_text none = []
time_text (some n) = nat_text n

abbrev pub form_from_function : TimedFunction → FunctionField → Text
form_from_function fn name = fn.name
form_from_function fn description = or_else fn.description []
form_from_function fn job_id = fn.job_id
form_from_function fn expected_time = time_text fn.expected_time

abbrev pub time_error : Text → Option Text
time_error text =
    if is_empty (trim text)
    then none
    else if is_nan (number text) || is_negative (number text)
    then some (txt "El tiempo esperado debe ser un número mayor o igual a 0.")
    else none

abbrev pub function_errors : (FunctionField → Text) → FunctionField → Option Text
function_errors form name = name_error (txt "El nombre de la función es obligatorio.") (form name)
function_errors form description = long_description_error (form description)
function_errors form job_id =
    required (txt "El tipo de puesto es obligatorio.") (trim (form job_id))
function_errors form expected_time = time_error (form expected_time)

unfoldable pub build_payload : (FunctionField → Text) → FunctionPayload
unfolding trim number
build_payload form = record {
  name = form name;
  description = or_undefined (form description);
  job_id = form job_id;
  expected_time =
      if is_empty (trim (form expected_time)) then none else some (number (form expected_time));
  confirm = false;
}

unfoldable pub functions : Kind TimedFunction FunctionField FunctionPayload
unfolding build_payload
functions = record {
  same = λ f g. text_eq (function_field_name f) (function_field_name g);
  fields = name ∷ description ∷ job_id ∷ expected_time ∷ [];
  id_of = λ fn. fn.id;
  empty_form = λ field. [];
  form_of = form_from_function;
  errors_of = function_errors;
  create_payload = build_payload;
  update_payload = build_payload;
  status = some (txt "active");
  skips_same_filter = true;
  load_failed = txt "Error del servidor al cargar funciones.";
  save_failed = txt "Error al procesar la solicitud.";
  delete_failed = txt "Error al intentar eliminar la función.";
  created = announce (success (txt "Función creada exitosamente.")) ∷ close_modal ∷ reload ∷ [];
  updated =
      announce (success (txt "Función actualizada exitosamente.")) ∷ close_modal ∷ reload ∷ [];
  deleted = clear_delete ∷ announce (success (txt "Función eliminada exitosamente.")) ∷ reload ∷ [];
  not_deleted = clear_delete ∷ [];
}

pub record Pending : Type 0 where
  pub id : Text
  pub payload : FunctionPayload
  pub message : Option Text

-- the state of the page: what every catalogue keeps, and the update that waits for the administrator
pub record FunctionsState : Type 0 where
  pub page : State TimedFunction FunctionField
  pub pending_update : Option Pending

abbrev pub function_in_use : Text
function_in_use = txt "OFFICIAL_FUNCTION_IN_USE"

module _ {S : Type 0} (service : Service S TimedFunction FunctionPayload) where
  unfoldable pub update_failed : TimedFunction → ServiceError → FunctionsState → FunctionsState
  unfolding functions build_payload
  update_failed target e s =
      if text_eq e.code function_in_use
      then record {
        page = done (close s.page);
        pending_update =
            some
              (record { id = target.id; payload = build_payload s.page.form; message = e.message });
      }
      else record s { page = done (notify (shown functions.save_failed e) s.page) }

  unfoldable pub updated :
      TimedFunction → S × Result {0, 0} ServiceError Unit → FunctionsState → S × FunctionsState
  unfolding functions perform_all update_failed
  updated target (store, ok accepted) s = (
    store,
    record s { page = done (perform_all functions service functions.updated store s.page) },
  )
  updated target (store, err e) s = (store, update_failed target e s)

  unfoldable pub created : S × Result {0, 0} ServiceError Unit → FunctionsState → S × FunctionsState
  unfolding functions perform_all
  created (store, ok accepted) s = (
    store,
    record s { page = done (perform_all functions service functions.created store s.page) },
  )
  created (store, err e) s =
      (store, record s { page = done (notify (shown functions.save_failed e) s.page) })

  unfoldable pub save :
      Option TimedFunction → (FunctionField → Text) → S → FunctionsState → S × FunctionsState
  unfolding build_payload created updated
  save none form store s = created (service.create (build_payload form) store) s
  save (some target) form store s =
      updated target (service.update target.id (build_payload form) store) s

  unfoldable pub handle_confirm : S → FunctionsState → S × FunctionsState
  unfolding is_valid functions save
  handle_confirm store s =
      if is_valid functions s.page.form
      then save s.page.edit_target s.page.form store (record s {
        page = record s.page {
          form_errors = functions.errors_of s.page.form;
          is_submitting = true;
        };
      })
      else (
        store,
        record s { page = record s.page { form_errors = functions.errors_of s.page.form } },
      )

  unfoldable pub confirmed :
      S × Result {0, 0} ServiceError Unit → FunctionsState → S × FunctionsState
  unfolding functions load
  confirmed (store, ok accepted) s = (
    store,
    record {
      page = done (
          load functions service store
            (notify (success (txt "Función actualizada exitosamente.")) s.page));
      pending_update = none;
    },
  )
  confirmed (store, err e) s = (
    store,
    record {
      page = done (notify (shown (txt "Error al actualizar la función.") e) s.page);
      pending_update = none;
    },
  )

  unfoldable pub resend : Option Pending → S → FunctionsState → S × FunctionsState
  unfolding confirmed
  resend none store s = (store, s)
  resend (some update) store s =
      confirmed (service.update update.id (record update.payload { confirm = true }) store)
        (record s { page = record s.page { is_submitting = true } })

  unfoldable pub confirm_pending_update : S → FunctionsState → S × FunctionsState
  unfolding resend
  confirm_pending_update store s = resend s.pending_update store s
