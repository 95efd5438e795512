-- ===== src/Licenses.antt =====
-- The licenses of a declaration, client/src/features/employee/DeclarationLicenses.tsx. The calls of
-- licenseService, employeeLicenseService and declarationService are parameters.
pub mod Laws
mod Tests
use sigecat_oraculos.Prelude.{
  ℕ, Bool, true, false, not, ◌&&◌, Option, none, some, is_some, List, [], ◌∷◌, ◌++◌, map, filter,
  find, Text, txt, text_eq, or_else, if◌then◌else◌, Result, ok, err, ◌>>=◌,
}
use sigecat_oraculos.Js.Strings.{is_empty}
use sigecat_oraculos.Js.Numbers.{Number, nat, below}
use sigecat_oraculos.RestTime.Opening.{Incomplete, opened_id}
use sigecat_oraculos.Reports.Minutes.{Entry, entered_minutes}
use sigecat_oraculos.Positions.{required}
use sigecat_oraculos.Services.{ServiceError}
use sigecat_oraculos.Catalogue.{Notice, success, error, shown}

pub record LicenseOption : Type 0 where
  pub id : Text
  pub name : Text

-- what the API answers for a license
pub record LicenseResponse : Type 0 where
  pub license_time_id : Text
  pub license_type_id : Text
  pub license_type_name : Option Text
  pub duration_minutes : ℕ

pub record LicensePayload : Type 0 where
  pub declaration_id : Text
  pub license_type_id : Text
  pub duration_minutes : Number

pub record DeclaredLicense : Type 0 where
  pub id : Text
  pub type_id : Text
  pub type_name : Text
  pub total_minutes : Number

pub record LicensesState : Type 0 where
  pub loading : Bool
  pub declaration_id : Option Text
  pub types : List LicenseOption
  pub licenses : List DeclaredLicense
  pub type_id : Text
  pub duration_hours : Entry
  pub duration_minutes : Entry
  pub type_error : Option Text
  pub time_error : Option Text
  pub is_submitting : Bool
  pub notices : List Notice

pub record Api (S : Type 0) : Type 0 where
  pub check_incomplete : S → Result {0, 0} ServiceError Incomplete
  pub get_declaration : Text → S → Result {0, 0} ServiceError Unit
  pub get_types : S → Result {0, 0} ServiceError (List LicenseOption)
  pub licenses_of : Text → S → Result {0, 0} ServiceError (List LicenseResponse)
  pub create : LicensePayload → S → S × Result {0, 0} ServiceError LicenseResponse
  pub delete : Text → S → S × Result {0, 0} ServiceError Unit

abbrev pub declared : LicenseResponse → DeclaredLicense
declared l = record {
  id = l.license_time_id;
  type_id = l.license_type_id;
  type_name = or_else l.license_type_name l.license_type_id;
  total_minutes = nat l.duration_minutes;
}

abbrev pub failed : Text → ServiceError → LicensesState → LicensesState
failed default e s = record s { notices = shown default e ∷ s.notices }

abbrev pub read_licenses :
    Text
    → Result {0, 0} ServiceError (List LicenseOption × List LicenseResponse)
    → LicensesState
    → LicensesState
read_licenses id (ok (types, existing)) s = record s {
  declaration_id = some id;
  types = types;
  licenses = map declared existing;
}
read_licenses id (err e) s = failed (txt "Error al cargar las licencias.") e s

unfoldable pub total_input_minutes : LicensesState → Number
unfolding entered_minutes
total_input_minutes s = entered_minutes s.duration_hours s.duration_minutes

abbrev pub type_error : LicensesState → Option Text
type_error s = required (txt "Seleccione el tipo de permiso/licencia.") s.type_id

abbrev pub time_error : LicensesState → Option Text
time_error s =
    if below (total_input_minutes s) 1
    then some (txt "Debe indicar una duración mayor a 0.")
    else none

unfoldable pub checked : LicensesState → LicensesState
checked s = record s { type_error = type_error s; time_error = time_error s }

unfoldable pub validate : LicensesState → Bool
validate s = not (is_some (type_error s)) && not (is_some (time_error s))

abbrev pub name_of_option : Option LicenseOption → Text → Text
name_of_option none id = id
name_of_option (some type) id = type.name

-- `created.license_type_name ?? type?.name ?? typeId`
abbrev pub name_of_type : List LicenseOption → Text → Option Text → Text
name_of_type types id (some name) = name
name_of_type types id none = name_of_option (find (λ t. text_eq t.id id) types) id

-- the answer to a creation; the type and the minutes listed are those of the form
unfoldable pub added :
    {S : Type 0}
    → Number
    → S × Result {0, 0} ServiceError LicenseResponse
    → LicensesState
    → S × LicensesState
added total (store, ok created) s = (
  store,
  record s {
    licenses =
        s.licenses
        ++ (record {
          id = created.license_time_id;
          type_id = s.type_id;
          type_name = name_of_type s.types s.type_id created.license_type_name;
          total_minutes = total;
        }
            ∷ []);
    type_id = [];
    duration_hours = none;
    duration_minutes = none;
    type_error = none;
    time_error = none;
    is_submitting = false;
    notices = success (txt "Permiso/licencia registrado correctamente.") ∷ s.notices;
  },
)
added total (store, err e) s =
    (store, failed (txt "Error del servidor.") e (record s { is_submitting = false }))

unfoldable pub removed :
    {S : Type 0} → Text → S × Result {0, 0} ServiceError Unit → LicensesState → S × LicensesState
removed id (store, ok accepted) s = (
  store,
  record s {
    licenses = filter (λ l. not (text_eq l.id id)) s.licenses;
    notices = success (txt "Permiso/licencia eliminado.") ∷ s.notices;
  },
)
removed id (store, err e) s = (store, failed (txt "No se pudo eliminar la licencia.") e s)

module _ {S : Type 0} (api : Api S) where
  abbrev pub open_id : Result {0, 0} ServiceError (Option Text) → S → LicensesState → LicensesState
  open_id (ok none) store s = s
  open_id (ok (some id)) store s =
      read_licenses id
        (do
          found ← api.get_declaration id store
          types ← api.get_types store
          existing ← api.licenses_of id store
          ok (types, existing))
        s
  open_id (err e) store s = failed (txt "Error al cargar las licencias.") e s

  unfoldable pub load : Option Text → S → LicensesState → LicensesState
  unfolding opened_id
  load state_id store s =
      record (open_id (opened_id state_id (api.check_incomplete store)) store s) { loading = false }

  -- the guard `!validate() || !declarationId`
  unfoldable pub add_checked : Bool → Option Text → Number → S → LicensesState → S × LicensesState
  unfolding added
  add_checked true (some id) total store s =
      added total
        (api.create
          (record { declaration_id = id; license_type_id = s.type_id; duration_minutes = total })
          store)
        s
  add_checked true none total store s = (store, s)
  add_checked false id total store s = (store, s)

  unfoldable pub handle_add : S → LicensesState → S × LicensesState
  unfolding checked validate total_input_minutes add_checked
  handle_add store s =
      add_checked (validate s) s.declaration_id (total_input_minutes s) store (checked s)

  unfoldable pub remove : Text → S → LicensesState → S × LicensesState
  unfolding removed
  remove id store s = removed id (api.delete id store) s
