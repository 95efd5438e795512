-- ===== src/Reports.antt =====
-- The report form of the functions of a declaration, client/src/app/pages/DeclarationFunctions.tsx:
-- the state of the page, loading and opening reports. The calls of the API are a parameter; a handler
-- with its awaited call is one step, as the form is modal.
pub mod Minutes
pub mod Handlers
pub mod Records
pub mod Laws
pub mod RoundTrip
mod Tests
use sigecat_oraculos.Prelude.{
  ℕ, ◌+◌, ◌*◌, Bool, true, false, ◌&&◌, not, Option, none, some, List, [], ◌∷◌, ◌++◌, Text, txt,
  text_eq, filter, map, is_some, or_else, Result, ok, err, if◌then◌else◌,
}
use sigecat_oraculos.Js.Strings.{trim, is_empty}
use sigecat_oraculos.Js.Numbers.{Number, nan, nat, neg}
use sigecat_oraculos.Declarations.{FunctionType, official, custom, JobFunction, OfficialFunction}
use sigecat_oraculos.Reports.Minutes.{
  Entry, whole_hours, odd_minutes, or_blank, entered_minutes, is_positive,
}

pub record CatalogItem : Type 0 where
  pub id : Text
  pub name : Text
  pub description : Option Text
  pub kind : FunctionType

pub record Report : Type 0 where
  pub job_function_id : Text
  pub frequency : Text
  pub duration_minutes : Number
  pub overtime_minutes : Number
  pub justification : Text

-- `Record<string, Report>`: a key is set in its place, or at the end
abbrev pub Reports : Type 0
Reports = List (Text × Report)

unfoldable pub report_of : Text → Reports → Option Report
report_of id [] = none
report_of id ((k, r) ∷ rest) =
    let found = report_of id rest in if text_eq k id then some r else found

unfoldable pub set_report : Text → Report → Reports → Reports
set_report id new [] = (id, new) ∷ []
set_report id new ((k, r) ∷ rest) =
    let later = set_report id new rest in if text_eq k id then (k, new) ∷ rest else (k, r) ∷ later

-- `delete next[id]`
unfoldable pub delete_report : Text → Reports → Reports
delete_report id reports = filter (λ entry. not (text_eq entry.0 id)) reports

-- `official_function_id ?? custom_function_id`, when it is a text with something in it
abbrev pub unless_empty : Option Text → Option Text
unless_empty none = none
unless_empty (some id) = if is_empty id then none else some id

abbrev pub function_id : Option Text → Option Text → Option Text
function_id (some id) other = some id
function_id none other = other

abbrev pub key_of : JobFunction → Option Text
key_of jf = unless_empty (function_id jf.official_function_id jf.custom_function_id)

abbrev pub loaded_report : JobFunction → Report
loaded_report jf = record {
  job_function_id = jf.job_function_id;
  frequency = or_else jf.frequency (txt "Semanal");
  duration_minutes = nat (or_else jf.duration_minutes 0);
  overtime_minutes = nat (or_else jf.overtime_minutes 0);
  justification = or_else jf.justification [];
}

-- the loop that fills `map` when a declaration is loaded
unfoldable pub load_reports : Reports → List JobFunction → Reports
unfolding set_report
load_reports reports [] = reports
load_reports reports (jf ∷ rest) = elim (key_of jf) [
  | none ↦ load_reports reports rest
  | some key ↦ load_reports (set_report key (loaded_report jf) reports) rest
]

-- what the snackbar shows
pub data Notice : Type 0 where
  error success : Text → Notice

pub record Page : Type 0 where
  pub declaration_id : Option Text
  pub reports : Reports
  pub report_item : Option CatalogItem
  pub frequency : Text
  pub hours : Entry
  pub minutes : Entry
  pub ot_hours : Entry
  pub ot_minutes : Entry
  pub justification : Text
  pub is_submitting : Bool
  pub notices : List Notice

pub record CreatePayload : Type 0 where
  pub declaration_id : Text
  pub official_function_id : Option Text
  pub custom_function_id : Option Text
  pub frequency : Text
  pub duration_minutes : Number
  pub overtime_minutes : Option Number
  pub justification : Option Text

-- `none` is a field that the request does not have
pub record UpdatePayload : Type 0 where
  pub frequency : Option Text
  pub duration_minutes : Option Number
  pub overtime_minutes : Option Number
  pub justification : Option Text

-- jobFunctionService, with the message of an error that has one
pub record Api : Type 0 where
  pub create_job_function : CreatePayload → Result (Option Text) Text
  pub update_job_function : Text → UpdatePayload → Result {0, 0} (Option Text) Unit
  pub delete_job_function : Text → Result {0, 0} (Option Text) Unit

abbrev pub notify : Notice → Page → Page
notify n page = record page { notices = page.notices ++ n ∷ [] }

abbrev pub open_as : CatalogItem → Page → Option Report → Page
open_as item page (some existing) = record page {
  report_item = some item;
  frequency = existing.frequency;
  hours = or_blank (whole_hours existing.duration_minutes);
  minutes = or_blank (odd_minutes existing.duration_minutes);
  ot_hours = or_blank (whole_hours existing.overtime_minutes);
  ot_minutes = or_blank (odd_minutes existing.overtime_minutes);
  justification = existing.justification;
}
open_as item page none = record page {
  report_item = some item;
  frequency = txt "Semanal";
  hours = none;
  minutes = none;
  ot_hours = none;
  ot_minutes = none;
  justification = [];
}

unfoldable pub open_report : CatalogItem → Page → Page
unfolding report_of
open_report item page = open_as item page (report_of item.id page.reports)
