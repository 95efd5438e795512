-- ===== src/Details.antt =====
-- The detail of a declaration as the administration sees it,
-- client/src/features/admin/declarations/DeclarationsDetailsModal.tsx: the change of its status, and the
-- functions, rest times and licenses that an effect loads. The API's calls are parameters.
pub mod Answers
pub mod Review
pub mod Totals
pub mod Exceeded
pub mod Durations
pub mod Loading
mod Tests
use sigecat_oraculos.Prelude.{
  ℕ, ◌+◌, ◌==◌, Bool, true, false, not, ◌&&◌, any, filter, Option, none, some, List, [], ◌∷◌, Text,
  txt, text_eq, or_else, if◌then◌else◌, Result, ok, err,
}
use sigecat_oraculos.Js.Strings.{is_empty}
use sigecat_oraculos.Declarations.{
  Declaration, OfficialFunction, RestTime, License, JobFunction, JobPosition, FunctionType,
  official, custom,
}
use sigecat_oraculos.Status.{DeclarationStatus, completed, revision, status_transitions}
use sigecat_oraculos.Services.{ServiceError}
use sigecat_oraculos.Catalogue.{Notice, success, error}

pub data ChipColor : Type 0 where
  primary secondary warning default : ChipColor

pub record FunctionLabel : Type 0 where
  pub label : Text
  pub chip_color : ChipColor

-- `officialFnsForJob.some((f) => f.id === jf.official_function_id)`
abbrev pub is_own_job : Option Text → List OfficialFunction → Bool
is_own_job none fns = false
is_own_job (some id) fns = any (λ f. text_eq f.id id) fns

abbrev pub label_of_type : Option FunctionType → Bool → FunctionLabel
label_of_type (some custom) own = record { label = txt "Personalizada"; chip_color = secondary }
label_of_type (some official) true = record { label = txt "Propia del Cargo"; chip_color = primary }
label_of_type (some official) false = record { label = txt "De otro Cargo"; chip_color = warning }
label_of_type none own = record { label = txt "Oficial"; chip_color = default }

unfoldable pub resolve_function_label : JobFunction → List OfficialFunction → FunctionLabel
resolve_function_label jf fns =
    label_of_type jf.function_type (is_own_job jf.official_function_id fns)

-- `jf.function_type === 'official' && jf.official_function_id`, of this id
abbrev pub declares_id : Option FunctionType → Option Text → Text → Bool
declares_id (some official) (some declared) id = not (is_empty declared) && text_eq declared id
declares_id (some official) none id = false
declares_id (some custom) declared id = false
declares_id none declared id = false

-- `declaredOfficialIds.has(id)`
unfoldable pub is_declared : List JobFunction → Text → Bool
is_declared jfs id = any (λ jf. declares_id jf.function_type jf.official_function_id id) jfs

unfoldable pub catalog_functions : List JobFunction → List OfficialFunction → List OfficialFunction
unfolding is_declared
catalog_functions jfs fns = filter (λ fn. not (is_declared jfs fn.id)) fns

-- The state of the dialog. Each run of the effect has a number, and only the last one is still mounted.
pub record State : Type 0 where
  pub local_declaration : Option Declaration
  pub selected_status : Option DeclarationStatus
  pub status_dialog_open : Bool
  pub is_changing_status : Bool
  pub status_error : Option Text
  pub official_fns_for_job : List OfficialFunction
  pub loading_official_fns : Bool
  pub rest_times : List RestTime
  pub license_times : List License
  pub loading_extra : Bool
  pub mounted : ℕ
  pub notices : List Notice

-- what the effect of the job and the declaration has asked for, with the number of its run
pub data Arrival : Type 0 where
  -- the timer of a closed dialog or of a declaration without a job
  cleared : ℕ → Arrival
  -- the timer that shows that both loads run
  started : ℕ → Arrival
  functions_answered : ℕ → Result {0, 0} ServiceError (List OfficialFunction) → Arrival
  extra_answered : ℕ → Result {0, 0} ServiceError (List RestTime × List License) → Arrival
  -- the timer of a declaration without an id
  extra_skipped : ℕ → Arrival

abbrev pub run_of : Arrival → ℕ
run_of (cleared n) = n
run_of (started n) = n
run_of (functions_answered n answer) = n
run_of (extra_answered n answer) = n
run_of (extra_skipped n) = n

abbrev pub is_kept : OfficialFunction → Bool
is_kept fn = fn.is_deleted == 0

-- what each of them does where `isMounted` holds
unfoldable pub receive : Arrival → State → State
receive (cleared n) s = record s { official_fns_for_job = []; rest_times = []; license_times = [] }
receive (started n) s = record s { loading_official_fns = true; loading_extra = true }
receive (functions_answered n (ok fns)) s = record s {
  official_fns_for_job = filter is_kept fns;
  loading_official_fns = false;
}
receive (functions_answered n (err e)) s = record s {
  official_fns_for_job = [];
  loading_official_fns = false;
}
receive (extra_answered n (ok (rests, licenses))) s = record s {
  rest_times = rests;
  license_times = licenses;
  loading_extra = false;
}
receive (extra_answered n (err e)) s = record s {
  rest_times = [];
  license_times = [];
  loading_extra = false;
}
receive (extra_skipped n) s = record s {
  rest_times = [];
  license_times = [];
  loading_extra = false;
}

-- what a run of the effect sets up: its timers, and the job and the declaration that it asks about
pub record Asked : Type 0 where
  pub timers : List Arrival
  pub functions_of_job : Option Text
  pub extra_of : Option Text

abbrev pub asked_for : ℕ → Bool → Bool → Text → Text → Asked
asked_for n false has_id job_id id = record {
  timers = cleared n ∷ [];
  functions_of_job = none;
  extra_of = none;
}
asked_for n true true job_id id = record {
  timers = started n ∷ [];
  functions_of_job = some job_id;
  extra_of = some id;
}
asked_for n true false job_id id = record {
  timers = started n ∷ extra_skipped n ∷ [];
  functions_of_job = some job_id;
  extra_of = none;
}

abbrev pub job_id_of : Option JobPosition → Text
job_id_of none = []
job_id_of (some position) = position.job_id

abbrev pub job_of : Option Declaration → Text
job_of none = []
job_of (some declaration) = job_id_of declaration.job_position

abbrev pub id_of : Option Declaration → Text
id_of none = []
id_of (some declaration) = declaration.declaration_id

-- `open` and `jobId`, without which nothing is loaded
abbrev pub loads : Bool → Option Declaration → Bool
loads is_open declaration = is_open && not (is_empty (job_of declaration))

-- the effect, in its run of the number
unfoldable pub effect : ℕ → Bool → Option Declaration → Asked
effect n is_open declaration =
    asked_for n (loads is_open declaration) (not (is_empty (id_of declaration)))
      (job_of declaration) (id_of declaration)

-- a callback, under its `if (isMounted)`
unfoldable pub arrive : Arrival → State → State
unfolding receive
arrive arrival s = if run_of arrival == s.mounted then receive arrival s else s

unfoldable pub arrive_all : List Arrival → State → State
unfolding arrive
arrive_all [] s = s
arrive_all (arrival ∷ arrivals) s = arrive_all arrivals (arrive arrival s)

-- the effect runs again: the cleanup of the run before takes its `isMounted` away
abbrev pub rerun : State → State
rerun s = record s { mounted = s.mounted + 1 }

-- the effect of `open` and that of `declaration`
abbrev pub closed : State → State
closed s = record s {
  selected_status = none;
  status_dialog_open = false;
  is_changing_status = false;
  status_error = none;
}

abbrev pub set_declaration : Option Declaration → State → State
set_declaration none s = s
set_declaration (some declaration) s = record s { local_declaration = some declaration }

abbrev pub next_of : Option DeclarationStatus → List DeclarationStatus
next_of none = []
next_of (some status) = status_transitions status

unfoldable pub valid_next_statuses : Option Declaration → List DeclarationStatus
unfolding status_transitions
valid_next_statuses none = []
valid_next_statuses (some declaration) = next_of declaration.current_status

abbrev pub is_eligible : Option DeclarationStatus → Bool
is_eligible (some completed) = true
is_eligible (some revision) = true
is_eligible _ = false

unfoldable pub handle_open_status_change : State → State
handle_open_status_change s = record s {
  selected_status = none;
  status_error = none;
  status_dialog_open = true;
}

unfoldable pub handle_close_status_dialog : State → State
handle_close_status_dialog s =
    if s.is_changing_status
    then s
    else record s { status_dialog_open = false; selected_status = none; status_error = none }

pub record Api (S : Type 0) : Type 0 where
  pub change_status : Text → DeclarationStatus → S → S × Result {0, 0} ServiceError Unit
  pub get_declaration : Text → S → Result {0, 0} ServiceError Declaration

abbrev pub message_of : ServiceError → Text
message_of e = or_else e.message (txt "Error al cambiar el estado.")

abbrev pub change_failed : ServiceError → State → State
change_failed e s = record s {
  status_error = some (message_of e);
  notices = error (message_of e) ∷ s.notices;
  is_changing_status = false;
}

abbrev pub reread : Result {0, 0} ServiceError Declaration → State → State
reread (ok updated) s = record s {
  local_declaration = some updated;
  status_dialog_open = false;
  notices = success (txt "Estado actualizado correctamente") ∷ s.notices;
  is_changing_status = false;
}
reread (err e) s = change_failed e s

module _ {S : Type 0} (api : Api S) where
  unfoldable pub changed : Text → S × Result {0, 0} ServiceError Unit → State → S × State
  changed id (store, ok accepted) s = (store, reread (api.get_declaration id store) s)
  changed id (store, err e) s = (store, change_failed e s)

  unfoldable pub change : Option Declaration → Option DeclarationStatus → S → State → S × State
  unfolding changed
  change none status store s = (store, s)
  change (some declaration) none store s = (store, s)
  change (some declaration) (some status) store s =
      changed declaration.declaration_id (api.change_status declaration.declaration_id status store)
        (record s { is_changing_status = true; status_error = none })

  unfoldable pub handle_status_change_confirm : S → State → S × State
  unfolding change
  handle_status_change_confirm store s = change s.local_declaration s.selected_status store s
