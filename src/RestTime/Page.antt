-- ===== src/RestTime/Page.antt =====
-- The rest times of a declaration, client/src/features/employee/DeclarationRestTimes.tsx. The calls of
-- restTimeService and declarationService are parameters. The form takes fractions of a minute, so that
-- its hours and minutes are counted in `parts`, any number of equal parts: for entries with one decimal,
-- in tenths.
use sigecat_oraculos.Prelude.{
  ℕ, ◌*◌, Bool, true, false, not, ◌&&◌, Option, none, some, is_some, List, [], ◌∷◌, ◌++◌, map,
  filter, Text, txt, text_eq, if◌then◌else◌, Result, ok, err, ◌>>=◌,
}
use sigecat_oraculos.Js.Numbers.{Number, nat, nat_text, below}
use sigecat_oraculos.Declarations.{RestType, RestTime}
use sigecat_oraculos.RestTime.{rest_time_max_minutes, rest_type_labels, exceeds}
use sigecat_oraculos.RestTime.Opening.{Incomplete, opened_id}
use sigecat_oraculos.Reports.Minutes.{Entry, entered_minutes}
use sigecat_oraculos.Services.{ServiceError}
use sigecat_oraculos.Catalogue.{Notice, success, shown}

pub record DeclaredRestTime : Type 0 where
  pub id : Text
  pub rest_type : RestType
  pub total_minutes : Number

pub record RestTimesState : Type 0 where
  pub loading : Bool
  pub declaration_id : Option Text
  pub rest_times : List DeclaredRestTime
  pub rest_type : Option RestType
  pub duration_hours : Entry
  pub duration_minutes : Entry
  pub type_error : Option Text
  pub time_error : Option Text
  pub is_submitting : Bool
  pub notices : List Notice

pub record RestTimePayload : Type 0 where
  pub declaration_id : Text
  pub rest_type : RestType
  pub duration_minutes : Number

pub record Api (S : Type 0) : Type 0 where
  pub check_incomplete : S → Result {0, 0} ServiceError Incomplete
  pub get_declaration : Text → S → Result {0, 0} ServiceError Unit
  pub rest_times_of : Text → S → Result {0, 0} ServiceError (List RestTime)
  pub create : RestTimePayload → S → S × Result {0, 0} ServiceError RestTime
  pub delete : Text → S → S × Result {0, 0} ServiceError Unit

abbrev pub initial : RestTimesState
initial = record {
  loading = true;
  declaration_id = none;
  rest_times = [];
  rest_type = none;
  duration_hours = none;
  duration_minutes = none;
  type_error = none;
  time_error = none;
  is_submitting = false;
  notices = [];
}

abbrev pub declared : ℕ → RestTime → DeclaredRestTime
declared parts r = record {
  id = r.rest_time_id;
  rest_type = r.rest_type;
  total_minutes = nat (r.duration_minutes * parts);
}

abbrev pub failed : Text → ServiceError → RestTimesState → RestTimesState
failed default e s = record s { notices = shown default e ∷ s.notices }

-- the rest of the effect, once both requests of `Promise.all` are answered
abbrev pub read_times :
    ℕ → Text → Result {0, 0} ServiceError (List RestTime) → RestTimesState → RestTimesState
read_times parts id (ok existing) s = record s {
  declaration_id = some id;
  rest_times = map (declared parts) existing;
}
read_times parts id (err e) s = failed (txt "Error al cargar los tiempos de descanso.") e s

unfoldable pub total_input_minutes : RestTimesState → Number
unfolding entered_minutes
total_input_minutes s = entered_minutes s.duration_hours s.duration_minutes

abbrev pub no_type_error : Option RestType → Option Text
no_type_error none = some (txt "Seleccione el tipo de descanso.")
no_type_error (some t) = none

abbrev pub too_long : RestType → Text
too_long t =
    txt "La duración de '"
    ++ rest_type_labels t
    ++ txt "' no puede exceder "
    ++ nat_text (rest_time_max_minutes t)
    ++ txt " min."

abbrev pub limit_error : ℕ → Option RestType → Number → Option Text
limit_error parts none total = none
limit_error parts (some t) total =
    if exceeds total (rest_time_max_minutes t * parts) then some (too_long t) else none

abbrev pub duration_error : ℕ → Option RestType → Number → Option Text
duration_error parts t total =
    if below total 1
    then some (txt "Debe indicar una duración mayor a 0.")
    else limit_error parts t total

unfoldable pub checked : ℕ → RestTimesState → RestTimesState
unfolding total_input_minutes
checked parts s = record s {
  type_error = no_type_error s.rest_type;
  time_error = duration_error parts s.rest_type (total_input_minutes s);
}

unfoldable pub validate : ℕ → RestTimesState → Bool
unfolding total_input_minutes
validate parts s =
    not (is_some (no_type_error s.rest_type))
    && not (is_some (duration_error parts s.rest_type (total_input_minutes s)))

-- the answer to a creation; the minutes listed are those of the form
abbrev pub added :
    {S : Type 0}
    → Number
    → S × Result {0, 0} ServiceError RestTime
    → RestTimesState
    → S × RestTimesState
added total (store, ok created) s = (
  store,
  record s {
    rest_times =
        s.rest_times
        ++ (record {
          id = created.rest_time_id;
          rest_type = created.rest_type;
          total_minutes = total;
        }
            ∷ []);
    rest_type = none;
    duration_hours = none;
    duration_minutes = none;
    type_error = none;
    time_error = none;
    is_submitting = false;
    notices = success (txt "Tiempo de descanso registrado correctamente.") ∷ s.notices;
  },
)
added total (store, err e) s =
    (store, failed (txt "Error del servidor.") e (record s { is_submitting = false }))

abbrev pub removed :
    {S : Type 0} → Text → S × Result {0, 0} ServiceError Unit → RestTimesState → S × RestTimesState
removed id (store, ok accepted) s = (
  store,
  record s {
    rest_times = filter (λ r. not (text_eq r.id id)) s.rest_times;
    notices = success (txt "Tiempo de descanso eliminado.") ∷ s.notices;
  },
)
removed id (store, err e) s = (store, failed (txt "No se pudo eliminar el tiempo de descanso.") e s)

module _ {S : Type 0} (parts : ℕ) (api : Api S) where
  abbrev pub open_id :
      Result {0, 0} ServiceError (Option Text) → S → RestTimesState → RestTimesState
  open_id (ok none) store s = s
  open_id (ok (some id)) store s =
      read_times parts id (do found ← api.get_declaration id store; api.rest_times_of id store) s
  open_id (err e) store s = failed (txt "Error al cargar los tiempos de descanso.") e s

  unfoldable pub load : Option Text → S → RestTimesState → RestTimesState
  unfolding opened_id
  load state_id store s =
      record (open_id (opened_id state_id (api.check_incomplete store)) store s) { loading = false }

  -- the guard `!validate() || !declarationId || !restType`
  abbrev pub add_checked :
      Bool → Option Text → Option RestType → Number → S → RestTimesState → S × RestTimesState
  add_checked true (some id) (some t) total store s =
      added total
        (api.create (record { declaration_id = id; rest_type = t; duration_minutes = total }) store)
        s
  add_checked true (some id) none total store s = (store, s)
  add_checked true none t total store s = (store, s)
  add_checked false id t total store s = (store, s)

  unfoldable pub handle_add : S → RestTimesState → S × RestTimesState
  unfolding checked validate total_input_minutes
  handle_add store s =
      add_checked (validate parts s) s.declaration_id s.rest_type (total_input_minutes s) store
        (checked parts s)

  unfoldable pub remove : Text → S → RestTimesState → S × RestTimesState
  remove id store s = removed id (api.delete id store) s

-- what happens to the form: its handlers, and the entries of its fields
pub data Event : Type 0 where
  mounted : Option Text → Event
  type_chosen : Option RestType → Event
  hours_entered minutes_entered : Entry → Event
  add_clicked : Event
  remove_clicked : Text → Event

module _ {S : Type 0} (parts : ℕ) (api : Api S) where
  unfoldable pub step : Event → S → RestTimesState → S × RestTimesState
  unfolding load handle_add remove
  step (mounted state_id) store s = (store, load parts api state_id store s)
  step (type_chosen t) store s = (store, record s { rest_type = t })
  step (hours_entered entry) store s = (store, record s { duration_hours = entry })
  step (minutes_entered entry) store s = (store, record s { duration_minutes = entry })
  step add_clicked store s = handle_add parts api store s
  step (remove_clicked id) store s = remove parts api id store s

  unfoldable pub run : List Event → S → RestTimesState → S × RestTimesState
  unfolding step
  run [] store s = (store, s)
  run (event ∷ events) store s = let (next, t) = step event store s in run events next t
