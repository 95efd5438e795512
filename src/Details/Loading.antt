-- ===== src/Details/Loading.antt =====
-- The loading marks of client/src/features/admin/declarations/DeclarationsDetailsModal.tsx, after all that
-- a run of its effect has set up has arrived.
use sigecat_oraculos.Prelude.{
  ℕ, Bool, true, false, not, ◌&&◌, Option, none, some, List, [], ◌∷◌, ◌++◌, Text, ◌≡◌, refl, Result,
  ok, err,
}
use sigecat_oraculos.Js.Strings.{is_empty}
use sigecat_oraculos.Declarations.{Declaration, OfficialFunction, RestTime, License}
use sigecat_oraculos.Services.{ServiceError}
use sigecat_oraculos.Details.{
  State, Arrival, functions_answered, extra_answered, Asked, asked_for, loads, job_of, id_of,
  effect, receive, arrive_all,
}
use sigecat_oraculos.Details.Answers.{of_run, receive_all, arrive_all-of}

abbrev pub FunctionsAnswer : Type 0
FunctionsAnswer = Result {0, 0} ServiceError (List OfficialFunction)

abbrev pub ExtraAnswer : Type 0
ExtraAnswer = Result {0, 0} ServiceError (List RestTime × List License)

abbrev pub functions_reply : ℕ → FunctionsAnswer → Option Text → List Arrival
functions_reply n answer none = []
functions_reply n answer (some job_id) = functions_answered n answer ∷ []

abbrev pub extra_reply : ℕ → ExtraAnswer → Option Text → List Arrival
extra_reply n answer none = []
extra_reply n answer (some id) = extra_answered n answer ∷ []

abbrev pub in_order : Bool → List Arrival → List Arrival → List Arrival
in_order true a b = a ++ b
in_order false a b = b ++ a

-- the timers, then the answers to what was asked, in either order
abbrev pub replies : ℕ → Bool → FunctionsAnswer → ExtraAnswer → Asked → List Arrival
replies n first functions extra asked =
    asked.timers
    ++ in_order first (functions_reply n functions asked.functions_of_job)
        (extra_reply n extra asked.extra_of)

-- both marks are down, or where nothing is loaded as they were
abbrev pub Marks : Bool → State → State → Type 0
Marks loading before after =
    (after.loading_official_fns ≡ (not loading && before.loading_official_fns))
    × (after.loading_extra ≡ (not loading && before.loading_extra))

replies-Marks :
    (n : ℕ) (first loading has_id : Bool) (functions : FunctionsAnswer) (extra : ExtraAnswer)
    (job_id id : Text) (s : State)
    → Marks loading s
        (receive_all (replies n first functions extra (asked_for n loading has_id job_id id)) s)
unfolding receive
replies-Marks n true false has_id functions extra job_id id s = (refl, refl)
replies-Marks n false false has_id functions extra job_id id s = (refl, refl)
replies-Marks n true true true (ok f) (ok e) job_id id s = (refl, refl)
replies-Marks n true true true (ok f) (err e) job_id id s = (refl, refl)
replies-Marks n true true true (err f) (ok e) job_id id s = (refl, refl)
replies-Marks n true true true (err f) (err e) job_id id s = (refl, refl)
replies-Marks n false true true (ok f) (ok e) job_id id s = (refl, refl)
replies-Marks n false true true (ok f) (err e) job_id id s = (refl, refl)
replies-Marks n false true true (err f) (ok e) job_id id s = (refl, refl)
replies-Marks n false true true (err f) (err e) job_id id s = (refl, refl)
replies-Marks n true true false (ok f) extra job_id id s = (refl, refl)
replies-Marks n true true false (err f) extra job_id id s = (refl, refl)
replies-Marks n false true false (ok f) extra job_id id s = (refl, refl)
replies-Marks n false true false (err f) extra job_id id s = (refl, refl)

-- Among arrivals of any runs, where those of the last run of the effect are its timers and then the
-- answers to all that it has asked for, in either order and failures included: a run that loads ends with
-- both loading marks down, and one that does not (a closed dialog, or a declaration without a job) ends
-- with the marks as the run before has left them.
pub arrive_all-Marks :
    (is_open : Bool) (declaration : Option Declaration) (first : Bool) (functions : FunctionsAnswer)
    (extra : ExtraAnswer) (arrivals : List Arrival) (s : State)
    → of_run s.mounted arrivals
      ≡ replies s.mounted first functions extra (effect s.mounted is_open declaration)
    → Marks (loads is_open declaration) s (arrive_all arrivals s)
unfolding effect
arrive_all-Marks is_open declaration first functions extra arrivals s e =
    rw (arrive_all-of s.mounted arrivals s refl, e)
      (replies-Marks s.mounted first (loads is_open declaration)
        (not (is_empty (id_of declaration))) functions extra (job_of declaration)
        (id_of declaration) s)
