-- ===== src/Details/Answers.antt =====
-- The answers to the effect of client/src/features/admin/declarations/DeclarationsDetailsModal.tsx, in
-- the order in which they arrive, and the functions that it shows apart.
use sigecat_oraculos.Prelude.{
  ℕ, ◌==◌, Bool, true, false, filter, List, [], ◌∷◌, ◌≡◌, refl, ap, ◌∙◌, if◌then◌else◌, ok, err,
}
use sigecat_oraculos.Declarations.{RestTime}
use sigecat_oraculos.Details.{
  State, Arrival, cleared, started, functions_answered, extra_answered, extra_skipped, run_of,
  receive, arrive, arrive_all,
}

receive-mounted : (arrival : Arrival) (s : State) → (receive arrival s).mounted ≡ s.mounted
unfolding receive
receive-mounted (cleared n) s = refl
receive-mounted (started n) s = refl
receive-mounted (functions_answered n (ok fns)) s = refl
receive-mounted (functions_answered n (err e)) s = refl
receive-mounted (extra_answered n (ok found)) s = refl
receive-mounted (extra_answered n (err e)) s = refl
receive-mounted (extra_skipped n) s = refl

-- the answers that belong to the run of the effect that is mounted
abbrev pub of_run : ℕ → List Arrival → List Arrival
of_run n arrivals = filter (λ arrival. run_of arrival == n) arrivals

abbrev pub receive_all : List Arrival → State → State
receive_all [] s = s
receive_all (arrival ∷ arrivals) s = receive_all arrivals (receive arrival s)

arrive_if :
    (n : ℕ) (arrival : Arrival) (arrivals : List Arrival) (s : State) (test : Bool)
    → s.mounted ≡ n
    → ((t : State) → t.mounted ≡ n → arrive_all arrivals t ≡ receive_all (of_run n arrivals) t)
    → arrive_all arrivals (if test then receive arrival s else s)
      ≡ receive_all (if test then arrival ∷ of_run n arrivals else of_run n arrivals) s
arrive_if n arrival arrivals s true e h = h (receive arrival s) (receive-mounted arrival s ∙ e)
arrive_if n arrival arrivals s false e h = h s e

pub arrive_all-of :
    (n : ℕ) (arrivals : List Arrival) (s : State)
    → s.mounted ≡ n
    → arrive_all arrivals s ≡ receive_all (of_run n arrivals) s
unfolding arrive_all arrive
arrive_all-of n [] s e = refl
arrive_all-of n (arrival ∷ arrivals) s e =
    ap (λ m. arrive_all arrivals (if run_of arrival == m then receive arrival s else s)) e
    ∙ arrive_if n arrival arrivals s (run_of arrival == n) e (arrive_all-of n arrivals)

-- the rest times of the last answer, where `cleared` and `extra_skipped` count as one
abbrev pub last_rest_times : List RestTime → List Arrival → List RestTime
last_rest_times rows [] = rows
last_rest_times rows (cleared n ∷ arrivals) = last_rest_times [] arrivals
last_rest_times rows (started n ∷ arrivals) = last_rest_times rows arrivals
last_rest_times rows (functions_answered n answer ∷ arrivals) = last_rest_times rows arrivals
last_rest_times rows (extra_answered n (ok (rests, licenses)) ∷ arrivals) =
    last_rest_times rests arrivals
last_rest_times rows (extra_answered n (err e) ∷ arrivals) = last_rest_times [] arrivals
last_rest_times rows (extra_skipped n ∷ arrivals) = last_rest_times [] arrivals

receive_all-rest_times :
    (arrivals : List Arrival) (s : State)
    → (receive_all arrivals s).rest_times ≡ last_rest_times s.rest_times arrivals
unfolding receive
receive_all-rest_times [] s = refl
receive_all-rest_times (cleared n ∷ arrivals) s =
    receive_all-rest_times arrivals (receive (cleared n) s)
receive_all-rest_times (started n ∷ arrivals) s =
    receive_all-rest_times arrivals (receive (started n) s)
receive_all-rest_times (functions_answered n (ok fns) ∷ arrivals) s =
    receive_all-rest_times arrivals (receive (functions_answered n (ok fns)) s)
receive_all-rest_times (functions_answered n (err e) ∷ arrivals) s =
    receive_all-rest_times arrivals (receive (functions_answered n (err e)) s)
receive_all-rest_times (extra_answered n (ok found) ∷ arrivals) s =
    receive_all-rest_times arrivals (receive (extra_answered n (ok found)) s)
receive_all-rest_times (extra_answered n (err e) ∷ arrivals) s =
    receive_all-rest_times arrivals (receive (extra_answered n (err e)) s)
receive_all-rest_times (extra_skipped n ∷ arrivals) s =
    receive_all-rest_times arrivals (receive (extra_skipped n) s)

-- In whatever order the answers to the runs of the effect arrive, those of earlier runs change nothing:
-- the dialog becomes what the answers to its last run alone make of it, and the rest times that it shows
-- are those of the last of these.
pub arrive_all-of_run :
    (arrivals : List Arrival) (s : State)
    → (arrive_all arrivals s ≡ receive_all (of_run s.mounted arrivals) s)
      × ((arrive_all arrivals s).rest_times
          ≡ last_rest_times s.rest_times (of_run s.mounted arrivals))
arrive_all-of_run arrivals s = (
  arrive_all-of s.mounted arrivals s refl,
  ap (λ t. t.rest_times) (arrive_all-of s.mounted arrivals s refl)
      ∙ receive_all-rest_times (of_run s.mounted arrivals) s,
)
