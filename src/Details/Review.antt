-- ===== src/Details/Review.antt =====
-- The change of a status from client/src/features/admin/declarations/DeclarationsDetailsModal.tsx, against
-- the rules of client/src/services/declarationConstants.ts.
use sigecat_oraculos.Prelude.{
  Bool, true, false, if-both, Option, none, some, List, [], ◌∷◌, Text, ◌≡◌, ◌⊎◌, inl, inr, refl,
  subst, ◌==◌, if◌then◌else◌, Result, ok, err, arith,
}
use sigecat_oraculos.Services.{ServiceError}
use sigecat_oraculos.Declarations.{Declaration}
use sigecat_oraculos.Status.{
  DeclarationStatus, admin, status_transitions, can_change_status, includes_status,
}
use sigecat_oraculos.Status.Workflow.{Permitted, can_change_status-iff-Permitted}
use sigecat_oraculos.Details.{
  State, Api, valid_next_statuses, next_of, handle_open_status_change, handle_close_status_dialog,
  handle_status_change_confirm, change, changed, reread, closed, set_declaration, rerun, Arrival,
  cleared, started, functions_answered, extra_answered, extra_skipped, receive, run_of, arrive,
}

-- What happens to the modal: the handlers of the dialog of the status, whose menu offers the valid next
-- statuses; the effects of the props `declaration` and `open`; and the effect that loads, with what it
-- has asked for. A confirmation is answered before the next event.
pub data Event : Type 0 where
  change_clicked dialog_closed confirmed : Event
  status_chosen : DeclarationStatus → Event
  declaration_given : Option Declaration → Event
  modal_closed effect_ran : Event
  arrived : Arrival → Event

abbrev pub choose : DeclarationStatus → State → State
choose status s =
    if includes_status (valid_next_statuses s.local_declaration) status
    then record s { selected_status = some status }
    else s

-- the status that a confirmation would send is one that the menu offers for the declaration shown
abbrev pub IsOffered : Option Declaration → Option DeclarationStatus → Type 0
IsOffered declaration none = Unit
IsOffered declaration (some status) =
    includes_status (valid_next_statuses declaration) status ≡ true

-- a dialog that is closed may keep the status of the change before
abbrev pub OffersSelected : State → Type 0
OffersSelected s = (s.status_dialog_open ≡ false) ⊎ IsOffered s.local_declaration s.selected_status

-- the page gives the modal no other declaration while the dialog of the status is open
abbrev pub IsCalm : Event → State → Type 0
IsCalm (declaration_given (some declaration)) s = s.status_dialog_open ≡ false
IsCalm event s = Unit

module _ {S : Type 0} (api : Api S) where
  unfoldable pub step : Event → S → State → S × State
  unfolding handle_open_status_change handle_close_status_dialog handle_status_change_confirm arrive
  step change_clicked store s = (store, handle_open_status_change s)
  step dialog_closed store s = (store, handle_close_status_dialog s)
  step (status_chosen status) store s = (store, choose status s)
  step confirmed store s = handle_status_change_confirm api store s
  step (declaration_given declaration) store s = (store, set_declaration declaration s)
  step modal_closed store s = (store, closed s)
  step effect_ran store s = (store, rerun s)
  step (arrived arrival) store s = (store, arrive arrival s)

  unfoldable pub run : List Event → S → State → S × State
  unfolding step
  run [] store s = (store, s)
  run (event ∷ events) store s = let (next, t) = step event store s in run events next t

  -- a run in which each event is calm in the state that it meets
  unfoldable pub IsCalmRun : List Event → S → State → Type 0
  unfolding step
  IsCalmRun [] store s = Unit
  IsCalmRun (event ∷ events) store s =
      IsCalm event s × IsCalmRun events ((step event store s).0) ((step event store s).1)

  receive-offers :
      (arrival : Arrival) (s : State) → OffersSelected s → OffersSelected (receive arrival s)
  unfolding receive
  receive-offers (cleared n) s h = h
  receive-offers (started n) s h = h
  receive-offers (functions_answered n (ok fns)) s h = h
  receive-offers (functions_answered n (err e)) s h = h
  receive-offers (extra_answered n (ok found)) s h = h
  receive-offers (extra_answered n (err e)) s h = h
  receive-offers (extra_skipped n) s h = h

  given-offers :
      (declaration : Option Declaration) (s : State)
      → IsCalm (declaration_given declaration) s
      → OffersSelected s
      → OffersSelected (set_declaration declaration s)
  given-offers none s calm h = h
  given-offers (some declaration) s calm h = inl calm

  choose_if-offers :
      (status : DeclarationStatus) (s : State) (test : Bool)
      → includes_status (valid_next_statuses s.local_declaration) status ≡ test
      → OffersSelected s
      → OffersSelected (if test then record s { selected_status = some status } else s)
  choose_if-offers status s true e h = inr e
  choose_if-offers status s false e h = h

  choose-offers :
      (status : DeclarationStatus) (s : State) → OffersSelected s → OffersSelected (choose status s)
  choose-offers status s h =
      choose_if-offers status s (includes_status (valid_next_statuses s.local_declaration) status)
        refl h

  reread-offers :
      (answer : Result {0, 0} ServiceError Declaration) (s : State)
      → OffersSelected s
      → OffersSelected (reread answer s)
  reread-offers (ok updated) s h = inl refl
  reread-offers (err e) s h = h

  changed-offers :
      (id : Text) (answer : S × Result {0, 0} ServiceError Unit) (s : State)
      → OffersSelected s
      → OffersSelected ((changed api id answer s).1)
  unfolding changed
  changed-offers id (store, ok accepted) s h = reread-offers (api.get_declaration id store) s h
  changed-offers id (store, err e) s h = h

  change-offers :
      (declaration : Option Declaration) (status : Option DeclarationStatus) (store : S) (s : State)
      → OffersSelected s
      → OffersSelected ((change api declaration status store s).1)
  unfolding change
  change-offers none status store s h = h
  change-offers (some declaration) none store s h = h
  change-offers (some declaration) (some status) store s h =
      changed-offers declaration.declaration_id
        (api.change_status declaration.declaration_id status store)
        (record s { is_changing_status = true; status_error = none }) h

  step-offers :
      (event : Event) (store : S) (s : State)
      → IsCalm event s
      → OffersSelected s
      → OffersSelected ((step event store s).1)
  unfolding arrive step handle_open_status_change handle_close_status_dialog
      handle_status_change_confirm
  step-offers change_clicked store s calm h = inr tt
  step-offers dialog_closed store s calm h =
      if-both OffersSelected s.is_changing_status h (inl refl)
  step-offers (status_chosen status) store s calm h = choose-offers status s h
  step-offers confirmed store s calm h =
      change-offers s.local_declaration s.selected_status store s h
  step-offers (declaration_given declaration) store s calm h = given-offers declaration s calm h
  step-offers modal_closed store s calm h = inl refl
  step-offers effect_ran store s calm h = h
  step-offers (arrived arrival) store s calm h =
      if-both OffersSelected (run_of arrival == s.mounted) (receive-offers arrival s h) h

  run-offers :
      (events : List Event) (store : S) (s : State)
      → IsCalmRun events store s
      → OffersSelected s
      → OffersSelected ((run events store s).1)
  unfolding run IsCalmRun
  run-offers [] store s calm h = h
  run-offers (event ∷ events) store s calm h =
      run-offers events ((step event store s).0) ((step event store s).1) calm.1
        (step-offers event store s calm.0 h)

  offered-permitted :
      (current status : DeclarationStatus) (own : Bool)
      → includes_status (status_transitions current) status ≡ true
      → Permitted current status admin own
  unfolding can_change_status
  offered-permitted current status own h =
      (can_change_status-iff-Permitted current status admin own).0 (ground arith)

  selected-offered :
      (t : State) (declaration : Declaration) (current status : DeclarationStatus)
      → OffersSelected t
      → t.status_dialog_open ≡ true
      → t.local_declaration ≡ some declaration
      → declaration.current_status ≡ some current
      → t.selected_status ≡ some status
      → includes_status (status_transitions current) status ≡ true
  unfolding valid_next_statuses
  selected-offered t declaration current status (inl shut) opened shown now chosen = cc
  selected-offered t declaration current status (inr offered) opened shown now chosen =
      subst (λ c. includes_status (next_of c) status ≡ true) now
        (subst (λ d. IsOffered d (some status)) shown
          (subst (λ c. IsOffered t.local_declaration c) chosen offered))

  -- From a closed dialog, after any events in which the page gives the modal no other declaration while
  -- the dialog is open, whatever the server answers: while the dialog is open, the status that a confirmation would send is a move of the declaration shown that the rules of the
  -- workflow permit an administrator.
  pub run-Permitted :
      (events : List Event) (store : S) (s : State) (declaration : Declaration)
      (current status : DeclarationStatus) (own : Bool)
      → IsCalmRun events store s
      → s.status_dialog_open ≡ false
      → ((run events store s).1).status_dialog_open ≡ true
      → ((run events store s).1).local_declaration ≡ some declaration
      → declaration.current_status ≡ some current
      → ((run events store s).1).selected_status ≡ some status
      → Permitted current status admin own
  run-Permitted events store s declaration current status own calm shut opened shown now chosen =
      offered-permitted current status own (
        selected-offered ((run events store s).1) declaration current status
          (run-offers events store s calm (inl shut)) opened shown now chosen)
