-- ===== src/Catalogue/Errors.antt =====
-- The errors that a form of the administration shows, client/src/app/pages/admin/AreasPage.tsx.
use sigecat_oraculos.Prelude.{
  ℕ, Bool, ◌&&◌, ◌==◌, text_eq, true, false, Bool-cases, if-both, Option, none, some, List, [], ◌∷◌,
  Text, ◌≡◌, ◌⊎◌, inl, inr, refl, sym, ◌∙◌, subst, Result, ok, err,
}
use sigecat_oraculos.Js.Strings.{trim}
use sigecat_oraculos.Logs.{Paginated}
use sigecat_oraculos.Services.{ServiceError, Service}
use sigecat_oraculos.Catalogue.{
  Kind, State, Step, close_modal, clear_delete, reload, announce, open_create, open_edit, open_view,
  set_delete_target, handle_form_change, handle_confirm, handle_delete, go_to_page, search_settled,
  show, load, loaded, perform, perform_all, saved, save, removed, remove, is_valid, start, notify,
  shown, set,
}
use sigecat_oraculos.Catalogue.Events.{
  Event, create_clicked, modal_closed, confirmed, delete_cancelled, delete_confirmed, edit_clicked,
  view_clicked, delete_clicked, field_changed, page_chosen, search_rested, step, run,
}

-- the check of a field reads this field only
abbrev pub IsFieldwise : {Item Field Payload : Type 0} → Kind Item Field Payload → Type 0
IsFieldwise {Field = Field} kind =
    (a b : Field → Text) (field : Field)
    → a field ≡ b field
    → kind.errors_of a field ≡ kind.errors_of b field

set-same :
    {Field A : Type 0} (same : Field → Field → Bool) (field other : Field) (value : A)
    (form : Field → A)
    → same field other ≡ true
    → set same field value form other ≡ value
set-same same field other value form e = rw e refl

set-apart :
    {Field A : Type 0} (same : Field → Field → Bool) (field other : Field) (value : A)
    (form : Field → A)
    → same field other ≡ false
    → set same field value form other ≡ form other
set-apart same field other value form e = rw e refl

-- the two fields of the state that the errors are about
abbrev pub form_part :
    {Item Field : Type 0} → State Item Field → (Field → Text) × (Field → Option Text)
form_part s = (s.form, s.form_errors)

module _ {Item Field Payload : Type 0} (kind : Kind Item Field Payload) where
  -- an error that is shown is the one that the form has now
  abbrev pub IsCurrent : (Field → Text) × (Field → Option Text) → Type 0
  IsCurrent part =
      (field : Field) → (part.1 field ≡ none) ⊎ (part.1 field ≡ kind.errors_of (part.0) field)

  abbrev pub AreCurrent : State Item Field → Type 0
  AreCurrent s = IsCurrent (form_part s)

module _ {Item Field Payload S : Type 0} (kind : Kind Item Field Payload)
    (service : Service S Item Payload) where
  loaded-form :
      (default : Text) (answer : Result {0, 0} ServiceError (Paginated Item)) (s : State Item Field)
      → form_part (loaded default answer s) ≡ form_part s
  loaded-form default (ok res) s = refl
  loaded-form default (err e) s = refl

  load-form :
      (store : S) (s : State Item Field) → form_part (load kind service store s) ≡ form_part s
  unfolding load
  load-form store s = loaded-form kind.load_failed _ _

  perform-form :
      (now : Step) (store : S) (s : State Item Field)
      → form_part (perform kind service now store s) ≡ form_part s
  unfolding perform
  perform-form close_modal store s = refl
  perform-form clear_delete store s = refl
  perform-form reload store s = load-form store s
  perform-form (announce notice) store s = refl

  perform_all-form :
      (steps : List Step) (store : S) (s : State Item Field)
      → form_part (perform_all kind service steps store s) ≡ form_part s
  unfolding perform_all
  perform_all-form [] store s = refl
  perform_all-form (now ∷ steps) store s =
      perform_all-form steps store (perform kind service now store s) ∙ perform-form now store s

  saved-form :
      (steps : List Step) (answer : S × Result {0, 0} ServiceError Unit) (s : State Item Field)
      → form_part ((saved kind service steps answer s).1) ≡ form_part s
  unfolding saved
  saved-form steps (store, ok accepted) s = perform_all-form steps store s
  saved-form steps (store, err e) s = refl

  save-form :
      (target : Option Item) (form : Field → Text) (store : S) (s : State Item Field)
      → form_part ((save kind service target form store s).1) ≡ form_part s
  unfolding saved
  save-form none form store s =
      saved-form kind.created (service.create (kind.create_payload form) store) s
  save-form (some item) form store s =
      saved-form kind.updated (service.update (kind.id_of item) (kind.update_payload form) store) s

  removed-form :
      (answer : S × Result {0, 0} ServiceError Unit) (s : State Item Field)
      → form_part ((removed kind service answer s).1) ≡ form_part s
  unfolding removed
  removed-form (store, ok accepted) s = perform_all-form kind.deleted store s
  removed-form (store, err e) s =
      perform_all-form kind.not_deleted store (notify (shown kind.delete_failed e) s)

  remove-form :
      (target : Option Item) (store : S) (s : State Item Field)
      → form_part ((remove kind service target store s).1) ≡ form_part s
  unfolding removed
  remove-form none store s = refl
  remove-form (some item) store s =
      removed-form (service.remove (kind.id_of item) store) (record s { is_submitting = true })

  show-form :
      (page : ℕ) (filter : Text) (store : S) (s : State Item Field)
      → form_part (show kind service page filter store s) ≡ form_part s
  unfolding show
  show-form page filter store s =
      if-both {A = State Item Field} (λ t. form_part t ≡ form_part s)
        ((page == s.page) && text_eq filter s.applied_filter) refl
        (load-form store (record s { page = page; applied_filter = filter }))

  current-kept :
      (s t : State Item Field) → form_part t ≡ form_part s → AreCurrent kind s → AreCurrent kind t
  current-kept s t e h = subst (IsCurrent kind) (sym e) h

  -- the form is checked, and its errors are shown whether or not it is sent
  pub confirm-form :
      (store : S) (s : State Item Field)
      → form_part ((handle_confirm kind service store s).1) ≡ (s.form, kind.errors_of s.form)
  unfolding handle_confirm
  confirm-form store s =
      if-both {A = S × State Item Field} (λ t. form_part (t.1) ≡ (s.form, kind.errors_of s.form))
        (is_valid kind s.form)
        (save-form s.edit_target s.form store
          (record s { form_errors = kind.errors_of s.form; is_submitting = true }))
        refl

  set-current :
      IsFieldwise kind
      → (s : State Item Field) (field : Field) (value : Text) → AreCurrent kind s
      → AreCurrent kind (handle_form_change kind field value s)
  unfolding handle_form_change
  set-current local s field value h other = elim (Bool-cases (kind.same field other)) [
    | inl same ↦ inl (set-same kind.same field other none s.form_errors same)
    | inr apart ↦ apart_current apart (h other)
  ]
    where
      apart_current :
          kind.same field other ≡ false
          → (s.form_errors other ≡ none) ⊎ (s.form_errors other ≡ kind.errors_of s.form other)
          → (set kind.same field none s.form_errors other ≡ none)
            ⊎ (set kind.same field none s.form_errors other
                ≡ kind.errors_of (set kind.same field value s.form) other)
      apart_current apart (inl e) =
          inl (set-apart kind.same field other none s.form_errors apart ∙ e)
      apart_current apart (inr e) = inr (
          set-apart kind.same field other none s.form_errors apart
          ∙ e
          ∙ sym (local _ _ other (set-apart kind.same field other value s.form apart)))

  step-current :
      IsFieldwise kind
      → (event : Event Item Field) (store : S) (s : State Item Field) → AreCurrent kind s
      → AreCurrent kind ((step kind service event store s).1)
  unfolding step open_create open_edit open_view set_delete_target handle_delete go_to_page
      search_settled
  step-current local create_clicked store s h = λ field. inl refl
  step-current local modal_closed store s h = h
  step-current local confirmed store s h =
      current-kept (record s { form_errors = kind.errors_of s.form })
        ((handle_confirm kind service store s).1) (confirm-form store s) (λ field. inr refl)
  step-current local delete_cancelled store s h = h
  step-current local delete_confirmed store s h =
      current-kept s ((remove kind service s.delete_target store s).1)
        (remove-form s.delete_target store s) h
  step-current local (edit_clicked item) store s h = λ field. inl refl
  step-current local (view_clicked item) store s h = λ field. inl refl
  step-current local (delete_clicked item) store s h = h
  step-current local (field_changed field value) store s h = set-current local s field value h
  step-current local (page_chosen page) store s h =
      current-kept s (show kind service page s.applied_filter store s)
        (show-form page s.applied_filter store s) h
  step-current local (search_rested text) store s h =
      if-both (AreCurrent kind) (kind.skips_same_filter && text_eq (trim text) s.applied_filter) h (
        current-kept s (show kind service 1 (trim text) store (record s { search = text }))
          (show-form 1 (trim text) store (record s { search = text })) h)

  run-current :
      IsFieldwise kind
      → (events : List (Event Item Field)) (store : S) (s : State Item Field) → AreCurrent kind s
      → AreCurrent kind ((run kind service events store s).1)
  unfolding run
  run-current local [] store s h = h
  run-current local (event ∷ events) store s h =
      run-current local events ((step kind service event store s).0)
        ((step kind service event store s).1) (step-current local event store s h)

  -- Where the check of each field reads that field only, after any events, whatever the server answers,
  -- an error that a field shows is the error that its present text has.
  pub run-AreCurrent :
      IsFieldwise kind
      → (events : List (Event Item Field)) (store : S)
      → AreCurrent kind ((run kind service events store (start kind)).1)
  run-AreCurrent local events store =
      run-current local events store (start kind) (λ field. inl refl)
