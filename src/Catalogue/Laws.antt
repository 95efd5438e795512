-- ===== src/Catalogue/Laws.antt =====
-- What holds of a page of the administration, client/src/app/pages/admin/AreasPage.tsx, in every state
-- that its events reach.
use sigecat_oraculos.Prelude.{
  ℕ, Bool, ◌&&◌, ◌==◌, text_eq, true, false, if-both, Option, none, some, List, [], ◌∷◌, Text, ◌≡◌,
  ◌⊎◌, inl, inr, refl, ◌∙◌, Result, ok, err, arith,
}
use sigecat_oraculos.Js.Strings.{trim}
use sigecat_oraculos.Logs.{Paginated}
use sigecat_oraculos.Services.{ServiceError, Service}
use sigecat_oraculos.Catalogue.{
  Kind, State, Step, close_modal, clear_delete, reload, announce, open_create, open_edit, open_view,
  set_delete_target, handle_form_change, handle_confirm, handle_delete, go_to_page, search_settled,
  show, load, loaded, perform, perform_all, saved, save, removed, remove, is_valid, start, limit,
  notify, shown,
}
use sigecat_oraculos.Catalogue.Events.{
  Event, create_clicked, modal_closed, confirmed, delete_cancelled, delete_confirmed, edit_clicked,
  view_clicked, delete_clicked, field_changed, page_chosen, search_rested, step, run,
}

-- A page edits a row or views one, never both; a closed form has neither; and what was loading has ended.
pub record Targets {A : Type 0} (edited viewed : Option A) (form_open loading : Bool) : Type 0 where
  pub one : (edited ≡ none) ⊎ (viewed ≡ none)
  pub closed : form_open ≡ false → (edited ≡ none) × (viewed ≡ none)
  pub loaded : loading ≡ false

abbrev pub HasOneTarget : {Item Field : Type 0} → State Item Field → Type 0
HasOneTarget s = Targets s.edit_target s.view_target s.form_open s.loading

-- what a page is when the requests of an event are answered: besides, nothing is being submitted
abbrev pub IsTidy : {Item Field : Type 0} → State Item Field → Type 0
IsTidy s = HasOneTarget s × (s.is_submitting ≡ false)

opened :
    {A : Type 0} {edited viewed : Option A} {loading : Bool}
    → (edited ≡ none) ⊎ (viewed ≡ none)
    → loading ≡ false
    → Targets edited viewed true loading
opened one idle = record { one = one; closed = λ shut. ground arith; loaded = idle }

shut : {A : Type 0} {loading : Bool} → loading ≡ false → Targets {A = A} none none false loading
shut idle = record { one = inl refl; closed = λ h. (refl, refl); loaded = idle }

module _ {Item Field Payload S : Type 0} (kind : Kind Item Field Payload)
    (service : Service S Item Payload) where
  loaded-targets :
      (default : Text) (answer : Result {0, 0} ServiceError (Paginated Item)) (s : State Item Field)
      → HasOneTarget s
      → HasOneTarget (loaded default answer (record s { loading = true }))
  loaded-targets default (ok res) s h = record { one = h.one; closed = h.closed; loaded = refl }
  loaded-targets default (err e) s h = record { one = h.one; closed = h.closed; loaded = refl }

  load-targets :
      (store : S) (s : State Item Field) → HasOneTarget s → HasOneTarget (load kind service store s)
  unfolding load
  load-targets store s h =
      loaded-targets kind.load_failed
        (service.list_page
          (record { page = s.page; limit = limit; filter = s.applied_filter; status = kind.status })
          store)
        s h

  loaded-submitting :
      (default : Text) (answer : Result {0, 0} ServiceError (Paginated Item)) (s : State Item Field)
      → (loaded default answer s).is_submitting ≡ s.is_submitting
  loaded-submitting default (ok res) s = refl
  loaded-submitting default (err e) s = refl

  perform-targets :
      (now : Step) (store : S) (s : State Item Field)
      → HasOneTarget s
      → HasOneTarget (perform kind service now store s)
  unfolding perform
  perform-targets close_modal store s h = shut h.loaded
  perform-targets clear_delete store s h = h
  perform-targets reload store s h = load-targets store s h
  perform-targets (announce notice) store s h = h

  perform_all-targets :
      (steps : List Step) (store : S) (s : State Item Field)
      → HasOneTarget s
      → HasOneTarget (perform_all kind service steps store s)
  unfolding perform_all
  perform_all-targets [] store s h = h
  perform_all-targets (now ∷ steps) store s h =
      perform_all-targets steps store (perform kind service now store s)
        (perform-targets now store s h)

  saved-IsTidy :
      (steps : List Step) (answer : S × Result {0, 0} ServiceError Unit) (s : State Item Field)
      → HasOneTarget s
      → IsTidy ((saved kind service steps answer s).1)
  unfolding saved
  saved-IsTidy steps (store, ok accepted) s h = (perform_all-targets steps store s h, refl)
  saved-IsTidy steps (store, err e) s h = (h, refl)

  save-IsTidy :
      (target : Option Item) (form : Field → Text) (store : S) (s : State Item Field)
      → HasOneTarget s
      → IsTidy ((save kind service target form store s).1)
  unfolding saved
  save-IsTidy none form store s h =
      saved-IsTidy kind.created (service.create (kind.create_payload form) store) s h
  save-IsTidy (some item) form store s h =
      saved-IsTidy kind.updated (service.update (kind.id_of item) (kind.update_payload form) store)
        s h

  removed-IsTidy :
      (answer : S × Result {0, 0} ServiceError Unit) (s : State Item Field)
      → HasOneTarget s
      → IsTidy ((removed kind service answer s).1)
  unfolding removed
  removed-IsTidy (store, ok accepted) s h = (perform_all-targets kind.deleted store s h, refl)
  removed-IsTidy (store, err e) s h =
      (perform_all-targets kind.not_deleted store (notify (shown kind.delete_failed e) s) h, refl)

  remove-IsTidy :
      (target : Option Item) (store : S) (s : State Item Field)
      → IsTidy s
      → IsTidy ((remove kind service target store s).1)
  unfolding removed
  remove-IsTidy none store s h = h
  remove-IsTidy (some item) store s (h, idle) =
      removed-IsTidy (service.remove (kind.id_of item) store) (record s { is_submitting = true }) h

  load-IsTidy : (store : S) (s : State Item Field) → IsTidy s → IsTidy (load kind service store s)
  unfolding load
  load-IsTidy store s (h, idle) =
      (load-targets store s h, loaded-submitting kind.load_failed _ _ ∙ idle)

  show-IsTidy :
      (page : ℕ) (filter : Text) (store : S) (s : State Item Field)
      → IsTidy s
      → IsTidy (show kind service page filter store s)
  unfolding show
  show-IsTidy page filter store s h =
      if-both IsTidy ((page == s.page) && text_eq filter s.applied_filter) h
        (load-IsTidy store (record s { page = page; applied_filter = filter }) h)

  confirm-IsTidy :
      (store : S) (s : State Item Field)
      → IsTidy s
      → IsTidy ((handle_confirm kind service store s).1)
  unfolding handle_confirm
  confirm-IsTidy store s h =
      if-both {A = S × State Item Field} (λ t. IsTidy (t.1)) (is_valid kind s.form)
        (save-IsTidy s.edit_target s.form store
          (record s { form_errors = kind.errors_of s.form; is_submitting = true }) (h.0))
        h

  step-IsTidy :
      (event : Event Item Field) (store : S) (s : State Item Field)
      → IsTidy s
      → IsTidy ((step kind service event store s).1)
  unfolding step open_create open_edit open_view set_delete_target handle_form_change handle_delete
      go_to_page search_settled
  step-IsTidy create_clicked store s (h, idle) = (opened (inl refl) h.loaded, idle)
  step-IsTidy modal_closed store s (h, idle) = (shut h.loaded, idle)
  step-IsTidy confirmed store s h = confirm-IsTidy store s h
  step-IsTidy delete_cancelled store s h = h
  step-IsTidy delete_confirmed store s h = remove-IsTidy s.delete_target store s h
  step-IsTidy (edit_clicked item) store s (h, idle) = (opened (inr refl) h.loaded, idle)
  step-IsTidy (view_clicked item) store s (h, idle) = (opened (inl refl) h.loaded, idle)
  step-IsTidy (delete_clicked item) store s h = h
  step-IsTidy (field_changed field value) store s h = h
  step-IsTidy (page_chosen page) store s h = show-IsTidy page s.applied_filter store s h
  step-IsTidy (search_rested text) store s h =
      if-both IsTidy (kind.skips_same_filter && text_eq (trim text) s.applied_filter) h
        (show-IsTidy 1 (trim text) store (record s { search = text }) h)

  run-IsTidy' :
      (events : List (Event Item Field)) (store : S) (s : State Item Field)
      → IsTidy s
      → IsTidy ((run kind service events store s).1)
  unfolding run
  run-IsTidy' [] store s h = h
  run-IsTidy' (event ∷ events) store s h =
      run-IsTidy' events ((step kind service event store s).0) ((step kind service event store s).1)
        (step-IsTidy event store s h)

  -- After any events, each with its requests answered before the next and whatever the answers are, a page
  -- that has been opened edits a row or views one, never both, has neither while its form is closed, and
  -- has lowered its marks of loading and of submitting again.
  pub run-IsTidy :
      (events : List (Event Item Field)) (store : S)
      → IsTidy ((run kind service events store (start kind)).1)
  run-IsTidy events store = run-IsTidy' events store (start kind) (shut refl, refl)
