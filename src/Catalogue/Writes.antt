-- ===== src/Catalogue/Writes.antt =====
-- What a page of the administration writes to the server, client/src/app/pages/admin/AreasPage.tsx.
use sigecat_oraculos.Prelude.{
  ℕ, ◌&&◌, ◌==◌, text_eq, true, Bool-cases, if-both, Option, none, some, List, [], ◌∷◌, subst, sym,
  Text, All, ◌≡◌, inl, inr, if◌then◌else◌, Result, ok, err,
}
use sigecat_oraculos.Js.Strings.{trim}
use sigecat_oraculos.Logs.{Paginated}
use sigecat_oraculos.Services.{ServiceError, Service}
use sigecat_oraculos.Catalogue.{
  Kind, State, Step, close_modal, clear_delete, reload, announce, open_create, open_edit, open_view,
  set_delete_target, handle_form_change, handle_confirm, handle_delete, go_to_page, search_settled,
  show, load, loaded, perform, perform_all, saved, save, removed, remove, is_valid, start, limit,
  notify, shown,
}
use sigecat_oraculos.Catalogue.Events.{
  Event, create_clicked, modal_closed, confirmed, delete_cancelled, delete_confirmed, edit_clicked,
  view_clicked, delete_clicked, field_changed, page_chosen, search_rested, step, run,
}

module _ {Item Field Payload S : Type 0} (kind : Kind Item Field Payload)
    (service : Service S Item Payload) (P : Item → Type 0) where
  -- `Writes a b`: from `a` the server has come to `b` by requests that create a row from a valid form,
  -- change a row of `P` to a valid form or delete a row of `P`, whether it accepts them or not.
  pub data Writes : S → S → Type 0 where
    nothing : (a : S) → Writes a a
    creates :
        (a b : S) (form : Field → Text)
        → is_valid kind form ≡ true
        → Writes a b
        → Writes a ((service.create (kind.create_payload form) b).0)
    updates :
        (a b : S) (item : Item) (form : Field → Text)
        → P item
        → is_valid kind form ≡ true
        → Writes a b
        → Writes a ((service.update (kind.id_of item) (kind.update_payload form) b).0)
    removes :
        (a b : S) (item : Item)
        → P item
        → Writes a b
        → Writes a ((service.remove (kind.id_of item) b).0)

  abbrev pub Holds : Option Item → Type 0
  Holds none = Unit
  Holds (some item) = P item

  -- the rows that a page would change or delete are of `P`
  abbrev pub HoldsTargets : State Item Field → Type 0
  HoldsTargets s = Holds s.edit_target × Holds s.delete_target

  -- the row that is clicked is of `P`
  abbrev pub Takes : Event Item Field → Type 0
  Takes (edit_clicked item) = P item
  Takes (delete_clicked item) = P item
  Takes create_clicked = Unit
  Takes modal_closed = Unit
  Takes confirmed = Unit
  Takes delete_cancelled = Unit
  Takes delete_confirmed = Unit
  Takes (view_clicked item) = Unit
  Takes (field_changed field value) = Unit
  Takes (page_chosen page) = Unit
  Takes (search_rested text) = Unit

  loaded-holds :
      (default : Text) (answer : Result {0, 0} ServiceError (Paginated Item)) (s : State Item Field)
      → HoldsTargets s
      → HoldsTargets (loaded default answer s)
  loaded-holds default (ok res) s h = h
  loaded-holds default (err e) s h = h

  load-holds :
      (store : S) (s : State Item Field) → HoldsTargets s → HoldsTargets (load kind service store s)
  unfolding load
  load-holds store s h =
      loaded-holds kind.load_failed
        (service.list_page
          (record { page = s.page; limit = limit; filter = s.applied_filter; status = kind.status })
          store)
        (record s { loading = true }) h

  perform-holds :
      (now : Step) (store : S) (s : State Item Field)
      → HoldsTargets s
      → HoldsTargets (perform kind service now store s)
  unfolding perform
  perform-holds close_modal store s (h, k) = (tt, k)
  perform-holds clear_delete store s (h, k) = (h, tt)
  perform-holds reload store s h = load-holds store s h
  perform-holds (announce notice) store s h = h

  perform_all-holds :
      (steps : List Step) (store : S) (s : State Item Field)
      → HoldsTargets s
      → HoldsTargets (perform_all kind service steps store s)
  unfolding perform_all
  perform_all-holds [] store s h = h
  perform_all-holds (now ∷ steps) store s h =
      perform_all-holds steps store (perform kind service now store s) (perform-holds now store s h)

  -- where a handler leaves the server and the page
  abbrev Leaves : S → S × State Item Field → Type 0
  Leaves a (b, s) = Writes a b × HoldsTargets s

  saved-Leaves :
      (a : S) (steps : List Step) (answer : S × Result {0, 0} ServiceError Unit)
      (s : State Item Field)
      → Writes a (answer.0)
      → HoldsTargets s
      → Leaves a (saved kind service steps answer s)
  unfolding saved
  saved-Leaves a steps (next, ok accepted) s w h = (w, perform_all-holds steps next s h)
  saved-Leaves a steps (next, err e) s w h = (w, h)

  save-Leaves :
      (a : S) (target : Option Item) (form : Field → Text) (store : S) (s : State Item Field)
      → is_valid kind form ≡ true
      → Writes a store
      → Holds target
      → HoldsTargets s
      → Leaves a (save kind service target form store s)
  unfolding saved
  save-Leaves a none form store s valid w t h =
      saved-Leaves a kind.created (service.create (kind.create_payload form) store) s
        (creates a store form valid w) h
  save-Leaves a (some item) form store s valid w t h =
      saved-Leaves a kind.updated
        (service.update (kind.id_of item) (kind.update_payload form) store) s
        (updates a store item form t valid w) h

  removed-Leaves :
      (a : S) (answer : S × Result {0, 0} ServiceError Unit) (s : State Item Field)
      → Writes a (answer.0)
      → HoldsTargets s
      → Leaves a (removed kind service answer s)
  unfolding removed
  removed-Leaves a (next, ok accepted) s w h = (w, perform_all-holds kind.deleted next s h)
  removed-Leaves a (next, err e) s w h =
      (w, perform_all-holds kind.not_deleted next (notify (shown kind.delete_failed e) s) h)

  remove-Leaves :
      (a : S) (target : Option Item) (store : S) (s : State Item Field)
      → Writes a store
      → Holds target
      → HoldsTargets s
      → Leaves a (remove kind service target store s)
  unfolding removed
  remove-Leaves a none store s w t h = (w, h)
  remove-Leaves a (some item) store s w t h =
      removed-Leaves a (service.remove (kind.id_of item) store) (record s { is_submitting = true })
        (removes a store item t w) h

  show-holds :
      (page : ℕ) (filter : Text) (store : S) (s : State Item Field)
      → HoldsTargets s
      → HoldsTargets (show kind service page filter store s)
  unfolding show
  show-holds page filter store s h =
      if-both HoldsTargets ((page == s.page) && text_eq filter s.applied_filter) h
        (load-holds store (record s { page = page; applied_filter = filter }) h)

  confirm-Leaves :
      (a store : S) (s : State Item Field)
      → Writes a store
      → HoldsTargets s
      → Leaves a (handle_confirm kind service store s)
  unfolding handle_confirm
  confirm-Leaves a store s w h = elim (Bool-cases (is_valid kind s.form)) [
    | inl valid ↦
        subst
          (λ test. Leaves a (
            if test
            then save kind service s.edit_target s.form store
                (record s { form_errors = kind.errors_of s.form; is_submitting = true })
            else (store, record s { form_errors = kind.errors_of s.form })))
          (sym valid)
          (save-Leaves a s.edit_target s.form store
            (record s { form_errors = kind.errors_of s.form; is_submitting = true }) valid w (h.0)
            h)
    | inr invalid ↦ rw invalid (w, h)
  ]

  step-Leaves :
      (a : S) (event : Event Item Field) (store : S) (s : State Item Field)
      → Takes event
      → Writes a store
      → HoldsTargets s
      → Leaves a (step kind service event store s)
  unfolding step open_create open_edit open_view set_delete_target handle_form_change handle_delete
      go_to_page search_settled
  step-Leaves a create_clicked store s t w (h, k) = (w, (tt, k))
  step-Leaves a modal_closed store s t w (h, k) = (w, (tt, k))
  step-Leaves a confirmed store s t w h = confirm-Leaves a store s w h
  step-Leaves a delete_cancelled store s t w (h, k) = (w, (h, tt))
  step-Leaves a delete_confirmed store s t w (h, k) =
      remove-Leaves a s.delete_target store s w k (h, k)
  step-Leaves a (edit_clicked item) store s t w (h, k) = (w, (t, k))
  step-Leaves a (view_clicked item) store s t w (h, k) = (w, (tt, k))
  step-Leaves a (delete_clicked item) store s t w (h, k) = (w, (h, t))
  step-Leaves a (field_changed field value) store s t w h = (w, h)
  step-Leaves a (page_chosen page) store s t w h = (w, show-holds page s.applied_filter store s h)
  step-Leaves a (search_rested text) store s t w h = (
    w,
    if-both HoldsTargets (kind.skips_same_filter && text_eq (trim text) s.applied_filter) h
        (show-holds 1 (trim text) store (record s { search = text }) h),
  )

  run-Leaves :
      (a : S) (events : List (Event Item Field)) (store : S) (s : State Item Field)
      → All Takes events
      → Writes a store
      → HoldsTargets s
      → Leaves a (run kind service events store s)
  unfolding run
  run-Leaves a [] store s t w h = (w, h)
  run-Leaves a (event ∷ events) store s (t, ts) w h =
      let (w, h) = step-Leaves a event store s t w h in
      run-Leaves a events ((step kind service event store s).0)
        ((step kind service event store s).1) ts w h

  -- After any events whose edits and deletions are clicked on rows of `P`, the server has been sent only
  -- creations from valid forms, changes of rows of `P` to valid forms and deletions of rows of `P`.
  pub run-Writes :
      (events : List (Event Item Field)) (store : S)
      → All Takes events
      → Writes store ((run kind service events store (start kind)).0)
  run-Writes events store takes =
      (run-Leaves store events store (start kind) takes (nothing store) (tt, tt)).0
