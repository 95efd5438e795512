-- ===== src/Catalogue/Refinement.antt =====
-- A page of the administration against a server that holds lists of rows: what the page shows is a page
-- of what the server holds. The server is the API behind client/src/services/areaService.ts and its kin.
use sigecat_oraculos.Prelude.{
  ℕ, Bool, ◌&&◌, ◌==◌, text_eq, true, false, if-both, Option, none, some, List, [], ◌∷◌, Text,
  length, ◌≡◌, refl, sym, subst, Result, ok, err, arith,
}
use sigecat_oraculos.Js.Strings.{trim}
use sigecat_oraculos.Paging.{ceil_div, page_of}
use sigecat_oraculos.Logs.Recent.{answer}
use sigecat_oraculos.Services.{ServiceError, ListParams, Service}
use sigecat_oraculos.Catalogue.{
  Kind, State, Step, close_modal, clear_delete, reload, announce, open_create, open_edit, open_view,
  close, set_delete_target, handle_form_change, handle_confirm, handle_delete, go_to_page,
  search_settled, show, load, loaded, perform, perform_all, saved, save, removed, remove, is_valid,
  start, limit, notify, shown,
}
use sigecat_oraculos.Catalogue.Events.{
  Event, create_clicked, modal_closed, confirmed, delete_cancelled, delete_confirmed, edit_clicked,
  view_clicked, delete_clicked, field_changed, page_chosen, search_rested, step, run,
}

-- What the pages rely on: under a filter and a status the server has a list of rows, it answers every
-- page of it, and a write that it refuses changes nothing.
pub record Serves {S Item Payload : Type 0} (service : Service S Item Payload) : Type 0 where
  pub listing : S → Text → Option Text → List Item
  pub serves :
      (params : ListParams) (store : S)
      → service.list_page params store
        ≡ ok (answer (listing store params.filter params.status) params.limit params.page)
  pub create_refused :
      (payload : Payload) (store : S) (e : ServiceError)
      → (service.create payload store).1 ≡ err e
      → (service.create payload store).0 ≡ store
  pub update_refused :
      (id : Text) (payload : Payload) (store : S) (e : ServiceError)
      → (service.update id payload store).1 ≡ err e
      → (service.update id payload store).0 ≡ store
  pub remove_refused :
      (id : Text) (store : S) (e : ServiceError)
      → (service.remove id store).1 ≡ err e
      → (service.remove id store).0 ≡ store

abbrev pub reloads : List Step → Bool
reloads [] = false
reloads (reload ∷ steps) = true
reloads (close_modal ∷ steps) = reloads steps
reloads (clear_delete ∷ steps) = reloads steps
reloads (announce notice ∷ steps) = reloads steps

-- the page loads the rows again after every write
abbrev pub Reloads : {Item Field Payload : Type 0} → Kind Item Field Payload → Type 0
Reloads kind =
    (reloads kind.created ≡ true) × (reloads kind.updated ≡ true) × (reloads kind.deleted ≡ true)

module _ {Item Field Payload S : Type 0} (kind : Kind Item Field Payload)
    (service : Service S Item Payload) (server : Serves service) where
  abbrev pub shown_rows : S → State Item Field → List Item
  shown_rows store s = server.listing store s.applied_filter kind.status

  -- the rows are the page of the server's list under the filter, and the number of pages is its own
  abbrev pub IsSynced : S → State Item Field → Type 0
  IsSynced store s =
      (s.rows ≡ page_of limit s.page (shown_rows store s))
      × (s.total_pages ≡ some (ceil_div (length (shown_rows store s)) limit))

  pub load-IsSynced :
      (store : S) (s : State Item Field) → IsSynced store (load kind service store s)
  unfolding load
  load-IsSynced store s =
      subst (λ res. IsSynced store (loaded kind.load_failed res (record s { loading = true })))
        (sym (server.serves _ store)) (refl, refl)

  perform-IsSynced :
      (now : Step) (store : S) (s : State Item Field)
      → IsSynced store s
      → IsSynced store (perform kind service now store s)
  unfolding perform
  perform-IsSynced close_modal store s h = h
  perform-IsSynced clear_delete store s h = h
  perform-IsSynced reload store s h = load-IsSynced store s
  perform-IsSynced (announce notice) store s h = h

  perform_all-IsSynced :
      (steps : List Step) (store : S) (s : State Item Field)
      → IsSynced store s
      → IsSynced store (perform_all kind service steps store s)
  unfolding perform_all
  perform_all-IsSynced [] store s h = h
  perform_all-IsSynced (now ∷ steps) store s h =
      perform_all-IsSynced steps store (perform kind service now store s)
        (perform-IsSynced now store s h)

  -- once the rows are loaded again nothing is asked of the state before
  pub reloading-IsSynced :
      (steps : List Step) (store : S) (s : State Item Field)
      → reloads steps ≡ true
      → IsSynced store (perform_all kind service steps store s)
  unfolding perform_all perform
  reloading-IsSynced [] store s h = ground arith
  reloading-IsSynced (reload ∷ steps) store s h =
      perform_all-IsSynced steps store (load kind service store s) (load-IsSynced store s)
  reloading-IsSynced (close_modal ∷ steps) store s h = reloading-IsSynced steps store (close s) h
  reloading-IsSynced (clear_delete ∷ steps) store s h =
      reloading-IsSynced steps store (record s { delete_target = none }) h
  reloading-IsSynced (announce notice ∷ steps) store s h =
      reloading-IsSynced steps store (notify notice s) h

  saved-IsSynced :
      (steps : List Step) (store : S) (answer : S × Result {0, 0} ServiceError Unit)
      (s : State Item Field)
      → reloads steps ≡ true
      → ((e : ServiceError) → answer.1 ≡ err e → answer.0 ≡ store)
      → IsSynced store s
      → IsSynced ((saved kind service steps answer s).0) ((saved kind service steps answer s).1)
  unfolding saved
  saved-IsSynced steps store (next, ok accepted) s again refused h =
      reloading-IsSynced steps next s again
  saved-IsSynced steps store (next, err e) s again refused h =
      subst (λ now. IsSynced now s) (sym (refused e refl)) h

  save-IsSynced :
      Reloads kind
      → (target : Option Item) (form : Field → Text) (store : S) (s : State Item Field)
      → IsSynced store s
      → IsSynced
          ((save kind service target form store s).0)
          ((save kind service target form store s).1)
  unfolding saved
  save-IsSynced again none form store s h =
      saved-IsSynced kind.created store (service.create (kind.create_payload form) store) s
        (again.0) (server.create_refused (kind.create_payload form) store) h
  save-IsSynced again (some item) form store s h =
      saved-IsSynced kind.updated store
        (service.update (kind.id_of item) (kind.update_payload form) store) s (again.1)
        (server.update_refused (kind.id_of item) (kind.update_payload form) store) h

  removed-IsSynced :
      (store : S) (answer : S × Result {0, 0} ServiceError Unit) (s : State Item Field)
      → reloads kind.deleted ≡ true
      → ((e : ServiceError) → answer.1 ≡ err e → answer.0 ≡ store)
      → IsSynced store s
      → IsSynced ((removed kind service answer s).0) ((removed kind service answer s).1)
  unfolding removed
  removed-IsSynced store (next, ok accepted) s again refused h =
      reloading-IsSynced kind.deleted next s again
  removed-IsSynced store (next, err e) s again refused h =
      perform_all-IsSynced kind.not_deleted next (notify (shown kind.delete_failed e) s)
        (subst (λ now. IsSynced now s) (sym (refused e refl)) h)

  remove-IsSynced :
      Reloads kind
      → (target : Option Item) (store : S) (s : State Item Field) → IsSynced store s
      → IsSynced ((remove kind service target store s).0) ((remove kind service target store s).1)
  unfolding removed
  remove-IsSynced again none store s h = h
  remove-IsSynced again (some item) store s h =
      removed-IsSynced store (service.remove (kind.id_of item) store)
        (record s { is_submitting = true }) (again.2)
        (server.remove_refused (kind.id_of item) store) h

  show-IsSynced :
      (page : ℕ) (filter : Text) (store : S) (s : State Item Field)
      → IsSynced store s
      → IsSynced store (show kind service page filter store s)
  unfolding show
  show-IsSynced page filter store s h =
      if-both (IsSynced store) ((page == s.page) && text_eq filter s.applied_filter) h
        (load-IsSynced store (record s { page = page; applied_filter = filter }))

  confirm-IsSynced :
      Reloads kind
      → (store : S) (s : State Item Field) → IsSynced store s
      → IsSynced ((handle_confirm kind service store s).0) ((handle_confirm kind service store s).1)
  unfolding handle_confirm
  confirm-IsSynced again store s h =
      if-both {A = S × State Item Field} (λ t. IsSynced (t.0) (t.1)) (is_valid kind s.form)
        (save-IsSynced again s.edit_target s.form store
          (record s { form_errors = kind.errors_of s.form; is_submitting = true }) h)
        h

  step-IsSynced :
      Reloads kind
      → (event : Event Item Field) (store : S) (s : State Item Field) → IsSynced store s
      → IsSynced ((step kind service event store s).0) ((step kind service event store s).1)
  unfolding step open_create open_edit open_view set_delete_target handle_form_change handle_delete
      go_to_page search_settled
  step-IsSynced again create_clicked store s h = h
  step-IsSynced again modal_closed store s h = h
  step-IsSynced again confirmed store s h = confirm-IsSynced again store s h
  step-IsSynced again delete_cancelled store s h = h
  step-IsSynced again delete_confirmed store s h = remove-IsSynced again s.delete_target store s h
  step-IsSynced again (edit_clicked item) store s h = h
  step-IsSynced again (view_clicked item) store s h = h
  step-IsSynced again (delete_clicked item) store s h = h
  step-IsSynced again (field_changed field value) store s h = h
  step-IsSynced again (page_chosen page) store s h = show-IsSynced page s.applied_filter store s h
  step-IsSynced again (search_rested text) store s h =
      if-both (IsSynced store) (kind.skips_same_filter && text_eq (trim text) s.applied_filter) h
        (show-IsSynced 1 (trim text) store (record s { search = text }) h)

  run-IsSynced' :
      Reloads kind
      → (events : List (Event Item Field)) (store : S) (s : State Item Field) → IsSynced store s
      → IsSynced ((run kind service events store s).0) ((run kind service events store s).1)
  unfolding run
  run-IsSynced' again [] store s h = h
  run-IsSynced' again (event ∷ events) store s h =
      run-IsSynced' again events ((step kind service event store s).0)
        ((step kind service event store s).1) (step-IsSynced again event store s h)

  -- Of a kind whose page loads its rows again after every write, against a server that answers every page
  -- of its lists and changes nothing when it refuses a write: after the first load and any events, each
  -- with its requests answered before the next, the rows shown are the chosen page of the server's list under the applied filter, and the number of
  -- pages is that of this list.
  pub run-IsSynced :
      Reloads kind
      → (events : List (Event Item Field)) (store : S)
      → IsSynced
          ((run kind service events store (load kind service store (start kind))).0)
          ((run kind service events store (load kind service store (start kind))).1)
  run-IsSynced again events store =
      run-IsSynced' again events store (load kind service store (start kind))
        (load-IsSynced store (start kind))
