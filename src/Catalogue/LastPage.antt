-- ===== src/Catalogue/LastPage.antt =====
-- The deletion of the one row that a page of the administration shows, in the pages that stay where they
-- are: AreasPage.tsx and its kin under client/src/app/pages/admin/.
use sigecat_oraculos.Prelude.{
  ℕ, true, ◌+◌, ◌-◌, ◌*◌, min, some, List, [], ◌∷◌, Text, length, length-take, length-drop, drop,
  ◌≡◌, refl, sym, ap, ◌∙◌, subst, Result, ok, err, arith,
}
use sigecat_oraculos.Paging.{page_of}
use sigecat_oraculos.Logs.{Paginated}
use sigecat_oraculos.Services.{ServiceError, Service}
use sigecat_oraculos.Catalogue.{
  Kind, State, Step, close_modal, clear_delete, reload, announce, load, loaded, perform,
  perform_all, done, removed, remove, handle_delete, limit,
}
use sigecat_oraculos.Catalogue.Refinement.{
  Serves, IsSynced, shown_rows, reloading-IsSynced, Reloads,
}

pub length-page_of {ℓ} :
    {A : Type ℓ} (size page : ℕ) (all : List A)
    → length (page_of size page all) ≡ min size (length all - (page - 1) * size)
length-page_of size page all =
    length-take size (drop ((page - 1) * size) all)
    ∙ ap (min size) (length-drop ((page - 1) * size) all)

module _ {Item Field Payload S : Type 0} (kind : Kind Item Field Payload)
    (service : Service S Item Payload) where
  abbrev place : State Item Field → ℕ × Text
  place s = (s.page, s.applied_filter)

  loaded-place :
      (default : Text) (answer : Result {0, 0} ServiceError (Paginated Item)) (s : State Item Field)
      → place (loaded default answer s) ≡ place s
  loaded-place default (ok res) s = refl
  loaded-place default (err e) s = refl

  pub load-place : (store : S) (s : State Item Field) → place (load kind service store s) ≡ place s
  unfolding load
  load-place store s = loaded-place kind.load_failed _ _

  perform-place :
      (now : Step) (store : S) (s : State Item Field)
      → place (perform kind service now store s) ≡ place s
  unfolding perform
  perform-place close_modal store s = refl
  perform-place clear_delete store s = refl
  perform-place reload store s = load-place store s
  perform-place (announce notice) store s = refl

  pub perform_all-place :
      (steps : List Step) (store : S) (s : State Item Field)
      → place (perform_all kind service steps store s) ≡ place s
  unfolding perform_all
  perform_all-place [] store s = refl
  perform_all-place (now ∷ steps) store s =
      perform_all-place steps store (perform kind service now store s) ∙ perform-place now store s

  module _ (server : Serves service) where
    abbrev IsEmptied : State Item Field → S × State Item Field → Type 0
    IsEmptied s (next, t) = (length t.rows ≡ 0) × (t.page ≡ s.page)

    -- a list that has lost one row, where one row was on the page
    left-over :
        (page before after : ℕ)
        → min limit (before - (page - 1) * limit) ≡ 1
        → after + 1 ≡ before
        → min limit (after - (page - 1) * limit) ≡ 0
    left-over page before after h e = grind arith

    empty-page :
        (store next : S) (s t : State Item Field)
        → IsSynced kind service server store s
        → length s.rows ≡ 1
        → length (shown_rows kind service server next s) + 1
          ≡ length (shown_rows kind service server store s)
        → IsSynced kind service server next t
        → place t ≡ place s
        → (length t.rows ≡ 0) × (t.page ≡ s.page)
    empty-page store next s t before one less after same = (
      ap length (after.0)
          ∙ length-page_of limit t.page _
          ∙ ap (λ p. min limit (length (server.listing next (p.1) kind.status) - (p.0 - 1) * limit))
              same
          ∙ left-over s.page _ _
              (sym (length-page_of limit s.page _) ∙ sym (ap length (before.0)) ∙ one) less,
      ap (λ p. p.0) same,
    )

    -- Of a page that shows one row, the last of the server's list, a deletion that the server accepts
    -- leaves a page without rows, with the same number as before.
    pub delete-empties_page :
        Reloads kind
        → (item : Item) (store next : S) (s : State Item Field) → s.delete_target ≡ some item
        → service.remove (kind.id_of item) store ≡ (next, ok tt)
        → IsSynced kind service server store s
        → length s.rows ≡ 1
        → length (shown_rows kind service server next s) + 1
          ≡ length (shown_rows kind service server store s)
        → (length ((handle_delete kind service store s).1).rows ≡ 0)
          × (((handle_delete kind service store s).1).page ≡ s.page)
    unfolding handle_delete removed
    delete-empties_page again item store next s target removes synced one less =
        subst (λ chosen. IsEmptied s (remove kind service chosen store s)) (sym target)
          (subst (λ answer. IsEmptied s (removed kind service answer sending)) (sym removes)
            (empty-page store next s (done (perform_all kind service kind.deleted next sending))
              synced one less
              (reloading-IsSynced kind service server kind.deleted next sending (again.2))
              (perform_all-place kind.deleted next sending)))
      where
        sending : State Item Field
        sending = record s { is_submitting = true }
