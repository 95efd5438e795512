-- ===== src/Users/PageLaws.antt =====
-- The deletion of the last row of UsersPage.tsx, client/src/app/pages/admin/.
use sigecat_oraculos.Prelude.{
  ℕ, true, ltb, ◌&&◌, ◌==◌, ◌+◌, ◌-◌, ◌*◌, ◌<◌, min, none, some, length, if◌then◌else◌, ◌≡◌, sym,
  ap, ◌∙◌, subst, ok, arith, txt,
}
use sigecat_oraculos.LogsPage.{AdminUser}
use sigecat_oraculos.Services.{Service, UserBody}
use sigecat_oraculos.Catalogue.{Notice, State, limit, success, notify, done}
use sigecat_oraculos.Catalogue.Refinement.{Serves, IsSynced, shown_rows, load-IsSynced}
use sigecat_oraculos.Catalogue.LastPage.{length-page_of, load-place}
use sigecat_oraculos.Users.Page.{
  UserField, Registration, accounts, at_page, load_users, user_removed, remove_user,
  handle_delete_user,
}

steps_back : (rows page : ℕ) → rows ≡ 1 → 1 < page → ((rows == 1) && ltb 1 page) ≡ true
steps_back rows page h k = ground arith

-- a list that has lost its last row, where this row was on a later page
page_before :
    (page before after : ℕ)
    → 1 < page
    → min limit (before - (page - 1) * limit) ≡ 1
    → after + 1 ≡ before
    → min limit (after - (page - 1 - 1) * limit) ≡ limit
page_before page before after k h e = grind arith

module _ {S : Type 0} (service : Service S AdminUser (UserBody Registration))
    (server : Serves service) where
  abbrev IsBefore : State AdminUser UserField → S × State AdminUser UserField → Type 0
  IsBefore s (next, t) = (t.page ≡ s.page - 1) × (length t.rows ≡ limit)

  -- Of a page beyond the first that shows one row, the last of the server's list, a deletion that the
  -- server accepts goes to the page before it, which is full.
  pub delete-steps_back :
      (user : AdminUser) (store next : S) (s : State AdminUser UserField)
      → s.delete_target ≡ some user
      → service.remove user.id store ≡ (next, ok tt)
      → IsSynced accounts service server store s
      → length s.rows ≡ 1
      → 1 < s.page
      → length (shown_rows accounts service server next s) + 1
        ≡ length (shown_rows accounts service server store s)
      → (((handle_delete_user service store s).1).page ≡ s.page - 1)
        × (length ((handle_delete_user service store s).1).rows ≡ limit)
  unfolding handle_delete_user
  delete-steps_back user store next s target removes synced one later less =
      subst (λ chosen. IsBefore s (remove_user service chosen store s)) (sym target)
        (subst
          (λ answer. IsBefore s (user_removed service answer (record s { is_submitting = true })))
          (sym removes)
          (subst
            (λ test. IsBefore s (
              next,
              done (
                  if test
                  then load_users service next moved
                  else notify deleted (load_users service next staying)),
            ))
            (sym (steps_back (length s.rows) s.page one later)) (page_eq, rows_eq)))
    where
      deleted : Notice
      deleted = success (txt "Usuario eliminado correctamente.")

      staying : State AdminUser UserField
      staying = record s { is_submitting = true; delete_target = none }

      moved : State AdminUser UserField
      moved = notify deleted (at_page (s.page - 1) staying)

      page_eq : (load_users service next moved).page ≡ s.page - 1
      page_eq = ap (λ p. p.0) (load-place accounts service next moved)

      rows_eq : length (load_users service next moved).rows ≡ limit
      rows_eq =
          ap length ((load-IsSynced accounts service server next moved).0)
          ∙ length-page_of limit _ _
          ∙ ap
              (λ p.
                min limit (length (server.listing next (p.1) accounts.status) - (p.0 - 1) * limit))
              (load-place accounts service next moved)
          ∙ page_before s.page _ _ later
              (sym (length-page_of limit s.page _) ∙ sym (ap length (synced.0)) ∙ one) less
