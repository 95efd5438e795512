-- ===== src/Catalogue/InUse.antt =====
-- The update of an official function that declarations use, FunctionsPage.tsx of
-- client/src/app/pages/admin/.
use sigecat_oraculos.Prelude.{
  true, false, some, List, text_eq, text_eq_refl, if◌then◌else◌, ◌≡◌, refl, sym, subst, Result, ok,
  err,
}
use sigecat_oraculos.Services.{ServiceError, Service}
use sigecat_oraculos.Catalogue.{Notice, is_valid}
use sigecat_oraculos.Catalogue.Functions.{
  TimedFunction, FunctionPayload, FunctionsState, functions, function_in_use, build_payload, save,
  updated, update_failed, confirmed, resend, handle_confirm, confirm_pending_update,
}

module _ {S : Type 0} (service : Service S TimedFunction FunctionPayload) where
  confirmed-store :
      (answer : S × Result {0, 0} ServiceError Unit) (s : FunctionsState)
      → (confirmed service answer s).0 ≡ answer.0
  unfolding confirmed
  confirmed-store (next, ok accepted) s = refl
  confirmed-store (next, err e) s = refl

  -- the request that follows: the same function and payload, with the confirmation
  abbrev pub IsResent :
      TimedFunction → FunctionPayload → S → List Notice → S × FunctionsState → Type 0
  IsResent target payload next notices (store, s) =
      ((confirm_pending_update service store s).0
        ≡ (service.update target.id (record payload { confirm = true }) next).0)
      × (s.page.form_open ≡ false)
      × (s.page.notices ≡ notices)

  update_failed-IsResent :
      (target : TimedFunction) (next : S) (e : ServiceError) (s : FunctionsState)
      → text_eq e.code function_in_use ≡ true
      → IsResent target
          (build_payload s.page.form)
          next
          s.page.notices
          (next, update_failed service target e s)
  unfolding update_failed confirm_pending_update resend
  update_failed-IsResent target next e s used = rw used (confirmed-store _ _, refl, refl)

  -- Of a valid form of a function whose update the server refuses because declarations use it: the form is
  -- closed with no notice of an error, and the administrator's confirmation sends the same function the
  -- same payload, with the flag that confirms it.
  pub handle_confirm-IsResent :
      (target : TimedFunction) (store next : S) (e : ServiceError) (s : FunctionsState)
      → s.page.edit_target ≡ some target
      → is_valid functions s.page.form ≡ true
      → service.update target.id (build_payload s.page.form) store ≡ (next, err e)
      → e.code ≡ function_in_use
      → IsResent target
          (build_payload s.page.form)
          next
          s.page.notices
          (handle_confirm service store s)
  unfolding handle_confirm save
  handle_confirm-IsResent target store next e s edits valid refused used =
      subst
        (λ test. IsResent target (build_payload s.page.form) next s.page.notices (
          if test then save service s.page.edit_target s.page.form store sending else (
            store,
            record s { page = record s.page { form_errors = functions.errors_of s.page.form } },
          )))
        (sym valid)
        (subst
          (λ chosen.
            IsResent target (build_payload s.page.form) next s.page.notices
              (save service chosen s.page.form store sending))
          (sym edits)
          (subst
            (λ answer.
              IsResent target (build_payload s.page.form) next s.page.notices
                (updated service target answer sending))
            (sym refused)
            (update_failed-IsResent target next e sending (
              subst (λ c. text_eq c function_in_use ≡ true) (sym used)
                (text_eq_refl function_in_use)))))
    where
      sending : FunctionsState
      sending = record s {
        page = record s.page {
          form_errors = functions.errors_of s.page.form;
          is_submitting = true;
        };
      }
