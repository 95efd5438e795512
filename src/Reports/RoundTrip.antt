-- ===== src/Reports/RoundTrip.antt =====
-- Opening a report of DeclarationFunctions.tsx and submitting it again; and what is sent to the API.
use sigecat_oraculos.Prelude.{
  ℕ, suc, ◌≡◌, refl, sym, ap, ◌∙◌, inl, inr, true, false, Bool-cases, arith, none, some, [], Text,
  if◌then◌else◌, or_else, ok,
}
use sigecat_oraculos.Js.Strings.{trim, is_empty}
use sigecat_oraculos.Js.Numbers.{Number, nat}
use sigecat_oraculos.Reports.Minutes.{is_positive, entered_minutes-shown}
use sigecat_oraculos.Reports.{
  Page, Report, CatalogItem, Api, report_of, open_report, open_as, UpdatePayload,
}
use sigecat_oraculos.Reports.Handlers.{
  submit_report, submit_for, submitted, report_total_minutes, report_ot_minutes, stored_overtime,
  reported, update_payload, needs_justification, checked_report,
}
use sigecat_oraculos.Reports.Records.{set_report-report_of}

-- A report of whole minutes and of overtime that is not negative, with a trimmed justification just when
-- there is overtime. The page keeps negative overtime too, which is not regular.
pub record IsRegular (r : Report) (duration : ℕ) (overtime : ℕ) : Type 0 where
  pub lasts : r.duration_minutes ≡ nat (suc duration)
  pub overtime_of : r.overtime_minutes ≡ nat overtime
  pub no_overtime : is_positive (nat overtime) ≡ false → r.justification ≡ []
  pub trimmed : trim r.justification ≡ r.justification
  pub justified : is_positive (nat overtime) ≡ true → is_empty r.justification ≡ false

kept :
    (r : Report) (d o : ℕ)
    → IsRegular r d o
    → or_else (if is_positive (nat o) then some (trim r.justification) else none) []
      ≡ r.justification
kept r d o h = elim (Bool-cases (is_positive (nat o))) [
  | inl e ↦ rw e h.trimmed
  | inr e ↦ rw e (sym (h.no_overtime e))
]

total_opened :
    (r : Report) (d o : ℕ) (item : CatalogItem) (page : Page)
    → IsRegular r d o
    → report_total_minutes (open_as item page (some r)) ≡ nat (suc d)
unfolding report_total_minutes
total_opened r d o item page h = rw h.lasts (entered_minutes-shown (suc d))

ot_opened :
    (r : Report) (d o : ℕ) (item : CatalogItem) (page : Page)
    → IsRegular r d o
    → report_ot_minutes (open_as item page (some r)) ≡ nat o
unfolding report_ot_minutes
ot_opened r d o item page h = rw h.overtime_of (entered_minutes-shown o)

opened :
    (r : Report) (d o : ℕ) (item : CatalogItem) (page : Page)
    → IsRegular r d o
    → reported r.job_function_id (open_as item page (some r)) ≡ r
opened r d o item page h =
    rw (total_opened r d o item page h, ot_opened r d o item page h, h.lasts, h.overtime_of)
      (ap
        (λ j. record r {
          duration_minutes = nat (suc d);
          overtime_minutes = nat o;
          justification = j;
        })
        (kept r d o h))

no_complaint :
    (r : Report) (d o : ℕ) (item : CatalogItem) (page : Page)
    → IsRegular r d o
    → needs_justification (open_as item page (some r)) ≡ false
no_complaint r d o item page h =
    rw (ot_opened r d o item page h, h.trimmed)
      (elim (Bool-cases (is_positive (nat o))) [
        | inl e ↦ rw (e, h.justified e) refl
        | inr e ↦ rw e refl
      ])

suc-positive : (d : ℕ) → is_positive (nat (suc d)) ≡ true
suc-positive d = ground arith

resubmitted :
    (api : Api) (id : Text) (item : CatalogItem) (page : Page) (r : Report)
    → is_positive (report_total_minutes page) ≡ true
    → needs_justification page ≡ false
    → report_of item.id page.reports ≡ some r
    → ((payload : UpdatePayload) → api.update_job_function r.job_function_id payload ≡ ok tt)
    → reported r.job_function_id page ≡ r
    → (checked_report api id item page).reports ≡ page.reports
unfolding checked_report submitted
resubmitted api id item page r lasts fine found accepts same =
    rw (lasts, fine, found, accepts)
      (set_report-report_of item.id _ page.reports (found ∙ ap some (sym same)))

-- On the page of a declaration, opening a report whose minutes are whole, whose overtime is not negative
-- and whose justification is trimmed and there just with overtime, and submitting the form as it is,
-- leaves the reports as they were, provided that the API accepts the update.
pub submit_report-open_report :
    (api : Api) (item : CatalogItem) (page : Page) (id : Text) (r : Report) (d o : ℕ)
    → page.declaration_id ≡ some id
    → is_empty id ≡ false
    → report_of item.id page.reports ≡ some r
    → IsRegular r d o
    → ((payload : UpdatePayload) → api.update_job_function r.job_function_id payload ≡ ok tt)
    → (submit_report api (open_report item page)).reports ≡ page.reports
unfolding submit_report open_report
submit_report-open_report api item page id r d o has_id filled found saved accepts =
    ap (λ f. (submit_report api (open_as item page f)).reports) found
    ∙ ap (λ i. (submit_for api form (some item) i).reports) has_id
    ∙ ap (λ b. (if b then form else checked_report api id item form).reports) filled
    ∙ resubmitted api id item form r (rw (total_opened r d o item page saved) (suc-positive d))
        (no_complaint r d o item page saved) found accepts (opened r d o item page saved)
  where
    form : Page
    form = open_as item page (some r)

-- When overtime is taken back, the page keeps a report with no overtime, but the request does not
-- have the field, so that the API keeps what it had stored.
pub overtime_taken_back :
    (page : Page) (id : Text) (stored : Number)
    → report_ot_minutes page ≡ nat 0
    → ((reported id page).overtime_minutes ≡ nat 0)
      × (stored_overtime (update_payload page).overtime_minutes (some stored) ≡ some stored)
unfolding stored_overtime
overtime_taken_back page id stored h = (h, rw h refl)
