-- ===== src/Reports/Laws.antt =====
-- What the handlers of the report form of DeclarationFunctions.tsx do to the reports.
use sigecat_oraculos.Prelude.{
  ◌≡◌, ◌⊎◌, refl, sym, ap, ◌∙◌, inl, inr, true, false, Bool-cases, Option, arith, none, some, [],
  ◌∷◌, Text, text_eq, Result, ok, err,
}
use mathlib.Core.Option.{some-injective}
use sigecat_oraculos.Js.Strings.{is_empty}
use sigecat_oraculos.Reports.Minutes.{is_positive}
use sigecat_oraculos.Reports.{
  Page, Report, Reports, CatalogItem, Api, report_of, set_report, delete_report,
}
use sigecat_oraculos.Reports.Handlers.{
  submit_report, remove_report, submitted, report_total_minutes, reported, send_as, submit_for,
  needs_justification, checked_report, removed,
}
use sigecat_oraculos.Reports.Records.{
  report_of-set_report-other, report_of-delete_report, report_of-delete_report-other,
}

-- what the form promises of a report that it keeps
pub record IsSound (r : Report) : Type 0 where
  pub lasts : is_positive r.duration_minutes ≡ true
  pub justified : is_positive r.overtime_minutes ≡ true → is_empty r.justification ≡ false

abbrev pub AllSound : Reports → Type 0
AllSound [] = Unit
AllSound ((k, r) ∷ rest) = IsSound r × AllSound rest

set_report-AllSound :
    (id : Text) (r : Report) (reports : Reports)
    → IsSound r
    → AllSound reports
    → AllSound (set_report id r reports)
unfolding set_report
set_report-AllSound id r [] h all = (h, tt)
set_report-AllSound id r ((k, s) ∷ rest) h all = elim (Bool-cases (text_eq k id)) [
  | inl e ↦ rw e (h, all.1)
  | inr e ↦ rw e (all.0, set_report-AllSound id r rest h all.1)
]

delete_report-AllSound :
    (id : Text) (reports : Reports) → AllSound reports → AllSound (delete_report id reports)
unfolding delete_report
delete_report-AllSound id [] all = tt
delete_report-AllSound id ((k, s) ∷ rest) all = elim (Bool-cases (text_eq k id)) [
  | inl e ↦ rw e (delete_report-AllSound id rest all.1)
  | inr e ↦ rw e (all.0, delete_report-AllSound id rest all.1)
]

reported-IsSound :
    (id : Text) (page : Page)
    → is_positive (report_total_minutes page) ≡ true
    → needs_justification page ≡ false
    → IsSound (reported id page)
reported-IsSound id page lasts ok_justification = record {
  lasts = lasts;
  justified = λ h. rw h (rw h at ok_justification);
}

-- What a submission leaves of the reports: all as they were, or one set for the open item.
abbrev Outcome : Page → Page → Type 0
Outcome page after =
    (after.reports ≡ page.reports)
    ⊎ ((item : CatalogItem) × (id : Text) × (page.report_item ≡ some item)
        × IsSound (reported id page)
        × (after.reports ≡ set_report item.id (reported id page) page.reports))

submitted-Outcome :
    (item : CatalogItem) (page : Page) (answer : Result (Option Text) Text)
    → page.report_item ≡ some item
    → ((id : Text) → IsSound (reported id page))
    → Outcome page (submitted item page answer)
unfolding submitted
submitted-Outcome item page (ok id) h sound = inr (item, id, h, sound id, refl)
submitted-Outcome item page (err message) h sound = inl refl

send_as-Outcome :
    (api : Api) (declaration_id : Text) (item : CatalogItem) (page : Page) (r : Option Report)
    → page.report_item ≡ some item
    → ((id : Text) → IsSound (reported id page))
    → Outcome page (send_as api declaration_id item page r)
send_as-Outcome api declaration_id item page none h sound = submitted-Outcome item page _ h sound
send_as-Outcome api declaration_id item page (some r) h sound =
    submitted-Outcome item page _ h sound

checked_report-Outcome :
    (api : Api) (declaration_id : Text) (item : CatalogItem) (page : Page)
    → page.report_item ≡ some item
    → Outcome page (checked_report api declaration_id item page)
unfolding checked_report
checked_report-Outcome api declaration_id item page h =
    elim (Bool-cases (is_positive (report_total_minutes page))) [
      | inr e ↦ rw e (inl refl)
      | inl e ↦ elim (Bool-cases (needs_justification page)) [
        | inl f ↦ rw (e, f) (inl refl)
        | inr f ↦
            rw (e, f)
              (send_as-Outcome api declaration_id item page _ h
                (λ id. reported-IsSound id page e f))
      ]
    ]

submit_for-Outcome :
    (api : Api) (page : Page) (item : Option CatalogItem) (id : Option Text)
    → page.report_item ≡ item
    → Outcome page (submit_for api page item id)
submit_for-Outcome api page none id h = inl refl
submit_for-Outcome api page (some item) none h = inl refl
submit_for-Outcome api page (some item) (some id) h = elim (Bool-cases (is_empty id)) [
  | inl g ↦ rw g (inl refl)
  | inr g ↦ rw g (checked_report-Outcome api id item page h)
]

-- Submitting the form, whatever it holds and whatever the API answers, keeps every report sound (a
-- duration above zero, and a justification that is not empty when there is overtime), and it keeps
-- the report of every function but the one whose form is open.
pub submit_report-AllSound :
    (api : Api) (page : Page)
    → AllSound page.reports
    → AllSound (submit_report api page).reports
      × ((item : CatalogItem) (other : Text)
          → page.report_item ≡ some item
          → text_eq item.id other ≡ false
          → report_of other (submit_report api page).reports ≡ report_of other page.reports)
unfolding submit_report
submit_report-AllSound api page all =
    elim (submit_for-Outcome api page page.report_item page.declaration_id refl) [
      | inl same ↦ (rw same all, λ item other h differs. ap (report_of other) same)
      | inr (item, id, h, sound, set) ↦ (
        rw set (set_report-AllSound item.id (reported id page) page.reports sound all),
        λ other_item other e differs.
            ap (report_of other) set
            ∙ report_of-set_report-other item.id other (reported id page) page.reports
                (rw (some-injective item other_item (sym h ∙ e)) differs),
      )
    ]

removed_lem :
    (item : CatalogItem) (page : Page) (answer : Result {0, 0} (Option Text) Unit)
    → AllSound page.reports
    → let after = (removed item page answer).reports in
      AllSound after
      × (answer ≡ ok tt → report_of item.id after ≡ none)
      × ((m : Option Text) → answer ≡ err m → after ≡ page.reports)
      × ((other : Text)
          → text_eq item.id other ≡ false
          → report_of other after ≡ report_of other page.reports)
unfolding removed
removed_lem item page (ok done) all = (
  delete_report-AllSound item.id page.reports all,
  λ d. report_of-delete_report item.id page.reports,
  λ m d. absurd (ground arith),
  λ other differs. report_of-delete_report-other item.id other page.reports differs,
)
removed_lem item page (err message) all =
    (all, λ d. absurd (ground arith), λ m d. refl, λ other differs. refl)

-- Removing a report that the page has, among sound reports, keeps the others and leaves all sound;
-- when the API has deleted it, it is gone, and when the API fails no report changes.
pub remove_report_lem :
    (api : Api) (item : CatalogItem) (page : Page) (r : Report)
    → report_of item.id page.reports ≡ some r
    → AllSound page.reports
    → let after = (remove_report api item page).reports in
      AllSound after
      × (api.delete_job_function r.job_function_id ≡ ok tt → report_of item.id after ≡ none)
      × ((m : Option Text)
          → api.delete_job_function r.job_function_id ≡ err m
          → after ≡ page.reports)
      × ((other : Text)
          → text_eq item.id other ≡ false
          → report_of other after ≡ report_of other page.reports)
unfolding remove_report
remove_report_lem api item page r h all =
    rw h (removed_lem item page (api.delete_job_function r.job_function_id) all)
