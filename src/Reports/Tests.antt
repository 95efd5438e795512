-- ===== src/Reports/Tests.antt =====
-- A page with one report, whose form is opened, changed and submitted.
use sigecat_oraculos.Prelude.{
  ◌≡◌, refl, false, Option, none, some, [], ◌∷◌, Text, txt, text_eq, Result, ok, arith,
}
use sigecat_oraculos.Js.Strings.{trim}
use sigecat_oraculos.Js.Numbers.{nat, neg, add, times, negated}
use sigecat_oraculos.Reports.Minutes.{entered_minutes, or_blank, whole_hours, odd_minutes}
use sigecat_oraculos.Declarations.{official}
use sigecat_oraculos.Reports.{
  Page, Report, CatalogItem, Api, CreatePayload, UpdatePayload, report_of, open_report,
}
use sigecat_oraculos.Reports.Handlers.{submit_report}
use sigecat_oraculos.Reports.Laws.{AllSound, submit_report-AllSound}
use sigecat_oraculos.Reports.RoundTrip.{submit_report-open_report}

abbrev item : CatalogItem
item = record { id = txt "of1"; name = txt "Atender"; description = none; kind = official }

abbrev saved : Report
saved = record {
  job_function_id = txt "jf1";
  frequency = txt "Semanal";
  duration_minutes = nat 90;
  overtime_minutes = nat 30;
  justification = txt "Cierre";
}

abbrev page : Page
page = record {
  declaration_id = some (txt "d1");
  reports = (txt "of1", saved) ∷ [];
  report_item = some item;
  frequency = txt "Diario";
  hours = some (nat 1);
  minutes = none;
  ot_hours = none;
  ot_minutes = none;
  justification = [];
  is_submitting = false;
  notices = [];
}

abbrev create_job_function : CreatePayload → Result (Option Text) Text
create_job_function payload = ok (txt "jf2")

abbrev update_job_function : Text → UpdatePayload → Result {0, 0} (Option Text) Unit
update_job_function id payload = ok tt

abbrev delete_job_function : Text → Result {0, 0} (Option Text) Unit
delete_job_function id = ok tt

abbrev api : Api
api = record {
  create_job_function = create_job_function;
  update_job_function = update_job_function;
  delete_job_function = delete_job_function;
}

submit_report-AllSound_example :
    AllSound (submit_report api page).reports
    × ((i : CatalogItem) (other : Text)
        → page.report_item ≡ some i
        → text_eq i.id other ≡ false
        → report_of other (submit_report api page).reports ≡ report_of other page.reports)
submit_report-AllSound_example =
    submit_report-AllSound api page (record { lasts = refl; justified = λ h. refl }, tt)

submit_report-open_report_example :
    (submit_report api (open_report item page)).reports ≡ page.reports
unfolding report_of trim
submit_report-open_report_example =
    submit_report-open_report api item page (txt "d1") saved 89 30 refl refl refl
      (record {
        lasts = refl;
        overtime_of = refl;
        no_overtime = λ h. absurd (ground arith);
        trimmed = refl;
        justified = λ h. refl;
      })
      (λ payload. refl)

-- five minutes below 0 open as an hour and five minutes below 0
negative_overtime :
    entered_minutes (or_blank (whole_hours (neg 4))) (or_blank (odd_minutes (neg 4))) ≡ neg 64
unfolding entered_minutes add times negated
negative_overtime = refl
