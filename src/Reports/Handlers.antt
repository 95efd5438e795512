-- ===== src/Reports/Handlers.antt =====
-- The handlers of the report form of DeclarationFunctions.tsx: submitting and removing a report, and
-- the overtime that the API stores.
use sigecat_oraculos.Prelude.{
  Bool, true, false, ◌&&◌, not, Option, none, some, [], Text, txt, or_else, Result, ok, err,
  if◌then◌else◌,
}
use sigecat_oraculos.Js.Strings.{trim, is_empty}
use sigecat_oraculos.Js.Numbers.{Number}
use sigecat_oraculos.Declarations.{FunctionType, official, custom}
use sigecat_oraculos.Reports.Minutes.{entered_minutes, is_positive}
use sigecat_oraculos.Reports.{
  Api, CatalogItem, CreatePayload, Page, Report, UpdatePayload, delete_report, error, notify,
  report_of, set_report, success,
}

unfoldable pub report_total_minutes : Page → Number
unfolding entered_minutes
report_total_minutes page = entered_minutes page.hours page.minutes

unfoldable pub report_ot_minutes : Page → Number
unfolding entered_minutes
report_ot_minutes page = entered_minutes page.ot_hours page.ot_minutes

-- `overtimeMinutes` and `justif` of a submission, which are undefined with no overtime
abbrev pub sent_overtime : Page → Option Number
sent_overtime page =
    if is_positive (report_ot_minutes page) then some (report_ot_minutes page) else none

abbrev pub sent_justification : Page → Option Text
sent_justification page =
    if is_positive (report_ot_minutes page) then some (trim page.justification) else none

abbrev pub update_payload : Page → UpdatePayload
update_payload page = record {
  frequency = some page.frequency;
  duration_minutes = some (report_total_minutes page);
  overtime_minutes = sent_overtime page;
  justification = sent_justification page;
}

abbrev pub id_if : Bool → Text → Option Text
id_if b id = if b then some id else none

abbrev pub is_official : FunctionType → Bool
is_official official = true
is_official custom = false

abbrev pub create_payload : Text → CatalogItem → Page → CreatePayload
create_payload declaration_id item page = record {
  declaration_id = declaration_id;
  official_function_id = id_if (is_official item.kind) item.id;
  custom_function_id = id_if (not (is_official item.kind)) item.id;
  frequency = page.frequency;
  duration_minutes = report_total_minutes page;
  overtime_minutes = sent_overtime page;
  justification = sent_justification page;
}

-- the report that the page keeps of a submission
abbrev pub reported : Text → Page → Report
reported job_function_id page = record {
  job_function_id = job_function_id;
  frequency = page.frequency;
  duration_minutes = report_total_minutes page;
  overtime_minutes = report_ot_minutes page;
  justification = or_else (sent_justification page) [];
}

-- what follows the awaited call: the id of the report, or what was thrown
unfoldable pub submitted : CatalogItem → Page → Result (Option Text) Text → Page
unfolding set_report
submitted item page (ok id) =
    notify (success (txt "Función reportada exitosamente.")) (record page {
      reports = set_report item.id (reported id page) page.reports;
      report_item = none;
      is_submitting = false;
    })
submitted item page (err message) =
    notify (error (or_else message (txt "No se pudo reportar la función.")))
      (record page { is_submitting = false })

abbrev pub updated : Text → Result {0, 0} (Option Text) Unit → Result (Option Text) Text
updated id (ok done) = ok id
updated id (err message) = err message

abbrev pub send_as : Api → Text → CatalogItem → Page → Option Report → Page
send_as api declaration_id item page (some existing) = submitted item page (
    updated existing.job_function_id
      (api.update_job_function existing.job_function_id (update_payload page)))
send_as api declaration_id item page none =
    submitted item page (api.create_job_function (create_payload declaration_id item page))

abbrev pub needs_justification : Page → Bool
needs_justification page =
    is_positive (report_ot_minutes page) && is_empty (trim page.justification)

unfoldable pub checked_report : Api → Text → CatalogItem → Page → Page
unfolding report_of
checked_report api declaration_id item page =
    if not (is_positive (report_total_minutes page))
    then notify (error (txt "Debe indicar un tiempo de duración válido (mayor a 0 minutos).")) page
    else if needs_justification page
    then notify
        (error (txt "La justificación es obligatoria si reporta tiempo adicional a su jornada."))
        page
    else send_as api declaration_id item page (report_of item.id page.reports)

abbrev pub submit_for : Api → Page → Option CatalogItem → Option Text → Page
submit_for api page (some item) (some id) =
    if is_empty id then page else checked_report api id item page
submit_for api page _ _ = page

unfoldable pub submit_report : Api → Page → Page
submit_report api page = submit_for api page page.report_item page.declaration_id

unfoldable pub removed : CatalogItem → Page → Result {0, 0} (Option Text) Unit → Page
unfolding delete_report
removed item page (ok done) =
    notify (success (txt "Reporte eliminado."))
      (record page { reports = delete_report item.id page.reports })
removed item page (err message) =
    notify (error (or_else message (txt "No se pudo eliminar el reporte."))) page

abbrev pub remove_as : Api → CatalogItem → Page → Option Report → Page
remove_as api item page none = page
remove_as api item page (some existing) =
    removed item page (api.delete_job_function existing.job_function_id)

unfoldable pub remove_report : Api → CatalogItem → Page → Page
unfolding report_of
remove_report api item page = remove_as api item page (report_of item.id page.reports)

-- the overtime that the API stores when a report is updated (JobFunctionService.php): a field that
-- the request does not have keeps its value
unfoldable pub stored_overtime : Option Number → Option Number → Option Number
stored_overtime (some sent) stored = some sent
stored_overtime none stored = stored
