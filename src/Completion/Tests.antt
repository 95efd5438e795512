-- ===== src/Completion/Tests.antt =====
-- A declaration that needs a justification and has one.
use sigecat_oraculos.Prelude.{◌≡◌, refl, true, none, some, Option, Text, txt, Result, ok}
use sigecat_oraculos.Js.Strings.{trim}
use sigecat_oraculos.Completion.{Page, Call, complete_declaration, handle_complete, is_valid}
use sigecat_oraculos.Completion.Laws.{IsRun, handle_complete_lem}

abbrev page : Page
page = record {
  declaration_id = some (txt "d1");
  justification = txt " Cierre ";
  justification_required = true;
  validation_error = none;
}

abbrev send : Call → Result {0, 0} (Option Text) Unit
send call = ok tt

handle_complete_lem_example :
    (id : Text) × (page.declaration_id ≡ some id)
    × (send (complete_declaration id) ≡ ok tt)
    × IsRun send page id (handle_complete send page).0
unfolding handle_complete is_valid trim
handle_complete_lem_example =
    handle_complete_lem send page (txt "Declaración completada exitosamente.") refl
