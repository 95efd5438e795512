-- ===== src/Catalogue/Events.antt =====
-- What happens to a page of the administration, client/src/app/pages/admin/AreasPage.tsx: an event is
-- one handler with the requests that it awaits, and a run is a sequence of events with the server's
-- state after each. So each event is answered before the next: answers that cross are outside these
-- runs, and Catalogue/Crossing has them.
use sigecat_oraculos.Prelude.{ℕ, none, some, List, [], ◌∷◌, Text}
use sigecat_oraculos.Services.{Service}
use sigecat_oraculos.Catalogue.{
  Kind, State, open_create, open_edit, open_view, close, set_delete_target, handle_form_change,
  handle_confirm, handle_delete, go_to_page, search_settled,
}

pub data Event (Item Field : Type 0) : Type 0 where
  create_clicked modal_closed confirmed delete_cancelled delete_confirmed : Event Item Field
  edit_clicked view_clicked delete_clicked : Item → Event Item Field
  field_changed : Field → Text → Event Item Field
  page_chosen : ℕ → Event Item Field
  search_rested : Text → Event Item Field

module _ {Item Field Payload S : Type 0} (kind : Kind Item Field Payload)
    (service : Service S Item Payload) where
  unfoldable pub step : Event Item Field → S → State Item Field → S × State Item Field
  unfolding open_create open_edit open_view set_delete_target handle_form_change handle_confirm
      handle_delete go_to_page search_settled
  step create_clicked store s = (store, open_create kind s)
  step modal_closed store s = (store, close s)
  step confirmed store s = handle_confirm kind service store s
  step delete_cancelled store s = (store, set_delete_target kind none s)
  step delete_confirmed store s = handle_delete kind service store s
  step (edit_clicked item) store s = (store, open_edit kind item s)
  step (view_clicked item) store s = (store, open_view kind item s)
  step (delete_clicked item) store s = (store, set_delete_target kind (some item) s)
  step (field_changed field value) store s = (store, handle_form_change kind field value s)
  step (page_chosen page) store s = (store, go_to_page kind service page store s)
  step (search_rested text) store s = (store, search_settled kind service text store s)

  unfoldable pub run : List (Event Item Field) → S → State Item Field → S × State Item Field
  unfolding step
  run [] store s = (store, s)
  run (event ∷ events) store s = let (next, t) = step event store s in run events next t
