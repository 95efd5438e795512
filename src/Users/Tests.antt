-- ===== src/Users/Tests.antt =====
-- Three users on one page.
use sigecat_oraculos.Catalogue.{State, start}
use sigecat_oraculos.Catalogue.Samples.{never-refused, eleven}
use sigecat_oraculos.Catalogue.Refinement.{Serves}
use sigecat_oraculos.Services.{Service, UserBody}
use sigecat_oraculos.Users.Page.{UserField, Registration, accounts, handle_delete_user}
use sigecat_oraculos.Users.PageLaws.{delete-steps_back}
use sigecat_oraculos.LogsPage.{AdminUser, employee}
use sigecat_oraculos.Prelude.{
  ℕ, ◌≡◌, refl, List, [], ◌∷◌, Result, ok, map, filter, not, text_eq, txt, Text, some, length,
  arith,
}
use sigecat_oraculos.Logs.{Paginated}
use sigecat_oraculos.Logs.Recent.{answer}

abbrev users : List ℕ
users = 1 ∷ 2 ∷ 3 ∷ []

abbrev server : ℕ → ℕ → Result ℕ (Paginated ℕ)
server limit page = ok (answer users limit page)

abbrev extract : ℕ → ℕ
extract e = e

abbrev account : Text → AdminUser
account id = record { id = id; email = id; first_name = id; last_name = []; role = employee }

abbrev account_server : Service (List AdminUser) AdminUser (UserBody Registration)
account_server = record {
  list_page = λ params store. ok (answer store params.limit params.page);
  create = λ body store. (store, ok tt);
  update = λ id body store. (store, ok tt);
  remove = λ id store. (filter (λ u. not (text_eq u.id id)) store, ok tt);
}

abbrev account_server-Serves : Serves account_server
account_server-Serves = record {
  listing = λ store text status. store;
  serves = λ params store. refl;
  create_refused = λ body store e h. never-refused (ok tt) e refl h;
  update_refused = λ id body store e h. never-refused (ok tt) e refl h;
  remove_refused = λ id store e h. never-refused (ok tt) e refl h;
}

abbrev eleven_users : List AdminUser
eleven_users = map (λ a. account a.area_id) eleven

-- the second page, with the deletion of its one row asked for
abbrev second : State AdminUser UserField
unfolding accounts
second = record (start accounts) {
  rows = account (txt "11") ∷ [];
  total_pages = some 2;
  page = 2;
  delete_target = some (account (txt "11"));
}

delete-steps_back_example :
    (((handle_delete_user account_server eleven_users second).1).page ≡ 1)
    × (length ((handle_delete_user account_server eleven_users second).1).rows ≡ 10)
unfolding second accounts
delete-steps_back_example =
    delete-steps_back account_server account_server-Serves (account (txt "11")) eleven_users
      (filter (λ u. not (text_eq u.id (txt "11"))) eleven_users) second refl refl (refl, refl) refl
      (omega arith) refl
