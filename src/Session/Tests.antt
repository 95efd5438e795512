-- ===== src/Session/Tests.antt =====
-- A session that the server accepts, and one whose tokens have run out.
use sigecat_oraculos.Prelude.{◌≡◌, ◌↔◌, ◌⊎◌, true, false, some, none, Text, txt, ok, err}
use sigecat_oraculos.Status.{admin}
use sigecat_oraculos.Session.Storage.{Storage}
use sigecat_oraculos.Session.User.{AuthUser, BackendLoginData, user_of_login}
use sigecat_oraculos.Session.Provider.{Auth, Call, Tokens, failure, initialize_auth}
use sigecat_oraculos.Session.Guards.{outlet, admin_page}
use sigecat_oraculos.Session.Storage.{IsSignedOut}
use sigecat_oraculos.Session.Laws.{initialize_auth_ends}
use sigecat_oraculos.Session.Access.{admin_page_iff}

abbrev stored : Storage
stored key = some (txt "valor")

abbrev auth : Auth
auth = record { user = none; is_loading = true; storage = stored }

abbrev me : Call AuthUser
me storage = (storage, err failure)

abbrev rotate : Text → Call Tokens
rotate token storage = (storage, err failure)

abbrev answer : BackendLoginData
answer = record {
  access_token = txt "a1";
  refresh_token = txt "r1";
  user_id = txt "u1";
  email = txt "ana@ucr.ac.cr";
  name = some (txt "Ana Mora");
  role = txt "admin";
  is_password_temp = false;
}

abbrev accepting : Call BackendLoginData
accepting storage = (storage, ok answer)

abbrev goodbye : Call (Unit {0})
goodbye storage = (storage, err failure)

initialize_auth_ends_example :
    ((initialize_auth me rotate auth).is_loading ≡ false)
    × ((initialize_auth me rotate auth).user ≡ none
        → IsSignedOut (initialize_auth me rotate auth).storage)
initialize_auth_ends_example = initialize_auth_ends me rotate auth

abbrev signed_in : Auth
unfolding user_of_login
signed_in = record { user = some (user_of_login answer); is_loading = false; storage = stored }

admin_page_iff_example : (admin_page signed_in (txt "/areas") ≡ outlet) ↔ (
    (signed_in.is_loading ≡ false)
    × ((u : AuthUser) × (signed_in.user ≡ some u)
        × (u.role ≡ admin)
        × ((u.is_password_temp ≡ false) ⊎ (txt "/areas" ≡ txt "/cambiar-contrasena"))))
admin_page_iff_example = admin_page_iff signed_in (txt "/areas")
