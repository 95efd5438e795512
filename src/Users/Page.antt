-- ===== src/Users/Page.antt =====
-- UsersPage.tsx, client/src/app/pages/admin/: the list of the users, the change of a role, the
-- registration and the deletion, which steps back a page when it empties the last one.
use sigecat_oraculos.Prelude.{
  ℕ, ◌-◌, ltb, Bool, true, false, ◌&&◌, ◌==◌, Option, none, some, [], ◌∷◌, Text, txt, length,
  text_eq, if◌then◌else◌, Result, ok, err,
}
use sigecat_oraculos.Js.Strings.{trim}
use sigecat_oraculos.LogsPage.{AdminUser, UserKind, admin, employee}
use sigecat_oraculos.Passwords.{validate_institutional_email}
use sigecat_oraculos.Positions.{or_undefined, required}
use sigecat_oraculos.Services.{ServiceError, Service, UserBody, register, with_role}
use sigecat_oraculos.Catalogue.{
  Kind, State, success, open_create, open_view, is_valid, load, notify, close, shown, done,
}

pub data UserField : Type 0 where
  first_name second_name first_last_name second_last_name email role password : UserField

abbrev pub user_field_name : UserField → Text
user_field_name first_name = txt "first_name"
user_field_name second_name = txt "second_name"
user_field_name first_last_name = txt "first_last_name"
user_field_name second_last_name = txt "second_last_name"
user_field_name email = txt "email"
user_field_name role = txt "role"
user_field_name password = txt "password"

abbrev pub role_text : UserKind → Text
role_text admin = txt "admin"
role_text employee = txt "employee"

-- the form of `openView`
abbrev pub user_form : AdminUser → UserField → Text
user_form user first_name = user.first_name
user_form user second_name = []
user_form user first_last_name = user.last_name
user_form user second_last_name = []
user_form user email = user.email
user_form user role = role_text user.role
user_form user password = []

abbrev pub user_errors : (UserField → Text) → UserField → Option Text
user_errors form first_name =
    required (txt "El primer nombre es requerido.") (trim (form first_name))
user_errors form second_name = none
user_errors form first_last_name =
    required (txt "El primer apellido es requerido.") (trim (form first_last_name))
user_errors form second_last_name =
    required (txt "El segundo apellido es requerido.") (trim (form second_last_name))
user_errors form email = validate_institutional_email (form email)
user_errors form role = required (txt "El rol es requerido.") (form role)
user_errors form password =
    required (txt "La contraseña temporal es requerida.") (trim (form password))

pub record Registration : Type 0 where
  pub first_name : Text
  pub second_name : Option Text
  pub first_last_name : Text
  pub second_last_name : Text
  pub email : Text
  pub role : Text
  pub password : Text

abbrev pub registration : (UserField → Text) → Registration
registration form = record {
  first_name = form first_name;
  second_name = or_undefined (form second_name);
  first_last_name = form first_last_name;
  second_last_name = form second_last_name;
  email = form email;
  role = form role;
  password = form password;
}

-- what the page shares with the catalogues; its handlers are below
unfoldable pub accounts : Kind AdminUser UserField (UserBody Registration)
accounts = record {
  same = λ f g. text_eq (user_field_name f) (user_field_name g);
  fields =
      first_name ∷ second_name ∷ first_last_name ∷ second_last_name ∷ email ∷ role ∷ password ∷ [];
  id_of = λ user. user.id;
  empty_form = λ field. [];
  form_of = user_form;
  errors_of = user_errors;
  create_payload = λ form. register (registration form);
  update_payload = λ form. register (registration form);
  status = none;
  skips_same_filter = false;
  load_failed = txt "Error del servidor al cargar usuarios.";
  save_failed = txt "Error del servidor.";
  delete_failed = txt "Error del servidor.";
  created = [];
  updated = [];
  deleted = [];
  not_deleted = [];
}

pub record UsersState : Type 0 where
  pub list : State AdminUser UserField
  pub show_password : Bool
  pub role_target : Option AdminUser
  pub selected_role : UserKind

unfoldable pub open_role : AdminUser → UsersState → UsersState
open_role user s = record s { role_target = some user; selected_role = user.role }

unfoldable pub open_create_user : UsersState → UsersState
unfolding open_create accounts
open_create_user s = record s { list = open_create accounts s.list; show_password = false }

unfoldable pub open_view_user : AdminUser → UsersState → UsersState
unfolding open_view accounts
open_view_user user s = record s { list = open_view accounts user s.list }

abbrev pub failed : ServiceError → UsersState → UsersState
failed e s = record s { list = done (notify (shown (txt "Error del servidor.") e) s.list) }

abbrev pub at_page : ℕ → State AdminUser UserField → State AdminUser UserField
at_page page s = record s { page = page }

module _ {S : Type 0} (service : Service S AdminUser (UserBody Registration)) where
  abbrev pub load_users : S → State AdminUser UserField → State AdminUser UserField
  load_users = load accounts service

  abbrev pub role_changed : S × Result {0, 0} ServiceError Unit → UsersState → S × UsersState
  role_changed (store, ok accepted) s = (
    store,
    record s {
      role_target = none;
      list =
          done (notify (success (txt "Rol actualizado correctamente.")) (load_users store s.list));
    },
  )
  role_changed (store, err e) s = (store, failed e s)

  abbrev pub change_role : Option AdminUser → S → UsersState → S × UsersState
  change_role none store s = (store, s)
  change_role (some user) store s =
      role_changed (service.update user.id (with_role (role_text s.selected_role)) store)
        (record s { list = record s.list { is_submitting = true } })

  unfoldable pub handle_change_role : S → UsersState → S × UsersState
  handle_change_role store s = change_role s.role_target store s

  -- the page that was left with no row is stepped back from, and the effect of the page loads the rows
  abbrev pub reload_or_step_back : S → State AdminUser UserField → State AdminUser UserField
  reload_or_step_back store s =
      if (length s.rows == 1) && ltb 1 s.page
      then load_users store
          (notify (success (txt "Usuario eliminado correctamente.")) (at_page (s.page - 1) s))
      else notify (success (txt "Usuario eliminado correctamente.")) (load_users store s)

  abbrev pub user_removed :
      S × Result {0, 0} ServiceError Unit
      → State AdminUser UserField
      → S × State AdminUser UserField
  user_removed (store, ok accepted) s =
      (store, done (reload_or_step_back store (record s { delete_target = none })))
  user_removed (store, err e) s = (store, done (notify (shown (txt "Error del servidor.") e) s))

  abbrev pub remove_user :
      Option AdminUser → S → State AdminUser UserField → S × State AdminUser UserField
  remove_user none store s = (store, s)
  remove_user (some user) store s =
      user_removed (service.remove user.id store) (record s { is_submitting = true })

  unfoldable pub handle_delete_user : S → State AdminUser UserField → S × State AdminUser UserField
  handle_delete_user store s = remove_user s.delete_target store s

  -- the first page is loaded, by the effect of the page where it was another
  abbrev pub reload_first : S → State AdminUser UserField → State AdminUser UserField
  reload_first store s =
      if s.page == 1
      then notify (success (txt "Usuario creado correctamente.")) (load_users store s)
      else load_users store (notify (success (txt "Usuario creado correctamente.")) (at_page 1 s))

  abbrev pub registered :
      S × Result {0, 0} ServiceError Unit
      → State AdminUser UserField
      → S × State AdminUser UserField
  registered (store, ok accepted) s = (store, done (reload_first store (close s)))
  registered (store, err e) s = (store, done (notify (shown (txt "Error del servidor.") e) s))

  unfoldable pub handle_confirm_create :
      S → State AdminUser UserField → S × State AdminUser UserField
  unfolding is_valid accounts
  handle_confirm_create store s =
      if is_valid accounts s.form
      then registered (service.create (register (registration s.form)) store)
          (record s { form_errors = accounts.errors_of s.form; is_submitting = true })
      else (store, record s { form_errors = accounts.errors_of s.form })
