-- ===== src/Session/User.antt =====
-- The user that `authService.login` and `getMe` build from what the API sends.
use sigecat_oraculos.Prelude.{
  Option, Bool, List, [], ◌∷◌, ◌==◌, ℕ, Text, txt, text_eq, or_else, if◌then◌else◌,
}
use sigecat_oraculos.Js.Strings.{to_upper, split_on}
use sigecat_oraculos.Status.{UserRole, admin, employee}
use sigecat_oraculos.Csv.{join}

pub record AuthUser : Type 0 where
  pub id : Text
  pub email : Text
  pub first_name : Text
  pub last_name : Text
  pub role : UserRole
  pub is_password_temp : Bool

pub record BackendLoginData : Type 0 where
  pub access_token : Text
  pub refresh_token : Text
  pub user_id : Text
  pub email : Text
  pub name : Option Text
  pub role : Text
  pub is_password_temp : Bool

pub record BackendUserData : Type 0 where
  pub id : Text
  pub email : Text
  pub first_name : Text
  pub last_name : Text
  pub role : Text
  pub is_password_temp : Bool

unfoldable pub map_role : Text → UserRole
map_role role = if text_eq (to_upper role) (txt "ADMIN") then admin else employee

abbrev pub is_blank : ℕ → Bool
is_blank c = c == 32

-- `const [firstName, ...rest] = name.split(' ')`
abbrev pub first_piece : List Text → Text
first_piece [] = []
first_piece (p ∷ ps) = p

abbrev pub other_pieces : List Text → List Text
other_pieces [] = []
other_pieces (p ∷ ps) = ps

unfoldable pub first_name_of : Option Text → Text
first_name_of name = first_piece (split_on is_blank (or_else name []))

unfoldable pub last_name_of : Option Text → Text
last_name_of name = join 32 (other_pieces (split_on is_blank (or_else name [])))

unfoldable pub user_of_login : BackendLoginData → AuthUser
user_of_login d = record {
  id = d.user_id;
  email = d.email;
  first_name = first_name_of d.name;
  last_name = last_name_of d.name;
  role = map_role d.role;
  is_password_temp = d.is_password_temp;
}

unfoldable pub user_of_data : BackendUserData → AuthUser
user_of_data d = record {
  id = d.id;
  email = d.email;
  first_name = d.first_name;
  last_name = d.last_name;
  role = map_role d.role;
  is_password_temp = d.is_password_temp;
}
