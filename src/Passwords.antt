-- ===== src/Passwords.antt =====
-- Passwords: the checks of client/src/utils/validation.ts and the forms that use them, LoginPage.tsx,
-- ChangePasswordPage.tsx and ResetPasswordPage.tsx of client/src/app/pages/auth. The calls of the API
-- are parameters; the texts are UTF-16 units.
pub mod Laws
mod Tests
use sigecat_oraculos.Prelude.{
  ℕ, ltb, leb, Bool, true, false, ◌&&◌, ◌||◌, not, any, Option, none, some, is_some, List, [], ◌∷◌,
  ◌++◌, Text, txt, text_eq, length, or_else, Result, ok, err, if◌then◌else◌,
}
use sigecat_oraculos.Js.Strings.{trim, is_empty}
use sigecat_oraculos.Session.Storage.{Storage, clear}
use sigecat_oraculos.Session.User.{AuthUser}

-- `text.endsWith(suffix)`
unfoldable pub ends_with : Text → Text → Bool
ends_with [] suffix = text_eq [] suffix
ends_with (c ∷ s) suffix = text_eq (c ∷ s) suffix || ends_with s suffix

abbrev pub domain : Text
domain = txt "@ucr.ac.cr"

unfoldable pub validate_institutional_email : Text → Option Text
unfolding ends_with
validate_institutional_email email =
    if is_empty (trim email)
    then some (txt "El correo institucional es requerido.")
    else if not (ends_with email domain)
    then some (txt "El correo debe ser institucional (@ucr.ac.cr).")
    else none

-- the classes `[A-Z]`, `[0-9]` and `[^a-zA-Z0-9]`
abbrev pub is_upper : ℕ → Bool
is_upper c = leb 65 c && leb c 90

abbrev pub is_lower : ℕ → Bool
is_lower c = leb 97 c && leb c 122

abbrev pub is_figure : ℕ → Bool
is_figure c = leb 48 c && leb c 57

abbrev pub is_special : ℕ → Bool
is_special c = not (is_lower c || is_upper c || is_figure c)

unfoldable pub validate_password : Text → Option Text
validate_password password =
    if is_empty password
    then some (txt "La contraseña es requerida.")
    else if ltb (length password) 8
    then some (txt "La contraseña debe tener mínimo 8 caracteres.")
    else if not (any is_upper password)
    then some (txt "La contraseña debe tener al menos una mayúscula.")
    else if not (any is_figure password)
    then some (txt "La contraseña debe tener al menos un número.")
    else if not (any is_special password)
    then some (txt "La contraseña debe tener al menos un caracter especial.")
    else none

abbrev pub confirm_error : Text → Text → Option Text
confirm_error new_password confirm_password =
    if is_empty confirm_password
    then some (txt "Confirme la nueva contraseña.")
    else if not (text_eq new_password confirm_password)
    then some (txt "Las contraseñas no coinciden.")
    else none

abbrev pub current_error : Text → Option Text
current_error current =
    if is_empty current then some (txt "La contraseña actual es requerida.") else none

-- what the API answers with an error: its code and its message
pub record ServiceError : Type 0 where
  pub code : Text
  pub message : Text

-- the page behind a form: the errors of its fields, a notice, or the page that it goes to
pub data Shown : Type 0 where
  field_errors : List (Option Text) → Shown
  failed : Text → Shown
  moved : Text → Shown

unfoldable pub reset_is_valid : Text → Text → Bool
unfolding validate_password
reset_is_valid new_password confirm_password =
    not (is_some (validate_password new_password))
    && not (is_some (confirm_error new_password confirm_password))

abbrev pub reset_answered : Result {0, 0} ServiceError Unit → Storage → Storage × Shown
reset_answered (ok done) storage = (clear storage, moved (txt "/login"))
reset_answered (err e) storage = (storage, failed e.message)

-- `handleSubmit` of ResetPasswordPage: the token and the two passwords are sent
unfoldable pub reset_password :
    (Text → Text → Text → Result {0, 0} ServiceError Unit)
    → Text
    → Text
    → Text
    → Storage
    → Storage × Shown
unfolding reset_is_valid validate_password
reset_password call token new_password confirm_password storage =
    if not (reset_is_valid new_password confirm_password)
    then (
      storage,
      field_errors
          (validate_password new_password ∷ confirm_error new_password confirm_password ∷ []),
    )
    else reset_answered (call token new_password confirm_password) storage

unfoldable pub change_is_valid : Text → Text → Text → Bool
unfolding reset_is_valid
change_is_valid current new_password confirm_password =
    not (is_some (current_error current)) && reset_is_valid new_password confirm_password

-- after a change the session is ended: `logout` changes the storage
abbrev pub change_answered :
    (Storage → Storage) → Result {0, 0} ServiceError Unit → Storage → Storage × Shown
change_answered logout (ok done) storage = (logout storage, moved (txt "/login"))
change_answered logout (err e) storage = (
  storage,
  failed (
      if text_eq e.code (txt "INVALID_CREDENTIALS")
      then txt "La contraseña actual es incorrecta."
      else txt "Error del servidor. Intente de nuevo más tarde."),
)

-- `handleSubmit` of ChangePasswordPage
unfoldable pub change_password :
    (Text → Text → Result {0, 0} ServiceError Unit)
    → (Storage → Storage)
    → Text
    → Text
    → Text
    → Storage
    → Storage × Shown
unfolding change_is_valid validate_password
change_password call logout current new_password confirm_password storage =
    if not (change_is_valid current new_password confirm_password)
    then (
      storage,
      field_errors (
          current_error current
          ∷ validate_password new_password
          ∷ confirm_error new_password confirm_password
          ∷ []),
    )
    else change_answered logout (call current new_password) storage

-- the pages that `handleSubmit` of LoginPage navigates to after a login, one after the other
unfoldable pub login_visits : AuthUser → List Text
login_visits user =
    (if user.is_password_temp then txt "/cambiar-contrasena" else txt "/") ∷ txt "/" ∷ []

-- the rules that client/src/components/PasswordStrengthFeedback.tsx ticks
unfoldable pub rules_met : Text → List Bool
rules_met password =
    leb 8 (length password)
    ∷ any is_upper password
    ∷ any is_figure password
    ∷ any is_special password
    ∷ []

-- its label of a score of zxcvbn, and the width of its bar
abbrev pub strength_label : Text → ℕ → Text
strength_label password score =
    if is_empty password
    then []
    else if leb score 1
    then txt "Muy débil"
    else if leb score 2
    then txt "Regular"
    else if leb score 3
    then txt "Buena"
    else if leb score 4
    then txt "Fuerte"
    else []
