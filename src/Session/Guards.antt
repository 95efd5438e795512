-- ===== src/Session/Guards.antt =====
-- `PrivateRoute`, `RoleRoute` and the nesting of the two in client/src/app/App.tsx.
use sigecat_oraculos.Prelude.{
  Option, none, some, Bool, false, ◌&&◌, ◌||◌, not, List, [], ◌∷◌, Text, txt, text_eq, any, is_some,
  if◌then◌else◌,
}
use sigecat_oraculos.Status.{UserRole, admin, role_eq}
use sigecat_oraculos.Session.User.{AuthUser}
use sigecat_oraculos.Session.Provider.{Auth, is_authenticated}

-- What a guard renders: a spinner or nothing while the session loads, a redirect, or its children.
pub data Rendered : Type 0 where
  waiting outlet : Rendered
  navigate : Text → Rendered

abbrev pub has_temp_password : Option AuthUser → Bool
has_temp_password none = false
has_temp_password (some u) = u.is_password_temp

unfoldable pub private_route : Auth → Text → Rendered
private_route a pathname =
    if a.is_loading
    then waiting
    else if not (is_authenticated a)
    then navigate (txt "/login")
    else if has_temp_password a.user && not (text_eq pathname (txt "/cambiar-contrasena"))
    then navigate (txt "/cambiar-contrasena")
    else outlet

abbrev pub has_role : List UserRole → Option AuthUser → Bool
has_role allowed none = false
has_role allowed (some u) = any (λ r. role_eq r u.role) allowed

unfoldable pub role_route : List UserRole → Auth → Rendered
role_route allowed a =
    if a.is_loading
    then waiting
    else if not (is_authenticated a) || not (is_some a.user)
    then navigate (txt "/login")
    else if not (has_role allowed a.user)
    then navigate (txt "/acceso_denegado")
    else outlet

-- a page inside both guards is rendered where both show their children
abbrev pub inside : Rendered → Rendered → Rendered
inside outlet inner = inner
inside outer inner = outer

-- the pages for administrators of App.tsx
unfoldable pub admin_page : Auth → Text → Rendered
unfolding private_route role_route
admin_page a pathname = inside (private_route a pathname) (role_route (admin ∷ []) a)
