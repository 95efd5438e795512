-- ===== src/Session/Access.antt =====
-- Who sees a page behind the guards.
use sigecat_oraculos.Prelude.{
  ◌≡◌, ◌↔◌, ◌⊎◌, inl, inr, Option-cases, some, false, Text, txt, text_eq_iff, arith,
}
use sigecat_oraculos.Status.{admin}
use sigecat_oraculos.Session.User.{AuthUser}
use sigecat_oraculos.Session.Provider.{Auth}
use sigecat_oraculos.Session.Guards.{outlet, admin_page}

admin_page_sound :
    (a : Auth) (pathname : Text)
    → admin_page a pathname ≡ outlet
    → (a.is_loading ≡ false)
      × ((u : AuthUser) × (a.user ≡ some u)
          × (u.role ≡ admin)
          × ((u.is_password_temp ≡ false) ⊎ (pathname ≡ txt "/cambiar-contrasena")))
unfolding admin_page
admin_page_sound a pathname h = elim (Option-cases a.user) [
  | inl e ↦ absurd (ground (arith, e))
  | inr (u, e) ↦ (
    ground (arith, e),
    (u, e, ground (arith, e), ground (arith, e, text_eq_iff pathname (txt "/cambiar-contrasena"))),
  )
]

-- A page for administrators is rendered exactly for a user that is loaded, is an administrator and
-- does not still have a temporary password (unless the page is the one that changes it).
pub admin_page_iff :
    (a : Auth) (pathname : Text)
    → (admin_page a pathname ≡ outlet) ↔ (
        (a.is_loading ≡ false)
        × ((u : AuthUser) × (a.user ≡ some u)
            × (u.role ≡ admin)
            × ((u.is_password_temp ≡ false) ⊎ (pathname ≡ txt "/cambiar-contrasena"))))
unfolding admin_page
admin_page_iff a pathname = (
  admin_page_sound a pathname,
  λ h. ground (arith, text_eq_iff pathname (txt "/cambiar-contrasena")),
)
