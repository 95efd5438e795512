-- ===== src/Passwords/Tests.antt =====
-- A strong password and an address of the university.
use sigecat_oraculos.Prelude.{◌≡◌, refl, Text, txt, Result, ok, some}
use sigecat_oraculos.Session.Storage.{Storage, IsSignedOut}
use sigecat_oraculos.Passwords.{validate_password, reset_is_valid, reset_password, ServiceError}
use sigecat_oraculos.Passwords.Laws.{IsStrong, reset_password_lem}

abbrev stored : Storage
stored key = some (txt "valor")

abbrev accept : Text → Text → Text → Result {0, 0} ServiceError Unit
accept token new_password confirm_password = ok tt

reset_password_lem_example :
    IsStrong (txt "Clave.2026")
    × (txt "Clave.2026" ≡ txt "Clave.2026")
    × (accept (txt "t") (txt "Clave.2026") (txt "Clave.2026") ≡ ok tt)
    × IsSignedOut (reset_password accept (txt "t") (txt "Clave.2026") (txt "Clave.2026") stored).0
unfolding reset_password reset_is_valid validate_password
reset_password_lem_example =
    reset_password_lem accept (txt "t") (txt "Clave.2026") (txt "Clave.2026") stored refl
