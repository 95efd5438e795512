-- ===== src/Activity/Labels.antt =====
-- The tables of labels of client/src/services/activityLog.ts.
use sigecat_oraculos.Prelude.{Option, none, some, List, [], ◌∷◌, Text, txt, text_eq, if◌then◌else◌}

abbrev pub Table : Type 0
Table = List (Text × Text)

-- `table[key]`, for the keys that the table itself has
unfoldable pub lookup : Table → Text → Option Text
lookup [] key = none
lookup ((k, label) ∷ rest) key =
    let later = lookup rest key in if text_eq k key then some label else later

abbrev pub entity_labels : Table
entity_labels =
    (txt "declaration", txt "Declaración")
    ∷ (txt "user", txt "Usuario")
    ∷ (txt "auth", txt "Sesión")
    ∷ (txt "area", txt "Área")
    ∷ (txt "unit", txt "Unidad")
    ∷ (txt "section", txt "Sección")
    ∷ (txt "department", txt "Departamento")
    ∷ (txt "job", txt "Puesto")
    ∷ (txt "job_position", txt "Plaza")
    ∷ (txt "license_type", txt "Tipo de licencia")
    ∷ (txt "license", txt "Licencia")
    ∷ (txt "rest_time", txt "Tiempo de descanso")
    ∷ (txt "official_function", txt "Función oficial")
    ∷ (txt "custom_function", txt "Función personalizada")
    ∷ (txt "job_function", txt "Función de declaración")
    ∷ []

abbrev pub verb_labels : Table
verb_labels =
    (txt "create", txt "Crear")
    ∷ (txt "update", txt "Modificar")
    ∷ (txt "delete", txt "Eliminar")
    ∷ (txt "restore", txt "Restaurar")
    ∷ (txt "login", txt "Inicio de sesión")
    ∷ (txt "logout", txt "Cierre de sesión")
    ∷ (txt "login_failed", txt "Inicio fallido")
    ∷ (txt "login_locked", txt "Cuenta bloqueada")
    ∷ (txt "change_status", txt "Cambio de estado")
    ∷ (txt "change_role", txt "Cambio de rol")
    ∷ (txt "change_password", txt "Cambio de contraseña")
    ∷ (txt "password_reset", txt "Restablecer contraseña")
    ∷ (txt "update_justification", txt "Actualizar justificación")
    ∷ []

abbrev pub context_labels : Table
context_labels =
    (txt "name", txt "Nombre")
    ∷ (txt "description", txt "Descripción")
    ∷ (txt "email", txt "Correo electrónico")
    ∷ (txt "role", txt "Rol")
    ∷ (txt "previous_role", txt "Rol anterior")
    ∷ (txt "new_role", txt "Rol nuevo")
    ∷ (txt "status", txt "Estado")
    ∷ (txt "previous_status", txt "Estado anterior")
    ∷ (txt "new_status", txt "Estado nuevo")
    ∷ (txt "declaration_id", txt "ID de declaración")
    ∷ (txt "area_id", txt "ID de área")
    ∷ (txt "created_by", txt "Creado por")
    ∷ (txt "deleted_by", txt "Eliminado por")
    ∷ (txt "updated_by", txt "Modificado por")
    ∷ []
