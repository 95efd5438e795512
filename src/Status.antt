-- ===== src/Status.antt =====
-- The life of a declaration: client/src/services/declarationConstants.ts, with the status type of
-- client/src/services/declarationsService.ts.
pub mod Workflow
pub mod History
mod Tests
use sigecat_oraculos.Prelude.{
  Bool, true, false, List, [], ◌∷◌, ◌&&◌, not, any, Text, txt, if◌then◌else◌,
}

pub data DeclarationStatus : Type 0 where
  incomplete revision approved rejected abandoned completed : DeclarationStatus

-- the roles 'ADMIN' and 'EMPLOYEE'
pub data UserRole : Type 0 where
  admin employee : UserRole

-- `a === b` on statuses
abbrev pub status_eq : DeclarationStatus → DeclarationStatus → Bool
status_eq incomplete incomplete = true
status_eq revision revision = true
status_eq approved approved = true
status_eq rejected rejected = true
status_eq abandoned abandoned = true
status_eq completed completed = true
status_eq _ _ = false

abbrev pub role_eq : UserRole → UserRole → Bool
role_eq admin admin = true
role_eq employee employee = true
role_eq _ _ = false

-- `list.includes(status)`
abbrev pub includes_status : List DeclarationStatus → DeclarationStatus → Bool
includes_status list s = any (λ t. status_eq t s) list

unfoldable pub status_transitions : DeclarationStatus → List DeclarationStatus
status_transitions incomplete = completed ∷ abandoned ∷ []
status_transitions revision = approved ∷ rejected ∷ []
status_transitions approved = rejected ∷ []
status_transitions rejected = []
status_transitions abandoned = []
status_transitions completed = revision ∷ []

abbrev pub admin_only_statuses : List DeclarationStatus
admin_only_statuses = revision ∷ approved ∷ rejected ∷ []

unfoldable pub status_translations : DeclarationStatus → Text
status_translations incomplete = txt "Incompleta"
status_translations revision = txt "Revisión"
status_translations approved = txt "Aprobada"
status_translations rejected = txt "Rechazada"
status_translations abandoned = txt "Abandonada"
status_translations completed = txt "Completada"

unfoldable pub can_change_status : DeclarationStatus → DeclarationStatus → UserRole → Bool → Bool
unfolding status_transitions
can_change_status current next role is_owner =
    if not (includes_status (status_transitions current) next)
    then false
    else if includes_status admin_only_statuses next && not (role_eq role admin)
    then false
    else not (status_eq next abandoned && (not is_owner && not (role_eq role admin)))
