-- ===== src/RestTime/Opening.antt =====
-- How a part of the first form of a declaration finds its declaration: the effect of
-- client/src/features/employee/DeclarationRestTimes.tsx and DeclarationLicenses.tsx.
use sigecat_oraculos.Prelude.{Bool, Option, none, some, Text, if◌then◌else◌, Result, ok, ◌>>=◌}
use sigecat_oraculos.Js.Strings.{is_empty}
use sigecat_oraculos.Services.{ServiceError}

-- the answer of `declarationService.checkIncomplete`
pub record Incomplete : Type 0 where
  pub has_incomplete : Bool
  pub declaration_id : Option Text

-- an id that is null or '' is none
abbrev pub given_id : Option Text → Option Text
given_id none = none
given_id (some id) = if is_empty id then none else some id

abbrev pub incomplete_id : Incomplete → Option Text
incomplete_id incomplete =
    if incomplete.has_incomplete then given_id incomplete.declaration_id else none

-- `location.state?.declarationId`, else the id of the incomplete declaration
abbrev pub id_or_incomplete :
    Option Text → Result {0, 0} ServiceError Incomplete → Result {0, 0} ServiceError (Option Text)
id_or_incomplete none check = do incomplete ← check; ok (incomplete_id incomplete)
id_or_incomplete (some id) check = ok (some id)

unfoldable pub opened_id :
    Option Text → Result {0, 0} ServiceError Incomplete → Result {0, 0} ServiceError (Option Text)
opened_id state_id check = id_or_incomplete (given_id state_id) check
