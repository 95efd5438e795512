-- ===== src/Positions.antt =====
-- The form of a job position, client/src/app/pages/admin/JobPositionsPage.tsx: the parent entity, the
-- checks of the fields and the payload that is sent.
pub mod Laws
mod Tests
use sigecat_oraculos.Prelude.{
  ℕ, ltb, Bool, true, false, ◌&&◌, not, any, Option, none, some, is_some, List, [], ◌∷◌, ◌++◌, Text,
  txt, text_eq, length, or_else, if◌then◌else◌,
}
use sigecat_oraculos.Js.Strings.{trim, is_empty}
use sigecat_oraculos.Js.Numbers.{is_digit}
use sigecat_oraculos.Declarations.{JobPosition}
use sigecat_oraculos.Shift.{Names}

pub data ParentType : Type 0 where
  area department section unit : ParentType

-- `a || b` for a value that may be null or empty
abbrev pub filled : Option Text → Bool
filled none = false
filled (some s) = not (is_empty s)

-- the type of the innermost test `jobPosition.area_id ? … : …`; none is ''
abbrev pub type_of : Bool → Bool → Bool → Bool → Option ParentType
type_of true d s u = some area
type_of false true s u = some department
type_of false false true u = some section
type_of false false false true = some unit
type_of false false false false = none

abbrev pub coalesce : List (Option Text) → Text
coalesce [] = []
coalesce (none ∷ rest) = coalesce rest
coalesce (some s ∷ rest) = s

unfoldable pub parent_type : JobPosition → Option ParentType
parent_type p =
    type_of (filled p.area_id) (filled p.department_id) (filled p.section_id) (filled p.unit_id)

unfoldable pub parent_id : JobPosition → Text
parent_id p = coalesce (p.area_id ∷ p.department_id ∷ p.section_id ∷ p.unit_id ∷ [])

pub record Form : Type 0 where
  pub job_position_number : Text
  pub description : Text
  pub job_id : Text
  pub user_id : Text
  pub job_shift : Text
  pub parent_type : Option ParentType
  pub parent_id : Text

abbrev pub empty_form : Form
empty_form = record {
  job_position_number = [];
  description = [];
  job_id = [];
  user_id = [];
  job_shift = [];
  parent_type = none;
  parent_id = [];
}

-- the form that `openEdit` and `openView` fill
unfoldable pub open_edit : JobPosition → Form
unfolding parent_type parent_id
open_edit p = record {
  job_position_number = p.job_position_number;
  description = or_else p.description [];
  job_id = p.job_id;
  user_id = or_else p.user_id [];
  job_shift = or_else p.job_shift [];
  parent_type = parent_type p;
  parent_id = parent_id p;
}

abbrev pub shift_options : List Text
shift_options =
    txt "Diurna" ∷ txt "Media Diurna" ∷ txt "Mixta" ∷ txt "Nocturna" ∷ txt "Media Nocturna" ∷ []

abbrev pub only_digits : Text → Bool
unfolding is_digit
only_digits [] = true
only_digits (c ∷ s) = is_digit c && only_digits s

pub record Errors : Type 0 where
  pub job_position_number : Option Text
  pub job_id : Option Text
  pub user_id : Option Text
  pub job_shift : Option Text
  pub parent_type : Option Text
  pub parent_id : Option Text
  pub description : Option Text

abbrev pub number_error : Text → Option Text
number_error num =
    if is_empty num
    then some (txt "El número de plaza es requerido.")
    else if ltb 10 (length num)
    then some (txt "No puede exceder 10 dígitos.")
    else if not (only_digits num)
    then some (txt "Solo números.")
    else none

abbrev pub required : Text → Text → Option Text
required message field = if is_empty field then some message else none

abbrev pub shift_error : Text → Option Text
shift_error shift =
    if is_empty shift
    then some (txt "El turno es requerido.")
    else if not (any (text_eq shift) shift_options)
    then some (txt "Turno no válido.")
    else none

abbrev pub type_error : Option ParentType → Option Text
type_error none = some (txt "El tipo de entidad es requerido.")
type_error (some t) = none

abbrev pub description_error : Text → Option Text
description_error description =
    if ltb 255 (length description) then some (txt "No puede exceder 255 caracteres.") else none

unfoldable pub form_errors : Form → Errors
form_errors form = record {
  job_position_number = number_error (trim form.job_position_number);
  job_id = required (txt "El tipo de plaza es requerido.") form.job_id;
  user_id = required (txt "El usuario asignado es requerido.") form.user_id;
  job_shift = shift_error form.job_shift;
  parent_type = type_error form.parent_type;
  parent_id = required (txt "La entidad es requerida.") form.parent_id;
  description = description_error form.description;
}

-- `Object.keys(errors).length === 0`
unfoldable pub validate_form : Form → Bool
unfolding form_errors
validate_form form =
    let errors = form_errors form in
    not (is_some errors.job_position_number)
    && not (is_some errors.job_id)
    && not (is_some errors.user_id)
    && not (is_some errors.job_shift)
    && not (is_some errors.parent_type)
    && not (is_some errors.parent_id)
    && not (is_some errors.description)

-- a field that is `none` is not in the request
pub record Payload : Type 0 where
  pub job_position_number : Text
  pub description : Option Text
  pub job_id : Text
  pub user_id : Option Text
  pub job_shift : Option Text
  pub area_id : Option Text
  pub department_id : Option Text
  pub section_id : Option Text
  pub unit_id : Option Text

abbrev pub or_undefined : Text → Option Text
or_undefined s = if is_empty s then none else some s

-- `payload[`${form.parentType}_id`] = form.parentId`
abbrev pub with_parent : Option ParentType → Text → Payload → Payload
with_parent none id payload = payload
with_parent (some area) id payload = record payload { area_id = some id }
with_parent (some department) id payload = record payload { department_id = some id }
with_parent (some section) id payload = record payload { section_id = some id }
with_parent (some unit) id payload = record payload { unit_id = some id }

unfoldable pub update_payload : Form → Payload
unfolding trim
update_payload form = with_parent form.parent_type form.parent_id (record {
  job_position_number = trim form.job_position_number;
  description = or_undefined (trim form.description);
  job_id = form.job_id;
  user_id = or_undefined form.user_id;
  job_shift = or_undefined form.job_shift;
  area_id = none;
  department_id = none;
  section_id = none;
  unit_id = none;
})

unfoldable pub create_payload : Form → Payload
unfolding trim
create_payload form = with_parent form.parent_type form.parent_id (record {
  job_position_number = trim form.job_position_number;
  description = or_undefined (trim form.description);
  job_id = form.job_id;
  user_id = some form.user_id;
  job_shift = some form.job_shift;
  area_id = none;
  department_id = none;
  section_id = none;
  unit_id = none;
})

pub record Lookups : Type 0 where
  pub areas : Names
  pub departments : Names
  pub sections : Names
  pub units : Names

-- `map.get(id)` of a `new Map(list.map(…))`: of two names with one id the later is kept
unfoldable pub name_of : Text → Names → Option Text
name_of id [] = none
name_of id ((k, name) ∷ rest) = elim (name_of id rest) [
  | some later ↦ some later
  | none ↦ if text_eq k id then some name else none
]

abbrev pub name_or_id : Option Text → Text → Text
name_or_id none id = id
name_or_id (some name) id = if is_empty name then id else name

-- `name ? `${kind}: ${name}` : `${kind}: ${id}``
abbrev pub labelled : Text → Names → Option Text → Text
unfolding name_of
labelled kind names none = kind
labelled kind names (some id) = kind ++ txt ": " ++ name_or_id (name_of id names) id

abbrev pub label_of : Lookups → JobPosition → Option ParentType → Text
label_of lookups p none = txt "—"
label_of lookups p (some area) = labelled (txt "Área") lookups.areas p.area_id
label_of lookups p (some department) =
    labelled (txt "Departamento") lookups.departments p.department_id
label_of lookups p (some section) = labelled (txt "Sección") lookups.sections p.section_id
label_of lookups p (some unit) = labelled (txt "Unidad") lookups.units p.unit_id

-- `parentLabel`, which tests the same fields in the same order as `openEdit`
unfoldable pub parent_label : Bool → Lookups → JobPosition → Text
unfolding parent_type
parent_label loading lookups p =
    if loading then txt "Cargando..." else label_of lookups p (parent_type p)
