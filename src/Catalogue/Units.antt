-- ===== src/Catalogue/Units.antt =====
-- The kind of UnitsPage.tsx, client/src/app/pages/admin/: a unit is assigned to a department or to a
-- section. The type of the assignment is '' or the name of one of the two.
use sigecat_oraculos.Prelude.{
  Bool, true, false, Option, none, some, [], ◌∷◌, ◌++◌, Text, txt, or_else, text_eq, if◌then◌else◌,
}
use sigecat_oraculos.Js.Strings.{trim, is_empty}
use sigecat_oraculos.Shift.{Names}
use sigecat_oraculos.Positions.{or_undefined, required, filled, coalesce, name_of}
use sigecat_oraculos.Catalogue.{Kind, close_modal, clear_delete, reload, announce, success}

pub record OrgUnit : Type 0 where
  pub id : Text
  pub section_id : Option Text
  pub department_id : Option Text
  pub name : Text
  pub description : Option Text

pub data UnitField : Type 0 where
  name description assignment_type assignment_id : UnitField

abbrev pub field_index : UnitField → Text
field_index name = txt "name"
field_index description = txt "description"
field_index assignment_type = txt "assignmentType"
field_index assignment_id = txt "assignmentId"

pub record UnitPayload : Type 0 where
  pub name : Text
  pub description : Option Text
  pub section_id : Option Text
  pub department_id : Option Text

abbrev pub section_or_department : Bool → Text
section_or_department true = txt "section"
section_or_department false = txt "department"

abbrev pub unit_form : OrgUnit → UnitField → Text
unit_form u name = u.name
unit_form u description = or_else u.description []
unit_form u assignment_type = section_or_department (filled u.section_id)
unit_form u assignment_id = coalesce (u.section_id ∷ u.department_id ∷ [])

abbrev pub unit_errors : (UnitField → Text) → UnitField → Option Text
unit_errors form name = required (txt "El nombre es requerido.") (trim (form name))
unit_errors form description = none
unit_errors form assignment_type =
    required (txt "El tipo de asignación es requerido.") (form assignment_type)
unit_errors form assignment_id = required (txt "Debe seleccionar una entidad.") (form assignment_id)

-- the two assignments of the payload under `if … else if …`
abbrev pub with_assignment : Text → Text → UnitPayload → UnitPayload
with_assignment kind id payload =
    if text_eq kind (txt "department")
    then record payload { department_id = some id }
    else if text_eq kind (txt "section")
    then record payload { section_id = some id }
    else payload

unfoldable pub unit_create_payload : (UnitField → Text) → UnitPayload
unfolding trim
unit_create_payload form = with_assignment (form assignment_type) (form assignment_id) (record {
  name = trim (form name);
  description = or_undefined (trim (form description));
  section_id = none;
  department_id = none;
})

unfoldable pub unit_update_payload : (UnitField → Text) → UnitPayload
unfolding trim
unit_update_payload form = with_assignment (form assignment_type) (form assignment_id) (record {
  name = trim (form name);
  description = some (trim (form description));
  section_id = none;
  department_id = none;
})

unfoldable pub units : Kind OrgUnit UnitField UnitPayload
unfolding trim unit_create_payload unit_update_payload
units = record {
  same = λ f g. text_eq (field_index f) (field_index g);
  fields = name ∷ description ∷ assignment_type ∷ assignment_id ∷ [];
  id_of = λ unit. unit.id;
  empty_form = λ field. [];
  form_of = unit_form;
  errors_of = unit_errors;
  create_payload = unit_create_payload;
  update_payload = unit_update_payload;
  status = none;
  skips_same_filter = false;
  load_failed = txt "Error del servidor.";
  save_failed = txt "Error del servidor.";
  delete_failed = txt "Error del servidor.";
  created = reload ∷ close_modal ∷ announce (success (txt "Unidad creada correctamente.")) ∷ [];
  updated =
      reload ∷ close_modal ∷ announce (success (txt "Unidad actualizada correctamente.")) ∷ [];
  deleted = clear_delete ∷ reload ∷ announce (success (txt "Unidad eliminada correctamente.")) ∷ [];
  not_deleted = [];
}

-- `map.get(id) ?? id`
abbrev pub name_or : Names → Text → Text
name_or names id = or_else (name_of id names) id

abbrev pub department_label : Names → Option Text → Text
department_label names none = txt "—"
department_label names (some id) =
    if is_empty id then txt "—" else txt "Departamento: " ++ name_or names id

abbrev pub unit_label : Names → Names → Option Text → Option Text → Text
unit_label departments sections none department = department_label departments department
unit_label departments sections (some id) department =
    if is_empty id
    then department_label departments department
    else txt "Sección: " ++ name_or sections id

unfoldable pub belongs_to : Names → Names → OrgUnit → Text
belongs_to departments sections unit =
    unit_label departments sections unit.section_id unit.department_id

abbrev pub assignment_options : Names → Names → Text → Names
assignment_options departments sections kind =
    if text_eq kind (txt "department")
    then departments
    else if text_eq kind (txt "section")
    then sections
    else []
