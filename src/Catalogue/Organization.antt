-- ===== src/Catalogue/Organization.antt =====
-- The kinds of AreasPage.tsx, LicenseTypesPage.tsx, DepartmentsPage.tsx, SectionsPage.tsx and
-- UnitsPage.tsx under client/src/app/pages/admin/: their forms, checks and payloads, and what each
-- does once a request is answered.
use sigecat_oraculos.Prelude.{Bool, true, false, Option, none, some, [], ◌∷◌, Text, txt, or_else}
use sigecat_oraculos.Js.Strings.{trim}
use sigecat_oraculos.Positions.{or_undefined, required}
use sigecat_oraculos.Catalogue.{Kind, close_modal, clear_delete, reload, announce, success}

pub record Area : Type 0 where
  pub area_id : Text
  pub name : Text
  pub description : Option Text

pub data AreaField : Type 0 where
  name description : AreaField

abbrev pub same_area_field : AreaField → AreaField → Bool
same_area_field name name = true
same_area_field description description = true
same_area_field name description = false
same_area_field description name = false

pub record AreaPayload : Type 0 where
  pub name : Text
  pub description : Text

abbrev pub area_form : Area → AreaField → Text
area_form area name = area.name
area_form area description = or_else area.description []

abbrev pub area_errors : (AreaField → Text) → AreaField → Option Text
area_errors form name = required (txt "El nombre es requerido.") (trim (form name))
area_errors form description = none

abbrev pub area_payload : (AreaField → Text) → AreaPayload
area_payload form = record { name = trim (form name); description = trim (form description) }

unfoldable pub areas : Kind Area AreaField AreaPayload
unfolding trim
areas = record {
  same = same_area_field;
  fields = name ∷ description ∷ [];
  id_of = λ area. area.area_id;
  empty_form = λ field. [];
  form_of = area_form;
  errors_of = area_errors;
  create_payload = area_payload;
  update_payload = area_payload;
  status = none;
  skips_same_filter = false;
  load_failed = txt "Error del servidor.";
  save_failed = txt "Error del servidor.";
  delete_failed = txt "Error del servidor.";
  created = reload ∷ close_modal ∷ announce (success (txt "Área creada correctamente.")) ∷ [];
  updated = reload ∷ close_modal ∷ announce (success (txt "Área actualizada correctamente.")) ∷ [];
  deleted = clear_delete ∷ reload ∷ announce (success (txt "Área eliminada correctamente.")) ∷ [];
  not_deleted = [];
}

pub record LicenseType : Type 0 where
  pub id : Text
  pub name : Text

pub data LicenseTypeField : Type 0 where
  name : LicenseTypeField

abbrev pub license_type_errors : (LicenseTypeField → Text) → LicenseTypeField → Option Text
license_type_errors form name = required (txt "El nombre es requerido.") (trim (form name))

unfoldable pub license_types : Kind LicenseType LicenseTypeField Text
unfolding trim
license_types = record {
  same = λ f g. true;
  fields = name ∷ [];
  id_of = λ license_type. license_type.id;
  empty_form = λ field. [];
  form_of = λ license_type field. license_type.name;
  errors_of = license_type_errors;
  create_payload = λ form. trim (form name);
  update_payload = λ form. trim (form name);
  status = none;
  skips_same_filter = false;
  load_failed = txt "Error del servidor.";
  save_failed = txt "Error del servidor.";
  delete_failed = txt "Error del servidor.";
  created =
      reload ∷ close_modal ∷ announce (success (txt "Tipo de licencia creado correctamente.")) ∷ [];
  updated =
      reload
      ∷ close_modal
      ∷ announce (success (txt "Tipo de licencia actualizado correctamente."))
      ∷ [];
  deleted =
      clear_delete
      ∷ reload
      ∷ announce (success (txt "Tipo de licencia eliminado correctamente."))
      ∷ [];
  not_deleted = [];
}

-- a row of a department or of a section, which belong to an area
pub record Belonging : Type 0 where
  pub id : Text
  pub area_id : Text
  pub name : Text
  pub description : Option Text

pub data BelongingField : Type 0 where
  name description area_id : BelongingField

abbrev pub same_belonging_field : BelongingField → BelongingField → Bool
same_belonging_field name name = true
same_belonging_field description description = true
same_belonging_field area_id area_id = true
same_belonging_field name description = false
same_belonging_field name area_id = false
same_belonging_field description name = false
same_belonging_field description area_id = false
same_belonging_field area_id name = false
same_belonging_field area_id description = false

-- a field that is `none` is not in the request
pub record BelongingPayload : Type 0 where
  pub name : Text
  pub description : Option Text
  pub area_id : Text

abbrev pub belonging_form : Belonging → BelongingField → Text
belonging_form row name = row.name
belonging_form row description = or_else row.description []
belonging_form row area_id = row.area_id

abbrev pub belonging_errors : Text → (BelongingField → Text) → BelongingField → Option Text
belonging_errors no_area form name = required (txt "El nombre es requerido.") (trim (form name))
belonging_errors no_area form description = none
belonging_errors no_area form area_id = required no_area (form area_id)

-- DepartmentsPage sends the form as it is
abbrev pub department_payload : (BelongingField → Text) → BelongingPayload
department_payload form = record {
  name = form name;
  description = some (form description);
  area_id = form area_id;
}

unfoldable pub departments : Kind Belonging BelongingField BelongingPayload
unfolding trim
departments = record {
  same = same_belonging_field;
  fields = name ∷ description ∷ area_id ∷ [];
  id_of = λ department. department.id;
  empty_form = λ field. [];
  form_of = belonging_form;
  errors_of = belonging_errors (txt "Debe seleccionar un área vinculada.");
  create_payload = department_payload;
  update_payload = department_payload;
  status = none;
  skips_same_filter = true;
  load_failed = txt "Error del servidor.";
  save_failed = txt "Error del servidor.";
  delete_failed = txt "Error del servidor.";
  created =
      close_modal
      ∷ announce (success (txt "El departamento fue creado correctamente."))
      ∷ reload
      ∷ [];
  updated = close_modal ∷ announce (success (txt "Los cambios se han guardado.")) ∷ reload ∷ [];
  deleted =
      announce (success (txt "El registro se movió a la papelera.")) ∷ clear_delete ∷ reload ∷ [];
  not_deleted = clear_delete ∷ [];
}

abbrev pub section_create_payload : (BelongingField → Text) → BelongingPayload
section_create_payload form = record {
  name = trim (form name);
  description = or_undefined (trim (form description));
  area_id = form area_id;
}

abbrev pub section_update_payload : (BelongingField → Text) → BelongingPayload
section_update_payload form = record {
  name = trim (form name);
  description = some (trim (form description));
  area_id = form area_id;
}

unfoldable pub sections : Kind Belonging BelongingField BelongingPayload
unfolding trim
sections = record {
  same = same_belonging_field;
  fields = name ∷ description ∷ area_id ∷ [];
  id_of = λ section. section.id;
  empty_form = λ field. [];
  form_of = belonging_form;
  errors_of = belonging_errors (txt "Debe seleccionar un área.");
  create_payload = section_create_payload;
  update_payload = section_update_payload;
  status = none;
  skips_same_filter = false;
  load_failed = txt "Error del servidor.";
  save_failed = txt "Error del servidor.";
  delete_failed = txt "Error del servidor.";
  created = close_modal ∷ announce (success (txt "Sección creada correctamente.")) ∷ reload ∷ [];
  updated =
      close_modal ∷ announce (success (txt "Sección actualizada correctamente.")) ∷ reload ∷ [];
  deleted =
      clear_delete ∷ announce (success (txt "Sección eliminada correctamente.")) ∷ reload ∷ [];
  not_deleted = clear_delete ∷ [];
}
