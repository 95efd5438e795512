-- ===== src/Catalogue/Jobs.antt =====
-- The kinds of JobPage.tsx and JobClassPage.tsx, client/src/app/pages/admin/, whose forms take a code.
use sigecat_oraculos.Prelude.{
  ℕ, ltb, Bool, true, not, ◌||◌, Option, none, some, [], ◌∷◌, Text, txt, text_eq, length, or_else,
  if◌then◌else◌,
}
use sigecat_oraculos.Js.Strings.{trim, is_empty}
use sigecat_oraculos.Js.Numbers.{nat_text}
use sigecat_oraculos.Js.Fractions.{Decimal, number, is_integer, is_negative, exceeds}
use sigecat_oraculos.Positions.{or_undefined, required}
use sigecat_oraculos.Catalogue.{Kind, close_modal, clear_delete, reload, announce, success}

pub record CodedJob : Type 0 where
  pub job_id : Text
  pub job_class_id : Text
  pub name : Text
  pub job_code : ℕ
  pub description : Option Text

pub data JobField : Type 0 where
  name description code job_class_id : JobField

abbrev pub job_field_name : JobField → Text
job_field_name name = txt "name"
job_field_name description = txt "description"
job_field_name code = txt "code"
job_field_name job_class_id = txt "job_class_id"

pub record JobPayload : Type 0 where
  pub name : Text
  pub description : Option Text
  pub job_code : Decimal
  pub job_class_id : Text

abbrev pub name_error : Text → Text → Option Text
name_error missing text =
    if is_empty (trim text)
    then some missing
    else if ltb 110 (length text)
    then some (txt "El nombre no puede exceder los 110 caracteres.")
    else none

abbrev pub long_description_error : Text → Option Text
long_description_error text =
    if ltb 255 (length text)
    then some (txt "La descripción no puede exceder los 255 caracteres.")
    else none

-- `!Number.isInteger(codeNum) || codeNum < 0 || codeNum > 200000`
abbrev pub is_bad_code : Decimal → Bool
is_bad_code value = not (is_integer value) || is_negative value || exceeds 200000 value

unfoldable pub code_error : Text → Option Text
unfolding trim number
code_error text =
    if is_empty (trim text)
    then some (txt "El código numérico es obligatorio.")
    else if is_bad_code (number text)
    then some (txt "El código debe ser un número entero entre 0 y 200000.")
    else none

abbrev pub job_form : CodedJob → JobField → Text
job_form job name = job.name
job_form job description = or_else job.description []
job_form job code = nat_text job.job_code
job_form job job_class_id = job.job_class_id

abbrev pub job_errors : (JobField → Text) → JobField → Option Text
job_errors form name = name_error (txt "El nombre del puesto es obligatorio.") (form name)
job_errors form description = long_description_error (form description)
job_errors form code = code_error (form code)
job_errors form job_class_id =
    required (txt "La clase ocupacional es obligatoria.") (trim (form job_class_id))

abbrev pub job_payload : (JobField → Text) → JobPayload
job_payload form = record {
  name = form name;
  description = or_undefined (form description);
  job_code = number (form code);
  job_class_id = form job_class_id;
}

unfoldable pub jobs : Kind CodedJob JobField JobPayload
jobs = record {
  same = λ f g. text_eq (job_field_name f) (job_field_name g);
  fields = name ∷ description ∷ code ∷ job_class_id ∷ [];
  id_of = λ job. job.job_id;
  empty_form = λ field. [];
  form_of = job_form;
  errors_of = job_errors;
  create_payload = job_payload;
  update_payload = job_payload;
  status = some (txt "active");
  skips_same_filter = true;
  load_failed = txt "Error del servidor al cargar cargos.";
  save_failed = txt "Error al procesar la solicitud.";
  delete_failed = txt "Error al intentar eliminar el puesto.";
  created = close_modal ∷ announce (success (txt "Puesto creado exitosamente.")) ∷ reload ∷ [];
  updated = close_modal ∷ announce (success (txt "Puesto actualizado exitosamente.")) ∷ reload ∷ [];
  deleted = clear_delete ∷ announce (success (txt "Puesto eliminado exitosamente.")) ∷ reload ∷ [];
  not_deleted = clear_delete ∷ [];
}

pub record JobClass : Type 0 where
  pub job_class_id : Text
  pub job_class_code : ℕ
  pub name : Text
  pub description : Option Text

pub data ClassField : Type 0 where
  name description code : ClassField

abbrev pub class_field_name : ClassField → Text
class_field_name name = txt "name"
class_field_name description = txt "description"
class_field_name code = txt "code"

pub record ClassPayload : Type 0 where
  pub name : Text
  pub description : Option Text
  pub job_class_code : Decimal

abbrev pub class_form : JobClass → ClassField → Text
class_form row name = row.name
class_form row description = or_else row.description []
class_form row code = nat_text row.job_class_code

abbrev pub class_errors : (ClassField → Text) → ClassField → Option Text
class_errors form name =
    name_error (txt "El nombre de la clase ocupacional es obligatorio.") (form name)
class_errors form description = long_description_error (form description)
class_errors form code = code_error (form code)

abbrev pub class_payload : (ClassField → Text) → ClassPayload
class_payload form = record {
  name = form name;
  description = or_undefined (form description);
  job_class_code = number (form code);
}

unfoldable pub job_classes : Kind JobClass ClassField ClassPayload
job_classes = record {
  same = λ f g. text_eq (class_field_name f) (class_field_name g);
  fields = name ∷ description ∷ code ∷ [];
  id_of = λ row. row.job_class_id;
  empty_form = λ field. [];
  form_of = class_form;
  errors_of = class_errors;
  create_payload = class_payload;
  update_payload = class_payload;
  status = some (txt "active");
  skips_same_filter = true;
  load_failed = txt "Error del servidor al cargar clases ocupacionales.";
  save_failed = txt "Error al procesar la solicitud.";
  delete_failed = txt "Error al intentar eliminar la Clase Ocupacional.";
  created =
      close_modal ∷ announce (success (txt "Clase Ocupacional creada exitosamente.")) ∷ reload ∷ [];
  updated =
      close_modal
      ∷ announce (success (txt "Clase Ocupacional actualizado exitosamente."))
      ∷ reload
      ∷ [];
  deleted =
      clear_delete
      ∷ announce (success (txt "Clase Ocupacional eliminada exitosamente."))
      ∷ reload
      ∷ [];
  not_deleted = clear_delete ∷ [];
}
