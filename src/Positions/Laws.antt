-- ===== src/Positions/Laws.antt =====
-- What the form of client/src/app/pages/admin/JobPositionsPage.tsx accepts and sends.
use sigecat_oraculos.Prelude.{
  ◌≤◌, ◌≡◌, ◌↔◌, refl, Bool, true, false, ◌&&◌, not, any, Option, none, some, is_some, Text, txt,
  text_eq, length, arith,
}
use sigecat_oraculos.Js.Strings.{trim, is_empty}
use sigecat_oraculos.Positions.{
  ParentType, Form, validate_form, form_errors, only_digits, shift_options, number_error, required,
  shift_error, type_error, description_error,
}

pub record IsAcceptable (form : Form) : Type 0 where
  pub number_given : is_empty (trim form.job_position_number) ≡ false
  pub number_short : length (trim form.job_position_number) ≤ 10
  pub number_digits : only_digits (trim form.job_position_number) ≡ true
  pub job_given : is_empty form.job_id ≡ false
  pub user_given : is_empty form.user_id ≡ false
  pub shift_given : is_empty form.job_shift ≡ false
  pub shift_known : any (text_eq form.job_shift) shift_options ≡ true
  pub type_given : (t : ParentType) × (form.parent_type ≡ some t)
  pub entity_given : is_empty form.parent_id ≡ false
  pub description_short : length form.description ≤ 255

abbrev absent : Option Text → Bool
absent o = not (is_some o)

all_of :
    (a b c d e f g : Bool)
    → ((a && b && c && d && e && f && g) ≡ true)
      ↔ ((a ≡ true) × (b ≡ true) × (c ≡ true) × (d ≡ true) × (e ≡ true) × (f ≡ true) × (g ≡ true))
all_of a b c d e f g = ground arith

number_lem :
    (num : Text)
    → (absent (number_error num) ≡ true)
      ↔ ((is_empty num ≡ false) × (length num ≤ 10) × (only_digits num ≡ true))
number_lem num = ground arith

required_lem : (m s : Text) → (absent (required m s) ≡ true) ↔ (is_empty s ≡ false)
required_lem m s = ground arith

shift_lem :
    (s : Text)
    → (absent (shift_error s) ≡ true)
      ↔ ((is_empty s ≡ false) × (any (text_eq s) shift_options ≡ true))
shift_lem s = ground arith

type_lem :
    (t : Option ParentType) → (absent (type_error t) ≡ true) ↔ ((p : ParentType) × (t ≡ some p))
type_lem none = (λ h. ground arith, λ h. ground arith)
type_lem (some p) = (λ h. (p, refl), λ h. refl)

description_lem : (s : Text) → (absent (description_error s) ≡ true) ↔ (length s ≤ 255)
description_lem s = ground arith

-- The check of the form passes just when every field is in order.
pub validate_form_iff : (form : Form) → (validate_form form ≡ true) ↔ IsAcceptable form
unfolding validate_form form_errors
validate_form_iff form =
    (λ h. accepted ((all_of _ _ _ _ _ _ _).0 h), λ h. (all_of _ _ _ _ _ _ _).1 (accepts h))
  where
    Passed : Type 0
    Passed =
        (absent (number_error (trim form.job_position_number)) ≡ true)
        × (absent (form_errors form).job_id ≡ true)
        × (absent (form_errors form).user_id ≡ true)
        × (absent (shift_error form.job_shift) ≡ true)
        × (absent (type_error form.parent_type) ≡ true)
        × (absent (form_errors form).parent_id ≡ true)
        × (absent (description_error form.description) ≡ true)

    accepted : Passed → IsAcceptable form
    accepted (n, j, u, s, t, e, d) = record {
      number_given = ((number_lem (trim form.job_position_number)).0 n).0;
      number_short = ((number_lem (trim form.job_position_number)).0 n).1;
      number_digits = ((number_lem (trim form.job_position_number)).0 n).2;
      job_given = (required_lem (txt "El tipo de plaza es requerido.") form.job_id).0 j;
      user_given = (required_lem (txt "El usuario asignado es requerido.") form.user_id).0 u;
      shift_given = ((shift_lem form.job_shift).0 s).0;
      shift_known = ((shift_lem form.job_shift).0 s).1;
      type_given = (type_lem form.parent_type).0 t;
      entity_given = (required_lem (txt "La entidad es requerida.") form.parent_id).0 e;
      description_short = (description_lem form.description).0 d;
    }

    accepts : IsAcceptable form → Passed
    accepts h = (
      (number_lem (trim form.job_position_number)).1
          (h.number_given, h.number_short, h.number_digits),
      (required_lem (txt "El tipo de plaza es requerido.") form.job_id).1 h.job_given,
      (required_lem (txt "El usuario asignado es requerido.") form.user_id).1 h.user_given,
      (shift_lem form.job_shift).1 (h.shift_given, h.shift_known),
      (type_lem form.parent_type).1 h.type_given,
      (required_lem (txt "La entidad es requerida.") form.parent_id).1 h.entity_given,
      (description_lem form.description).1 h.description_short,
    )
