-- ===== src/Shift.antt =====
-- The first form of a declaration, client/src/app/pages/EmployeeFormPage.tsx: the place of work and
-- `handleNext`. The call that creates the declaration is a parameter.
pub mod Laws
mod Tests
pub mod Samples
use sigecat_oraculos.Prelude.{
  ℕ, ◌+◌, ◌==◌, Bool, true, false, ◌&&◌, not, Option, none, some, List, [], ◌∷◌, ◌++◌, Text, txt,
  text_eq, or_else, Result, ok, err, if◌then◌else◌,
}
use sigecat_oraculos.Js.Strings.{split_on, is_empty}
use sigecat_oraculos.Js.Numbers.{
  Number, nan, nat, neg, parse_int, add, negated, number_text, nat_text, equals,
}
use sigecat_oraculos.Hours.{is_colon}
use sigecat_oraculos.Declarations.{JobPosition}

-- `SHIFT_DURATIONS[shift] || 0`
unfoldable pub shift_duration : Text → ℕ
shift_duration shift =
    if text_eq shift (txt "Diurna")
    then 8
    else if text_eq shift (txt "Media Diurna")
    then 4
    else if text_eq shift (txt "Mixta")
    then 7
    else if text_eq shift (txt "Nocturna")
    then 6
    else if text_eq shift (txt "Media Nocturna")
    then 3
    else 0

-- `Math.abs(n)`
abbrev pub absolute : Number → Number
absolute nan = nan
absolute (nat n) = nat n
absolute (neg n) = nat (n + 1)

abbrev pub first_of : List Text → Text
first_of [] = []
first_of (s ∷ rest) = s

-- `parseInt(clock.split(':')[0])`
unfoldable pub hour_of : Text → Number
unfolding parse_int
hour_of clock = parse_int (first_of (split_on is_colon clock))

unfoldable pub duration_of : Text → Text → Number
unfolding hour_of add negated
duration_of start end = absolute (add (hour_of end) (negated (hour_of start)))

-- where the form goes, with the declaration that it goes on with, or the error that it shows
pub data Next : Type 0 where
  stay : Next
  work_hours : Option Text → Next
  complaint : Text → Next

pub record Form : Type 0 where
  pub selected_position : Option JobPosition
  pub is_continuing : Bool
  pub current_declaration_id : Option Text
  pub start : Text
  pub end : Text

pub record CreateDeclaration : Type 0 where
  pub job_position_id : Text
  pub shift_starts_at : Text
  pub shift_ends_at : Text

abbrev pub is_continued : Bool → Option Text → Bool
is_continued continuing none = false
is_continued continuing (some id) = continuing && not (is_empty id)

abbrev pub length_complaint : Option Text → ℕ → Number → Text
unfolding nat_text number_text
length_complaint shift required duration =
    txt "El horario laboral "
    ++ or_else shift (txt "null")
    ++ txt " requiere una duración de "
    ++ nat_text required
    ++ txt " horas. La actual es de "
    ++ number_text duration
    ++ txt " horas."

module _ {ℓ} {E : Type ℓ} where
  abbrev pub next_of : Result E (Option Text) → Next
  next_of (ok id) = work_hours id
  next_of (err e) = complaint (txt "Error al crear la declaración. Intente de nuevo.")

  abbrev pub checked_next :
      (CreateDeclaration → Result E (Option Text)) → Form → JobPosition → ℕ → Number → Next
  checked_next create form position required duration =
      if not (required == 0) && not (equals duration required)
      then complaint (length_complaint position.job_shift required duration)
      else next_of (
          create (record {
            job_position_id = position.job_position_id;
            shift_starts_at = form.start;
            shift_ends_at = form.end;
          }))

  abbrev pub create_next : (CreateDeclaration → Result E (Option Text)) → Form → JobPosition → Next
  unfolding shift_duration duration_of
  create_next create form position =
      checked_next create form position (shift_duration (or_else position.job_shift []))
        (duration_of form.start form.end)

  abbrev pub next_for :
      (CreateDeclaration → Result E (Option Text)) → Form → Option JobPosition → Next
  next_for create form none = stay
  next_for create form (some position) =
      if is_continued form.is_continuing form.current_declaration_id
      then work_hours form.current_declaration_id
      else create_next create form position

  unfoldable pub handle_next : (CreateDeclaration → Result E (Option Text)) → Form → Next
  handle_next create form = next_for create form form.selected_position

-- the names of the organisation, by id
abbrev pub Names : Type 0
Names = List (Text × Text)

abbrev pub name_at : Names → Option Text → Option Text
name_at [] id = none
name_at ((k, name) ∷ rest) none = none
name_at ((k, name) ∷ rest) (some id) =
    let later = name_at rest (some id) in if text_eq k id then some name else later

pub record OrgData : Type 0 where
  pub areas : Names
  pub departments : Names
  pub sections : Names
  pub units : Names

-- `entityName`: the innermost entity of the position that the lists have
unfoldable pub entity_name : OrgData → Option JobPosition → Text
entity_name org none = txt "No asignada"
entity_name org (some position) = elim (name_at org.units position.unit_id) [
  | some name ↦ name
  | none ↦ elim (name_at org.sections position.section_id) [
    | some name ↦ name
    | none ↦ elim (name_at org.departments position.department_id) [
      | some name ↦ name
      | none ↦ or_else (name_at org.areas position.area_id) (txt "No asignada")
    ]
  ]
]
