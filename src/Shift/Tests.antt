-- ===== src/Shift/Tests.antt =====
-- A night shift, and one of the right length.
use sigecat_oraculos.Prelude.{◌<◌, ◌≡◌, ◌⊎◌, refl, false, Option, none, some, Text, txt, Result, ok}
use sigecat_oraculos.Js.Strings.{split_on, is_space}
use sigecat_oraculos.Js.Numbers.{nat, parse_int}
use sigecat_oraculos.Shift.Samples.{position}
use sigecat_oraculos.Shift.{
  Form, CreateDeclaration, handle_next, next_of, complaint, length_complaint, shift_duration,
  hour_of,
}
use sigecat_oraculos.Shift.Laws.{payload, handle_next_lem}

abbrev form : Form
form = record {
  selected_position = some position;
  is_continuing = false;
  current_declaration_id = none;
  start = txt "22:00";
  end = txt "04:00";
}

abbrev create : CreateDeclaration → Result Text (Option Text)
create request = ok (some (txt "d1"))

handle_next_lem_example :
    ((shift_duration (txt "Nocturna") ≡ 0) ⊎ (18 ≡ shift_duration (txt "Nocturna"))
      → handle_next create form ≡ next_of (create (payload form position)))
    × (0 < shift_duration (txt "Nocturna")
        → (18 ≡ shift_duration (txt "Nocturna") → ⊥)
        → handle_next create form
          ≡ complaint
              (length_complaint (some (txt "Nocturna")) (shift_duration (txt "Nocturna")) (nat 18)))
unfolding hour_of split_on parse_int is_space
handle_next_lem_example = handle_next_lem create form position 22 4 refl refl refl refl
