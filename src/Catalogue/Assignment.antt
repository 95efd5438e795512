-- ===== src/Catalogue/Assignment.antt =====
-- The assignment of a unit to a department or to a section, UnitsPage.tsx of client/src/app/pages/admin/.
use sigecat_oraculos.Prelude.{false, not, none, some, [], Text, or_else, ◌≡◌, ◌⊎◌}
use sigecat_oraculos.Js.Strings.{trim, is_empty}
use sigecat_oraculos.Catalogue.{is_valid}
use sigecat_oraculos.Catalogue.Units.{OrgUnit, unit_form, unit_update_payload, units}

-- a unit that belongs to one section or to one department, with an id
abbrev pub HasOwner : OrgUnit → Type 0
HasOwner unit =
    ((id : Text) × (unit.section_id ≡ some id)
      × (unit.department_id ≡ none)
      × (is_empty id ≡ false))
    ⊎ ((id : Text) × (unit.section_id ≡ none)
        × (unit.department_id ≡ some id)
        × (is_empty id ≡ false))

-- what an edit that changes nothing sends
abbrev pub KeepsOwner : OrgUnit → Type 0
KeepsOwner unit =
    ((unit_update_payload (unit_form unit)).section_id ≡ unit.section_id)
    × ((unit_update_payload (unit_form unit)).department_id ≡ unit.department_id)
    × ((unit_update_payload (unit_form unit)).name ≡ trim unit.name)
    × ((unit_update_payload (unit_form unit)).description
        ≡ some (trim (or_else unit.description [])))
    × (is_valid units (unit_form unit) ≡ not (is_empty (trim unit.name)))
