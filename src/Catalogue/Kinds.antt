-- ===== src/Catalogue/Kinds.antt =====
-- What the general results ask of a page holds of the pages of client/src/app/pages/admin/.
use sigecat_oraculos.Prelude.{refl, ap}
use sigecat_oraculos.Catalogue.Errors.{IsFieldwise}
use sigecat_oraculos.Catalogue.Refinement.{Reloads}
use sigecat_oraculos.Catalogue.Organization.{
  AreaField, areas, LicenseTypeField, license_types, BelongingField, departments, sections,
}
use sigecat_oraculos.Catalogue.Units.{UnitField, units}
use sigecat_oraculos.Catalogue.Jobs.{JobField, jobs, ClassField, job_classes}
use sigecat_oraculos.Catalogue.Functions.{FunctionField, functions}

of_area : IsFieldwise areas
unfolding areas
of_area a b AreaField.name e = ap (λ s. areas.errors_of (λ field. s) AreaField.name) e
of_area a b AreaField.description e = refl

of_license_type : IsFieldwise license_types
unfolding license_types
of_license_type a b LicenseTypeField.name e =
    ap (λ s. license_types.errors_of (λ field. s) LicenseTypeField.name) e

of_department : IsFieldwise departments
unfolding departments
of_department a b BelongingField.name e =
    ap (λ s. departments.errors_of (λ field. s) BelongingField.name) e
of_department a b BelongingField.description e = refl
of_department a b BelongingField.area_id e =
    ap (λ s. departments.errors_of (λ field. s) BelongingField.area_id) e

of_section : IsFieldwise sections
unfolding sections
of_section a b BelongingField.name e =
    ap (λ s. sections.errors_of (λ field. s) BelongingField.name) e
of_section a b BelongingField.description e = refl
of_section a b BelongingField.area_id e =
    ap (λ s. sections.errors_of (λ field. s) BelongingField.area_id) e

of_unit : IsFieldwise units
unfolding units
of_unit a b UnitField.name e = ap (λ s. units.errors_of (λ field. s) UnitField.name) e
of_unit a b UnitField.description e = refl
of_unit a b UnitField.assignment_type e =
    ap (λ s. units.errors_of (λ field. s) UnitField.assignment_type) e
of_unit a b UnitField.assignment_id e =
    ap (λ s. units.errors_of (λ field. s) UnitField.assignment_id) e

of_job : IsFieldwise jobs
unfolding jobs
of_job a b JobField.name e = ap (λ s. jobs.errors_of (λ field. s) JobField.name) e
of_job a b JobField.description e = ap (λ s. jobs.errors_of (λ field. s) JobField.description) e
of_job a b JobField.code e = ap (λ s. jobs.errors_of (λ field. s) JobField.code) e
of_job a b JobField.job_class_id e = ap (λ s. jobs.errors_of (λ field. s) JobField.job_class_id) e

of_class : IsFieldwise job_classes
unfolding job_classes
of_class a b ClassField.name e = ap (λ s. job_classes.errors_of (λ field. s) ClassField.name) e
of_class a b ClassField.description e =
    ap (λ s. job_classes.errors_of (λ field. s) ClassField.description) e
of_class a b ClassField.code e = ap (λ s. job_classes.errors_of (λ field. s) ClassField.code) e

of_function : IsFieldwise functions
unfolding functions
of_function a b FunctionField.name e =
    ap (λ s. functions.errors_of (λ field. s) FunctionField.name) e
of_function a b FunctionField.description e =
    ap (λ s. functions.errors_of (λ field. s) FunctionField.description) e
of_function a b FunctionField.job_id e =
    ap (λ s. functions.errors_of (λ field. s) FunctionField.job_id) e
of_function a b FunctionField.expected_time e =
    ap (λ s. functions.errors_of (λ field. s) FunctionField.expected_time) e

-- The pages of the areas, license types, departments, sections, units, jobs, job classes and official
-- functions load their rows again after every write that is accepted, and each check of their forms
-- reads its own field only.
pub kinds_lem :
    (Reloads areas × IsFieldwise areas)
    × (Reloads license_types × IsFieldwise license_types)
    × (Reloads departments × IsFieldwise departments)
    × (Reloads sections × IsFieldwise sections)
    × (Reloads units × IsFieldwise units)
    × (Reloads jobs × IsFieldwise jobs)
    × (Reloads job_classes × IsFieldwise job_classes)
    × (Reloads functions × IsFieldwise functions)
unfolding areas license_types departments sections units jobs job_classes functions
kinds_lem = (
  ((refl, refl, refl), of_area),
  ((refl, refl, refl), of_license_type),
  ((refl, refl, refl), of_department),
  ((refl, refl, refl), of_section),
  ((refl, refl, refl), of_unit),
  ((refl, refl, refl), of_job),
  ((refl, refl, refl), of_class),
  ((refl, refl, refl), of_function),
)
