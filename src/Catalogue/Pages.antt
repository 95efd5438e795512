-- ===== src/Catalogue/Pages.antt =====
-- The pages of client/src/app/pages/admin/ over the services they use: each takes an event to what its
-- handler leaves of the server and of the page.
use sigecat_oraculos.Prelude.{Text}
use sigecat_oraculos.Services.{
  Api, area_service, license_type_service, department_service, section_service, unit_service,
  job_service, job_class_service,
}
use sigecat_oraculos.Catalogue.{State}
use sigecat_oraculos.Catalogue.Events.{Event, step}
use sigecat_oraculos.Catalogue.Organization.{
  Area, AreaField, AreaPayload, areas, LicenseType, LicenseTypeField, license_types, Belonging,
  BelongingField, BelongingPayload, departments, sections,
}
use sigecat_oraculos.Catalogue.Units.{OrgUnit, UnitField, UnitPayload, units}
use sigecat_oraculos.Catalogue.Jobs.{
  CodedJob, JobField, JobPayload, jobs, JobClass, ClassField, ClassPayload, job_classes,
}

module _ {S : Type 0} where
  unfoldable pub areas_page :
      Api S Area AreaPayload
      → Event Area AreaField
      → S
      → State Area AreaField
      → S × State Area AreaField
  unfolding areas step
  areas_page api = step areas (area_service api)

  unfoldable pub license_types_page :
      Api S LicenseType Text
      → Event LicenseType LicenseTypeField
      → S
      → State LicenseType LicenseTypeField
      → S × State LicenseType LicenseTypeField
  unfolding license_types step
  license_types_page api = step license_types (license_type_service api)

  unfoldable pub departments_page :
      Api S Belonging BelongingPayload
      → Event Belonging BelongingField
      → S
      → State Belonging BelongingField
      → S × State Belonging BelongingField
  unfolding departments step
  departments_page api = step departments (department_service api)

  unfoldable pub sections_page :
      Api S Belonging BelongingPayload
      → Event Belonging BelongingField
      → S
      → State Belonging BelongingField
      → S × State Belonging BelongingField
  unfolding sections step
  sections_page api = step sections (section_service api)

  unfoldable pub units_page :
      Api S OrgUnit UnitPayload
      → Event OrgUnit UnitField
      → S
      → State OrgUnit UnitField
      → S × State OrgUnit UnitField
  unfolding units step
  units_page api = step units (unit_service api)

  unfoldable pub jobs_page :
      Api S CodedJob JobPayload
      → Event CodedJob JobField
      → S
      → State CodedJob JobField
      → S × State CodedJob JobField
  unfolding jobs step
  jobs_page api = step jobs (job_service api)

  unfoldable pub job_classes_page :
      Api S JobClass ClassPayload
      → Event JobClass ClassField
      → S
      → State JobClass ClassField
      → S × State JobClass ClassField
  unfolding job_classes step
  job_classes_page api = step job_classes (job_class_service api)
