-- ===== src/Declarations.antt =====
-- What the API sends for a declaration and its parts: the types of
-- client/src/services/declarationsService.ts, jobFunctionService.ts, jobPositionService.ts,
-- officialFunctionService.ts, restTimeService.ts and licenseService.ts. A field that may be null or
-- absent is an `Option`; durations are whole minutes that are not negative, as the API checks.
use sigecat_oraculos.Prelude.{ℕ, Option, List, Text}
use sigecat_oraculos.Status.{DeclarationStatus}

pub data FunctionType : Type 0 where
  official custom : FunctionType

-- an entry of `Declaration.job_functions`
pub record JobFunction : Type 0 where
  pub job_function_id : Text
  pub official_function_id : Option Text
  pub custom_function_id : Option Text
  pub overtime_minutes : Option ℕ
  pub justification : Option Text
  pub frequency : Option Text
  pub duration_minutes : Option ℕ
  pub function_name : Option Text
  pub function_description : Option Text
  pub function_type : Option FunctionType

pub record OfficialFunction : Type 0 where
  pub id : Text
  pub name : Text
  pub description : Option Text
  pub job_id : Text
  pub is_deleted : ℕ

pub record JobPosition : Type 0 where
  pub job_position_id : Text
  pub job_position_number : Text
  pub description : Option Text
  pub job_id : Text
  pub area_id : Option Text
  pub department_id : Option Text
  pub section_id : Option Text
  pub unit_id : Option Text
  pub user_id : Option Text
  pub job_shift : Option Text

pub record Job : Type 0 where
  pub job_id : Text
  pub name : Option Text
  pub job_code : Option Text

pub data RestType : Type 0 where
  breakfast coffee dinner lunch : RestType

pub record RestTime : Type 0 where
  pub rest_time_id : Text
  pub rest_type : RestType
  pub duration_minutes : ℕ

pub record License : Type 0 where
  pub license_time_id : Text
  pub license_type_name : Option Text
  pub duration_minutes : ℕ

pub record StatusEntry : Type 0 where
  pub status_value : DeclarationStatus
  pub created_at : Text

pub record Declaration : Type 0 where
  pub declaration_id : Text
  pub user_id : Text
  pub job_position_id : Text
  pub shift_starts_at : Option Text
  pub shift_ends_at : Option Text
  pub justification : Option Text
  pub current_status : Option DeclarationStatus
  pub created_at : Text
  pub job_position : Option JobPosition
  pub job : Option Job
  pub status_history : List StatusEntry
  pub job_functions : List JobFunction
