-- ===== src/Services.antt =====
-- The services of the administration, client/src/services/common.ts, areaService.ts, departmentService.ts,
-- sectionService.ts, unitService.ts, jobService.ts, jobClassService.ts, officialFunctionService.ts,
-- licenseTypeService.ts and userService.ts: the requests they send and how an error reaches the page.
-- The client of client/src/services/apiClient.ts and the API behind it are a parameter, `Api`, over a
-- state of the server that only writes change.
use sigecat_oraculos.Prelude.{
  ℕ, Option, none, some, List, [], ◌∷◌, ◌++◌, Text, txt, or_else, map, Result, ok, map_err, ◌>>=◌,
}
use sigecat_oraculos.Logs.{Paginated}

-- both fields come from the server, and the pages read the message by `e.message ?? …`
pub record ServiceError : Type 0 where
  pub code : Text
  pub message : Option Text

-- what a rejected request carries: no response, or one whose `data.errors` may be absent
pub data Failure : Type 0 where
  no_response : Failure
  answered : Option (List ServiceError) → Failure

abbrev pub internal_error : ServiceError
internal_error = record {
  code = txt "INTERNAL_ERROR";
  message = some (txt "Error del servidor. Intente de nuevo más tarde.");
}

unfoldable pub extract_api_error : Failure → ServiceError
extract_api_error no_response = internal_error
extract_api_error (answered none) = internal_error
extract_api_error (answered (some [])) = internal_error
extract_api_error (answered (some (e ∷ rest))) = e

pub record ListParams : Type 0 where
  pub page : ℕ
  pub limit : ℕ
  pub filter : Text
  pub status : Option Text

-- a request that changes something; a deletion has no body
pub data Request (Payload : Type 0) : Type 0 where
  post : Text → Payload → Request Payload
  patch : Text → Payload → Request Payload
  delete : Text → Request Payload

-- a body that is answered: its `data`, which may be absent, and the member of its meta that is read
pub record Page (Item : Type 0) : Type 0 where
  pub rows : Option (List Item)
  pub total_pages : Option ℕ

pub record Api (S Item Payload : Type 0) : Type 0 where
  pub get : Text → ListParams → S → Result {0, 0} Failure (Page Item)
  pub get_one : Text → S → Result {0, 0} Failure Item
  pub write : Request Payload → S → S × Result {0, 0} Failure Unit

pub record Service (S Item Payload : Type 0) : Type 0 where
  pub list_page : ListParams → S → Result {0, 0} ServiceError (Paginated Item)
  pub create : Payload → S → S × Result {0, 0} ServiceError Unit
  pub update : Text → Payload → S → S × Result {0, 0} ServiceError Unit
  pub remove : Text → S → S × Result {0, 0} ServiceError Unit

-- `catch (e) { throw extractApiError(e); }` around a write
abbrev pub thrown :
    {S : Type 0} → S × Result {0, 0} Failure Unit → S × Result {0, 0} ServiceError Unit
thrown (store, answer) = (store, map_err extract_api_error answer)

abbrev pub item_path : Text → Text → Text
item_path path id = path ++ txt "/" ++ id

module _ {S Item Payload : Type 0} where
  -- `{ data: res.data.data ?? [], meta: res.data.meta }`
  unfoldable pub get_page :
      Api S Item Payload → Text → ListParams → S → Result {0, 0} ServiceError (Paginated Item)
  get_page api path params store = map_err extract_api_error (do
    res ← api.get path params store
    ok (record { rows = or_else res.rows []; total_pages = res.total_pages }))

  -- the service of one kind of rows: where it lists them, and where it writes them
  unfoldable pub service : Text → Text → Api S Item Payload → Service S Item Payload
  unfolding get_page
  service list_path path api = record {
    list_page = get_page api list_path;
    create = λ payload store. thrown (api.write (post path payload) store);
    update = λ id payload store. thrown (api.write (patch (item_path path id) payload) store);
    remove = λ id store. thrown (api.write (delete (item_path path id)) store);
  }

  abbrev pub area_service : Api S Item Payload → Service S Item Payload
  unfolding service
  area_service = service (txt "/areas") (txt "/areas")

  abbrev pub department_service : Api S Item Payload → Service S Item Payload
  unfolding service
  department_service = service (txt "/departments") (txt "/departments")

  abbrev pub section_service : Api S Item Payload → Service S Item Payload
  unfolding service
  section_service = service (txt "/sections") (txt "/sections")

  abbrev pub unit_service : Api S Item Payload → Service S Item Payload
  unfolding service
  unit_service = service (txt "/units") (txt "/units")

  abbrev pub job_service : Api S Item Payload → Service S Item Payload
  unfolding service
  job_service = service (txt "/jobs") (txt "/jobs")

  -- the rows are listed at `/job-classes` and written at `/job-class`
  abbrev pub job_class_service : Api S Item Payload → Service S Item Payload
  unfolding service
  job_class_service = service (txt "/job-classes") (txt "/job-class")

  abbrev pub official_function_service : Api S Item Payload → Service S Item Payload
  unfolding service
  official_function_service = service (txt "/official-functions") (txt "/official-functions")

  abbrev pub license_type_service : Api S Item Payload → Service S Item Payload
  unfolding service
  license_type_service = service (txt "/license-type") (txt "/license-type")

  unfoldable pub get_by_id : Text → Api S Item Payload → Text → S → Result {0, 0} ServiceError Item
  get_by_id path api id store = map_err extract_api_error (api.get_one (item_path path id) store)

  abbrev pub get_department_by_id : Api S Item Payload → Text → S → Result {0, 0} ServiceError Item
  unfolding get_by_id
  get_department_by_id = get_by_id (txt "/departments")

  abbrev pub get_job_by_id : Api S Item Payload → Text → S → Result {0, 0} ServiceError Item
  unfolding get_by_id
  get_job_by_id = get_by_id (txt "/jobs")

  abbrev pub get_job_class_by_id : Api S Item Payload → Text → S → Result {0, 0} ServiceError Item
  unfolding get_by_id
  get_job_class_by_id = get_by_id (txt "/job-class")

  abbrev pub get_official_function_by_id :
      Api S Item Payload → Text → S → Result {0, 0} ServiceError Item
  unfolding get_by_id
  get_official_function_by_id = get_by_id (txt "/official-functions")

-- an entity that can be selected, with the names under which the API may send its fields
pub record OrgOption : Type 0 where
  pub id : Text
  pub name : Text

pub record SentDepartment : Type 0 where
  pub id : Option Text
  pub department_id : Option Text
  pub name : Text

abbrev pub department_option : SentDepartment → OrgOption
department_option d = record { id = or_else d.id (or_else d.department_id []); name = d.name }

pub record SentSection : Type 0 where
  pub id : Option Text
  pub section_id : Option Text
  pub upper_section_id : Option Text
  pub name : Option Text
  pub upper_name : Option Text

abbrev pub section_option : SentSection → OrgOption
section_option s = record {
  id = or_else s.id (or_else s.section_id (or_else s.upper_section_id []));
  name = or_else s.name (or_else s.upper_name []);
}

module _ {S Sent Payload : Type 0} where
  unfoldable pub get_options :
      (Sent → OrgOption)
      → Text
      → Api S Sent Payload
      → ListParams
      → S
      → Result {0, 0} ServiceError (List OrgOption)
  get_options option path api params store =
      map_err extract_api_error
        (do res ← api.get path params store; ok (map option (or_else res.rows [])))

-- the bodies that userService.ts sends
pub data UserBody (Registration : Type 0) : Type 0 where
  register : Registration → UserBody Registration
  with_role : Text → UserBody Registration

-- `getUsersPage`, `registerUser`, `changeRole` and `deleteUser`
unfoldable pub user_service :
    {S Item Registration : Type 0}
    → Api S Item (UserBody Registration)
    → Service S Item (UserBody Registration)
unfolding get_page
user_service api = record {
  list_page = get_page api (txt "/users");
  create = λ body store. thrown (api.write (post (txt "/users/register") body) store);
  update = λ id body store.
      thrown (api.write (patch (item_path (txt "/users") id ++ txt "/role") body) store);
  remove = λ id store. thrown (api.write (delete (item_path (txt "/users") id)) store);
}
