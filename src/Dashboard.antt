-- ===== src/Dashboard.antt =====
-- The counts of the dashboards: client/src/services/dashboardService.ts and
-- employeeDashboardService.ts. What their requests give is a parameter; a request that fails is none.
pub mod Laws
use sigecat_oraculos.Prelude.{
  ℕ, zero, suc, ◌+◌, ◌-◌, max, ◌==◌, Bool, true, false, not, Option, none, some, List, [], ◌∷◌,
  Text, filter, length, take, or_else, if◌then◌else◌, map,
}
use sigecat_oraculos.Js.Strings.{is_empty}
use sigecat_oraculos.Status.{
  DeclarationStatus, incomplete, revision, approved, rejected, abandoned, completed, status_eq,
}
use sigecat_oraculos.Declarations.{Declaration, JobPosition}
use sigecat_oraculos.Activity.{SystemLog, is_business_event}
use sigecat_oraculos.LogsPage.{AdminUser, UserKind, admin, employee}

-- `Record<DeclarationStatus, number>`
pub record StatusCounts : Type 0 where
  pub incomplete_count : ℕ
  pub revision_count : ℕ
  pub approved_count : ℕ
  pub rejected_count : ℕ
  pub abandoned_count : ℕ
  pub completed_count : ℕ

abbrev pub empty_status_counts : StatusCounts
empty_status_counts = record {
  incomplete_count = 0;
  revision_count = 0;
  approved_count = 0;
  rejected_count = 0;
  abandoned_count = 0;
  completed_count = 0;
}

abbrev pub count_status : DeclarationStatus → StatusCounts → StatusCounts
count_status incomplete c = record c { incomplete_count = c.incomplete_count + 1 }
count_status revision c = record c { revision_count = c.revision_count + 1 }
count_status approved c = record c { approved_count = c.approved_count + 1 }
count_status rejected c = record c { rejected_count = c.rejected_count + 1 }
count_status abandoned c = record c { abandoned_count = c.abandoned_count + 1 }
count_status completed c = record c { completed_count = c.completed_count + 1 }

-- the loop over the declarations; one with no status has no count
unfoldable pub count_statuses : StatusCounts → List (Option DeclarationStatus) → StatusCounts
count_statuses c [] = c
count_statuses c (none ∷ rest) = count_statuses c rest
count_statuses c (some s ∷ rest) = count_statuses (count_status s c) rest

abbrev pub statuses_of : List Declaration → List (Option DeclarationStatus)
statuses_of declarations = map (λ d. d.current_status) declarations

-- `Paginated<T>` with the total of its meta
pub record Listing {ℓ} (A : Type ℓ) : Type ℓ where
  pub rows : List A
  pub total : ℕ

-- `settled(result, fallback)` with the empty page
abbrev pub settled_page {ℓ} : {A : Type ℓ} → Option (Listing A) → Listing A
settled_page none = record { rows = []; total = 0 }
settled_page (some page) = page

-- `page.meta.total || page.data.length`
abbrev pub total_of {ℓ} : {A : Type ℓ} → Listing A → ℕ
total_of page = if page.total == 0 then length page.rows else page.total

pub record Occupancy : Type 0 where
  pub total : ℕ
  pub occupied : ℕ
  pub vacant : ℕ

abbrev pub has_user : JobPosition → Bool
has_user p = elim p.user_id [ none ↦ false | some id ↦ not (is_empty id) ]

unfoldable pub occupancy : Option (Listing JobPosition) → Occupancy
occupancy result =
    let page = settled_page result in
    let total = total_of page in
    let occupied = length (filter has_user page.rows) in
    record { total = total; occupied = occupied; vacant = total - occupied }

pub record UserCounts : Type 0 where
  pub total : ℕ
  pub admins : ℕ
  pub employees : ℕ

abbrev pub is_admin : AdminUser → Bool
is_admin u = elim u.role [ admin ↦ true | employee ↦ false ]

abbrev pub is_employee : AdminUser → Bool
is_employee u = elim u.role [ admin ↦ false | employee ↦ true ]

unfoldable pub user_counts : Option (List AdminUser) → UserCounts
user_counts result =
    let users = or_else result [] in
    record {
      total = length users;
      admins = length (filter is_admin users);
      employees = length (filter is_employee users);
    }

abbrev pub activity_size : ℕ
activity_size = 8

unfoldable pub recent_activity : Option (List SystemLog) → List SystemLog
unfolding is_business_event
recent_activity result = take activity_size (filter is_business_event (or_else result []))

pub record EmployeeDashboard : Type 0 where
  pub total : ℕ
  pub by_status : StatusCounts
  pub recent : List Declaration
  pub has_incomplete : Bool
  pub incomplete_id : Option Text

abbrev pub recent_size : ℕ
recent_size = 5

unfoldable pub employee_dashboard :
    Option (Listing Declaration) → Option (Bool × Option Text) → EmployeeDashboard
unfolding count_statuses
employee_dashboard declarations unfinished =
    let page = settled_page declarations in
    let (has, id) = or_else unfinished (false, none) in
    record {
      total = total_of page;
      by_status = count_statuses empty_status_counts (statuses_of page.rows);
      recent = take recent_size page.rows;
      has_incomplete = has;
      incomplete_id = id;
    }
