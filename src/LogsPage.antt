-- ===== src/LogsPage.antt =====
-- The log page, client/src/app/pages/admin/LogsPage.tsx: who acted, the filters and the pages.
-- The comparison of dates is the host's.
pub mod Laws
mod Tests
use sigecat_oraculos.Prelude.{
  ℕ, ◌+◌, ◌-◌, ◌*◌, max, Bool, true, false, ◌&&◌, ◌||◌, not, Option, none, some, List, [], ◌∷◌,
  ◌++◌, Text, txt, text_eq, includes, filter, length, take, drop, or_else, if◌then◌else◌, map_err,
  Result, ◌>>=◌, ok,
}
use sigecat_oraculos.Js.Strings.{trim, is_empty, to_lower}
use sigecat_oraculos.Activity.{
  SystemLog, Severity, low, medium, high, activity_meta, affected_label, is_business_event,
}
use sigecat_oraculos.Time.Host.{Host}
use sigecat_oraculos.Time.Dates.{parse_oracle_date}
use sigecat_oraculos.Paging.{ceil_div}

pub data UserKind : Type 0 where
  admin employee : UserKind

pub record AdminUser : Type 0 where
  pub id : Text
  pub email : Text
  pub first_name : Text
  pub last_name : Text
  pub role : UserKind

pub record Actor : Type 0 where
  pub name : Text
  pub email : Option Text

-- `new Map(userList.map((u) => [u.id, u]))` and its `get`: of two users with one id the later is kept
unfoldable pub user_of : Text → List AdminUser → Option AdminUser
user_of id [] = none
user_of id (u ∷ users) = elim (user_of id users) [
  | some later ↦ some later
  | none ↦ if text_eq u.id id then some u else none
]

abbrev pub actor_of : Option AdminUser → Actor
actor_of none = record { name = txt "Usuario eliminado"; email = none }
actor_of (some user) = record {
  name = trim (user.first_name ++ txt " " ++ user.last_name);
  email = some user.email;
}

abbrev pub resolve_id : Option Text → List AdminUser → Actor
unfolding user_of
resolve_id none users = record { name = txt "Sistema"; email = none }
resolve_id (some id) users =
    if is_empty id
    then record { name = txt "Sistema"; email = none }
    else actor_of (user_of id users)

unfoldable pub resolve_actor : SystemLog → List AdminUser → Actor
resolve_actor log users = resolve_id log.user_id users

pub record Filters : Type 0 where
  pub action : Text
  pub entity : Text
  pub severity : Option Severity
  pub search : Text
  pub date_from : Text
  pub date_to : Text

abbrev pub same_severity : Severity → Severity → Bool
same_severity low low = true
same_severity medium medium = true
same_severity high high = true
same_severity _ _ = false

-- a filter that is not set lets everything pass
abbrev pub chosen : Text → Text → Bool
chosen filter_value value = is_empty filter_value || text_eq value filter_value

abbrev pub severity_chosen : Option Severity → Severity → Bool
severity_chosen none severity = true
severity_chosen (some wanted) severity = same_severity severity wanted

unfoldable pub matches_term : Text → SystemLog → List AdminUser → Bool
unfolding resolve_actor activity_meta affected_label to_lower trim
matches_term search log users = is_empty term || includes haystack term
  where
    term : Text
    term = to_lower (trim search)

    haystack : Text
    haystack = to_lower (
        log.message
        ++ txt " "
        ++ (resolve_actor log users).name
        ++ txt " "
        ++ (activity_meta log).entity_label
        ++ txt " "
        ++ or_else (affected_label log) [])

module _ (host : Host) where
  -- `dateFrom ? new Date(`${dateFrom}T00:00:00`) : null`; a comparison with an invalid date is false
  abbrev pub limit_of : Text → Text → Option host.Date
  limit_of day time = if is_empty day then none else host.of_text (day ++ time)

  abbrev pub before_limit : host.Date → Option host.Date → Bool
  before_limit date none = false
  before_limit date (some limit) = host.earlier date limit

  abbrev pub after_limit : host.Date → Option host.Date → Bool
  after_limit date none = false
  after_limit date (some limit) = host.earlier limit date

  -- an entry whose date is not readable passes
  abbrev pub date_in : Filters → Option host.Date → Bool
  date_in f none = true
  date_in f (some date) =
      not (before_limit date (limit_of f.date_from (txt "T00:00:00")))
      && not (after_limit date (limit_of f.date_to (txt "T23:59:59")))

  unfoldable pub passes : Filters → List AdminUser → SystemLog → Bool
  unfolding activity_meta matches_term parse_oracle_date
  passes f users log =
      chosen f.action (activity_meta log).verb
      && chosen f.entity (activity_meta log).entity_slug
      && severity_chosen f.severity (activity_meta log).severity
      && matches_term f.search log users
      && date_in f (parse_oracle_date host (some log.created_at))

  unfoldable pub filtered : Filters → List AdminUser → List SystemLog → List SystemLog
  unfolding passes
  filtered f users logs = filter (passes f users) logs

abbrev pub page_size : ℕ
page_size = 15

abbrev pub sample_size : ℕ
sample_size = 300

unfoldable pub total_pages : List SystemLog → ℕ
total_pages entries = max 1 (ceil_div (length entries) page_size)

-- `filtered.slice((page - 1) * PAGE_SIZE, page * PAGE_SIZE)`
unfoldable pub page_items : ℕ → List SystemLog → List SystemLog
page_items page entries = drop ((page - 1) * page_size) (take (page * page_size) entries)
