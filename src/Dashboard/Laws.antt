-- ===== src/Dashboard/Laws.antt =====
-- The counts of the dashboards add up.
use sigecat_oraculos.Prelude.{
  ℕ, ◌+◌, ◌≤◌, ◌≡◌, refl, true, false, Bool-cases, Option, none, some, is_some, List, [], ◌∷◌,
  filter, length, or_else, length-filter-le, arith, ◌==◌, ◌⊎◌, inl, inr,
}
use sigecat_oraculos.Status.{
  DeclarationStatus, incomplete, revision, approved, rejected, abandoned, completed,
}
use sigecat_oraculos.Declarations.{JobPosition}
use sigecat_oraculos.LogsPage.{AdminUser, UserKind, admin, employee}
use sigecat_oraculos.Dashboard.{
  StatusCounts, empty_status_counts, count_status, count_statuses, Listing, occupancy, user_counts,
  is_admin, is_employee, has_user,
}

abbrev pub sum : StatusCounts → ℕ
sum c =
    c.incomplete_count + c.revision_count + c.approved_count + c.rejected_count + c.abandoned_count
    + c.completed_count

sum-count_status : (s : DeclarationStatus) (c : StatusCounts) → sum (count_status s c) ≡ sum c + 1
sum-count_status incomplete c = omega arith
sum-count_status revision c = omega arith
sum-count_status approved c = omega arith
sum-count_status rejected c = omega arith
sum-count_status abandoned c = omega arith
sum-count_status completed c = omega arith

sum-count_statuses_add :
    (c : StatusCounts) (statuses : List (Option DeclarationStatus))
    → sum (count_statuses c statuses) ≡ sum c + length (filter is_some statuses)
unfolding count_statuses
sum-count_statuses_add c [] = omega arith
sum-count_statuses_add c (none ∷ rest) = sum-count_statuses_add c rest
sum-count_statuses_add c (some s ∷ rest) =
    omega (arith, sum-count_statuses_add (count_status s c) rest, sum-count_status s c)

-- The counts of the statuses add up to the number of declarations that have one.
pub sum-count_statuses :
    (statuses : List (Option DeclarationStatus))
    → sum (count_statuses empty_status_counts statuses) ≡ length (filter is_some statuses)
sum-count_statuses statuses = omega (arith, sum-count_statuses_add empty_status_counts statuses)

role_cases :
    (u : AdminUser)
    → ((is_admin u ≡ true) × (is_employee u ≡ false))
      ⊎ ((is_admin u ≡ false) × (is_employee u ≡ true))
role_cases u = of_role u.role
  where
    of_role :
        (k : UserKind)
        → ((is_admin (record u { role = k }) ≡ true)
            × (is_employee (record u { role = k }) ≡ false))
          ⊎ ((is_admin (record u { role = k }) ≡ false)
              × (is_employee (record u { role = k }) ≡ true))
    of_role admin = inl (refl, refl)
    of_role employee = inr (refl, refl)

users_split :
    (users : List AdminUser)
    → length (filter is_admin users) + length (filter is_employee users) ≡ length users
users_split [] = refl
users_split (u ∷ users) = elim (role_cases u) [
  | inl (h, g) ↦ rw (h, g) (omega (arith, users_split users))
  | inr (h, g) ↦ rw (h, g) (omega (arith, users_split users))
]

-- Every user is counted as an administrator or as an employee, and never as both.
pub user_counts_add :
    (result : Option (List AdminUser))
    → (user_counts result).admins + (user_counts result).employees ≡ (user_counts result).total
unfolding user_counts
user_counts_add result = users_split (or_else result [])

-- For a page whose total counts at least its rows, the occupied positions and the vacant ones add up to
-- the total.
pub occupancy_adds :
    (page : Listing JobPosition)
    → length page.rows ≤ page.total
    → (occupancy (some page)).occupied + (occupancy (some page)).vacant
      ≡ (occupancy (some page)).total
unfolding occupancy
occupancy_adds page h = elim (Bool-cases (page.total == 0)) [
  | inl e ↦ rw e (omega (arith, length-filter-le has_user page.rows))
  | inr e ↦ rw e (omega (arith, length-filter-le has_user page.rows))
]
