-- ===== src/Status/History.antt =====
-- What a sequence of permitted changes can do to a declaration.
use sigecat_oraculos.Prelude.{
  ℕ, suc, ◌+◌, ◌≤◌, ◌<◌, ◌≡◌, refl, ◌↔◌, ◌⊎◌, inl, inr, Bool, true, false, arith,
}
use sigecat_oraculos.Status.{
  DeclarationStatus, incomplete, revision, approved, rejected, abandoned, completed, UserRole,
  admin, employee, can_change_status,
}

-- A history: the declaration starts in the first status and ends in the second; each change was
-- one that `canChangeStatus` allows its caller. The number counts the changes, the Boolean says
-- whether some administrator took part.
pub data History (s : DeclarationStatus) : DeclarationStatus → ℕ → Bool → Type 0 where
  start : History s s 0 false
  by_employee :
      {t : DeclarationStatus} {n : ℕ} {helped : Bool} (u : DeclarationStatus) (own : Bool)
      → History s t n helped
      → can_change_status t u employee own ≡ true
      → History s u (suc n) helped
  by_admin :
      {t : DeclarationStatus} {n : ℕ} {helped : Bool} (u : DeclarationStatus) (own : Bool)
      → History s t n helped
      → can_change_status t u admin own ≡ true
      → History s u (suc n) true

-- How far along the workflow a status is.
abbrev stage : DeclarationStatus → ℕ
stage incomplete = 0
stage completed = 1
stage revision = 2
stage approved = 3
stage rejected = 4
stage abandoned = 4

stage-lt :
    (s t : DeclarationStatus) (r : UserRole) (own : Bool)
    → can_change_status s t r own ≡ true
    → stage s < stage t
unfolding can_change_status
stage-lt s t r own h = ground arith

stage-History :
    {s t : DeclarationStatus} {n : ℕ} {helped : Bool} → History s t n helped → stage s + n ≤ stage t
stage-History start = omega arith
stage-History (by_employee {t = t} u own h c) =
    omega (arith, stage-History h, stage-lt t u employee own c)
stage-History (by_admin {t = t} u own h c) =
    omega (arith, stage-History h, stage-lt t u admin own c)

stage-le : (s : DeclarationStatus) → stage s ≤ 4
stage-le s = ground arith

-- A declaration changes status at most four times, whoever takes part.
pub length-History-le :
    {s t : DeclarationStatus} {n : ℕ} {helped : Bool} → History s t n helped → n ≤ 4
length-History-le {t = t} h = omega (arith, stage-History h, stage-le t)

-- A status that has been left is not reached again: if one history leads from a status to another
-- and one leads back, then neither holds a change.
pub History-acyclic :
    {s t : DeclarationStatus} {n m : ℕ} {helped helped' : Bool}
    → History s t n helped
    → History t s m helped'
    → (n ≡ 0) × (m ≡ 0)
History-acyclic h k = omega (arith, stage-History h, stage-History k)

abbrev pub EmployeeReach : DeclarationStatus → DeclarationStatus → Type 0
EmployeeReach s t = (t ≡ s) ⊎ ((s ≡ incomplete) × ((t ≡ completed) ⊎ (t ≡ abandoned)))

employee_step :
    (s t u : DeclarationStatus) (own : Bool)
    → EmployeeReach s t
    → can_change_status t u employee own ≡ true
    → EmployeeReach s u
unfolding can_change_status
employee_step s t u own h c = ground arith

-- Without an administrator a declaration only goes from incomplete to completed or abandoned: it
-- is never reviewed, approved or rejected.
pub History-of_employees :
    {s t : DeclarationStatus} {n : ℕ} {helped : Bool}
    → History s t n helped
    → helped ≡ false
    → EmployeeReach s t
History-of_employees start e = inl refl
History-of_employees {s = s} (by_employee {t = t} u own h c) e =
    employee_step s t u own (History-of_employees h e) c
History-of_employees (by_admin u own h c) e = cc

abbrev pub IsTerminal : DeclarationStatus → Type 0
IsTerminal s = (s ≡ rejected) ⊎ (s ≡ abandoned)

-- The statuses that no change leaves, for any caller, are exactly rejected and abandoned.
pub IsTerminal-iff :
    (s : DeclarationStatus)
    → IsTerminal s
      ↔ ((t : DeclarationStatus) (r : UserRole) (own : Bool) → can_change_status s t r own ≡ false)
unfolding can_change_status
IsTerminal-iff incomplete = (ground arith, λ h. cc (h completed admin true))
IsTerminal-iff completed = (ground arith, λ h. cc (h revision admin true))
IsTerminal-iff revision = (ground arith, λ h. cc (h approved admin true))
IsTerminal-iff approved = (ground arith, λ h. cc (h rejected admin true))
IsTerminal-iff rejected = (λ _ t r own. refl, λ _. inl refl)
IsTerminal-iff abandoned = (λ _ t r own. refl, λ _. inr refl)
