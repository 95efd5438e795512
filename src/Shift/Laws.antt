-- ===== src/Shift/Laws.antt =====
-- When the first form of client/src/app/pages/EmployeeFormPage.tsx creates a declaration.
use sigecat_oraculos.Prelude.{
  ℕ, zero, suc, ◌+◌, ◌-◌, ◌<◌, ◌==◌, ==_iff, ◌≡◌, ◌⊎◌, inl, inr, refl, ap, ◌∙◌, false, Bool-cases,
  Option, some, [], Text, or_else, Result, if◌then◌else◌, arith,
}
use sigecat_oraculos.Js.Numbers.{nat, add, negated}
use sigecat_oraculos.Declarations.{JobPosition}
use sigecat_oraculos.Shift.{
  checked_next, next_for, Form, work_hours, complaint, CreateDeclaration, handle_next, create_next,
  next_of, shift_duration, duration_of, hour_of, is_continued, length_complaint, absolute,
}

abbrev pub payload : Form → JobPosition → CreateDeclaration
payload form position = record {
  job_position_id = position.job_position_id;
  shift_starts_at = form.start;
  shift_ends_at = form.end;
}

not_equal : (a b : ℕ) → (a ≡ b → ⊥) → (a == b) ≡ false
not_equal a b h = ground (arith, ==_iff a b)

distance : (a b : ℕ) → absolute (add (nat b) (negated (nat a))) ≡ nat ((a - b) + (b - a))
unfolding add negated
distance zero zero = refl
distance zero (suc b) = ap nat (omega arith)
distance (suc a) b = ground arith

checked_next_lem {ℓ} :
    {E : Type ℓ} (create : CreateDeclaration → Result E (Option Text)) (form : Form)
    (position : JobPosition) (required hours : ℕ)
    → ((required ≡ 0) ⊎ (hours ≡ required)
        → checked_next create form position required (nat hours)
          ≡ next_of (create (payload form position)))
      × (0 < required
          → (hours ≡ required → ⊥)
          → checked_next create form position required (nat hours)
            ≡ complaint (length_complaint position.job_shift required (nat hours)))
checked_next_lem create form position required hours = (go, stop)
  where
    go :
        (required ≡ 0) ⊎ (hours ≡ required)
        → checked_next create form position required (nat hours)
          ≡ next_of (create (payload form position))
    go (inl e) = rw ((==_iff required 0).1 e) refl
    go (inr e) = elim (Bool-cases (required == 0)) [
      | inl f ↦ rw f refl
      | inr f ↦ rw (f, (==_iff hours required).1 e) refl
    ]

    stop :
        0 < required
        → (hours ≡ required → ⊥)
        → checked_next create form position required (nat hours)
          ≡ complaint (length_complaint position.job_shift required (nat hours))
    stop some_hours differ =
        rw (not_equal required 0 (λ e. omega arith), not_equal hours required differ) refl

duration :
    (s e : Text) (a b : ℕ)
    → hour_of s ≡ nat a
    → hour_of e ≡ nat b
    → duration_of s e ≡ nat ((a - b) + (b - a))
unfolding duration_of
duration s e a b start end = rw (start, end) (distance a b)

-- For a chosen position with no declaration to continue, and two times with whole hours: the form asks
-- the API for the declaration when the hours of the times differ by what the shift of the position
-- requires, or the shift requires nothing; otherwise it shows the length that is required. Minutes do
-- not count, and a shift over midnight has the length of the part of the day that it leaves out.
pub handle_next_lem {ℓ} :
    {E : Type ℓ} (create : CreateDeclaration → Result E (Option Text)) (form : Form)
    (position : JobPosition) (a b : ℕ)
    → form.selected_position ≡ some position
    → is_continued form.is_continuing form.current_declaration_id ≡ false
    → hour_of form.start ≡ nat a
    → hour_of form.end ≡ nat b
    → let required = shift_duration (or_else position.job_shift []) in
      let hours = (a - b) + (b - a) in
      ((required ≡ 0) ⊎ (hours ≡ required)
        → handle_next create form ≡ next_of (create (payload form position)))
      × (0 < required
          → (hours ≡ required → ⊥)
          → handle_next create form
            ≡ complaint (length_complaint position.job_shift required (nat hours)))
unfolding handle_next create_next
handle_next_lem create form position a b chosen fresh start end = (
  λ h. reached ∙ (checked_next_lem create form position required ((a - b) + (b - a))).0 h,
  λ p q. reached ∙ (checked_next_lem create form position required ((a - b) + (b - a))).1 p q,
)
  where
    required : ℕ
    required = shift_duration (or_else position.job_shift [])

    reached :
        handle_next create form
        ≡ checked_next create form position required (nat ((a - b) + (b - a)))
    reached =
        ap (next_for create form) chosen
        ∙ ap
            (λ c.
              if c
              then work_hours form.current_declaration_id
              else create_next create form position)
            fresh
        ∙ ap (checked_next create form position required)
            (duration form.start form.end a b start end)
