-- ===== src/RestTime/PageLaws.antt =====
-- What the form of the rest times accepts and keeps, client/src/features/employee/DeclarationRestTimes.tsx,
-- against the rule of client/src/services/restTimeService.ts.
use sigecat_oraculos.Prelude.{
  ℕ, ◌+◌, ◌-◌, ◌*◌, not, ◌&&◌, if-both, ltb, none, some, is_some, ◌≡◌, ◌⊎◌, inl, inr, refl, ap, ◌∙◌,
  arith,
}
use sigecat_oraculos.Js.Numbers.{Number, nan, nat, neg, add, times, sub_ℕ}
use sigecat_oraculos.Declarations.{RestType}
use sigecat_oraculos.RestTime.{validate_rest_time_duration}
use sigecat_oraculos.Reports.Minutes.{Entry, entered_minutes, or_zero}
use sigecat_oraculos.RestTime.Page.{
  RestTimesState, total_input_minutes, duration_error, no_type_error, validate,
}

abbrev pub IsNumber : Number → Type 0
IsNumber d = (n : ℕ) × ((d ≡ nat n) ⊎ (d ≡ neg n))

or_zero-IsNumber : (entry : Entry) → IsNumber (or_zero entry)
or_zero-IsNumber none = (0, inl refl)
or_zero-IsNumber (some nan) = (0, inl refl)
or_zero-IsNumber (some (nat n)) = (n, inl refl)
or_zero-IsNumber (some (neg n)) = (n, inr refl)

-- the form and the rule agree on a duration that is a number
duration_error-agrees :
    (t : RestType) (d : Number)
    → IsNumber d
    → is_some (duration_error 1 (some t) d) ≡ is_some (validate_rest_time_duration t d)
unfolding validate_rest_time_duration
duration_error-agrees t nan (n, inl e) = cc
duration_error-agrees t nan (n, inr e) = cc
duration_error-agrees t (nat n) h = ground arith
duration_error-agrees t (neg n) h = ground arith

times-IsNumber : (d : Number) → IsNumber d → IsNumber (times 60 d)
unfolding times
times-IsNumber nan (n, inl e) = cc
times-IsNumber nan (n, inr e) = cc
times-IsNumber (nat m) h = (60 * m, inl refl)
times-IsNumber (neg m) h = (60 * (m + 1) - 1, inr refl)

sub-IsNumber : (a b : ℕ) → IsNumber (sub_ℕ a b)
sub-IsNumber a b = if-both IsNumber (ltb a b) (b - a - 1, inr refl) (a - b, inl refl)

add-IsNumber : (a b : Number) → IsNumber a → IsNumber b → IsNumber (add a b)
unfolding add
add-IsNumber nan b (n, inl e) k = cc
add-IsNumber nan b (n, inr e) k = cc
add-IsNumber (nat a) nan h (n, inl e) = cc
add-IsNumber (nat a) nan h (n, inr e) = cc
add-IsNumber (neg a) nan h (n, inl e) = cc
add-IsNumber (neg a) nan h (n, inr e) = cc
add-IsNumber (nat a) (nat b) h k = (a + b, inl refl)
add-IsNumber (nat a) (neg b) h k = sub-IsNumber a (b + 1)
add-IsNumber (neg a) (nat b) h k = sub-IsNumber b (a + 1)
add-IsNumber (neg a) (neg b) h k = (_, inr refl)

pub entered-IsNumber : (hours minutes : Entry) → IsNumber (entered_minutes hours minutes)
unfolding entered_minutes
entered-IsNumber hours minutes =
    add-IsNumber (times 60 (or_zero hours)) (or_zero minutes)
      (times-IsNumber (or_zero hours) (or_zero-IsNumber hours)) (or_zero-IsNumber minutes)

-- With a type chosen and entries of whole minutes, the form lets a duration pass exactly if the rule of the service accepts the total
-- of its hours and minutes for this type.
pub validate-agrees :
    (t : RestType) (s : RestTimesState)
    → s.rest_type ≡ some t
    → validate 1 s ≡ not (is_some (validate_rest_time_duration t (total_input_minutes s)))
unfolding validate total_input_minutes
validate-agrees t s e =
    ap
      (λ chosen.
        not (is_some (no_type_error chosen))
        && not (
            is_some
              (duration_error 1 chosen (entered_minutes s.duration_hours s.duration_minutes))))
      e
    ∙ ap not (
        duration_error-agrees t (entered_minutes s.duration_hours s.duration_minutes)
          (entered-IsNumber s.duration_hours s.duration_minutes))
