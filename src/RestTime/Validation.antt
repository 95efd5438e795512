-- ===== src/RestTime/Validation.antt =====
-- What `validateRestTimeDuration` accepts.
use sigecat_oraculos.Prelude.{ℕ, ◌≤◌, ◌≡◌, refl, ◌↔◌, none, arith}
use sigecat_oraculos.Js.Numbers.{Number, nan, nat, neg}
use sigecat_oraculos.Declarations.{RestType}
use sigecat_oraculos.RestTime.{rest_time_max_minutes, validate_rest_time_duration}

-- A duration is accepted exactly if it is a whole number of minutes from 1 to the maximum of the
-- rest type.
pub validate_rest_time_duration_iff :
    (t : RestType) (d : Number)
    → (validate_rest_time_duration t d ≡ none)
      ↔ ((n : ℕ) × (d ≡ nat n) × (1 ≤ n) × (n ≤ rest_time_max_minutes t))
unfolding validate_rest_time_duration
validate_rest_time_duration_iff t nan = (λ h. cc, λ h. cc (h.1))
validate_rest_time_duration_iff t (neg n) = (λ h. cc, λ h. cc (h.1))
validate_rest_time_duration_iff t (nat n) =
    (λ h. (n, refl, ground arith, ground arith), λ h. ground arith)
