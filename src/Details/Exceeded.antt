-- ===== src/Details/Exceeded.antt =====
-- The mark of a declaration that exceeds its weekly shift, against the exact minutes.
use sigecat_oraculos.Prelude.{
  ℕ, suc, ◌+◌, ◌*◌, ◌≤◌, ◌<◌, ◌≡◌, ltb, ◌⊎◌, inl, inr, refl, zero, Bool-cases, true, false, map,
  Option, List, ◌&&◌, arith,
}
use sigecat_oraculos.Js.Numbers.{nat}
use sigecat_oraculos.Time.Host.{Host}
use sigecat_oraculos.Declarations.{Declaration, JobFunction, RestTime, License}
use sigecat_oraculos.Hours.Declared.{
  sum, units_of, calc_total_declared_hours_rounds, sum_durations_in_hours_rounds,
}
use sigecat_oraculos.Details.Totals.{
  functions_of, rest_minutes, license_minutes, weekly_shift_hours, total_declared_hours,
  is_hours_exceeded,
}

-- all that is declared for a week, in units of 1/3120 hour
abbrev pub exact_units : List JobFunction → List RestTime → List License → ℕ
exact_units jfs rests licenses =
    sum (map units_of jfs) + 52 * (sum (rest_minutes rests) + sum (license_minutes licenses))

-- three roundings, each by half a hundredth at most
total_rounds :
    (b r l units rests licenses : ℕ)
    → (b * 6240 ≤ units * 200 + 3120) × (units * 200 + 3120 < suc b * 6240)
    → (r * 120 ≤ rests * 200 + 60) × (rests * 200 + 60 < suc r * 120)
    → (l * 120 ≤ licenses * 200 + 60) × (licenses * 200 + 60 < suc l * 120)
    → ((b + r + l) * 312 ≤ (units + 52 * (rests + licenses)) * 10 + 468)
      × ((units + 52 * (rests + licenses)) * 10 < (b + r + l) * 312 + 468)
total_rounds b r l units rests licenses (p, q) (p', q') (p'', q'') = (omega arith, omega arith)

total_declared_hours_rounds :
    (jfs : List JobFunction) (rests : List RestTime) (licenses : List License)
    → (total_declared_hours jfs rests licenses * 312 ≤ exact_units jfs rests licenses * 10 + 468)
      × (exact_units jfs rests licenses * 10 < total_declared_hours jfs rests licenses * 312 + 468)
unfolding total_declared_hours
total_declared_hours_rounds jfs rests licenses =
    total_rounds _ _ _ _ _ _ (calc_total_declared_hours_rounds jfs)
      (sum_durations_in_hours_rounds (rest_minutes rests))
      (sum_durations_in_hours_rounds (license_minutes licenses))

exceeds_within :
    (total exact w : ℕ)
    → (total * 312 ≤ exact * 10 + 468) × (exact * 10 < total * 312 + 468)
    → (((ltb 0 w && ltb (w * 100) (total * 60)) ≡ true)
        × (0 < w)
        × (52 * w * 10 < exact * 10 + 468))
      ⊎ (((ltb 0 w && ltb (w * 100) (total * 60)) ≡ false)
          × ((w ≡ 0) ⊎ (exact * 10 < 52 * w * 10 + 468)))
exceeds_within total exact zero bounds = inr (refl, inl refl)
exceeds_within total exact (suc w) (p, q) = elim (Bool-cases (ltb (suc w * 100) (total * 60))) [
  | inl e ↦ inl (ground arith, omega arith, ground arith)
  | inr e ↦ inr (ground arith, inr (ground arith))
]

-- Of a declaration whose weekly shift is `w` minutes, with `exact` all that it declares for a week in
-- units of 1/3120 hour, of which a minute has 52: either the mark that the shift is exceeded is shown, the
-- shift is not empty and `exact` is above it less three half hundredths of an hour (46.8 units); or the
-- mark is not shown, and the shift is empty or `exact` is below it and as much.
pub is_hours_exceeded_within :
    (host : Host) (declaration : Option Declaration) (rests : List RestTime)
    (licenses : List License) (w : ℕ)
    → weekly_shift_hours host declaration ≡ nat w
    → let exact = exact_units (functions_of declaration) rests licenses in
      ((is_hours_exceeded host declaration rests licenses ≡ true)
        × (0 < w)
        × (52 * w * 10 < exact * 10 + 468))
      ⊎ ((is_hours_exceeded host declaration rests licenses ≡ false)
          × ((w ≡ 0) ⊎ (exact * 10 < 52 * w * 10 + 468)))
unfolding is_hours_exceeded
is_hours_exceeded_within host declaration rests licenses w e =
    rw e
      (exceeds_within _ _ w (total_declared_hours_rounds (functions_of declaration) rests licenses))
