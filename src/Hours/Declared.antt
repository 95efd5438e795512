-- ===== src/Hours/Declared.antt =====
-- The loops of the hour totals against sums, and the rounding to hundredths.
use mathlib.Core.List.{map}
use sigecat_oraculos.Prelude.{
  ℕ, suc, ◌+◌, ◌*◌, ◌≤◌, ◌<◌, ◌≡◌, List, [], ◌∷◌, arith, ◌==◌, if◌then◌else◌,
}
use sigecat_oraculos.Declarations.{JobFunction}
use sigecat_oraculos.Hours.{
  minutes_of, frequency_of, multiplier, total_units_from, calc_total_declared_hours,
  total_minutes_from, sum_durations_in_hours,
}

abbrev pub sum : List ℕ → ℕ
sum [] = 0
sum (x ∷ xs) = x + sum xs

-- what one function adds to a week
abbrev pub units_of : JobFunction → ℕ
units_of jf = minutes_of jf * multiplier (frequency_of jf)

units_of_skipped : (total m k : ℕ) → (if m == 0 then total else total + m * k) ≡ total + m * k
units_of_skipped total m k = grind arith

pub total_units_from-eq-sum :
    (total : ℕ) (jfs : List JobFunction)
    → total_units_from total jfs ≡ total + sum (map units_of jfs)
unfolding total_units_from
total_units_from-eq-sum total [] = omega arith
total_units_from-eq-sum total (jf ∷ jfs) =
    rw (units_of_skipped total (minutes_of jf) (multiplier (frequency_of jf)))
      (omega (arith, total_units_from-eq-sum (total + units_of jf) jfs))

-- The total of the declared hours is the sum of duration times weekly frequency over the functions,
-- rounded to the nearest hundredth of an hour, half a hundredth upwards: with `exact` in units of
-- 1/3120 hour and `r` in hundredths of the exact model, r - 1/2 ≤ 100 * exact / 3120 < r + 1/2.
pub calc_total_declared_hours_rounds :
    (jfs : List JobFunction)
    → let exact = sum (map units_of jfs) in
      let r = calc_total_declared_hours jfs in
      (r * 6240 ≤ exact * 200 + 3120) × (exact * 200 + 3120 < suc r * 6240)
unfolding calc_total_declared_hours
calc_total_declared_hours_rounds jfs = rw total_units_from-eq-sum (omega arith, omega arith)

total_minutes_from-eq-sum : (total : ℕ) (ds : List ℕ) → total_minutes_from total ds ≡ total + sum ds
unfolding total_minutes_from
total_minutes_from-eq-sum total [] = omega arith
total_minutes_from-eq-sum total (d ∷ ds) = omega (arith, total_minutes_from-eq-sum (total + d) ds)

-- The hours of the rest times and of the licenses are the sum of their minutes over 60, rounded to
-- the nearest hundredth in the same way.
pub sum_durations_in_hours_rounds :
    (ds : List ℕ)
    → let r = sum_durations_in_hours ds in
      (r * 120 ≤ sum ds * 200 + 60) × (sum ds * 200 + 60 < suc r * 120)
unfolding sum_durations_in_hours
sum_durations_in_hours_rounds ds = rw total_minutes_from-eq-sum (omega arith, omega arith)
