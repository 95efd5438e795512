-- ===== src/Hours/Frequencies.antt =====
-- The two weekly weights of a frequency: the one that the exported totals use and the one of the
-- form where an employee reports a function.
use mathlib.Core.List.{map}
use sigecat_oraculos.Prelude.{
  ℕ, ◌*◌, ◌≡◌, refl, ap, ◌⊎◌, inl, inr, some, List, [], ◌∷◌, Text, txt, All, arith, or_else,
}
use sigecat_oraculos.Js.Strings.{to_lower}
use sigecat_oraculos.Declarations.{JobFunction}
use sigecat_oraculos.Hours.{
  multiplier, minutes_of, total_units_from, frequency_per_week, weekly_minutes,
}
use sigecat_oraculos.Hours.Declared.{sum, units_of, total_units_from-eq-sum}

-- the frequencies of the form that both parts weigh alike
abbrev pub Shared : Text → Type 0
Shared f = (f ≡ txt "Diario") ⊎ (f ≡ txt "Semanal") ⊎ (f ≡ txt "Quincenal") ⊎ (f ≡ txt "Mensual")

Shared-weight : (f : Text) → Shared f → multiplier (to_lower f) ≡ frequency_per_week f
unfolding multiplier frequency_per_week to_lower
Shared-weight f (inl e) = rw e
Shared-weight f (inr (inl e)) = rw e
Shared-weight f (inr (inr (inl e))) = rw e
Shared-weight f (inr (inr (inr e))) = rw e

units_of-Shared :
    (jf : JobFunction)
    → Shared (or_else jf.frequency [])
    → units_of jf ≡ weekly_minutes (minutes_of jf) (or_else jf.frequency [])
unfolding weekly_minutes
units_of-Shared jf h = ap (λ (w : ℕ). minutes_of jf * w) (Shared-weight (or_else jf.frequency []) h)

sum_of_Shared :
    (jfs : List JobFunction)
    → All (λ jf. Shared (or_else jf.frequency [])) jfs
    → sum (map units_of jfs)
      ≡ sum (map (λ jf. weekly_minutes (minutes_of jf) (or_else jf.frequency [])) jfs)
sum_of_Shared [] h = refl
sum_of_Shared (jf ∷ jfs) (p, h) = omega (arith, units_of-Shared jf p, sum_of_Shared jfs h)

-- Where every function is reported as daily, weekly, fortnightly or monthly, the exported total and
-- the total of the form are the same, before rounding.
pub totals_agree :
    (jfs : List JobFunction)
    → All (λ jf. Shared (or_else jf.frequency [])) jfs
    → total_units_from 0 jfs
      ≡ sum (map (λ jf. weekly_minutes (minutes_of jf) (or_else jf.frequency [])) jfs)
totals_agree jfs h = omega (arith, total_units_from-eq-sum 0 jfs, sum_of_Shared jfs h)

quarterly_units :
    (jf : JobFunction)
    → jf.frequency ≡ some (txt "Trimestral")
    → units_of jf ≡ 13 * weekly_minutes (minutes_of jf) (txt "Trimestral")
unfolding weekly_minutes frequency_per_week multiplier to_lower
quarterly_units jf h = rw (h, multiplier) (omega arith)

quarterly_sum :
    (jfs : List JobFunction)
    → All (λ jf. jf.frequency ≡ some (txt "Trimestral")) jfs
    → sum (map units_of jfs)
      ≡ 13 * sum (map (λ jf. weekly_minutes (minutes_of jf) (txt "Trimestral")) jfs)
quarterly_sum [] h = refl
quarterly_sum (jf ∷ jfs) (p, h) = omega (arith, quarterly_units jf p, quarterly_sum jfs h)

-- Where every function is reported as quarterly, the total of the export, before it is rounded, is
-- thirteen times that of the form: the export has no case for quarterly work and counts it every week.
pub quarterly_total :
    (jfs : List JobFunction)
    → All (λ jf. jf.frequency ≡ some (txt "Trimestral")) jfs
    → total_units_from 0 jfs
      ≡ 13 * sum (map (λ jf. weekly_minutes (minutes_of jf) (txt "Trimestral")) jfs)
quarterly_total jfs h = omega (arith, total_units_from-eq-sum 0 jfs, quarterly_sum jfs h)
