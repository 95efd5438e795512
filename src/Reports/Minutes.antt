-- ===== src/Reports/Minutes.antt =====
-- The duration entries of the report form, client/src/app/pages/DeclarationFunctions.tsx: hours and
-- minutes as the form shows them and as it adds them up, of entries that are whole numbers.
use sigecat_oraculos.Prelude.{
  ℕ, zero, suc, ◌+◌, ◌/◌, ◌%◌, ◌≡◌, refl, ap, Bool, true, false, ◌&&◌, not, Option, none, some,
  ◌++◌, Text, txt, if◌then◌else◌, arith,
}
use sigecat_oraculos.Js.Numbers.{Number, nan, nat, neg, add, times, negated, below, number_text}
use native.Mathlib.Nat.{div-add-mod'}

-- `number | ''`, the empty entry is none. In the report form an entry is a whole number,
-- and a fraction is outside the model; the form of the rest times counts in parts of a minute.
abbrev pub Entry : Type 0
Entry = Option Number

-- `Math.floor(n / 60)`
abbrev pub whole_hours : Number → Number
whole_hours nan = nan
whole_hours (nat n) = nat (n / 60)
whole_hours (neg n) = neg (n / 60)

-- `n % 60`, with the sign of n
abbrev pub odd_minutes : Number → Number
odd_minutes nan = nan
odd_minutes (nat n) = nat (n % 60)
odd_minutes (neg n) = negated (nat ((n + 1) % 60))

-- `n || ''`
abbrev pub or_blank : Number → Entry
or_blank nan = none
or_blank (nat zero) = none
or_blank (nat (suc n)) = some (nat (suc n))
or_blank (neg n) = some (neg n)

-- `Number(entry) || 0`
abbrev pub or_zero : Entry → Number
or_zero none = nat 0
or_zero (some nan) = nat 0
or_zero (some n) = n

-- `reportTotalMinutes` and `reportOtMinutes`
unfoldable pub entered_minutes : Entry → Entry → Number
entered_minutes hours minutes = add (times 60 (or_zero hours)) (or_zero minutes)

-- `n > 0`
abbrev pub is_positive : Number → Bool
is_positive n = not (below n 1) && not_nan n
  where
    not_nan : Number → Bool
    not_nan nan = false
    not_nan _ = true

-- the text of a duration
unfoldable pub format_hm : Number → Text
unfolding number_text
format_hm total =
    let h = whole_hours total in
    let m = odd_minutes total in
    if not (is_positive total)
    then txt "0 min"
    else if is_positive h && is_positive m
    then number_text h ++ txt " h " ++ number_text m ++ txt " min"
    else if is_positive h
    then number_text h ++ txt " h"
    else number_text m ++ txt " min"

or_zero-or_blank : (n : ℕ) → or_zero (or_blank (nat n)) ≡ nat n
or_zero-or_blank zero = refl
or_zero-or_blank (suc n) = refl

-- The minutes that the form shows for a duration add up to the duration.
pub entered_minutes-shown :
    (n : ℕ)
    → entered_minutes (or_blank (whole_hours (nat n))) (or_blank (odd_minutes (nat n))) ≡ nat n
unfolding entered_minutes add times
entered_minutes-shown n =
    rw (or_zero-or_blank (n / 60), or_zero-or_blank (n % 60))
      (ap nat (omega (arith, div-add-mod' n 60)))
