-- ===== src/Js/Digits.antt =====
-- `String(n)` of every natural number, and what reads it back.
use sigecat_oraculos.Prelude.{
  ℕ, zero, suc, ◌+◌, ◌-◌, ◌*◌, ◌/◌, ◌%◌, ◌<◌, ltb, ◌≡◌, refl, true, Bool-cases, inl, inr, [], ◌∷◌,
  ◌++◌, Text, All, arith,
}
use sigecat_oraculos.Js.Strings.{is_space}
use sigecat_oraculos.Js.Numbers.{is_digit, digits_from, digits, nat_text}
use sigecat_oraculos.Js.Splitting.{NoSpace}

abbrev pub AllDigits : Text → Type 0
AllDigits t = All (λ c. is_digit c ≡ true) t

digits_from-snoc :
    (n : ℕ) (t : Text) (d : ℕ)
    → AllDigits t
    → d < 10
    → digits_from n (t ++ ((48 + d) ∷ [])) ≡ digits_from n t * 10 + d
unfolding digits_from is_digit
digits_from-snoc n [] d h k = ground arith
digits_from-snoc n (c ∷ t) d (p, h) k = rw (p, digits_from-snoc (n * 10 + (c - 48)) t d h k) refl

AllDigits-snoc : (t : Text) (d : ℕ) → AllDigits t → d < 10 → AllDigits (t ++ ((48 + d) ∷ []))
unfolding is_digit
AllDigits-snoc [] d h k = (ground arith, tt)
AllDigits-snoc (c ∷ t) d (p, h) k = (p, AllDigits-snoc t d h k)

digits-AllDigits : (fuel n : ℕ) → AllDigits (digits fuel n)
unfolding digits is_digit
digits-AllDigits zero n = tt
digits-AllDigits (suc fuel) n = elim (Bool-cases (ltb n 10)) [
  | inl e ↦ rw e (ground arith, tt)
  | inr e ↦ rw e (
      AllDigits-snoc (digits fuel (n / 10)) (n % 10) (digits-AllDigits fuel (n / 10)) (omega arith))
]

digits_from-digits : (fuel n : ℕ) → n < fuel → digits_from 0 (digits fuel n) ≡ n
unfolding digits digits_from
digits_from-digits zero n h = absurd (omega arith)
digits_from-digits (suc fuel) n h = elim (Bool-cases (ltb n 10)) [
  | inl e ↦ rw e (unfold is_digit in ground arith)
  | inr e ↦ rw e (
      rw
        (
          digits_from-snoc 0 (digits fuel (n / 10)) (n % 10) (digits-AllDigits fuel (n / 10))
              (omega arith),
          digits_from-digits fuel (n / 10) (ground arith),
        )
        (omega arith))
]

pub nat_text-AllDigits : (n : ℕ) → AllDigits (nat_text n)
unfolding nat_text
nat_text-AllDigits n = digits-AllDigits (suc n) n

-- a digit is no blank
pub AllDigits-NoSpace : (t : Text) → AllDigits t → NoSpace t
unfolding is_digit is_space
AllDigits-NoSpace [] h = tt
AllDigits-NoSpace (c ∷ t) (p, h) = (ground arith, AllDigits-NoSpace t h)

-- The decimal digits of a number read back as the number.
pub digits_from-nat_text : (n : ℕ) → digits_from 0 (nat_text n) ≡ n
unfolding nat_text
digits_from-nat_text n = digits_from-digits (suc n) n (omega arith)
