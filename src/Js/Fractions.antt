-- ===== src/Js/Fractions.antt =====
-- `Number(text)` over the texts of decimal numbers, with a sign and a fraction. A number is kept exact.
-- The empty text is 0. Texts with an exponent, another base or `Infinity` are not a number here.
use sigecat_oraculos.Prelude.{
  ℕ, zero, suc, ◌+◌, ◌-◌, ◌*◌, ◌%◌, ◌==◌, ltb, Bool, true, false, ◌&&◌, not, [], ◌∷◌, Text,
  if◌then◌else◌,
}
use sigecat_oraculos.Js.Strings.{trim}
use sigecat_oraculos.Js.Numbers.{is_digit}

-- `decimal true d k` is -d / 10^k
pub data Decimal : Type 0 where
  not_a_number : Decimal
  decimal : Bool → ℕ → ℕ → Decimal

abbrev pub power : ℕ → ℕ
power zero = 1
power (suc k) = 10 * power k

-- the rest of a number after its point; `seen` tells whether there was a digit
abbrev pub fraction_from : Bool → ℕ → ℕ → Bool → Text → Decimal
fraction_from negative acc k seen [] = if seen then decimal negative acc k else not_a_number
fraction_from negative acc k seen (c ∷ s) =
    let rest = fraction_from negative (acc * 10 + (c - 48)) (suc k) true s in
    if is_digit c then rest else not_a_number

abbrev pub whole_from : Bool → ℕ → Bool → Text → Decimal
whole_from negative acc seen [] = if seen then decimal negative acc 0 else not_a_number
whole_from negative acc seen (c ∷ s) =
    let rest = whole_from negative (acc * 10 + (c - 48)) true s in
    if is_digit c
    then rest
    else if c == b'.'
    then fraction_from negative acc 0 seen s
    else not_a_number

abbrev pub signed : Text → Decimal
signed [] = decimal false 0 0
signed (c ∷ s) =
    if c == b'-'
    then whole_from true 0 false s
    else if c == b'+'
    then whole_from false 0 false s
    else whole_from false 0 false (c ∷ s)

unfoldable pub number : Text → Decimal
unfolding trim
number text = signed (trim text)

abbrev pub is_nan : Decimal → Bool
is_nan not_a_number = true
is_nan (decimal negative d k) = false

-- `Number.isInteger(value)`
abbrev pub is_integer : Decimal → Bool
is_integer not_a_number = false
is_integer (decimal negative d k) = d % power k == 0

-- `value < 0`
abbrev pub is_negative : Decimal → Bool
is_negative not_a_number = false
is_negative (decimal negative d k) = negative && not (d == 0)

-- `value > bound`
abbrev pub exceeds : ℕ → Decimal → Bool
exceeds bound not_a_number = false
exceeds bound (decimal negative d k) = not negative && ltb (bound * power k) d
