-- ===== src/Js/Numbers.antt =====
-- `parseInt(s, 10)`, `String(n)` and `padStart`, over whole numbers and NaN. A number is kept exact,
-- where the source's doubles round past 2^53.
use sigecat_oraculos.Prelude.{
  ℕ, zero, suc, ◌+◌, ◌-◌, ◌*◌, ◌/◌, ◌%◌, ◌==◌, ltb, leb, Bool, true, false, ◌&&◌, [], ◌∷◌, ◌++◌,
  length, Text, txt, if◌then◌else◌,
}
use sigecat_oraculos.Js.Strings.{trim_start}

-- `neg n` is -(n + 1).
pub data Number : Type 0 where
  nan : Number
  nat neg : ℕ → Number

unfoldable pub is_digit : ℕ → Bool
is_digit c = leb 48 c && leb c 57

unfoldable pub digits_from : ℕ → Text → ℕ
unfolding is_digit
digits_from n [] = n
digits_from n (c ∷ s) =
    let rest = digits_from (n * 10 + (c - 48)) s in if is_digit c then rest else n

-- the digits, of which there must be one
unfoldable pub parse_digits : Text → Number
unfolding digits_from
parse_digits [] = nan
parse_digits (c ∷ s) = if is_digit c then nat (digits_from (c - 48) s) else nan

abbrev pub negate : Number → Number
negate (nat (suc n)) = neg n
negate n = n

unfoldable pub parse_signed : Text → Number
unfolding parse_digits
parse_signed [] = nan
parse_signed (c ∷ s) =
    if c == b'-'
    then negate (parse_digits s)
    else if c == b'+'
    then parse_digits s
    else parse_digits (c ∷ s)

unfoldable pub parse_int : Text → Number
unfolding parse_signed trim_start
parse_int s = parse_signed (trim_start s)

-- the decimal digits of a number below 10 ^ fuel
unfoldable pub digits : ℕ → ℕ → Text
digits zero n = []
digits (suc fuel) n =
    let front = digits fuel (n / 10) in
    if ltb n 10 then (48 + n) ∷ [] else front ++ ((48 + n % 10) ∷ [])

unfoldable pub nat_text : ℕ → Text
unfolding digits
nat_text n = digits (suc n) n

unfoldable pub number_text : Number → Text
unfolding nat_text
number_text nan = txt "NaN"
number_text (nat n) = nat_text n
number_text (neg n) = b'-' ∷ nat_text (suc n)

abbrev pub zeros : ℕ → Text
zeros zero = []
zeros (suc n) = b'0' ∷ zeros n

-- `text.padStart(width, '0')`
abbrev pub pad_start : ℕ → Text → Text
pad_start width text = zeros (width - length text) ++ text

-- `String(n).padStart(2, '0')`
unfoldable pub pad2 : Number → Text
unfolding number_text
pad2 n = pad_start 2 (number_text n)

-- `n < k`, false on NaN
abbrev pub below : Number → ℕ → Bool
below nan k = false
below (nat n) k = ltb n k
below (neg n) k = true

abbrev pub equals : Number → ℕ → Bool
equals (nat n) k = n == k
equals _ k = false

-- `n + k`
abbrev pub plus : Number → ℕ → Number
plus nan k = nan
plus (nat n) k = nat (n + k)
plus (neg n) k = if ltb n k then nat (k - n - 1) else neg (n - k)

abbrev pub sub_ℕ : ℕ → ℕ → Number
sub_ℕ a b = if ltb a b then neg (b - a - 1) else nat (a - b)

-- `a + b`
unfoldable pub add : Number → Number → Number
add (nat a) (nat b) = nat (a + b)
add (nat a) (neg b) = sub_ℕ a (b + 1)
add (neg a) (nat b) = sub_ℕ b (a + 1)
add (neg a) (neg b) = neg (a + b + 1)
add (nat a) nan = nan
add (neg a) nan = nan
add nan b = nan

-- `-a`
unfoldable pub negated : Number → Number
negated nan = nan
negated (nat zero) = nat 0
negated (nat (suc n)) = neg n
negated (neg n) = nat (n + 1)

-- `k * a`, for k > 0
unfoldable pub times : ℕ → Number → Number
times k nan = nan
times k (nat n) = nat (k * n)
times k (neg n) = neg (k * (n + 1) - 1)

abbrev pub all_digits : Text → Bool
all_digits [] = true
all_digits (c ∷ s) = is_digit c && all_digits s

-- one digit or more
abbrev pub whole_digits : Text → Number
whole_digits [] = nan
whole_digits (c ∷ s) = if all_digits (c ∷ s) then nat (digits_from 0 (c ∷ s)) else nan

-- `Number(text)` for the texts that `number_text` and `padStart` print; any other is NaN here
unfoldable pub to_number : Text → Number
unfolding digits_from negated
to_number [] = nat 0
to_number (c ∷ s) = if c == b'-' then negated (whole_digits s) else whole_digits (c ∷ s)
