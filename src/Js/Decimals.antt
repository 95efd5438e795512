-- ===== src/Js/Decimals.antt =====
-- `padStart` and `parseInt` on the numbers below a hundred that a clock shows.
use sigecat_oraculos.Prelude.{
  ℕ, zero, suc, ◌<◌, ◌≡◌, refl, ◌==◌, Bool, true, false, ◌&&◌, [], ◌∷◌, Text, All, every, not,
  text_eq, text_eq_iff, arith,
}
use sigecat_oraculos.Js.Strings.{is_space, upper_unit, to_upper, is_empty, is_time_separator}
use sigecat_oraculos.Js.Numbers.{Number, nan, nat, neg, parse_int, pad2, to_number}
use sigecat_oraculos.Js.Splitting.{NoSpace}

abbrev is_nat : Number → ℕ → Bool
is_nat (nat m) n = m == n
is_nat _ n = false

-- Every unit is a plain one (no white space, no separator, its own upper case), there is a unit,
-- and the text reads back.
reads_back : ℕ → Bool
unfolding is_space upper_unit to_upper parse_int pad2 to_number
reads_back n =
    let t = pad2 (nat n) in
    every (λ c. not (is_space c) && not (is_time_separator c)) t
    && not (is_empty t)
    && text_eq (to_upper t) t
    && is_nat (parse_int t) n
    && is_nat (to_number t) n

module _ (test : ℕ → Bool) where
  -- the test holds of each number before the given one
  table_holds : ℕ → Bool
  table_holds zero = true
  table_holds (suc last) = table_holds last && test last

  entry_holds : (size n : ℕ) → n < size → table_holds size ≡ true → test n ≡ true
  unfolding table_holds
  entry_holds zero n in_table whole = absurd (omega arith)
  entry_holds (suc last) n in_table whole = ground (arith, entry_holds last n)

hundred_reads_back : table_holds reads_back 100 ≡ true
unfolding table_holds reads_back
hundred_reads_back = refl

reads_back_lem : (n : ℕ) → n < 100 → reads_back n ≡ true
reads_back_lem n h = entry_holds reads_back 100 n h hundred_reads_back

every-plain :
    (t : Text)
    → every (λ c. not (is_space c) && not (is_time_separator c)) t ≡ true
    → NoSpace t × All (λ c. is_time_separator c ≡ false) t
every-plain [] h = (tt, tt)
every-plain (c ∷ t) h =
    let (a, b) = every-plain t (ground arith) in ((ground arith, a), (ground arith, b))

is_nat-eq : (x : Number) (n : ℕ) → is_nat x n ≡ true → x ≡ nat n
is_nat-eq nan n h = cc
is_nat-eq (nat m) n h = ground arith
is_nat-eq (neg m) n h = cc

and_parts :
    (a b c d e : Bool)
    → (a && b && c && d && e) ≡ true
    → (a ≡ true) × (b ≡ true) × (c ≡ true) × (d ≡ true) × (e ≡ true)
and_parts a b c d e h = ground arith

not-true : (b : Bool) → not b ≡ true → b ≡ false
not-true b h = ground arith

-- What a clock text of a small number is like.
pub record IsClockText (n : ℕ) (t : Text) : Type 0 where
  pub no_space : NoSpace t
  pub no_separator : All (λ c. is_time_separator c ≡ false) t
  pub not_empty : is_empty t ≡ false
  pub upper : to_upper t ≡ t
  pub parsed : parse_int t ≡ nat n
  pub number : to_number t ≡ nat n

reads_back_parts :
    (n : ℕ)
    → n < 100
    → (every (λ c. not (is_space c) && not (is_time_separator c)) (pad2 (nat n)) ≡ true)
      × (not (is_empty (pad2 (nat n))) ≡ true)
      × (text_eq (to_upper (pad2 (nat n))) (pad2 (nat n)) ≡ true)
      × (is_nat (parse_int (pad2 (nat n))) n ≡ true)
      × (is_nat (to_number (pad2 (nat n))) n ≡ true)
unfolding reads_back
reads_back_parts n h = and_parts _ _ _ _ _ (reads_back_lem n h)

pub pad2-IsClockText : (n : ℕ) → n < 100 → IsClockText n (pad2 (nat n))
pad2-IsClockText n h =
    let (plain, filled, upper, parsed, number) = reads_back_parts n h in
    let (spaces, separators) = every-plain (pad2 (nat n)) plain in
    record {
      no_space = spaces;
      no_separator = separators;
      not_empty = not-true _ filled;
      upper = (text_eq_iff _ _).0 upper;
      parsed = is_nat-eq _ n parsed;
      number = is_nat-eq _ n number;
    }
