-- ===== src/Time/ClockLaws.antt =====
-- `parseOracleToTimeInput` reads the time of an Oracle timestamp, and the clock that it gives.
use mathlib.Core.List.{append_assoc}
use sigecat_oraculos.Prelude.{
  ℕ, ◌+◌, ◌%◌, ◌≤◌, ◌<◌, ◌≡◌, refl, ap, ◌∙◌, Bool, true, false, some, [], ◌∷◌, ◌++◌, Text, txt,
  arith, if◌then◌else◌,
}
use sigecat_oraculos.Js.Strings.{
  is_space, to_upper, trim, split_spaces, split_spaces_from, is_empty, is_time_separator,
}
use sigecat_oraculos.Js.Numbers.{nat, pad2}
use sigecat_oraculos.Js.Splitting.{
  NoSpace, All-append, trim_framed, to_upper-append, to_upper-NoSpace, split_spaces-word,
  split_spaces-gap_word, split_on-append, is_empty-append,
}
use sigecat_oraculos.Js.Decimals.{pad2-IsClockText}
use sigecat_oraculos.Time.Host.{Host}
use sigecat_oraculos.Time.Clock.{to_24, clock_text, time_of_parts, parse_oracle_to_time_input}

abbrev pub half : Bool → Text
half true = txt "PM"
half false = txt "AM"

-- The hour of the day for an hour of a twelve-hour clock.
abbrev pub hour_of_day : ℕ → Bool → ℕ
hour_of_day hour pm = hour % 12 + (if pm then 12 else 0)

-- `to_24` is the conversion from a twelve-hour clock.
to_24-half :
    (hour : ℕ) (pm : Bool)
    → 1 ≤ hour
    → hour ≤ 12
    → to_24 (half pm) (nat hour) ≡ nat (hour_of_day hour pm)
unfolding to_24
to_24-half hour true low high = ground arith
to_24-half hour false low high = ground arith

-- HH.MM.tail, as Oracle prints a time; the tail holds the seconds and their fraction.
abbrev pub oracle_time : ℕ → ℕ → Text → Text
oracle_time hour minute tail = pad2 (nat hour) ++ (b'.' ∷ (pad2 (nat minute) ++ (b'.' ∷ tail)))

time_of_oracle_time :
    (hour minute : ℕ) (tail : Text) (pm : Bool)
    → 1 ≤ hour
    → hour ≤ 12
    → minute < 60
    → time_of_parts (oracle_time hour minute tail) (half pm)
      ≡ clock_text (nat (hour_of_day hour pm)) (nat minute)
unfolding time_of_parts
time_of_oracle_time hour minute tail pm low high short =
    let h = pad2-IsClockText hour (omega arith) in
    let m = pad2-IsClockText minute (omega arith) in
    rw
      (split_on-append is_time_separator (pad2 (nat hour)) b'.' (pad2 (nat minute) ++ (b'.' ∷ tail))
        h.no_separator refl)
      (rw (split_on-append is_time_separator (pad2 (nat minute)) b'.' tail m.no_separator refl) (
        rw (h.not_empty, h.parsed, m.not_empty, m.parsed)
          (ap (λ x. clock_text x (nat minute)) (to_24-half hour pm low high))))

to_upper-dot : (s : Text) → to_upper (b'.' ∷ s) ≡ b'.' ∷ to_upper s
unfolding to_upper
to_upper-dot s = refl

module _ (hour minute : ℕ) (hour_small : hour < 100) (minute_small : minute < 100) where
  to_upper-oracle_time :
      (tail : Text)
      → to_upper (oracle_time hour minute tail) ≡ oracle_time hour minute (to_upper tail)
  to_upper-oracle_time tail = simp (
    to_upper-append,
    to_upper-dot,
    (pad2-IsClockText hour hour_small).upper,
    (pad2-IsClockText minute minute_small).upper,
  )

  oracle_time-NoSpace : (tail : Text) → NoSpace tail → NoSpace (oracle_time hour minute tail)
  unfolding is_space
  oracle_time-NoSpace tail h =
      All-append (λ c. is_space c ≡ false) (pad2 (nat hour)) _
        (pad2-IsClockText hour hour_small).no_space
        (
          refl,
          All-append (λ c. is_space c ≡ false) (pad2 (nat minute)) _
              (pad2-IsClockText minute minute_small).no_space (refl, h),
        )

is_empty-oracle_time :
    (hour minute : ℕ) → hour < 100 → (tail : Text) → is_empty (oracle_time hour minute tail) ≡ false
is_empty-oracle_time hour minute h tail = is_empty-append (pad2 (nat hour)) _ _

-- The date, the time and the half of the day, with a blank between them.
abbrev pub oracle_text : ℕ → Text → ℕ → ℕ → Text → Bool → Text
oracle_text c date hour minute tail pm =
    c ∷ (date ++ (32 ∷ (oracle_time hour minute tail ++ (32 ∷ half pm))))

split_half : (pm : Bool) → split_spaces_from true (half pm) ≡ half pm ∷ []
unfolding split_spaces_from is_space
split_half true = refl
split_half false = refl

half-NoSpace : (pm : Bool) → NoSpace (half pm)
unfolding is_space
half-NoSpace true = (refl, (refl, tt))
half-NoSpace false = (refl, (refl, tt))

to_upper-half : (pm : Bool) → to_upper (half pm) ≡ half pm
unfolding to_upper
to_upper-half true = refl
to_upper-half false = refl

to_upper-blank : (s : Text) → to_upper (32 ∷ s) ≡ 32 ∷ to_upper s
unfolding to_upper
to_upper-blank s = refl

-- three words with blanks between them
parts_of_words :
    (a b : Text) (pm : Bool)
    → NoSpace a
    → is_empty b ≡ false
    → NoSpace b
    → split_spaces (a ++ (32 ∷ (b ++ (32 ∷ half pm)))) ≡ a ∷ b ∷ half pm ∷ []
unfolding split_spaces
parts_of_words a b pm h e k =
    split_spaces-word a (b ++ (32 ∷ half pm)) h
    ∙ ap (λ ps. a ∷ ps) (split_spaces-gap_word b (half pm) e k ∙ ap (λ ps. b ∷ ps) (split_half pm))

trim-oracle_text :
    (c : ℕ) (date time : Text) (pm : Bool)
    → is_space c ≡ false
    → trim (c ∷ (date ++ (32 ∷ (time ++ (32 ∷ half pm)))))
      ≡ c ∷ (date ++ (32 ∷ (time ++ (32 ∷ half pm))))
trim-oracle_text c date time true h =
    simp append_assoc at
      (trim_framed c (date ++ (32 ∷ (time ++ (32 ∷ [])))) 80 (77 ∷ []) h (half-NoSpace true))
trim-oracle_text c date time false h =
    simp append_assoc at
      (trim_framed c (date ++ (32 ∷ (time ++ (32 ∷ [])))) 65 (77 ∷ []) h (half-NoSpace false))

to_upper-words :
    (a b : Text) (pm : Bool)
    → to_upper (a ++ (32 ∷ (b ++ (32 ∷ half pm))))
      ≡ to_upper a ++ (32 ∷ (to_upper b ++ (32 ∷ half pm)))
to_upper-words a b pm = simp (to_upper-append, to_upper-blank, to_upper-half)

-- The pieces that the timestamp is cut into.
pub parts_of_oracle_text :
    (c : ℕ) (date tail : Text) (hour minute : ℕ) (pm : Bool)
    → NoSpace (c ∷ date)
    → NoSpace tail
    → hour < 100
    → minute < 100
    → split_spaces (to_upper (trim (oracle_text c date hour minute tail pm)))
      ≡ to_upper (c ∷ date) ∷ oracle_time hour minute (to_upper tail) ∷ half pm ∷ []
parts_of_oracle_text c date tail hour minute pm hd ht hs ms =
    rw (trim-oracle_text c date (oracle_time hour minute tail) pm hd.0) (
      rw (to_upper-words (c ∷ date) (oracle_time hour minute tail) pm) (
        rw (to_upper-oracle_time hour minute hs ms tail) (
          parts_of_words (to_upper (c ∷ date)) (oracle_time hour minute (to_upper tail)) pm
            (to_upper-NoSpace (c ∷ date) hd) (is_empty-oracle_time hour minute hs (to_upper tail))
            (oracle_time-NoSpace hour minute hs ms (to_upper tail) (to_upper-NoSpace tail ht)))))

-- A timestamp as Oracle prints it, `DATE HH.MM.SECONDS AM` with any date and any seconds, is read
-- as its time of day: the hour carried to the 24-hour clock and the minute, two digits each.
pub parse_oracle_to_time_input-oracle_text :
    (host : Host) (c : ℕ) (date tail : Text) (hour minute : ℕ) (pm : Bool)
    → NoSpace (c ∷ date)
    → NoSpace tail
    → 1 ≤ hour
    → hour ≤ 12
    → minute < 60
    → parse_oracle_to_time_input host (some (oracle_text c date hour minute tail pm))
      ≡ clock_text (nat (hour_of_day hour pm)) (nat minute)
unfolding parse_oracle_to_time_input
parse_oracle_to_time_input-oracle_text host c date tail hour minute pm hd ht low high short =
    rw (parts_of_oracle_text c date tail hour minute pm hd ht (omega arith) (omega arith))
      (time_of_oracle_time hour minute (to_upper tail) pm low high short)
