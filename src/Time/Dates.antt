-- ===== src/Time/Dates.antt =====
-- `parseOracleDate`, `formatOracleDate`, `formatOracleTime` and `formatDateForBackend`.
use sigecat_oraculos.Prelude.{
  ◌==◌, ◌+◌, ℕ, Bool, true, false, ◌||◌, Option, none, some, List, [], ◌∷◌, ◌++◌, Text, txt,
  text_eq, Result, ok, err, ◌⊎◌, inl, inr, if◌then◌else◌,
}
use sigecat_oraculos.Js.Strings.{trim, to_upper, split_spaces, split_on, is_time_separator}
use sigecat_oraculos.Js.Numbers.{Number, nan, nat, neg, parse_int, number_text, pad2, below, plus}
use sigecat_oraculos.Time.Host.{Host}
use sigecat_oraculos.Time.Clock.{segment, rest_of, to_24}

-- the table `months`, English and Spanish
unfoldable pub months : Text → Option ℕ
months m =
    if text_eq m (txt "JAN") || text_eq m (txt "ENE")
    then some 0
    else if text_eq m (txt "FEB")
    then some 1
    else if text_eq m (txt "MAR")
    then some 2
    else if text_eq m (txt "APR") || text_eq m (txt "ABR")
    then some 3
    else if text_eq m (txt "MAY")
    then some 4
    else if text_eq m (txt "JUN")
    then some 5
    else if text_eq m (txt "JUL")
    then some 6
    else if text_eq m (txt "AUG") || text_eq m (txt "AGO")
    then some 7
    else if text_eq m (txt "SEP")
    then some 8
    else if text_eq m (txt "OCT")
    then some 9
    else if text_eq m (txt "NOV")
    then some 10
    else if text_eq m (txt "DEC") || text_eq m (txt "DIC")
    then some 11
    else none

-- `if (year < 100) year += 2000`
abbrev pub full_year : Number → Number
full_year year = if below year 100 then plus year 2000 else year

abbrev pub is_nan : Number → Bool
is_nan nan = true
is_nan (nat n) = false
is_nan (neg n) = false

abbrev pub is_dash : ℕ → Bool
is_dash c = c == b'-'

abbrev pub dash : Text
dash = txt "—"

-- `parts[1] ?? '0'` and `parts[2]`, which is no text when it is not there
abbrev pub time_part_or : Text → List Text → Text
time_part_or other (date_part ∷ time_part ∷ rest) = time_part
time_part_or other _ = other

abbrev pub ampm_of : List Text → Text
ampm_of (date_part ∷ time_part ∷ ampm ∷ rest) = ampm
ampm_of _ = []

abbrev pub date_segments_of : List Text → List Text
date_segments_of [] = []
date_segments_of (date_part ∷ rest) = split_on is_dash date_part

-- `months[monthStr] !== undefined ? months[monthStr] : 0`
abbrev pub month_or_january : Option ℕ → ℕ
month_or_january none = 0
month_or_january (some m) = m

module _ (host : Host) where
  open host use {
    Date, of_text, of_fields, today_at, locale_date, locale_date_2, locale_date_time, locale_time,
    year, month, day, hours, minutes, seconds,
  }

  -- hour, minute and second of the time part, with the AM/PM shift, put into the date
  unfoldable pub date_at : Number → ℕ → Number → Text → Text → Option Date
  unfolding to_24
  date_at y m d time_part ampm =
      let segments = split_on is_time_separator time_part in
      of_fields y (nat m) d (to_24 ampm (segment segments)) (segment (rest_of segments))
        (segment (rest_of (rest_of segments)))

  -- the tail of `parseOracleDate`, once the date part has its three segments
  unfoldable pub date_of_segments : List Text → List Text → Option Date
  unfolding months date_at
  date_of_segments (d ∷ m ∷ y ∷ []) parts = elim (months m) [
    | none ↦ none
    | some month_index ↦
        if is_nan (parse_int d) || is_nan (parse_int y)
        then none
        else date_at (full_year (parse_int y)) month_index (parse_int d)
            (time_part_or (txt "0") parts) (ampm_of parts)
  ]
  date_of_segments _ parts = none

  unfoldable pub parse_oracle_date : Option Text → Option Date
  unfolding date_of_segments
  parse_oracle_date none = none
  parse_oracle_date (some []) = none
  parse_oracle_date (some (c ∷ s)) =
      let parts = split_spaces (to_upper (trim (c ∷ s))) in
      elim (of_text (c ∷ s)) [
        | some d ↦ some d
        | none ↦ date_of_segments (date_segments_of parts) parts
      ]

  -- an invalid date is shown as a dash
  abbrev pub shown : (Date → Text) → Option Date → Text
  shown f none = dash
  shown f (some d) = f d

  unfoldable pub format_segments : (Date → Text) → List Text → List Text → Text
  unfolding months date_at
  format_segments f (d ∷ m ∷ y ∷ []) parts = shown f (
      date_at (full_year (parse_int y)) (month_or_january (months m)) (parse_int d)
        (time_part_or [] parts) (ampm_of parts))
  format_segments f _ parts = dash

  abbrev pub format_parts : Text → (Date → Text) → List Text → Text
  format_parts s f (date_part ∷ time_part ∷ rest) =
      format_segments f (split_on is_dash date_part) (date_part ∷ time_part ∷ rest)
  format_parts s f _ = shown locale_date (of_text s)

  unfoldable pub format_oracle_date : Option Text → Bool → Text
  unfolding format_segments
  format_oracle_date none with_time = dash
  format_oracle_date (some []) with_time = dash
  format_oracle_date (some (c ∷ s)) with_time =
      format_parts (c ∷ s) (if with_time then locale_date_time else locale_date_2)
        (split_spaces (to_upper (trim (c ∷ s))))

  unfoldable pub format_time_part : Text → Text → Text
  unfolding to_24
  format_time_part time_part ampm =
      let segments = split_on is_time_separator time_part in
      shown locale_time (today_at (to_24 ampm (segment segments)) (segment (rest_of segments)))

  abbrev pub format_time_parts : Text → List Text → Text
  format_time_parts s (date_part ∷ time_part ∷ ampm ∷ rest) = format_time_part time_part ampm
  format_time_parts s _ = shown locale_time (of_text s)

  unfoldable pub format_oracle_time : Option Text → Text
  unfolding format_time_part
  format_oracle_time none = dash
  format_oracle_time (some []) = dash
  format_oracle_time (some (c ∷ s)) =
      format_time_parts (c ∷ s) (split_spaces (to_upper (trim (c ∷ s))))

  -- such as `2026-07-01 13:05:00`
  abbrev pub backend_text : Date → Text
  backend_text d =
      number_text (year d)
      ++ (b'-'
          ∷ (pad2 (nat (month d + 1))
              ++ (b'-'
                  ∷ (pad2 (nat (day d))
                      ++ (32
                          ∷ (pad2 (nat (hours d))
                              ++ (b':'
                                  ∷ (pad2 (nat (minutes d))
                                      ++ (b':' ∷ pad2 (nat (seconds d)))))))))))

  unfoldable pub format_valid_date : Option Date → Result Text Text
  format_valid_date none = err (txt "Fecha inválida")
  format_valid_date (some d) = ok (backend_text d)

  -- the argument is a text, which `new Date` reads, or a date that may be invalid
  unfoldable pub format_date_for_backend : Text ⊎ Option Date → Result Text Text
  unfolding format_valid_date
  format_date_for_backend (inl text) = format_valid_date (of_text text)
  format_date_for_backend (inr d) = format_valid_date d
