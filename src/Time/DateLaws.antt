-- ===== src/Time/DateLaws.antt =====
-- `parseOracleDate` and `formatOracleDate` on the same text.
use sigecat_oraculos.Prelude.{
  ℕ, ◌≤◌, true, false, ◌≡◌, refl, sym, ◌∙◌, Bool, false, none, some, List, [], ◌∷◌, Text, length,
  arith, if◌then◌else◌,
}
use sigecat_oraculos.Js.Strings.{trim, to_upper, split_spaces, split_on}
use sigecat_oraculos.Js.Numbers.{parse_int}
use sigecat_oraculos.Time.Host.{Host}
use sigecat_oraculos.Time.Dates.{
  months, date_at, date_segments_of, date_of_segments, parse_oracle_date, format_segments,
  format_parts, format_oracle_date, full_year, ampm_of, time_part_or, shown, is_dash,
}

-- the pieces of a timestamp
abbrev pub parts_of : Text → List Text
parts_of s = split_spaces (to_upper (trim s))

if_apply {ℓ κ} :
    {A : Type ℓ} {B : Type κ} (b : Bool) (f g : A → B) (a : A)
    → (if b then f else g) a ≡ (if b then f a else g a)
if_apply true f g a = refl
if_apply false f g a = refl

module _ (host : Host) where
  format_segments_of_date :
      (f : host.Date → Text) (segments : List Text) (date_part time_part : Text) (rest : List Text)
      {d : host.Date}
      → date_of_segments host segments (date_part ∷ time_part ∷ rest) ≡ some d
      → format_segments host f segments (date_part ∷ time_part ∷ rest) ≡ f d
  unfolding date_of_segments format_segments
  format_segments_of_date f (d ∷ m ∷ y ∷ []) p t rest h = ground arith
  format_segments_of_date f _ p t rest h = cc

  format_parts_of_date :
      (s : Text) (f : host.Date → Text) (parts : List Text) {d : host.Date}
      → 2 ≤ length parts
      → date_of_segments host (date_segments_of parts) parts ≡ some d
      → format_parts host s f parts ≡ f d
  format_parts_of_date s f (p ∷ t ∷ rest) two h =
      format_segments_of_date f (split_on is_dash p) p t rest h
  format_parts_of_date s f (p ∷ []) two h = absurd (omega arith)
  format_parts_of_date s f [] two h = absurd (omega arith)

  parse_oracle_date_unread :
      (c : ℕ) (s : Text)
      → host.of_text (c ∷ s) ≡ none
      → parse_oracle_date host (some (c ∷ s))
        ≡ date_of_segments host (date_segments_of (parts_of (c ∷ s))) (parts_of (c ∷ s))
  unfolding parse_oracle_date
  parse_oracle_date_unread c s e = ground arith

  -- Where `new Date` cannot read a text of two or more pieces and `parseOracleDate` finds a date in
  -- it, `formatOracleDate` shows that date.
  pub format_oracle_date-parse_oracle_date :
      (c : ℕ) (s : Text) (with_time : Bool) {d : host.Date}
      → host.of_text (c ∷ s) ≡ none
      → 2 ≤ length (parts_of (c ∷ s))
      → parse_oracle_date host (some (c ∷ s)) ≡ some d
      → format_oracle_date host (some (c ∷ s)) with_time
        ≡ (if with_time then host.locale_date_time d else host.locale_date_2 d)
  unfolding format_oracle_date
  format_oracle_date-parse_oracle_date c s with_time e two h =
      format_parts_of_date (c ∷ s) (if with_time then host.locale_date_time else host.locale_date_2)
        (parts_of (c ∷ s)) two (sym (parse_oracle_date_unread c s e) ∙ h)
      ∙ if_apply with_time host.locale_date_time host.locale_date_2 _

  unknown_month_segments :
      (f : host.Date → Text) (day month year : Text) (parts : List Text)
      → months month ≡ none
      → (date_of_segments host (day ∷ month ∷ year ∷ []) parts ≡ none)
        × (format_segments host f (day ∷ month ∷ year ∷ []) parts
            ≡ shown host f (
                date_at host
                  (full_year (parse_int year))
                  0
                  (parse_int day)
                  (time_part_or [] parts)
                  (ampm_of parts)))
  unfolding date_of_segments format_segments
  unknown_month_segments f day month year parts h = (ground arith, ground arith)

  -- A date whose month is in neither language's table: `parseOracleDate` rejects it, and
  -- `formatOracleDate` shows the day of January of that year.
  pub unknown_month :
      (c : ℕ) (s day month year time_part : Text) (date_part : Text) (rest : List Text)
      → host.of_text (c ∷ s) ≡ none
      → parts_of (c ∷ s) ≡ date_part ∷ time_part ∷ rest
      → split_on is_dash date_part ≡ day ∷ month ∷ year ∷ []
      → months month ≡ none
      → (parse_oracle_date host (some (c ∷ s)) ≡ none)
        × (format_oracle_date host (some (c ∷ s)) false
            ≡ shown host host.locale_date_2 (
                date_at host
                  (full_year (parse_int year))
                  0
                  (parse_int day)
                  time_part
                  (ampm_of (date_part ∷ time_part ∷ rest))))
  unfolding format_oracle_date parse_oracle_date
  unknown_month c s day month year time_part date_part rest e parts segments h =
      let (rejected, shown_january) =
        unknown_month_segments host.locale_date_2 day month year (date_part ∷ time_part ∷ rest) h in
      (ground arith, ground arith)
