-- ===== src/Time/Clock.antt =====
-- `parseOracleToTimeInput`: the time of day in a form that `<input type="time">` takes.
use sigecat_oraculos.Prelude.{
  ◌&&◌, Option, none, some, List, [], ◌∷◌, ◌++◌, Text, txt, text_eq, if◌then◌else◌,
}
use sigecat_oraculos.Js.Strings.{
  trim, to_upper, split_spaces, split_on, is_empty, is_time_separator,
}
use sigecat_oraculos.Js.Numbers.{Number, nat, parse_int, pad2, below, equals, plus}
use sigecat_oraculos.Time.Host.{Host}

-- `parseInt(segments[i] || '0', 10)`
abbrev pub segment : List Text → Number
segment [] = nat 0
segment (s ∷ rest) = if is_empty s then nat 0 else parse_int s

-- The two tests on AM and PM, one after the other, that `parseOracleToTimeInput`,
-- `parseOracleDate`, `formatOracleDate` and `formatOracleTime` all write out.
unfoldable pub to_24 : Text → Number → Number
to_24 ampm hour =
    let shifted = if text_eq ampm (txt "PM") && below hour 12 then plus hour 12 else hour in
    if text_eq ampm (txt "AM") && equals shifted 12 then nat 0 else shifted

abbrev pub rest_of : List Text → List Text
rest_of [] = []
rest_of (s ∷ rest) = rest

abbrev pub clock_text : Number → Number → Text
clock_text hour minute = pad2 hour ++ (b':' ∷ pad2 minute)

-- the branch `parts.length >= 3`
unfoldable pub time_of_parts : Text → Text → Text
unfolding to_24
time_of_parts time_part ampm =
    let segments = split_on is_time_separator time_part in
    clock_text (to_24 ampm (segment segments)) (segment (rest_of segments))

module _ (host : Host) where
  open host use {of_text, hours, minutes}

  -- the branch behind `new Date(oracleDateStr)`
  unfoldable pub time_of_text : Text → Text
  time_of_text s = elim (of_text s) [
    | none ↦ []
    | some d ↦ clock_text (nat (hours d)) (nat (minutes d))
  ]

  abbrev pub time_by_parts : Text → List Text → Text
  time_by_parts s (date_part ∷ time_part ∷ ampm ∷ rest) = time_of_parts time_part ampm
  time_by_parts s _ = time_of_text s

  unfoldable pub parse_oracle_to_time_input : Option Text → Text
  unfolding time_of_parts time_of_text
  parse_oracle_to_time_input none = []
  parse_oracle_to_time_input (some []) = []
  parse_oracle_to_time_input (some (c ∷ s)) =
      time_by_parts (c ∷ s) (split_spaces (to_upper (trim (c ∷ s))))
