-- ===== src/Js/Strings.antt =====
-- White space, case and splitting.
use sigecat_oraculos.Prelude.{
  ℕ, ◌+◌, ◌-◌, ◌==◌, leb, Bool, true, false, not, ◌&&◌, ◌||◌, List, [], ◌∷◌, ◌++◌, Text,
  if◌then◌else◌,
}

-- what `trim` drops and `\s` matches
unfoldable pub is_space : ℕ → Bool
is_space c =
    leb 9 c && leb c 13
    || c == 32
    || c == 160
    || c == 0x1680
    || leb 0x2000 c && leb c 0x200A
    || c == 0x2028
    || c == 0x2029
    || c == 0x202F
    || c == 0x205F
    || c == 0x3000
    || c == 0xFEFF

unfoldable pub trim_start : Text → Text
trim_start [] = []
trim_start (c ∷ s) = let rest = trim_start s in if is_space c then rest else c ∷ s

abbrev pub is_empty : Text → Bool
is_empty [] = true
is_empty (c ∷ s) = false

unfoldable pub trim_end : Text → Text
trim_end [] = []
trim_end (c ∷ s) = let rest = trim_end s in if is_space c && is_empty rest then [] else c ∷ rest

unfoldable pub trim : Text → Text
unfolding trim_start trim_end is_space
trim s = trim_end (trim_start s)

unfoldable pub upper_unit : ℕ → Text
upper_unit c =
    if leb 97 c && leb c 122
    then (c - 32) ∷ []
    else if leb 224 c && leb c 254 && not (c == 247)
    then (c - 32) ∷ []
    else if c == 255
    then 376 ∷ []
    else if c == 181
    then 924 ∷ []
    else if c == 223
    then 83 ∷ 83 ∷ []
    else c ∷ []

unfoldable pub to_upper : Text → Text
unfolding upper_unit
to_upper [] = []
to_upper (c ∷ s) = upper_unit c ++ to_upper s

unfoldable pub lower_unit : ℕ → ℕ
lower_unit c =
    if leb 65 c && leb c 90
    then c + 32
    else if leb 192 c && leb c 222 && not (c == 215)
    then c + 32
    else c

unfoldable pub to_lower : Text → Text
unfolding lower_unit
to_lower [] = []
to_lower (c ∷ s) = lower_unit c ∷ to_lower s

-- one more unit at the front of the first piece
abbrev pub push : ℕ → List Text → List Text
push c [] = (c ∷ []) ∷ []
push c (p ∷ ps) = (c ∷ p) ∷ ps

-- `s.split(/[…]/)` at each unit that the test accepts
unfoldable pub split_on : (ℕ → Bool) → Text → List Text
split_on sep [] = [] ∷ []
split_on sep (c ∷ s) = let rest = split_on sep s in if sep c then [] ∷ rest else push c rest

-- `s.split(/\s+/)`; the flag says that the last unit was white space
unfoldable pub split_spaces_from : Bool → Text → List Text
split_spaces_from gap [] = [] ∷ []
split_spaces_from gap (c ∷ s) =
    let after = split_spaces_from true s in
    let word = push c (split_spaces_from false s) in
    if is_space c then (if gap then after else [] ∷ after) else word

unfoldable pub split_spaces : Text → List Text
unfolding split_spaces_from is_space
split_spaces s = split_spaces_from false s

-- the separators of a time, `/[.:]/`
abbrev pub is_time_separator : ℕ → Bool
is_time_separator c = c == b'.' || c == b':'
