-- ===== src/Details/Durations.antt =====
-- The texts of durations, in client/src/features/admin/declarations/DeclarationsDetailsModal.tsx and in
-- client/src/features/employee/EmployeesDeclarationsModal.tsx, and a reader of them.
use sigecat_oraculos.Prelude.{
  ℕ, ◌+◌, ◌*◌, ◌==◌, Bool, List, [], ◌∷◌, Text, txt, text_eq, if◌then◌else◌,
}
use sigecat_oraculos.Js.Strings.{split_on}
use sigecat_oraculos.Js.Numbers.{digits_from}

-- the minutes of `12 h 5 min`, `12 h` or `5 min`, by the words
abbrev pub minutes_of_words : List Text → ℕ
minutes_of_words (n ∷ u ∷ []) =
    if text_eq u (txt "h") then digits_from 0 n * 60 else digits_from 0 n
minutes_of_words (h ∷ u ∷ m ∷ v ∷ []) = digits_from 0 h * 60 + digits_from 0 m
minutes_of_words _ = 0

abbrev pub is_blank : ℕ → Bool
is_blank c = c == b' '

unfoldable pub read_duration : Text → ℕ
unfolding split_on
read_duration text = minutes_of_words (split_on is_blank text)
