-- ===== src/Csv.antt =====
-- Fields, rows and lines of the exported CSV: `csvField`, `csvRow` and the final `join` of
-- client/src/utils/declarationExport.ts.
pub mod Reader
pub mod RoundTrip
use sigecat_oraculos.Prelude.{
  ℕ, Bool, true, false, ◌==◌, ◌||◌, List, [], ◌∷◌, ◌++◌, Text, any, map, if◌then◌else◌,
}

-- `/[",\n]/`
abbrev pub is_special : ℕ → Bool
is_special c = c == b'"' || c == b',' || c == 10

-- `text.replace(/"/g, '""')`
unfoldable pub escape : Text → Text
escape [] = []
escape (c ∷ s) = let rest = escape s in if c == b'"' then b'"' ∷ b'"' ∷ rest else c ∷ rest

unfoldable pub csv_field : Text → Text
unfolding escape
csv_field text = if any is_special text then b'"' ∷ (escape text ++ (b'"' ∷ [])) else text

-- `pieces.join(separator)`
unfoldable pub join : ℕ → List Text → Text
join separator [] = []
join separator (p ∷ []) = p
join separator (p ∷ q ∷ ps) = p ++ (separator ∷ join separator (q ∷ ps))

unfoldable pub csv_row : List Text → Text
unfolding csv_field join
csv_row values = join b',' (map csv_field values)

-- `lines.join('\n')`
unfoldable pub csv_lines : List Text → Text
unfolding join
csv_lines lines = join 10 lines
