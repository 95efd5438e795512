-- ===== src/Export/Document.antt =====
-- The text of the exported document reads back as its table.
use mathlib.Core.List.{map-append, append-nil}
use sigecat_oraculos.Prelude.{
  ℕ, any, false, ◌≡◌, refl, ap, ap₂, sym, ◌∙◌, List, [], ◌∷◌, ◌++◌, map, Text, All,
}
use sigecat_oraculos.Declarations.{
  JobFunction, OfficialFunction, RestTime, License, StatusEntry, Declaration,
}
use sigecat_oraculos.Time.Host.{Host}
use sigecat_oraculos.Csv.{csv_row, csv_lines}
use sigecat_oraculos.Csv.Reader.{read_csv}
use sigecat_oraculos.Csv.RoundTrip.{HasField, is_return, read_csv-csv_lines}
use sigecat_oraculos.Export.{
  summary_lines, function_lines, rest_lines, license_lines, history_lines, build_declaration_csv,
}
use sigecat_oraculos.Export.Rows.{
  function_row, function_rows, rest_rows, license_rows, history_rows, rest_row, license_row,
  history_row, summary_rows, blank, declaration_rows,
}

-- The lines are the rows as the exporter writes them, and no row is without fields.
record Lines (lines : List Text) (rows : List (List Text)) : Type 0 where
  written : lines ≡ map csv_row rows
  filled : All HasField rows

All-append-rows : (r s : List (List Text)) → All HasField r → All HasField s → All HasField (r ++ s)
All-append-rows [] s h k = k
All-append-rows (row ∷ r) s (p, h) k = (p, All-append-rows r s h k)

Lines-append :
    {a b : List Text} {r s : List (List Text)} → Lines a r → Lines b s → Lines (a ++ b) (r ++ s)
Lines-append {r = r} {s = s} h k = record {
  written = ap₂ (λ x y. x ++ y) h.written k.written ∙ sym (map-append csv_row r s);
  filled = All-append-rows r s h.filled k.filled;
}

Lines-nil : Lines [] []
Lines-nil = record { written = refl; filled = tt }

Lines-cons :
    {row : List Text} {ls : List Text} {rs : List (List Text)}
    → HasField row
    → Lines ls rs
    → Lines (csv_row row ∷ ls) (row ∷ rs)
Lines-cons {row = row} h k = record {
  written = ap (λ l. csv_row row ∷ l) k.written;
  filled = (h, k.filled);
}

Lines-map :
    {A : Type 0} (f : A → List Text)
    → ((a : A) → HasField (f a))
    → (xs : List A) → Lines (map (λ a. csv_row (f a)) xs) (map f xs)
Lines-map f h [] = Lines-nil
Lines-map f h (x ∷ xs) = Lines-cons (h x) (Lines-map f h xs)

Lines-blank : Lines ([] ∷ []) blank
unfolding csv_row
Lines-blank = record { written = refl; filled = (tt, tt) }

-- a title, the heads of the columns, the rows and what follows them
Lines-table :
    {A : Type 0} (title : Text) (head : Text) (heads : List Text) (f : A → List Text)
    {after : List Text} {rows_after : List (List Text)}
    → ((a : A) → HasField (f a))
    → (xs : List A) → Lines after rows_after
    → Lines
        (csv_row (title ∷ []) ∷ csv_row (head ∷ heads) ∷ (map (λ a. csv_row (f a)) xs ++ after))
        ((title ∷ []) ∷ (head ∷ heads) ∷ (map f xs ++ rows_after))
Lines-table title head heads f h xs k =
    Lines-cons tt (Lines-cons tt (Lines-append (Lines-map f h xs) k))

Lines-functions :
    (fns : List OfficialFunction) (jfs : List JobFunction)
    → Lines (function_lines fns jfs) (function_rows fns jfs)
unfolding function_lines
Lines-functions fns jfs = Lines-table _ _ _ (function_row fns) (λ jf. tt) jfs Lines-blank

Lines-rests : (rests : List RestTime) → Lines (rest_lines rests) (rest_rows rests)
unfolding rest_lines
Lines-rests [] = Lines-nil
Lines-rests (rt ∷ rts) = Lines-table _ _ _ rest_row (λ r. tt) (rt ∷ rts) Lines-blank

Lines-licenses : (licenses : List License) → Lines (license_lines licenses) (license_rows licenses)
unfolding license_lines
Lines-licenses [] = Lines-nil
Lines-licenses (l ∷ ls) = Lines-table _ _ _ license_row (λ r. tt) (l ∷ ls) Lines-blank

module _ (host : Host) (quotient_text : ℕ → ℕ → Text) where
  Lines-history :
      (es : List StatusEntry)
      → Lines (history_lines host quotient_text es) (history_rows host quotient_text es)
  unfolding history_lines
  Lines-history [] = Lines-nil
  Lines-history (e ∷ es) = Lines-cons tt (
      Lines-cons tt (rw append-nil (Lines-map (history_row host quotient_text) (λ r. tt) (e ∷ es))))

  Lines-summary :
      (d : Declaration) (rests : List RestTime) (licenses : List License)
      → Lines
          (summary_lines host quotient_text d rests licenses)
          (summary_rows host quotient_text d rests licenses)
  unfolding summary_lines
  Lines-summary d rests licenses = Lines-cons tt (
      Lines-cons tt (
        Lines-cons tt (
          Lines-cons tt (
            Lines-cons tt
              (Lines-cons tt (Lines-cons tt (Lines-cons tt (Lines-cons tt Lines-blank))))))))

  -- Where no cell of the table of the declaration holds a carriage return, which `csvField` does not
  -- quote, a reader of the exported file sees exactly this table, cell by cell.
  pub read_csv-build_declaration_csv :
      (d : Declaration) (rests : List RestTime) (licenses : List License)
      (fns : List OfficialFunction)
      → any (any (any is_return)) (declaration_rows host quotient_text d rests licenses fns) ≡ false
      → read_csv (build_declaration_csv host quotient_text d rests licenses fns)
        ≡ declaration_rows host quotient_text d rests licenses fns
  unfolding build_declaration_csv
  read_csv-build_declaration_csv d rests licenses fns plain =
      let document = Lines-append (Lines-summary d rests licenses) (
        Lines-append (Lines-functions fns d.job_functions) (
          Lines-append (Lines-rests rests)
            (Lines-append (Lines-licenses licenses) (Lines-history d.status_history)))) in
      ap (λ lines. read_csv (csv_lines lines)) document.written
      ∙ read_csv-csv_lines _ _ document.filled plain
