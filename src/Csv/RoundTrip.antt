-- ===== src/Csv/RoundTrip.antt =====
-- Reading what the exporter writes.
use mathlib.Core.List.{append_assoc, append-nil}
use sigecat_oraculos.Prelude.{
  ℕ, ◌==◌, Bool, ◌≡◌, refl, ap, sym, ◌∙◌, ◌⊎◌, inl, inr, false, List, [], ◌∷◌, ◌++◌, Text, any, map,
  All, arith, Bool-cases,
}
use sigecat_oraculos.Csv.{is_special, escape, csv_field, csv_row, csv_lines}
use sigecat_oraculos.Csv.Reader.{
  begin, plain, quoted, closing, unit, field, line, read_from, read_csv,
}

-- a carriage return, which `csvField` leaves outside quotes
abbrev pub is_return : ℕ → Bool
is_return c = c == 13

-- the units of a text at the front of the first field
abbrev units : Text → List (List Text) → List (List Text)
units [] rs = rs
units (c ∷ s) rs = unit c (units s rs)

-- the text ends, or goes on with a separator
abbrev Ends : Text → Type 0
Ends [] = Unit
Ends (c ∷ s) = (c ≡ b',') ⊎ (c ≡ 10)

read_plain :
    (t s : Text)
    → any is_special t ≡ false
    → any is_return t ≡ false
    → read_from plain (t ++ s) ≡ units t (read_from plain s)
unfolding read_from
read_plain [] s h k = refl
read_plain (c ∷ t) s h k = ground (arith, read_plain t s)

read_begin_of_Ends : (s : Text) → Ends s → read_from begin s ≡ read_from plain s
unfolding read_from
read_begin_of_Ends [] h = refl
read_begin_of_Ends (c ∷ s) (inl e) = rw e
read_begin_of_Ends (c ∷ s) (inr e) = rw e

read_closing_of_Ends : (s : Text) → Ends s → read_from closing s ≡ read_from plain s
unfolding read_from
read_closing_of_Ends [] h = refl
read_closing_of_Ends (c ∷ s) (inl e) = rw e
read_closing_of_Ends (c ∷ s) (inr e) = rw e

read_quoted :
    (t s : Text) → read_from quoted (escape t ++ (b'"' ∷ s)) ≡ units t (read_from closing s)
unfolding read_from escape
read_quoted [] s = refl
read_quoted (c ∷ t) s = ground (arith, read_quoted t s)

read_unquoted :
    (t s : Text)
    → Ends s
    → any is_special t ≡ false
    → any is_return t ≡ false
    → read_from begin (t ++ s) ≡ units t (read_from plain s)
read_unquoted [] s e h k = read_begin_of_Ends s e
read_unquoted (c ∷ t) s e h k = unfold read_from in ground (arith, read_plain t s)

read_quote : (s : Text) → read_from begin (b'"' ∷ s) ≡ read_from quoted s
unfolding read_from
read_quote s = refl

read_field :
    (t s : Text)
    → Ends s
    → any is_return t ≡ false
    → read_from begin (csv_field t ++ s) ≡ units t (read_from plain s)
unfolding csv_field
read_field t s e k = elim (Bool-cases (any is_special t)) [
  | inl special ↦ rw (special, append_assoc, read_quote, read_quoted t s, read_closing_of_Ends s e)
  | inr none_special ↦ rw none_special (read_unquoted t s e none_special k)
]

-- the fields of a row at the front of what follows
abbrev fields : Text → List Text → List (List Text) → List (List Text)
fields v [] rs = units v rs
fields v (w ∷ ws) rs = units v (field (fields w ws rs))

-- the text ends, or goes on with a line break
abbrev EndsLine : Text → Type 0
EndsLine [] = Unit
EndsLine (c ∷ s) = c ≡ 10

Ends-of_EndsLine : (s : Text) → EndsLine s → Ends s
Ends-of_EndsLine [] h = tt
Ends-of_EndsLine (c ∷ s) h = inr h

csv_row-cons :
    (v w : Text) (ws : List Text) → csv_row (v ∷ w ∷ ws) ≡ csv_field v ++ (b',' ∷ csv_row (w ∷ ws))
unfolding csv_row
csv_row-cons v w ws = refl

csv_row-one : (v : Text) → csv_row (v ∷ []) ≡ csv_field v
unfolding csv_row
csv_row-one v = refl

read_comma : (s : Text) → read_from plain (b',' ∷ s) ≡ field (read_from begin s)
unfolding read_from
read_comma s = refl

read_break : (s : Text) → read_from plain (10 ∷ s) ≡ line (read_from begin s)
unfolding read_from
read_break s = refl

read_row :
    (v : Text) (vs : List Text) (s : Text)
    → EndsLine s
    → any (any is_return) (v ∷ vs) ≡ false
    → read_from begin (csv_row (v ∷ vs) ++ s) ≡ fields v vs (read_from plain s)
read_row v [] s e k = rw (csv_row-one v) (read_field v s (Ends-of_EndsLine s e) (ground arith))
read_row v (w ∷ ws) s e k =
    rw (csv_row-cons v w ws, append_assoc)
      (read_field v (b',' ∷ (csv_row (w ∷ ws) ++ s)) (inl refl) (ground arith)
        ∙ ap (units v)
            (read_comma (csv_row (w ∷ ws) ++ s) ∙ ap field (read_row w ws s e (ground arith))))

units_of_field :
    (t f : Text) (fs : List Text) (rs : List (List Text))
    → units t ((f ∷ fs) ∷ rs) ≡ ((t ++ f) ∷ fs) ∷ rs
units_of_field [] f fs rs = refl
units_of_field (c ∷ t) f fs rs = ap (unit c) (units_of_field t f fs rs)

fields_of_blank :
    (v : Text) (vs : List Text) (rs : List (List Text))
    → fields v vs (([] ∷ []) ∷ rs) ≡ (v ∷ vs) ∷ rs
fields_of_blank v [] rs = rw (units_of_field v [] [] rs, append-nil)
fields_of_blank v (w ∷ ws) rs =
    rw (fields_of_blank w ws rs) (rw (units_of_field v [] (w ∷ ws) rs, append-nil))

-- a row has at least one field
abbrev pub HasField : List Text → Type 0
HasField [] = ⊥
HasField (v ∷ vs) = Unit

read_end : read_from plain [] ≡ ([] ∷ []) ∷ []
unfolding read_from
read_end = refl

-- Reading a file whose lines are rows of fields gives back these rows, whatever the fields hold but a
-- carriage return: quotes, commas and line feeds included.
pub read_csv-csv_lines :
    (row : List Text) (rows : List (List Text))
    → All HasField (row ∷ rows)
    → any (any (any is_return)) (row ∷ rows) ≡ false
    → read_csv (csv_lines (map csv_row (row ∷ rows))) ≡ row ∷ rows
unfolding read_csv csv_lines
read_csv-csv_lines [] rows h k = absurd h.0
read_csv-csv_lines (v ∷ vs) [] h k =
    ap (read_from begin) (sym (append-nil (csv_row (v ∷ vs))))
    ∙ read_row v vs [] tt (ground arith)
    ∙ rw read_end (fields_of_blank v vs [])
read_csv-csv_lines (v ∷ vs) (row ∷ rows) h k =
    read_row v vs (10 ∷ csv_lines (map csv_row (row ∷ rows))) refl (ground arith)
    ∙ ap (fields v vs) (
        read_break (csv_lines (map csv_row (row ∷ rows)))
        ∙ ap line (read_csv-csv_lines row rows h.1 (ground arith)))
    ∙ fields_of_blank v vs (row ∷ rows)
