-- ===== src/Session/Names.antt =====
-- The full name that the API sends, cut into first and last name.
use sigecat_oraculos.Prelude.{
  ℕ, Bool, ◌⊎◌, ◌≡◌, refl, ap, sym, ==_iff, ◌∙◌, some, List, [], ◌∷◌, ◌++◌, true, false, Text, any,
  arith, Bool-cases, inl, inr, ◌==◌,
}
use sigecat_oraculos.Js.Strings.{split_on, push}
use sigecat_oraculos.Csv.{join}
use sigecat_oraculos.Session.User.{is_blank, first_name_of, last_name_of, first_piece, other_pieces}

join-push :
    (sep c : ℕ) (p : Text) (ps : List Text) → join sep (push c (p ∷ ps)) ≡ c ∷ join sep (p ∷ ps)
unfolding join
join-push sep c p [] = refl
join-push sep c p (q ∷ ps) = refl

-- there is always a first piece
split_on-cons :
    (sep : ℕ → Bool) (s : Text) → (p : Text) × (ps : List Text) × (split_on sep s ≡ p ∷ ps)
unfolding split_on
split_on-cons sep [] = ([], [], refl)
split_on-cons sep (c ∷ s) =
    let (p, ps, e) = split_on-cons sep s in
    elim (Bool-cases (sep c)) [ inl h ↦ ([], p ∷ ps, rw (h, e)) | inr h ↦ (c ∷ p, ps, rw (h, e)) ]

-- Cutting at the blanks and joining with blanks changes nothing.
join-split_on : (s : Text) → join 32 (split_on is_blank s) ≡ s
unfolding split_on join
join-split_on [] = refl
join-split_on (c ∷ s) =
    let (p, ps, e) = split_on-cons is_blank s in
    let whole : join 32 (p ∷ ps) ≡ s = ap (join 32) (sym e) ∙ join-split_on s in
    elim (Bool-cases (c == 32)) [
      | inl h ↦ rw (h, e) (ap (λ t. 32 ∷ t) whole ∙ ap (λ d. d ∷ s) (sym ((==_iff c 32).0 h)))
      | inr h ↦ rw (h, e) (join-push 32 c p ps ∙ ap (λ t. c ∷ t) whole)
    ]

-- the two cases, on the pieces
IsCut : Text → List Text → Type 0
IsCut name pieces =
    ((any is_blank name ≡ true)
      × (first_piece pieces ++ (32 ∷ join 32 (other_pieces pieces)) ≡ name))
    ⊎ ((any is_blank name ≡ false)
        × (first_piece pieces ≡ name)
        × (join 32 (other_pieces pieces) ≡ []))

IsCut-push :
    (c : ℕ) (s p : Text) (ps : List Text)
    → (c == 32) ≡ false
    → IsCut s (p ∷ ps)
    → IsCut (c ∷ s) ((c ∷ p) ∷ ps)
unfolding IsCut
IsCut-push c s p ps h (inl (b, e)) = inl (ground arith, ap (λ t. c ∷ t) e)
IsCut-push c s p ps h (inr (b, e, f)) = inr (ground arith, ap (λ t. c ∷ t) e, f)

IsCut-blank : (c : ℕ) (s : Text) → (c == 32) ≡ true → IsCut (c ∷ s) ([] ∷ split_on is_blank s)
unfolding IsCut
IsCut-blank c s h =
    inl
      (ground arith, ap (λ t. 32 ∷ t) (join-split_on s) ∙ ap (λ d. d ∷ s) (sym ((==_iff c 32).0 h)))

split_on-IsCut : (s : Text) → IsCut s (split_on is_blank s)
unfolding split_on
split_on-IsCut [] = unfold IsCut join in inr (refl, refl, refl)
split_on-IsCut (c ∷ s) =
    let (p, ps, e) = split_on-cons is_blank s in
    elim (Bool-cases (c == 32)) [
      | inl h ↦ rw h (IsCut-blank c s h)
      | inr h ↦ rw (h, e) (IsCut-push c s p ps h (rw e at (split_on-IsCut s)))
    ]

-- No part of the full name is lost: with a blank in it, the first name, a blank and the last name
-- are the full name; without one, the first name is all of it and the last name is empty.
pub first_name_of-last_name_of :
    (name : Text)
    → ((any is_blank name ≡ true)
        × (first_name_of (some name) ++ (32 ∷ last_name_of (some name)) ≡ name))
      ⊎ ((any is_blank name ≡ false)
          × (first_name_of (some name) ≡ name)
          × (last_name_of (some name) ≡ []))
unfolding first_name_of last_name_of IsCut
first_name_of-last_name_of name = split_on-IsCut name
