-- ===== src/Js/Splitting.antt =====
-- How `trim`, `toUpperCase` and `split` act on texts put together from words.
use mathlib.Core.List.{append_assoc}
use sigecat_oraculos.Prelude.{ℕ, ◌≡◌, refl, Bool, true, false, [], ◌∷◌, ◌++◌, Text, All, arith}
use sigecat_oraculos.Js.Strings.{
  is_space, trim_start, trim_end, trim, is_empty, upper_unit, to_upper, split_on, split_spaces_from,
}

-- no unit of the text is white space
abbrev pub NoSpace : Text → Type 0
NoSpace = All (λ c. is_space c ≡ false)

pub is_empty-append : (a : Text) (c : ℕ) (b : Text) → is_empty (a ++ (c ∷ b)) ≡ false
is_empty-append [] c b = refl
is_empty-append (x ∷ a) c b = refl

trim_end_word : (a : Text) → NoSpace a → trim_end a ≡ a
unfolding trim_end
trim_end_word [] h = refl
trim_end_word (c ∷ a) (p, h) = ground (arith, trim_end_word a h)

trim_end-append :
    (a : Text) (c : ℕ) (b : Text)
    → trim_end (c ∷ b) ≡ c ∷ b
    → trim_end (a ++ (c ∷ b)) ≡ a ++ (c ∷ b)
unfolding trim_end
trim_end-append [] c b e = e
trim_end-append (x ∷ a) c b e = ground (arith, trim_end-append a c b e, is_empty-append a c b)

-- A text whose first unit and whose last word have no white space is its own `trim`.
pub trim_framed :
    (x : ℕ) (a : Text) (c : ℕ) (b : Text)
    → is_space x ≡ false
    → NoSpace (c ∷ b)
    → trim (x ∷ (a ++ (c ∷ b))) ≡ x ∷ (a ++ (c ∷ b))
trim_framed x a c b p h =
    unfold trim trim_start in rw p (trim_end-append (x ∷ a) c b (trim_end_word (c ∷ b) h))

pub to_upper-append : (a b : Text) → to_upper (a ++ b) ≡ to_upper a ++ to_upper b
unfolding to_upper
to_upper-append [] b = refl
to_upper-append (c ∷ a) b = rw (to_upper-append a b, append_assoc)

module _ (P : ℕ → Type 0) where
  pub All-append : (a b : Text) → All P a → All P b → All P (a ++ b)
  All-append [] b h k = k
  All-append (c ∷ a) b (p, h) k = (p, All-append a b h k)

upper_unit-NoSpace : (c : ℕ) → is_space c ≡ false → NoSpace (upper_unit c)
unfolding upper_unit is_space
upper_unit-NoSpace c h = ground arith

pub to_upper-NoSpace : (a : Text) → NoSpace a → NoSpace (to_upper a)
unfolding to_upper
to_upper-NoSpace [] h = tt
to_upper-NoSpace (c ∷ a) (p, h) =
    All-append (λ x. is_space x ≡ false) (upper_unit c) (to_upper a) (upper_unit-NoSpace c p)
      (to_upper-NoSpace a h)

-- A word before a blank is one piece, wherever the split stands.
pub split_spaces-word :
    (a s : Text)
    → NoSpace a
    → split_spaces_from false (a ++ (32 ∷ s)) ≡ a ∷ split_spaces_from true s
unfolding split_spaces_from is_space
split_spaces-word [] s h = refl
split_spaces-word (c ∷ a) s (p, h) = rw (p, split_spaces-word a s h)

pub split_spaces-gap_word :
    (a s : Text)
    → is_empty a ≡ false
    → NoSpace a
    → split_spaces_from true (a ++ (32 ∷ s)) ≡ a ∷ split_spaces_from true s
split_spaces-gap_word [] s e h = cc
split_spaces-gap_word (c ∷ a) s e (p, h) =
    unfold split_spaces_from in rw (p, split_spaces-word a s h)

pub split_spaces-last_word : (a : Text) → NoSpace a → split_spaces_from false a ≡ a ∷ []
unfolding split_spaces_from
split_spaces-last_word [] h = refl
split_spaces-last_word (c ∷ a) (p, h) = rw (p, split_spaces-last_word a h)

-- A piece before a separator.
pub split_on-append :
    (sep : ℕ → Bool) (a : Text) (c : ℕ) (s : Text)
    → All (λ x. sep x ≡ false) a
    → sep c ≡ true
    → split_on sep (a ++ (c ∷ s)) ≡ a ∷ split_on sep s
unfolding split_on
split_on-append sep [] c s h e = rw e
split_on-append sep (x ∷ a) c s (p, h) e = rw (p, split_on-append sep a c s h e)

-- The last piece.
pub split_on-last :
    (sep : ℕ → Bool) (a : Text) → All (λ x. sep x ≡ false) a → split_on sep a ≡ a ∷ []
unfolding split_on
split_on-last sep [] h = refl
split_on-last sep (x ∷ a) (p, h) = rw (p, split_on-last sep a h)
