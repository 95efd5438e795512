-- ===== src/Paging.antt =====
-- Slices of a list, page by page.
use sigecat_oraculos.Prelude.{
  ℕ, zero, suc, ◌+◌, ◌-◌, ◌*◌, ◌/◌, ◌≤◌, ◌<◌, ◌≡◌, refl, ap, sym, ◌∙◌, List, [], ◌∷◌, ◌++◌, take,
  drop, length, take-of_le, arith,
}
use mathlib.Core.List.{append-nil, append_assoc}
use native.Mathlib.Nat.{div-add-mod', mod-lt, suc-add, zero-add, zero-sub}

-- `Math.ceil(n / size)`, for a size that is not 0
abbrev pub ceil_div : ℕ → ℕ → ℕ
ceil_div n size = (n + size - 1) / size

-- the pages cover the list
pub le-ceil_div : (n size : ℕ) → 0 < size → n ≤ ceil_div n size * size
le-ceil_div n size h = omega (arith, div-add-mod' (n + size - 1) size, mod-lt (n + size - 1) h)

no_pages : (size : ℕ) → 0 ≡ 0 * size
no_pages size = grind arith

module _ {ℓ} {A : Type ℓ} where
  -- one page, counted from 1
  abbrev pub page_of : ℕ → ℕ → List A → List A
  page_of size page xs = take size (drop ((page - 1) * size) xs)

  take-nil : (n : ℕ) → take {A = A} n [] ≡ []
  take-nil zero = refl
  take-nil (suc n) = refl

  pub take-append-take : (a b : ℕ) (xs : List A) → take a xs ++ take b (drop a xs) ≡ take (a + b) xs
  take-append-take zero b xs = rw zero-add
  take-append-take (suc a) b [] = rw suc-add (take-nil b)
  take-append-take (suc a) b (x ∷ xs) = rw suc-add (ap (λ r. x ∷ r) (take-append-take a b xs))

  pub take-take : (a b : ℕ) (xs : List A) → a ≤ b → take a (take b xs) ≡ take a xs
  take-take zero b xs h = refl
  take-take (suc a) zero xs h = absurd (omega arith)
  take-take (suc a) (suc b) [] h = refl
  take-take (suc a) (suc b) (x ∷ xs) h = ap (λ r. x ∷ r) (take-take a b xs (omega arith))

  -- Pages from the one behind the first `k` on, a given number of them.
  abbrev pub pages_from : ℕ → ℕ → ℕ → List A → List A
  pages_from size k zero xs = []
  pages_from size k (suc rounds) xs = page_of size (k + 1) xs ++ pages_from size (k + 1) rounds xs

  take-page :
      (size k : ℕ) (xs : List A)
      → take (k * size) xs ++ page_of size (k + 1) xs ≡ take ((k + 1) * size) xs
  take-page size k xs =
      ap (λ n. take (k * size) xs ++ take size (drop (n * size) xs)) (omega arith)
      ∙ take-append-take (k * size) size xs
      ∙ ap (λ n. take n xs) (grind arith)

  pub pages_from-take :
      (size k rounds : ℕ) (xs : List A)
      → take (k * size) xs ++ pages_from size k rounds xs ≡ take ((k + rounds) * size) xs
  pages_from-take size k zero xs = rw append-nil (ap (λ n. take n xs) (grind arith))
  pages_from-take size k (suc rounds) xs =
      sym (
        append_assoc (take (k * size) xs) (page_of size (k + 1) xs)
          (pages_from size (k + 1) rounds xs))
      ∙ ap (λ ys. ys ++ pages_from size (k + 1) rounds xs) (take-page size k xs)
      ∙ pages_from-take size (k + 1) rounds xs
      ∙ ap (λ n. take (n * size) xs) (omega arith)

  -- The first pages, one after the other, are the first part of the list.
  pub first_pages :
      (size pages : ℕ) (xs : List A) → pages_from size 0 pages xs ≡ take (pages * size) xs
  first_pages size pages xs =
      ap (λ n. take n xs ++ pages_from size 0 pages xs) (no_pages size)
      ∙ pages_from-take size 0 pages xs
      ∙ ap (λ n. take (n * size) xs) (omega arith)

  -- All pages of the list, one after the other, are the list.
  pub pages_from-cover :
      (size pages : ℕ) (xs : List A) → length xs ≤ pages * size → pages_from size 0 pages xs ≡ xs
  pages_from-cover size pages xs h = first_pages size pages xs ∙ take-of_le _ xs h

  -- `xs.slice(a, b)` is the first `b - a` entries from `a` on
  pub drop-take : (a b : ℕ) (xs : List A) → drop a (take b xs) ≡ take (b - a) (drop a xs)
  drop-take zero b xs = ap (λ n. take n xs) (omega arith)
  drop-take (suc a) zero xs = rw zero-sub refl
  drop-take (suc a) (suc b) [] = sym (take-nil (suc b - suc a))
  drop-take (suc a) (suc b) (x ∷ xs) = drop-take a b xs ∙ ap (λ n. take n (drop a xs)) (omega arith)

  pub length-take-le : (n : ℕ) (xs : List A) → length (take n xs) ≤ n
  length-take-le zero xs = omega arith
  length-take-le (suc n) [] = omega arith
  length-take-le (suc n) (x ∷ xs) = omega (arith, length-take-le n xs)
