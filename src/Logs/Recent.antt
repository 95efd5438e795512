-- ===== src/Logs/Recent.antt =====
-- What `listRecent` of client/src/services/logService.ts gives.
use sigecat_oraculos.Prelude.{
  ℕ, zero, suc, ◌+◌, ◌-◌, ◌*◌, ◌≤◌, ◌<◌, ◌≡◌, ◌⊎◌, inl, inr, refl, ap, ◌∙◌, min, some, List, ◌++◌,
  take, length, take-of_le, Result, ok, arith,
}
use sigecat_oraculos.Logs.{Paginated, fetch_pages, list_recent}
use sigecat_oraculos.Paging.{ceil_div, le-ceil_div, page_of, pages_from, first_pages, take-take}
use native.Mathlib.Nat.{le_trans, mul-le-mul_right}
use mathlib.Core.List.{append-nil, append_assoc}

-- the answer of a server that holds the list `all`
abbrev pub answer {ℓ} : {A : Type ℓ} → List A → ℕ → ℕ → Paginated A
answer all limit page = record {
  rows = page_of limit page all;
  total_pages = some (ceil_div (length all) limit);
}

of_min : (a b c : ℕ) → min a b ≤ c → (a ≤ c) ⊎ (b ≤ c)
of_min a b c h = grind arith

enough_pages {ℓ} :
    {A : Type ℓ} (all : List A) (size max_rows pages : ℕ)
    → 0 < size
    → min (ceil_div (length all) size) (ceil_div max_rows size) ≤ pages
    → take max_rows (take (pages * size) all) ≡ take max_rows all
enough_pages all size max_rows pages h le = elim (of_min _ _ pages le) [
  | inl few ↦ ap (take max_rows) (
      take-of_le (pages * size) all
        (le_trans (le-ceil_div (length all) size h) (mul-le-mul_right size few)))
  | inr few ↦
      take-take max_rows (pages * size) all
        (le_trans (le-ceil_div max_rows size h) (mul-le-mul_right size few))
]

module _ {ℓ κ} {A : Type ℓ} {E : Type κ} (all : List A) (size : ℕ)
    (get : ℕ → ℕ → Result E (Paginated A))
    (serves : (page : ℕ) → get size page ≡ ok (answer all size page)) where
  pub fetch_pages_lem :
      (k rounds : ℕ) (rows : List A)
      → fetch_pages (get size) (k + 1) rounds rows ≡ ok (rows ++ pages_from size k rounds all)
  unfolding fetch_pages
  fetch_pages_lem k zero rows = rw append-nil refl
  fetch_pages_lem k (suc rounds) rows = rw (serves (k + 1)) (
      fetch_pages_lem (k + 1) rounds (rows ++ page_of size (k + 1) all)
      ∙ ap ok (append_assoc rows (page_of size (k + 1) all) (pages_from size (k + 1) rounds all)))

  module _ {μ} {F : Type μ} (extract : E → F) where
    -- Against a server that answers every page of a list, with the number of its pages, `listRecent`
    -- gives the first `max` entries of the list, for a page size that is not 0.
    pub list_recent_lem :
        (max_rows : ℕ) → 0 < size → list_recent get extract max_rows size ≡ ok (take max_rows all)
    unfolding list_recent
    list_recent_lem max_rows h =
        rw (serves 1, fetch_pages_lem 1 (last - 1) (page_of size 1 all))
          (ap ok (
            ap (take max_rows) (first_pages size (suc (last - 1)) all)
            ∙ enough_pages all size max_rows (suc (last - 1)) h (omega arith)))
      where
        last : ℕ
        last = min (ceil_div (length all) size) (ceil_div max_rows size)
