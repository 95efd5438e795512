-- ===== src/Users.antt =====
-- `getUsers` of client/src/services/userService.ts, which asks for the pages of the users one after
-- the other, 100 to a page.
pub mod Page
pub mod PageLaws
mod Tests
use sigecat_oraculos.Prelude.{
  ℕ, ◌+◌, ◌-◌, ◌*◌, ◌≤◌, ◌<◌, ◌≡◌, ap, ◌∙◌, or_else, List, ◌++◌, length, take-of_le, Result, ok,
  ◌>>=◌, map_err, suc, arith,
}
use sigecat_oraculos.Logs.{Paginated, fetch_pages}
use sigecat_oraculos.Logs.Recent.{answer, fetch_pages_lem}
use sigecat_oraculos.Paging.{ceil_div, le-ceil_div, page_of, first_pages}

abbrev pub limit : ℕ
limit = 100

unfoldable pub get_users {ℓ κ μ} :
    {A : Type ℓ} {E : Type κ} {F : Type μ}
    → (ℕ → ℕ → Result E (Paginated A))
    → (E → F)
    → Result F (List A)
unfolding fetch_pages
get_users get extract =
    map_err extract (do
      first ← get limit 1
      fetch_pages (get limit) 2 (or_else first.total_pages 1 - 1) first.rows)

-- Against a server that answers every page of a list, with the number of its pages, `getUsers` gives
-- the whole list.
pub get_users_lem {ℓ κ μ} :
    {A : Type ℓ} {E : Type κ} {F : Type μ} (all : List A) (get : ℕ → ℕ → Result E (Paginated A))
    (extract : E → F)
    → ((page : ℕ) → get limit page ≡ ok (answer all limit page))
    → get_users get extract ≡ ok all
unfolding get_users
get_users_lem all get extract serves =
    rw (serves 1, fetch_pages_lem all limit get serves 1 (last - 1) (page_of limit 1 all))
      (ap ok (
        first_pages limit (suc (last - 1)) all
        ∙ take-of_le _ all (omega (arith, le-ceil_div (length all) limit (omega arith)))))
  where
    last : ℕ
    last = ceil_div (length all) limit
