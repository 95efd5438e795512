-- ===== src/Logs.antt =====
-- The recent window of the log, client/src/services/logService.ts: `listRecent` asks the server for
-- page after page. The client's GET is a parameter.
pub mod Recent
mod Tests
use sigecat_oraculos.Prelude.{
  ℕ, zero, suc, ◌+◌, ◌-◌, min, Option, List, [], ◌++◌, take, or_else, Result, ok, err, ◌>>=◌,
  map_err,
}
use sigecat_oraculos.Paging.{ceil_div}

-- `Paginated<T>`: its data, and the member of its meta that the client reads
pub record Paginated {ℓ} (A : Type ℓ) : Type ℓ where
  pub rows : List A
  pub total_pages : Option ℕ

abbrev pub last_page {ℓ} : {A : Type ℓ} → ℕ → ℕ → Paginated A → ℕ
last_page max_rows page_size first = min (or_else first.total_pages 1) (ceil_div max_rows page_size)

module _ {ℓ κ} {A : Type ℓ} {E : Type κ} where
  -- the rounds of the loop `for (let page = 2; page <= lastPage; page++)` that are left
  unfoldable pub fetch_pages : (ℕ → Result E (Paginated A)) → ℕ → ℕ → List A → Result E (List A)
  fetch_pages get page zero rows = ok rows
  fetch_pages get page (suc rounds) rows = do
    res ← get page
    fetch_pages get (page + 1) rounds (rows ++ res.rows)

module _ {ℓ κ μ} {A : Type ℓ} {E : Type κ} {F : Type μ} where
  -- `get limit page` is the GET of a page of `limit` entries; `extract` is extractApiError
  unfoldable pub list_recent :
      (ℕ → ℕ → Result E (Paginated A)) → (E → F) → ℕ → ℕ → Result F (List A)
  unfolding fetch_pages
  list_recent get extract max_rows page_size = map_err extract (do
    first ← get page_size 1
    found ← fetch_pages (get page_size) 2 (last_page max_rows page_size first - 1) first.rows
    ok (take max_rows found))
