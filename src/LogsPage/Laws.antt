-- ===== src/LogsPage/Laws.antt =====
-- The pages and the filters of client/src/app/pages/admin/LogsPage.tsx.
use sigecat_oraculos.Prelude.{
  ℕ, zero, suc, ◌+◌, ◌-◌, ◌*◌, ◌≤◌, ◌≡◌, refl, ap, ◌∙◌, true, Option, none, some, List, [], ◌∷◌,
  ◌++◌, length, take, drop, arith,
}
use sigecat_oraculos.Activity.{SystemLog}
use sigecat_oraculos.Time.Host.{Host}
use sigecat_oraculos.LogsPage.{
  Filters, AdminUser, passes, filtered, total_pages, page_items, page_size, date_in,
}
use sigecat_oraculos.Time.Dates.{parse_oracle_date}
use sigecat_oraculos.Paging.{
  le-ceil_div, pages_from, page_of, pages_from-cover, drop-take, length-take-le,
}

-- the pages behind the first `k`, one after the other
abbrev pub pages_after : ℕ → ℕ → List SystemLog → List SystemLog
unfolding page_items
pages_after k zero entries = []
pages_after k (suc rounds) entries =
    page_items (k + 1) entries ++ pages_after (k + 1) rounds entries

page_items-page_of :
    (k : ℕ) (entries : List SystemLog)
    → page_items (k + 1) entries ≡ page_of page_size (k + 1) entries
unfolding page_items
page_items-page_of k entries =
    drop-take ((k + 1 - 1) * page_size) ((k + 1) * page_size) entries
    ∙ ap (λ n. take n (drop ((k + 1 - 1) * page_size) entries)) {y = page_size} (omega arith)

pages_after-pages_from :
    (k rounds : ℕ) (entries : List SystemLog)
    → pages_after k rounds entries ≡ pages_from page_size k rounds entries
unfolding pages_after
pages_after-pages_from k zero entries = refl
pages_after-pages_from k (suc rounds) entries =
    rw (page_items-page_of k entries, pages_after-pages_from (k + 1) rounds entries) refl

-- The pages from the first to the last, one after the other, are the filtered entries, each once and
-- in order; and no page has more than 15.
pub pages_after_lem :
    (entries : List SystemLog)
    → (pages_after 0 (total_pages entries) entries ≡ entries)
      × ((k : ℕ) → length (page_items (k + 1) entries) ≤ page_size)
unfolding total_pages
pages_after_lem entries = (
  pages_after-pages_from 0 _ entries
      ∙ pages_from-cover page_size _ entries
          (omega (arith, le-ceil_div (length entries) page_size (omega arith))),
  λ k.
      rw (page_items-page_of k entries)
        (length-take-le page_size (drop ((k + 1 - 1) * page_size) entries)),
)

abbrev pub no_filters : Filters
no_filters = record {
  action = [];
  entity = [];
  severity = none;
  search = [];
  date_from = [];
  date_to = [];
}

undated : (host : Host) (date : Option host.Date) → date_in host no_filters date ≡ true
undated host none = refl
undated host (some date) = refl

all_pass :
    (host : Host) (users : List AdminUser) (log : SystemLog)
    → passes host no_filters users log ≡ true
unfolding passes
all_pass host users log = undated host (parse_oracle_date host (some log.created_at))

-- With no filter set, the page shows every entry.
pub filtered-no_filters :
    (host : Host) (users : List AdminUser) (logs : List SystemLog)
    → filtered host no_filters users logs ≡ logs
unfolding filtered
filtered-no_filters host users [] = refl
filtered-no_filters host users (log ∷ logs) =
    rw (all_pass host users log) (ap (λ rest. log ∷ rest) (filtered-no_filters host users logs))
