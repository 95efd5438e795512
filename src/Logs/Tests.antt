-- ===== src/Logs/Tests.antt =====
-- A log of five entries, two to a page.
use sigecat_oraculos.Prelude.{ℕ, ◌≡◌, refl, List, [], ◌∷◌, take, Result, ok, arith}
use sigecat_oraculos.Logs.{Paginated, list_recent}
use sigecat_oraculos.Logs.Recent.{answer, list_recent_lem}

abbrev entries : List ℕ
entries = 11 ∷ 12 ∷ 13 ∷ 14 ∷ 15 ∷ []

abbrev server : ℕ → ℕ → Result ℕ (Paginated ℕ)
server limit page = ok (answer entries limit page)

abbrev extract : ℕ → ℕ
extract e = e

list_recent_lem_example : list_recent server extract 3 2 ≡ ok (take 3 entries)
list_recent_lem_example = list_recent_lem entries 2 server (λ page. refl) extract 3 (omega arith)
