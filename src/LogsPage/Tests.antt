-- ===== src/LogsPage/Tests.antt =====
-- Two entries of the log.
use sigecat_oraculos.Prelude.{ℕ, ◌+◌, ◌≤◌, ◌≡◌, length, none, some, List, [], ◌∷◌, txt}
use sigecat_oraculos.Activity.{SystemLog, info, error}
use sigecat_oraculos.LogsPage.{total_pages, page_items, page_size}
use sigecat_oraculos.LogsPage.Laws.{pages_after, pages_after_lem}

abbrev entry : SystemLog
entry = record {
  id = txt "l1";
  level = info;
  action = some (txt "area.create");
  message = txt "Área creada";
  context = none;
  user_id = none;
  created_at = txt "01-JUL-26 08.00.00 AM";
}

abbrev entries : List SystemLog
entries = entry ∷ record entry { level = error } ∷ []

pages_after_lem_example :
    (pages_after 0 (total_pages entries) entries ≡ entries)
    × ((k : ℕ) → length (page_items (k + 1) entries) ≤ page_size)
pages_after_lem_example = pages_after_lem entries
