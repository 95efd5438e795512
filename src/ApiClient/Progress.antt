-- ===== src/ApiClient/Progress.antt =====
-- What one answer of the refresh achieves, whichever it is.
use sigecat_oraculos.Prelude.{
  ◌≡◌, refl, ℕ, ◌+◌, false, ◌⊎◌, inl, inr, Option, none, some, is_some, List, Text, Option-cases,
  ◌∙◌, ap,
}
use sigecat_oraculos.Session.Storage.{Storage}
use sigecat_oraculos.ApiClient.{Request, Client, on_refreshed, on_refresh_failed}
use sigecat_oraculos.ApiClient.Events.{Run, refreshes, refresh_fails, Run-IsConsistent}
use sigecat_oraculos.ApiClient.Settlement.{count, count_rejected, settled_once}

-- no refresh is under way, and each request was settled as often as it has failed
pub record IsSettled (seen : List Request) (c : Client) : Type 0 where
  pub idle : c.is_refreshing ≡ false
  pub settled : (k : ℕ) → count k c.resent + count_rejected k c.rejected ≡ count k seen

-- the answer of a refresh: the two new tokens, or an error
abbrev pub answered : Option (Text × Text) → Request → Client → Client
answered none r c = on_refresh_failed r c
answered (some (access, refresh)) r c = on_refreshed access refresh r c

answered-Run :
    {session : Storage} {seen : List Request} {c : Client} (answer : Option (Text × Text))
    (r : Request)
    → Run session seen c
    → c.waiting ≡ some r
    → Run session seen (answered answer r c)
answered-Run none r run e = refresh_fails r run e
answered-Run (some (access, refresh)) r run e = refreshes access refresh r run e

answered-idle :
    (answer : Option (Text × Text)) (r : Request) (c : Client)
    → (answered answer r c).is_refreshing ≡ false
unfolding on_refreshed on_refresh_failed
answered-idle none r c = refl
answered-idle (some (access, refresh)) r c = refl

Run-IsSettled :
    {session : Storage} {seen : List Request} {c : Client}
    → Run session seen c
    → c.is_refreshing ≡ false
    → IsSettled seen c
Run-IsSettled run idle = record { idle = idle; settled = λ k. settled_once k run idle }

-- In every run, either no refresh is under way and every request that has failed is settled, or one
-- handler waits, and after any answer of the refresh it waits for, tokens or an error, the run goes on to
-- a client where that is so.
pub Run-settles :
    {session : Storage} {seen : List Request} {c : Client}
    → Run session seen c
    → IsSettled seen c
      ⊎ ((r : Request) × (c.waiting ≡ some r)
          × ((answer : Option (Text × Text))
              → Run session seen (answered answer r c) × IsSettled seen (answered answer r c)))
Run-settles {c = c} run = elim (Option-cases c.waiting) [
  | inl none_waits ↦
      inl (Run-IsSettled run ((Run-IsConsistent run).flagged ∙ ap is_some none_waits))
  | inr (r, waits) ↦ inr (
    r,
    waits,
    λ answer. (
      answered-Run answer r run waits,
      Run-IsSettled (answered-Run answer r run waits) (answered-idle answer r c),
    ),
  )
]
