-- ===== src/ApiClient/Events.antt =====
-- Every order in which requests fail and refreshes answer, and the invariant of the client.
use sigecat_oraculos.Prelude.{
  ◌≡◌, refl, false, Option, some, List, [], ◌∷◌, ℕ, Text, is_some, arith,
}
use sigecat_oraculos.Session.Storage.{Storage}
use sigecat_oraculos.ApiClient.{Request, Client, init, on_error, on_refreshed, on_refresh_failed}

-- A run from a stored session. The list holds the requests that have failed, in order. Between the
-- events other code may store or remove tokens.
pub data Run (session : Storage) : List Request → Client → Type 0 where
  start : Run session [] (init session)
  fails :
      {seen : List Request} {c : Client} (status : Option ℕ) (r : Request)
      → Run session seen c
      → Run session (r ∷ seen) (on_error status r c)
  refreshes :
      {seen : List Request} {c : Client} (access refresh : Text) (r : Request)
      → Run session seen c
      → c.waiting ≡ some r
      → Run session seen (on_refreshed access refresh r c)
  refresh_fails :
      {seen : List Request} {c : Client} (r : Request)
      → Run session seen c
      → c.waiting ≡ some r
      → Run session seen (on_refresh_failed r c)
  stores :
      {seen : List Request} {c : Client} (s : Storage)
      → Run session seen c
      → Run session seen (record c { storage = s })

-- The flag says whether a handler waits for the refresh, and nobody queues while none does.
pub record IsConsistent (c : Client) : Type 0 where
  pub flagged : c.is_refreshing ≡ is_some c.waiting
  pub idle : c.is_refreshing ≡ false → c.failed_queue ≡ []

on_error-IsConsistent :
    (status : Option ℕ) (r : Request) (c : Client)
    → IsConsistent c
    → IsConsistent (on_error status r c)
unfolding on_error
on_error-IsConsistent status r c h = ground arith

on_refreshed-IsConsistent :
    (a b : Text) (r : Request) (c : Client) → IsConsistent (on_refreshed a b r c)
unfolding on_refreshed
on_refreshed-IsConsistent a b r c = record { flagged = refl; idle = λ _. refl }

on_refresh_failed-IsConsistent : (r : Request) (c : Client) → IsConsistent (on_refresh_failed r c)
unfolding on_refresh_failed
on_refresh_failed-IsConsistent r c = record { flagged = refl; idle = λ _. refl }

-- In every run the refreshing flag is up exactly while one handler waits for the refresh, and the
-- queue is empty whenever it is down: no request is left in the queue with nobody to release it.
pub Run-IsConsistent :
    {session : Storage} {seen : List Request} {c : Client} → Run session seen c → IsConsistent c
Run-IsConsistent start = record { flagged = refl; idle = λ _. refl }
Run-IsConsistent (fails {c = c} status r run) =
    on_error-IsConsistent status r c (Run-IsConsistent run)
Run-IsConsistent (refreshes {c = c} a b r run e) = on_refreshed-IsConsistent a b r c
Run-IsConsistent (refresh_fails {c = c} r run e) = on_refresh_failed-IsConsistent r c
Run-IsConsistent (stores s run) =
    let h = Run-IsConsistent run in record { flagged = h.flagged; idle = h.idle }
