-- ===== src/ApiClient/Settlement.antt =====
-- Every failed request is settled once: sent again, or rejected.
use sigecat_oraculos.Prelude.{
  ◌≡◌, refl, ℕ, ◌+◌, ◌==◌, true, false, Option, none, some, List, [], ◌∷◌, ◌++◌, map, Text, arith,
  if◌then◌else◌,
}
use sigecat_oraculos.Session.Storage.{Storage}
use sigecat_oraculos.ApiClient.{
  Request, Reason, refresh_error, Client, on_error, on_refreshed, on_refresh_failed,
}
use sigecat_oraculos.ApiClient.Events.{
  Run, start, fails, refreshes, refresh_fails, stores, IsConsistent, Run-IsConsistent,
}

abbrev pub one : ℕ → Request → ℕ
one k r = if r.id == k then 1 else 0

-- how often request number k stands in a list
abbrev pub count : ℕ → List Request → ℕ
count k [] = 0
count k (r ∷ rs) = one k r + count k rs

abbrev pub count_rejected : ℕ → List (Request × Reason) → ℕ
count_rejected k [] = 0
count_rejected k ((r, reason) ∷ rs) = one k r + count_rejected k rs

abbrev pub count_waiting : ℕ → Option Request → ℕ
count_waiting k none = 0
count_waiting k (some r) = one k r

count-append : (k : ℕ) (xs ys : List Request) → count k (xs ++ ys) ≡ count k xs + count k ys
count-append k [] ys = omega arith
count-append k (x ∷ xs) ys = omega (arith, count-append k xs ys)

count_rejected-append :
    (k : ℕ) (xs ys : List (Request × Reason))
    → count_rejected k (xs ++ ys) ≡ count_rejected k xs + count_rejected k ys
count_rejected-append k [] ys = omega arith
count_rejected-append k ((x, reason) ∷ xs) ys = omega (arith, count_rejected-append k xs ys)

count_rejected-map :
    (k : ℕ) (reason : Reason) (xs : List Request)
    → count_rejected k (map (λ r. (r, reason)) xs) ≡ count k xs
count_rejected-map k reason [] = refl
count_rejected-map k reason (x ∷ xs) = omega (arith, count_rejected-map k reason xs)

-- everywhere that request number k may be
abbrev pub held : ℕ → Client → ℕ
held k c =
    count k c.resent
    + count_rejected k c.rejected
    + count k c.failed_queue
    + count_waiting k c.waiting

held-on_error :
    (k : ℕ) (status : Option ℕ) (r : Request) (c : Client)
    → IsConsistent c
    → held k (on_error status r c) ≡ one k r + held k c
unfolding on_error
held-on_error k status r c h = ground (
  arith,
  count-append k c.failed_queue (r ∷ []),
  count_rejected-append k c.rejected ((r, Reason.own_error) ∷ []),
  count_rejected-append k c.rejected ((record r { retry = true }, Reason.own_error) ∷ []),
)

held-on_refreshed :
    (k : ℕ) (a b : Text) (r : Request) (c : Client)
    → c.waiting ≡ some r
    → held k (on_refreshed a b r c) ≡ held k c
unfolding on_refreshed
held-on_refreshed k a b r c e = ground (
  arith,
  count-append k (c.resent ++ (r ∷ [])) c.failed_queue,
  count-append k c.resent (r ∷ []),
  e,
)

held-on_refresh_failed :
    (k : ℕ) (r : Request) (c : Client)
    → c.waiting ≡ some r
    → held k (on_refresh_failed r c) ≡ held k c
unfolding on_refresh_failed
held-on_refresh_failed k r c e = ground (
  arith,
  count_rejected-append k (c.rejected ++ map (λ r. (r, refresh_error)) c.failed_queue)
      ((r, refresh_error) ∷ []),
  count_rejected-append k c.rejected (map (λ r. (r, refresh_error)) c.failed_queue),
  count_rejected-map k refresh_error c.failed_queue,
  e,
)

held-Run :
    {session : Storage} {seen : List Request} {c : Client} (k : ℕ)
    → Run session seen c
    → held k c ≡ count k seen
held-Run k start = refl
held-Run k (fails {c = c} status r run) =
    omega (arith, held-on_error k status r c (Run-IsConsistent run), held-Run k run)
held-Run k (refreshes {c = c} a b r run e) =
    omega (arith, held-on_refreshed k a b r c e, held-Run k run)
held-Run k (refresh_fails {c = c} r run e) =
    omega (arith, held-on_refresh_failed k r c e, held-Run k run)
held-Run k (stores s run) = held-Run k run

-- In every run in which no refresh is under way, each request has been sent again or rejected as
-- often as it has failed: none is lost in the queue and none is settled twice.
pub settled_once :
    {session : Storage} {seen : List Request} {c : Client} (k : ℕ)
    → Run session seen c
    → c.is_refreshing ≡ false
    → count k c.resent + count_rejected k c.rejected ≡ count k seen
settled_once {c = c} k run idle =
    let h = Run-IsConsistent run in ground (arith, held-Run k run, h.idle idle, h.flagged)
