-- ===== src/ApiClient.antt =====
-- The response interceptor of client/src/services/apiClient.ts: one refresh of the tokens at a time,
-- and a queue of the requests that fail with 401 meanwhile. The handler is cut at its `await`: its
-- first part runs when a request fails, its last when the refresh answers.
pub mod Events
pub mod Settlement
pub mod Outcomes
pub mod Progress
mod Tests
use sigecat_oraculos.Prelude.{
  ℕ, ◌==◌, Bool, true, false, not, ◌&&◌, Option, none, some, List, [], ◌∷◌, ◌++◌, map, Text, txt,
  includes, if◌then◌else◌,
}
use sigecat_oraculos.Js.Strings.{is_empty}
use sigecat_oraculos.Session.Storage.{
  Storage, get_refresh_token, set_access_token, set_refresh_token, clear, is_missing,
}

-- the configuration of a request; the number tells the requests of a page apart
pub record Request : Type 0 where
  pub id : ℕ
  pub url : Text
  pub retry : Bool

-- what a failed request is rejected with
pub data Reason : Type 0 where
  own_error refresh_error : Reason

pub record Client : Type 0 where
  pub storage : Storage
  pub is_refreshing : Bool
  pub failed_queue : List Request
  -- the request whose handler waits for the refresh to answer
  pub waiting : Option Request
  -- requests sent once more, the last ones at the end, and requests given up
  pub resent : List Request
  pub rejected : List (Request × Reason)
  -- `window.location.href = '/login'` was run
  pub at_login : Bool

abbrev pub init : Storage → Client
init storage = record {
  storage = storage;
  is_refreshing = false;
  failed_queue = [];
  waiting = none;
  resent = [];
  rejected = [];
  at_login = false;
}

abbrev pub status_is : Option ℕ → ℕ → Bool
status_is none k = false
status_is (some n) k = n == k

-- the condition of the outer `if`
unfoldable pub is_refreshable : Option ℕ → Request → Bool
is_refreshable status r =
    status_is status 401
    && (not r.retry && (not (is_empty r.url) && not (includes r.url (txt "/auth/refresh"))))

abbrev pub reject : Reason → Request → Client → Client
reject reason r c = record c { rejected = c.rejected ++ ((r, reason) ∷ []) }

-- no refresh token: the session is given up at once
abbrev pub give_up : Request → Client → Client
give_up r c =
    reject own_error r
      (record c { is_refreshing = false; storage = clear c.storage; at_login = true })

-- The handler up to `await authService.refreshTokens`.
unfoldable pub on_error : Option ℕ → Request → Client → Client
unfolding is_refreshable
on_error status r c =
    if not (is_refreshable status r)
    then reject own_error r c
    else if c.is_refreshing
    then record c { failed_queue = c.failed_queue ++ (r ∷ []) }
    else if is_missing (get_refresh_token c.storage)
    then give_up (record r { retry = true }) c
    else record c { is_refreshing = true; waiting = some (record r { retry = true }) }

-- `processQueue()`: each queued request is sent again; `processQueue(error)`: each is rejected
unfoldable pub process_queue : Option Reason → Client → Client
process_queue none c = record c { resent = c.resent ++ c.failed_queue; failed_queue = [] }
process_queue (some reason) c = record c {
  rejected = c.rejected ++ map (λ r. (r, reason)) c.failed_queue;
  failed_queue = [];
}

-- The `try` behind the `await`. The queue is released before the request itself is sent, and the
-- released requests are sent after it, when their promises run.
unfoldable pub on_refreshed : Text → Text → Request → Client → Client
unfolding process_queue
on_refreshed access refresh r c =
    let stored = record c {
      storage = set_refresh_token refresh (set_access_token access c.storage);
    } in
    let sent = process_queue none (record stored { resent = c.resent ++ (r ∷ []) }) in
    record sent { is_refreshing = false; waiting = none }

-- The `catch`, with the error of the refresh.
unfoldable pub on_refresh_failed : Request → Client → Client
unfolding process_queue
on_refresh_failed r c =
    let emptied = process_queue (some refresh_error) c in
    let gone = record emptied { storage = clear c.storage; at_login = true } in
    record (reject refresh_error r gone) { is_refreshing = false; waiting = none }
