-- ===== src/ApiClient/Outcomes.antt =====
-- What a refresh leaves behind, and what happens without a session.
use sigecat_oraculos.Prelude.{
  ◌≡◌, refl, true, false, some, [], ◌∷◌, ◌++◌, Text, txt, includes, arith,
}
use sigecat_oraculos.Js.Strings.{is_empty}
use sigecat_oraculos.Session.Storage.{
  get_access_token, get_refresh_token, set_access_token, set_refresh_token, is_missing, IsSignedOut,
}
use sigecat_oraculos.Session.Laws.{clear-IsSignedOut}
use sigecat_oraculos.ApiClient.{Request, own_error, Client, on_error, on_refreshed}

-- When the refresh succeeds, both new tokens are stored, the flag is down, the queue is empty, and
-- the request that waited and then the queued ones, in their order, are sent again; none is
-- rejected.
pub on_refreshed_outcome :
    (access refresh : Text) (r : Request) (c : Client)
    → let c' = on_refreshed access refresh r c in
      (get_access_token c'.storage ≡ some access)
      × (get_refresh_token c'.storage ≡ some refresh)
      × (c'.is_refreshing ≡ false)
      × (c'.failed_queue ≡ [])
      × (c'.resent ≡ (c.resent ++ (r ∷ [])) ++ c.failed_queue)
      × (c'.rejected ≡ c.rejected)
unfolding on_refreshed get_access_token get_refresh_token set_access_token set_refresh_token
on_refreshed_outcome access refresh r c = (refl, refl, refl, refl, refl, refl)

-- A 401 of a request that was not sent again before and that does not ask for the tokens, with no refresh
-- under way and no refresh token stored: the request is rejected with its own error, the session is cleared, and the page is sent to
-- the login; no refresh starts.
pub unauthorized_without_session :
    (r : Request) (c : Client)
    → r.retry ≡ false
    → is_empty r.url ≡ false
    → includes r.url (txt "/auth/refresh") ≡ false
    → c.is_refreshing ≡ false
    → is_missing (get_refresh_token c.storage) ≡ true
    → let c' = on_error (some 401) r c in
      (c'.rejected ≡ c.rejected ++ ((record r { retry = true }, own_error) ∷ []))
      × IsSignedOut c'.storage
      × (c'.at_login ≡ true)
      × (c'.is_refreshing ≡ false)
unfolding on_error
unauthorized_without_session r c a b d e f =
    (ground arith, ground (arith, clear-IsSignedOut c.storage), ground arith, ground arith)
