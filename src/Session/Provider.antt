-- ===== src/Session/Provider.antt =====
-- The state of `AuthProvider`. The two calls of the API are parameters: each may change the stored
-- tokens before it answers (the response interceptor does), and answers or throws.
use sigecat_oraculos.Prelude.{
  [], Option, none, some, Bool, false, ◌||◌, Text, Result, ok, err, is_some, if◌then◌else◌,
}
use sigecat_oraculos.Session.Storage.{
  Storage, get_refresh_token, get_user_id, set_access_token, set_refresh_token, set_session, clear,
  is_missing,
}
use sigecat_oraculos.Session.User.{AuthUser, BackendLoginData, user_of_login}

pub record Auth : Type 0 where
  pub user : Option AuthUser
  pub is_loading : Bool
  pub storage : Storage

-- the rotated pair that `refreshTokens` answers
pub record Tokens : Type 0 where
  pub access_token : Text
  pub refresh_token : Text

pub data Failure : Type 0 where
  failure : Failure

-- a call of the API
abbrev pub Call : Type 0 → Type 0
Call A = Storage → Storage × Result Failure A

abbrev pub is_authenticated : Auth → Bool
is_authenticated a = is_some a.user

unfoldable pub clean_auth_storage : Auth → Auth
clean_auth_storage a = record a { user = none; storage = clear a.storage }

abbrev pub token_of : Option Text → Text
token_of none = []
token_of (some t) = t

module _ (get_me : Call AuthUser) (refresh_tokens : Text → Call Tokens) where
  -- the second `getMe`, with the rotated tokens stored
  unfoldable pub second_try : Auth → Tokens → Auth
  unfolding clean_auth_storage
  second_try a tokens =
      let (storage, answer) =
        get_me (
          set_refresh_token tokens.refresh_token
            (set_access_token tokens.access_token a.storage)) in
      elim answer [
        | ok user ↦ record a { user = some user; storage = storage }
        | err e ↦ clean_auth_storage (record a { storage = storage })
      ]

  -- the first `catch`; the refresh token was read at the start
  unfoldable pub recover : Text → Auth → Auth
  unfolding second_try clean_auth_storage
  recover refresh_token a =
      let (storage, answer) = refresh_tokens refresh_token a.storage in
      elim answer [
        | ok tokens ↦ second_try (record a { storage = storage }) tokens
        | err e ↦ clean_auth_storage (record a { storage = storage })
      ]

  unfoldable pub load_user : Text → Auth → Auth
  unfolding recover
  load_user refresh_token a =
      let (storage, answer) = get_me a.storage in
      elim answer [
        | ok user ↦ record a { user = some user; storage = storage }
        | err e ↦ recover refresh_token (record a { storage = storage })
      ]

  unfoldable pub stop_loading : Auth → Auth
  stop_loading a = record a { is_loading = false }

  unfoldable pub initialize_auth : Auth → Auth
  unfolding load_user stop_loading clean_auth_storage
  initialize_auth a =
      if is_missing (get_refresh_token a.storage) || is_missing (get_user_id a.storage)
      then stop_loading (clean_auth_storage a)
      else stop_loading (load_user (token_of (get_refresh_token a.storage)) a)

-- `login`, by the answer of `authService.login`; an error is thrown on to the caller
unfoldable pub login : Call BackendLoginData → Auth → Auth × Result Failure AuthUser
login call a =
    let (storage, answer) = call a.storage in
    elim answer [
      | ok d ↦ (
        record a {
          user = some (user_of_login d);
          storage = set_session d.access_token d.refresh_token d.user_id storage;
        },
        ok (user_of_login d),
      )
      | err e ↦ (record a { storage = storage }, err e)
    ]

-- `logout`: whatever the server answers, the session is cleaned
unfoldable pub logout : Call (Unit {0}) → Auth → Auth
unfolding clean_auth_storage
logout call a = clean_auth_storage (record a { storage = (call a.storage).0 })
