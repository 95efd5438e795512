-- ===== src/Session/Laws.antt =====
-- What the stored session is after each operation of `AuthProvider`.
use sigecat_oraculos.Prelude.{
  ◌≡◌, refl, none, some, false, Text, Result, ok, err, Result-cases, inl, inr, arith,
}
use sigecat_oraculos.Session.Storage.{
  Storage, get_access_token, get_refresh_token, get_user_id, set_session, set_access_token,
  set_refresh_token, clear, IsSignedOut,
}
use sigecat_oraculos.Session.User.{AuthUser, BackendLoginData, user_of_login}
use sigecat_oraculos.Session.Provider.{
  Auth, Tokens, Failure, Call, clean_auth_storage, second_try, recover, load_user, initialize_auth,
  login, logout, token_of,
}

pub clear-IsSignedOut : (s : Storage) → IsSignedOut (clear s)
unfolding clear get_access_token get_refresh_token get_user_id
clear-IsSignedOut s = (refl, refl, refl)

-- The provider holds a user, or no token is left behind.
abbrev pub IsClean : Auth → Type 0
IsClean a = a.user ≡ none → IsSignedOut a.storage

clean_auth_storage-IsClean : (a : Auth) → IsClean (clean_auth_storage a)
unfolding clean_auth_storage
clean_auth_storage-IsClean a e = clear-IsSignedOut a.storage

settled :
    {A : Type 0} (r : Result Failure A) (P : Auth → Type 0) (f : A → Auth) (g : Failure → Auth)
    → ((x : A) → P (f x))
    → ((e : Failure) → P (g e))
    → P (elim r [ ok x ↦ f x | err e ↦ g e ])
settled (ok x) P f g h k = h x
settled (err e) P f g h k = k e

module _ (get_me : Call AuthUser) (refresh_tokens : Text → Call Tokens) where
  second_try-IsClean : (a : Auth) (t : Tokens) → IsClean (second_try get_me refresh_tokens a t)
  unfolding second_try
  second_try-IsClean a t =
      let (storage, answer) =
        get_me (set_refresh_token t.refresh_token (set_access_token t.access_token a.storage)) in
      settled answer IsClean _ _ (λ u e. cc)
        (λ f. clean_auth_storage-IsClean (record a { storage = storage }))

  recover-IsClean : (r : Text) (a : Auth) → IsClean (recover get_me refresh_tokens r a)
  unfolding recover
  recover-IsClean r a =
      let (storage, answer) = refresh_tokens r a.storage in
      settled answer IsClean _ _ (λ t. second_try-IsClean (record a { storage = storage }) t)
        (λ f. clean_auth_storage-IsClean (record a { storage = storage }))

  load_user-IsClean : (r : Text) (a : Auth) → IsClean (load_user get_me refresh_tokens r a)
  unfolding load_user
  load_user-IsClean r a =
      let (storage, answer) = get_me a.storage in
      settled answer IsClean _ _ (λ u e. cc)
        (λ f. recover-IsClean r (record a { storage = storage }))

  -- However the API answers, the start-up ends, and it ends with a user or with no token left in
  -- the storage.
  pub initialize_auth_ends :
      (a : Auth)
      → let b = initialize_auth get_me refresh_tokens a in
        (b.is_loading ≡ false) × (b.user ≡ none → IsSignedOut b.storage)
  unfolding initialize_auth
  initialize_auth_ends a = ground (
    arith,
    load_user-IsClean (token_of (get_refresh_token a.storage)) a,
    clean_auth_storage-IsClean a,
  )

stored_session :
    (access refresh user_id : Text) (s : Storage)
    → (get_access_token (set_session access refresh user_id s) ≡ some access)
      × (get_refresh_token (set_session access refresh user_id s) ≡ some refresh)
      × (get_user_id (set_session access refresh user_id s) ≡ some user_id)
unfolding set_session get_access_token get_refresh_token get_user_id
stored_session access refresh user_id s = (refl, refl, refl)

-- After a login that succeeds, the user is the one of the server's answer, the provider holds it,
-- and the three keys of the storage hold the tokens and the id of that answer.
pub login_stores :
    (call : Call BackendLoginData) (a : Auth) {u : AuthUser}
    → (login call a).1 ≡ ok u
    → (d : BackendLoginData) × ((call a.storage).1 ≡ ok d)
      × (u ≡ user_of_login d)
      × ((login call a).0.user ≡ some u)
      × (get_access_token (login call a).0.storage ≡ some d.access_token)
      × (get_refresh_token (login call a).0.storage ≡ some d.refresh_token)
      × (get_user_id (login call a).0.storage ≡ some d.user_id)
unfolding login
login_stores call a h = elim (Result-cases (call a.storage).1) [
  | inl (d, e) ↦
      let stored = stored_session d.access_token d.refresh_token d.user_id (call a.storage).0 in
      (
        d,
        e,
        ground (arith, e),
        ground (arith, e),
        ground (arith, e, stored.0),
        ground (arith, e, stored.1),
        ground (arith, e, stored.2),
      )
  | inr (f, e) ↦ absurd (ground (arith, e))
]

-- After a logout no user and no token is left, also where the server's answer is an error.
pub logout-IsSignedOut :
    (call : Call (Unit {0})) (a : Auth)
    → ((logout call a).user ≡ none) × IsSignedOut (logout call a).storage
unfolding logout
logout-IsSignedOut call a = (refl, clear-IsSignedOut _)
