-- ===== src/Session/Storage.antt =====
-- `tokenStorage` over the tab's `sessionStorage`, a map from keys to texts.
use sigecat_oraculos.Prelude.{
  ◌≡◌, [], ◌∷◌, Option, none, some, Text, txt, text_eq, Bool, true, false, if◌then◌else◌,
}

abbrev pub Storage : Type 0
Storage = Text → Option Text

-- `sessionStorage.getItem`, `setItem` and `removeItem`
abbrev pub get_item : Text → Storage → Option Text
get_item key storage = storage key

abbrev pub set_item : Text → Text → Storage → Storage
set_item key value storage j = if text_eq j key then some value else storage j

abbrev pub remove_item : Text → Storage → Storage
remove_item key storage j = if text_eq j key then none else storage j

abbrev pub access_token_key : Text
access_token_key = txt "sigecat_access_token"

abbrev pub refresh_token_key : Text
refresh_token_key = txt "sigecat_refresh_token"

abbrev pub user_id_key : Text
user_id_key = txt "sigecat_user_id"

unfoldable pub get_access_token : Storage → Option Text
get_access_token = get_item access_token_key

unfoldable pub get_refresh_token : Storage → Option Text
get_refresh_token = get_item refresh_token_key

unfoldable pub get_user_id : Storage → Option Text
get_user_id = get_item user_id_key

unfoldable pub set_access_token : Text → Storage → Storage
set_access_token = set_item access_token_key

unfoldable pub set_refresh_token : Text → Storage → Storage
set_refresh_token = set_item refresh_token_key

unfoldable pub set_user_id : Text → Storage → Storage
set_user_id = set_item user_id_key

unfoldable pub set_session : Text → Text → Text → Storage → Storage
set_session access refresh user_id storage =
    set_item user_id_key user_id
      (set_item refresh_token_key refresh (set_item access_token_key access storage))

unfoldable pub clear : Storage → Storage
clear storage =
    remove_item user_id_key (remove_item refresh_token_key (remove_item access_token_key storage))

-- `if (!token)`: a missing or empty text
abbrev pub is_missing : Option Text → Bool
is_missing none = true
is_missing (some []) = true
is_missing (some (c ∷ s)) = false

-- No key of the session holds a text.
abbrev pub IsSignedOut : Storage → Type 0
IsSignedOut storage =
    (get_access_token storage ≡ none)
    × (get_refresh_token storage ≡ none)
    × (get_user_id storage ≡ none)
