-- ===== src/Passwords/Laws.antt =====
-- What the checks of client/src/utils/validation.ts accept, and what the forms do with it.
use sigecat_oraculos.Prelude.{
  ◌≤◌, ◌≡◌, ◌↔◌, inl, inr, refl, ap, true, false, any, every, Bool-cases, Option-cases, none,
  is_some, [], ◌∷◌, ◌++◌, Text, txt, text_eq, text_eq_iff, length, Result, ok, err, arith,
}
use sigecat_oraculos.Js.Strings.{trim, is_empty}
use sigecat_oraculos.Session.Storage.{Storage, IsSignedOut}
use sigecat_oraculos.Session.Laws.{clear-IsSignedOut}
use sigecat_oraculos.Passwords.{
  ends_with, domain, validate_institutional_email, validate_password, is_upper, is_figure,
  is_special, rules_met, reset_is_valid, reset_password, reset_answered, confirm_error, moved,
  ServiceError,
}

pub record IsStrong (password : Text) : Type 0 where
  pub is_long : 8 ≤ length password
  pub has_upper : any is_upper password ≡ true
  pub has_figure : any is_figure password ≡ true
  pub has_special : any is_special password ≡ true

tests_password :
    (password : Text)
    → (validate_password password ≡ none) ↔ (
        (is_empty password ≡ false)
        × (8 ≤ length password)
        × (any is_upper password ≡ true)
        × (any is_figure password ≡ true)
        × (any is_special password ≡ true))
unfolding validate_password
tests_password password = ground arith

long-not_empty : (password : Text) → 8 ≤ length password → is_empty password ≡ false
long-not_empty [] h = absurd (omega arith)
long-not_empty (c ∷ s) h = refl

-- A password is accepted just when it has at least 8 units, an upper-case letter of the alphabet, a
-- figure and a unit that is no letter of the alphabet and no figure.
pub validate_password_iff :
    (password : Text) → (validate_password password ≡ none) ↔ IsStrong password
validate_password_iff password = (sound, complete)
  where
    sound : validate_password password ≡ none → IsStrong password
    sound h =
        let (e, l, u, f, s) = (tests_password password).0 h in
        record { is_long = l; has_upper = u; has_figure = f; has_special = s }

    complete : IsStrong password → validate_password password ≡ none
    complete h =
        (tests_password password).1
          (long-not_empty password h.is_long, h.is_long, h.has_upper, h.has_figure, h.has_special)

ends_with_lem :
    (s suffix : Text) → ends_with s suffix ≡ true → (before : Text) × (s ≡ before ++ suffix)
unfolding ends_with
ends_with_lem [] suffix h = ([], (text_eq_iff [] suffix).0 h)
ends_with_lem (c ∷ s) suffix h = elim (Bool-cases (text_eq (c ∷ s) suffix)) [
  | inl e ↦ ([], (text_eq_iff (c ∷ s) suffix).0 e)
  | inr e ↦
      let (before, same) = ends_with_lem s suffix (rw e at h) in (c ∷ before, ap (λ t. c ∷ t) same)
]

-- An address that is accepted is some text followed by the domain of the university.
pub validate_institutional_email_lem :
    (email : Text)
    → validate_institutional_email email ≡ none
    → (name : Text) × (email ≡ name ++ domain)
unfolding validate_institutional_email
validate_institutional_email_lem email h = elim (Bool-cases (is_empty (trim email))) [
  | inl e ↦ absurd (ground (arith, e))
  | inr e ↦ elim (Bool-cases (ends_with email domain)) [
    | inl f ↦ ends_with_lem email domain f
    | inr f ↦ absurd (ground (arith, e, f))
  ]
]

confirmed :
    (new_password confirm_password : Text)
    → is_some (confirm_error new_password confirm_password) ≡ false
    → new_password ≡ confirm_password
confirmed new_password confirm_password h =
    (text_eq_iff new_password confirm_password).0 (ground arith)

valid-IsStrong :
    (new_password confirm_password : Text)
    → reset_is_valid new_password confirm_password ≡ true
    → IsStrong new_password × (new_password ≡ confirm_password)
unfolding reset_is_valid
valid-IsStrong new_password confirm_password h =
    elim (Option-cases (validate_password new_password)) [
      | inr (m, e) ↦ absurd (ground (arith, e))
      | inl e ↦ (
        (validate_password_iff new_password).0 e,
        confirmed new_password confirm_password (ground (arith, e)),
      )
    ]

answered_lem :
    (answer : Result {0, 0} ServiceError Unit) (storage : Storage)
    → (reset_answered answer storage).1 ≡ moved (txt "/login")
    → (answer ≡ ok tt) × IsSignedOut (reset_answered answer storage).0
answered_lem (ok done) storage h = (refl, clear-IsSignedOut storage)
answered_lem (err e) storage h = absurd (ground arith)

-- The form that sets a new password goes to the login only with a strong password that was confirmed,
-- that the API has accepted with the token, and then no session is left in the browser.
pub reset_password_lem :
    (call : Text → Text → Text → Result {0, 0} ServiceError Unit)
    (token new_password confirm_password : Text) (storage : Storage)
    → (reset_password call token new_password confirm_password storage).1 ≡ moved (txt "/login")
    → IsStrong new_password
      × (new_password ≡ confirm_password)
      × (call token new_password confirm_password ≡ ok tt)
      × IsSignedOut (reset_password call token new_password confirm_password storage).0
unfolding reset_password
reset_password_lem call token new_password confirm_password storage h =
    elim (Bool-cases (reset_is_valid new_password confirm_password)) [
      | inr e ↦ absurd (ground (arith, e))
      | inl e ↦
          let (strong, same) = valid-IsStrong new_password confirm_password e in
          let (accepted, out) =
            answered_lem (call token new_password confirm_password) storage (rw e at h) in
          (strong, same, accepted, rw e out)
    ]

-- Every rule that the feedback ticks is met exactly if the check of the form accepts the password.
pub rules_met_iff :
    (password : Text)
    → (every (λ met. met) (rules_met password) ≡ true) ↔ (validate_password password ≡ none)
unfolding rules_met validate_password
rules_met_iff [] = ground arith
rules_met_iff (c ∷ s) = ground arith
