-- ===== src/Activity/Laws.antt =====
-- What the parts of an action and the severity of client/src/services/activityLog.ts are.
use sigecat_oraculos.Prelude.{
  ℕ, ◌==◌, ◌≡◌, ◌⊎◌, ◌↔◌, inl, inr, refl, ap, Bool, true, false, Bool-cases, some, [], ◌∷◌, ◌++◌,
  Text, txt, text_eq, any, ==_iff, arith, sym,
}
use mathlib.Core.Bool.{true≢false}
use sigecat_oraculos.Activity.{
  split_action, before_dot, after_dot, severity_for, LogLevel, debug, info, warning, error,
  critical, high,
}

abbrev pub is_dot : ℕ → Bool
is_dot c = c == b'.'

abbrev pub has_dot : Text → Bool
has_dot s = any is_dot s

before-no_dot : (s : Text) → has_dot (before_dot s) ≡ false
unfolding before_dot
before-no_dot [] = refl
before-no_dot (c ∷ s) = elim (Bool-cases (c == b'.')) [
  | inl h ↦ rw h refl
  | inr h ↦ rw (h, h) (before-no_dot s)
]

joined : (s : Text) → has_dot s ≡ true → before_dot s ++ b'.' ∷ after_dot s ≡ s
unfolding before_dot after_dot
joined [] h = absurd (true≢false (sym h))
joined (c ∷ s) h = elim (Bool-cases (c == b'.')) [
  | inl e ↦ rw e (ap (λ d. d ∷ s) (sym ((==_iff c b'.').0 e)))
  | inr e ↦ rw e (ap (λ r. c ∷ r) (joined s (rw e at h)))
]

whole : (s : Text) → has_dot s ≡ false → (before_dot s ≡ s) × (after_dot s ≡ [])
unfolding before_dot after_dot
whole [] h = (refl, refl)
whole (c ∷ s) h = elim (Bool-cases (c == b'.')) [
  | inl e ↦ absurd (true≢false (rw e at h))
  | inr e ↦ let (b, a) = whole s (rw e at h) in (rw e (ap (λ r. c ∷ r) b), rw e a)
]

-- The entity and the verb of an action are its parts at the first dot: joined by a dot they are the
-- action, and the entity has no dot. An action that has no dot is all entity, with the empty verb.
pub split_action_lem :
    (action : Text)
    → let (entity, verb) = split_action (some action) in
      (has_dot entity ≡ false)
      × (has_dot action ≡ true → entity ++ b'.' ∷ verb ≡ action)
      × (has_dot action ≡ false → (entity ≡ action) × (verb ≡ []))
unfolding split_action
split_action_lem action = (before-no_dot action, joined action, whole action)

abbrev pub IsGrave : LogLevel → Type 0
IsGrave level = (level ≡ error) ⊎ (level ≡ critical)

-- An event has the high severity just when its level is error or critical or its verb is delete.
pub severity_for-high_iff :
    (verb : Text) (level : LogLevel)
    → (severity_for verb level ≡ high) ↔ (IsGrave level ⊎ (text_eq verb (txt "delete") ≡ true))
unfolding severity_for
severity_for-high_iff verb error = (λ h. inl (inl refl), λ h. refl)
severity_for-high_iff verb critical = (λ h. inl (inr refl), λ h. refl)
severity_for-high_iff verb debug = ground arith
severity_for-high_iff verb info = ground arith
severity_for-high_iff verb warning = ground arith
