-- ===== src/Accessibility/Laws.antt =====
-- What the controls of the accessibility preferences do, client/src/context/AccessibilityProvider.tsx.
use sigecat_oraculos.Prelude.{
  ℕ, ◌*◌, ◌<◌, ◌==◌, Bool, true, false, not, Option, none, some, List, [], ◌∷◌, Text, ◌≡◌, ◌⊎◌, inl,
  inr, refl, sym, ap, ◌∙◌, if◌then◌else◌, if-both, or_else, get_elem?, arith,
}
use sigecat_oraculos.Accessibility.{
  Prefs, Json, State, font_scales, increased, decreased, merged, default_prefs, parsed,
  get_preferences, apply, mount, root_of, Event, next_index, last_index, index_from, increase_font,
  decrease_font, reset_font, reset_all, toggle_high_contrast, toggle_grayscale, toggle_invert,
  toggle_dyslexia_font, toggle_tts, changed, step, run,
}

-- one of the steps that the controls offer
abbrev pub IsScale : ℕ → Type 0
IsScale n = (n ≡ 100) ⊎ (n ≡ 115) ⊎ (n ≡ 130) ⊎ (n ≡ 150)

apart : (m n : ℕ) → ¬ (n ≡ m) → (m == n) ≡ false
apart m n h = ground arith

-- what holds of no index and of the four holds of the index of a scale
of_index :
    (P : Option ℕ → Type 0) (n : ℕ)
    → P none
    → P (some 0)
    → P (some 1)
    → P (some 2)
    → P (some 3)
    → P (index_from n 0 font_scales)
of_index P n none_ p0 p1 p2 p3 =
    if-both P (100 == n) p0
      (if-both P (115 == n) p1 (if-both P (130 == n) p2 (if-both P (150 == n) p3 none_)))

increased-IsScale : (n : ℕ) → IsScale (increased n)
unfolding increased
increased-IsScale n =
    of_index (λ i. IsScale (or_else (get_elem? font_scales (next_index i)) n)) n (inl refl)
      (inr (inl refl)) (inr (inr (inl refl))) (inr (inr (inr refl))) (inr (inr (inr refl)))

decreased-IsScale : (n : ℕ) → IsScale (decreased n)
unfolding decreased
decreased-IsScale n =
    of_index (λ i. IsScale (or_else (get_elem? font_scales (last_index i)) n)) n (inl refl)
      (inl refl) (inl refl) (inr (inl refl)) (inr (inr (inl refl)))

-- On a scale of the controls, A- undoes A+ below the largest, A+ leaves the largest as it is, and so does
-- A- the smallest; from any other scale that is stored, both go to the smallest.
pub font_controls :
    (n : ℕ)
    → (IsScale n → n < 150 → decreased (increased n) ≡ n)
      × (increased 150 ≡ 150)
      × (decreased 100 ≡ 100)
      × (¬ IsScale n → (increased n ≡ 100) × (decreased n ≡ 100))
unfolding increased decreased
font_controls n = (undone n, refl, refl, other n)
  where
    undone : (n : ℕ) → IsScale n → n < 150 → decreased (increased n) ≡ n
    undone n (inl e) h = rw e refl
    undone n (inr (inl e)) h = rw e refl
    undone n (inr (inr (inl e))) h = rw e refl
    undone n (inr (inr (inr e))) h = absurd (omega arith)

    other : (n : ℕ) → ¬ IsScale n → (increased n ≡ 100) × (decreased n ≡ 100)
    other n h =
        rw
          (
            apart 100 n (λ e. h (inl e)),
            apart 115 n (λ e. h (inr (inl e))),
            apart 130 n (λ e. h (inr (inr (inl e)))),
            apart 150 n (λ e. h (inr (inr (inr e)))),
          )
          (refl, refl)

changed-IsScale :
    (event : Event) (p : Prefs) → IsScale p.font_scale → IsScale (changed event p).font_scale
unfolding changed
changed-IsScale increase_font p h = increased-IsScale p.font_scale
changed-IsScale decrease_font p h = decreased-IsScale p.font_scale
changed-IsScale reset_font p h = inl refl
changed-IsScale reset_all p h = inl refl
changed-IsScale toggle_high_contrast p h = h
changed-IsScale toggle_grayscale p h = h
changed-IsScale toggle_invert p h = h
changed-IsScale toggle_dyslexia_font p h = h
changed-IsScale toggle_tts p h = h

-- which control turns which class of the document
abbrev pub is_contrast : Event → Bool
is_contrast toggle_high_contrast = true
is_contrast _ = false

abbrev pub is_gray : Event → Bool
is_gray toggle_grayscale = true
is_gray _ = false

abbrev pub is_inverted : Event → Bool
is_inverted toggle_invert = true
is_inverted _ = false

abbrev pub is_dyslexia : Event → Bool
is_dyslexia toggle_dyslexia_font = true
is_dyslexia _ = false

abbrev pub is_reset : Event → Bool
is_reset reset_all = true
is_reset _ = false

abbrev pub turned_once : (Event → Bool) → Event → Bool → Bool
turned_once own event on = if is_reset event then false else if own event then not on else on

-- a class after clicks: its own control turns it, a reset of everything takes it away
abbrev pub turned : (Event → Bool) → List Event → Bool → Bool
turned own [] on = on
turned own (event ∷ events) on = turned own events (turned_once own event on)

changed-turns :
    (event : Event) (p : Prefs)
    → ((changed event p).high_contrast ≡ turned_once is_contrast event p.high_contrast)
      × ((changed event p).grayscale ≡ turned_once is_gray event p.grayscale)
      × ((changed event p).invert ≡ turned_once is_inverted event p.invert)
      × ((changed event p).dyslexia_font ≡ turned_once is_dyslexia event p.dyslexia_font)
unfolding changed
changed-turns increase_font p = (refl, refl, refl, refl)
changed-turns decrease_font p = (refl, refl, refl, refl)
changed-turns reset_font p = (refl, refl, refl, refl)
changed-turns reset_all p = (refl, refl, refl, refl)
changed-turns toggle_high_contrast p = (refl, refl, refl, refl)
changed-turns toggle_grayscale p = (refl, refl, refl, refl)
changed-turns toggle_invert p = (refl, refl, refl, refl)
changed-turns toggle_dyslexia_font p = (refl, refl, refl, refl)
changed-turns toggle_tts p = (refl, refl, refl, refl)

module _ (json : Json) where
  -- the page was set up by these preferences: they are shown and stored
  abbrev pub IsApplied : State → Type 0
  IsApplied s = apply json s.prefs ≡ s

  run-IsApplied : (events : List Event) (s : State) → IsApplied s → IsApplied (run json events s)
  unfolding run step apply
  run-IsApplied [] s h = h
  run-IsApplied (event ∷ events) s h = run-IsApplied events (step json event s) refl

  get-stored : (prefs : Prefs) → get_preferences json (some (json.stringify prefs)) ≡ prefs
  unfolding get_preferences merged
  get-stored prefs =
      ap (λ empty. if empty then default_prefs else parsed json (json.parse (json.stringify prefs)))
        (json.stringify-not_empty prefs)
      ∙ ap (parsed json) (json.parse-stringify prefs)

  run-IsScale :
      (events : List Event) (s : State)
      → IsScale s.prefs.font_scale
      → IsScale (run json events s).prefs.font_scale
  unfolding run step apply
  run-IsScale [] s h = h
  run-IsScale (event ∷ events) s h =
      run-IsScale events (step json event s) (changed-IsScale event s.prefs h)

  module _ (get : Prefs → Bool) (own : Event → Bool)
      (turns : (event : Event) (p : Prefs)
        → get (changed event p) ≡ turned_once own event (get p)) where
    run-turned :
        (events : List Event) (s : State)
        → get (run json events s).prefs ≡ turned own events (get s.prefs)
    unfolding run step apply
    run-turned [] s = refl
    run-turned (event ∷ events) s =
        run-turned events (step json event s) ∙ ap (turned own events) (turns event s.prefs)

  run-root :
      (events : List Event) (s : State)
      → IsApplied s
      → (run json events s).root ≡ root_of (run json events s).prefs
  unfolding apply
  run-root events s h = ap (λ t. t.root) (sym (run-IsApplied events s h))

  -- A page that opens on what is stored and on which any controls are then clicked: each class of the
  -- document is that of the stored preferences, turned by the clicks on its own control and taken away by
  -- the resets of everything; and its font has 16 px times the scale of the preferences.
  pub run-shows :
      (events : List Event) (raw : Option Text)
      → let before = get_preferences json raw in
        let after = run json events (mount json raw) in
        (after.root.contrast ≡ turned is_contrast events before.high_contrast)
        × (after.root.gray ≡ turned is_gray events before.grayscale)
        × (after.root.inverted ≡ turned is_inverted events before.invert)
        × (after.root.dyslexia ≡ turned is_dyslexia events before.dyslexia_font)
        × (after.root.font_size ≡ 16 * after.prefs.font_scale)
  unfolding mount apply
  run-shows events raw =
      let shows = run-root events (mount json raw) refl in
      (
        ap (λ r. r.contrast) shows
            ∙ run-turned (λ p. p.high_contrast) is_contrast (λ e p. (changed-turns e p).0) events _,
        ap (λ r. r.gray) shows
            ∙ run-turned (λ p. p.grayscale) is_gray (λ e p. (changed-turns e p).1) events _,
        ap (λ r. r.inverted) shows
            ∙ run-turned (λ p. p.invert) is_inverted (λ e p. (changed-turns e p).2) events _,
        ap (λ r. r.dyslexia) shows
            ∙ run-turned (λ p. p.dyslexia_font) is_dyslexia (λ e p. (changed-turns e p).3) events _,
        ap (λ r. r.font_size) shows,
      )

  -- With a `JSON` that reads back what it prints: after any events a page that is opened again on
  -- what was stored is in the same state. A scale that started as one of
  -- the controls is one of them.
  pub run-reopened :
      (events : List Event) (raw : Option Text)
      → (mount json (run json events (mount json raw)).stored ≡ run json events (mount json raw))
        × (IsScale (mount json raw).prefs.font_scale
            → IsScale (run json events (mount json raw)).prefs.font_scale)
  unfolding mount
  run-reopened events raw = (
    reopened (run json events (mount json raw)) (run-IsApplied events (mount json raw) refl),
    run-IsScale events (mount json raw),
  )
    where
      reopened : (s : State) → IsApplied s → mount json s.stored ≡ s
      reopened s e =
          ap (λ t. apply json (get_preferences json t.stored)) (sym e)
          ∙ ap (apply json) (get-stored s.prefs)
          ∙ e
