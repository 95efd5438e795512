-- ===== src/Accessibility.antt =====
-- The accessibility preferences: client/src/context/AccessibilityContext.tsx and AccessibilityProvider.tsx,
-- with client/src/services/accessibilityStorage.ts. A font scale is kept in hundredths. `JSON` is a
-- parameter.
pub mod Speech
pub mod Laws
mod Tests
use sigecat_oraculos.Prelude.{
  ℕ, suc, ◌+◌, ◌-◌, ◌*◌, ◌==◌, min, max, Bool, true, false, not, Option, none, some, List, [], ◌∷◌,
  get_elem?, length, Text, or_else, if◌then◌else◌, ◌≡◌,
}
use sigecat_oraculos.Js.Strings.{is_empty}

abbrev pub font_scales : List ℕ
font_scales = 100 ∷ 115 ∷ 130 ∷ 150 ∷ []

pub record Prefs : Type 0 where
  pub font_scale : ℕ
  pub high_contrast : Bool
  pub grayscale : Bool
  pub invert : Bool
  pub dyslexia_font : Bool
  pub tts_enabled : Bool

abbrev pub default_prefs : Prefs
default_prefs = record {
  font_scale = 100;
  high_contrast = false;
  grayscale = false;
  invert = false;
  dyslexia_font = false;
  tts_enabled = false;
}

-- an object that was stored; a field that it has not is none
pub record StoredPrefs : Type 0 where
  pub font_scale : Option ℕ
  pub high_contrast : Option Bool
  pub grayscale : Option Bool
  pub invert : Option Bool
  pub dyslexia_font : Option Bool
  pub tts_enabled : Option Bool

-- `{...DEFAULT_PREFS, ...stored}`
unfoldable pub merged : StoredPrefs → Prefs
merged stored = record {
  font_scale = or_else stored.font_scale default_prefs.font_scale;
  high_contrast = or_else stored.high_contrast default_prefs.high_contrast;
  grayscale = or_else stored.grayscale default_prefs.grayscale;
  invert = or_else stored.invert default_prefs.invert;
  dyslexia_font = or_else stored.dyslexia_font default_prefs.dyslexia_font;
  tts_enabled = or_else stored.tts_enabled default_prefs.tts_enabled;
}

abbrev pub every_field : Prefs → StoredPrefs
every_field prefs = record {
  font_scale = some prefs.font_scale;
  high_contrast = some prefs.high_contrast;
  grayscale = some prefs.grayscale;
  invert = some prefs.invert;
  dyslexia_font = some prefs.dyslexia_font;
  tts_enabled = some prefs.tts_enabled;
}

-- `JSON.parse` and `JSON.stringify`; a text that is not JSON is none, and what is printed is read back
pub record Json : Type 0 where
  pub parse : Text → Option StoredPrefs
  pub stringify : Prefs → Text
  pub parse-stringify : (prefs : Prefs) → parse (stringify prefs) ≡ some (every_field prefs)
  pub stringify-not_empty : (prefs : Prefs) → is_empty (stringify prefs) ≡ false

-- `classList.toggle(class, on)` and the font size, in hundredths of a pixel, of the root
pub record Root : Type 0 where
  pub font_size : ℕ
  pub contrast : Bool
  pub gray : Bool
  pub inverted : Bool
  pub dyslexia : Bool

pub record State : Type 0 where
  pub prefs : Prefs
  pub stored : Option Text
  pub root : Root

abbrev pub base_font_px : ℕ
base_font_px = 16

abbrev pub root_of : Prefs → Root
root_of prefs = record {
  font_size = base_font_px * prefs.font_scale;
  contrast = prefs.high_contrast;
  gray = prefs.grayscale;
  inverted = prefs.invert;
  dyslexia = prefs.dyslexia_font;
}

-- `FONT_SCALES.indexOf(scale)`, where none is -1
abbrev pub index_from : ℕ → ℕ → List ℕ → Option ℕ
index_from scale i [] = none
index_from scale i (x ∷ xs) =
    let rest = index_from scale (i + 1) xs in if x == scale then some i else rest

abbrev pub next_index : Option ℕ → ℕ
next_index none = 0
next_index (some i) = min (i + 1) (length font_scales - 1)

abbrev pub last_index : Option ℕ → ℕ
last_index none = 0
last_index (some i) = i - 1

unfoldable pub increased : ℕ → ℕ
increased scale =
    or_else (get_elem? font_scales (next_index (index_from scale 0 font_scales))) scale

unfoldable pub decreased : ℕ → ℕ
decreased scale =
    or_else (get_elem? font_scales (last_index (index_from scale 0 font_scales))) scale

pub data Event : Type 0 where
  increase_font decrease_font reset_font reset_all : Event
  toggle_high_contrast toggle_grayscale toggle_invert toggle_dyslexia_font toggle_tts : Event

unfoldable pub changed : Event → Prefs → Prefs
unfolding increased decreased
changed increase_font p = record p { font_scale = increased p.font_scale }
changed decrease_font p = record p { font_scale = decreased p.font_scale }
changed reset_font p = record p { font_scale = 100 }
changed reset_all p = default_prefs
changed toggle_high_contrast p = record p { high_contrast = not p.high_contrast }
changed toggle_grayscale p = record p { grayscale = not p.grayscale }
changed toggle_invert p = record p { invert = not p.invert }
changed toggle_dyslexia_font p = record p { dyslexia_font = not p.dyslexia_font }
changed toggle_tts p = record p { tts_enabled = not p.tts_enabled }

module _ (json : Json) where
  abbrev pub parsed : Option StoredPrefs → Prefs
  parsed none = default_prefs
  parsed (some stored) = merged stored

  unfoldable pub get_preferences : Option Text → Prefs
  unfolding merged
  get_preferences none = default_prefs
  get_preferences (some raw) = if is_empty raw then default_prefs else parsed (json.parse raw)

  -- the effect that runs on every change of the preferences
  unfoldable pub apply : Prefs → State
  apply prefs = record { prefs = prefs; stored = some (json.stringify prefs); root = root_of prefs }

  unfoldable pub mount : Option Text → State
  unfolding apply get_preferences
  mount raw = apply (get_preferences raw)

  unfoldable pub step : Event → State → State
  unfolding apply changed
  step event s = apply (changed event s.prefs)

  unfoldable pub run : List Event → State → State
  unfolding step
  run [] s = s
  run (event ∷ events) s = run events (step event s)
