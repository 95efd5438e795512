-- ===== src/Accessibility/Tests.antt =====
-- The controls on a concrete `JSON`, which prints the scale and the flags as one number of a text.
use sigecat_oraculos.Prelude.{
  ℕ, ◌*◌, Bool, true, false, Option, none, some, List, [], ◌∷◌, Text, txt, ◌≡◌, refl, ltb,
}
use sigecat_oraculos.Js.Strings.{trim, trim_start, trim_end}
use sigecat_oraculos.Accessibility.{
  Prefs, StoredPrefs, Json, every_field, mount, run, step, apply, changed, increased,
  get_preferences, Event, increase_font, toggle_invert,
}
use sigecat_oraculos.Accessibility.Laws.{run-shows}
use sigecat_oraculos.Accessibility.Speech.{
  Speech, speak, elapse, stop_speaking, utterance_of, elapse_late,
}

abbrev bit : Bool → ℕ
bit true = 1
bit false = 0

abbrev of_bit : ℕ → Bool
of_bit n = ltb 0 n

of_bit-bit : (b : Bool) → of_bit (bit b) ≡ b
of_bit-bit true = refl
of_bit-bit false = refl

-- the fields one after the other
abbrev print : Prefs → Text
print p =
    p.font_scale
    ∷ bit p.high_contrast
    ∷ bit p.grayscale
    ∷ bit p.invert
    ∷ bit p.dyslexia_font
    ∷ bit p.tts_enabled
    ∷ []

abbrev read : Text → Option StoredPrefs
read (scale ∷ contrast ∷ gray ∷ inverted ∷ dyslexia ∷ tts ∷ []) = some (record {
  font_scale = some scale;
  high_contrast = some (of_bit contrast);
  grayscale = some (of_bit gray);
  invert = some (of_bit inverted);
  dyslexia_font = some (of_bit dyslexia);
  tts_enabled = some (of_bit tts);
})
read _ = none

read-print : (p : Prefs) → read (print p) ≡ some (every_field p)
read-print p =
    rw
      (
        of_bit-bit p.high_contrast,
        of_bit-bit p.grayscale,
        of_bit-bit p.invert,
        of_bit-bit p.dyslexia_font,
        of_bit-bit p.tts_enabled,
      )
      refl

abbrev json : Json
json = record {
  parse = read;
  stringify = print;
  parse-stringify = read-print;
  stringify-not_empty = λ p. refl;
}

abbrev larger : List Event
larger = increase_font ∷ toggle_invert ∷ increase_font ∷ []

run-shows_example :
    ((run json larger (mount json none)).root.contrast ≡ false)
    × ((run json larger (mount json none)).root.gray ≡ false)
    × ((run json larger (mount json none)).root.inverted ≡ true)
    × ((run json larger (mount json none)).root.dyslexia ≡ false)
    × ((run json larger (mount json none)).root.font_size ≡ 16 * 130)
unfolding get_preferences run step apply mount changed increased
run-shows_example = run-shows json larger none

abbrev silent : Speech
silent = record {
  is_supported = true;
  paused = false;
  queue = [];
  voices = record { lang = some (txt "ES-cr"); name = txt "v" } ∷ [];
  cached_voices = [];
  timers = [];
}

elapse_late_example :
    ((elapse (stop_speaking (speak (txt "hola") silent))).queue
      ≡ utterance_of (txt "hola") silent ∷ [])
    × ((elapse (speak (txt "adiós ") (speak (txt "hola") silent))).queue
        ≡ utterance_of (txt "hola") silent ∷ utterance_of (txt "adiós") silent ∷ [])
unfolding trim trim_start trim_end
elapse_late_example =
    elapse_late (txt "hola") (txt "adiós ") b'h' b'a' (txt "ola") (txt "diós") silent refl refl refl
      refl
