-- ===== src/Accessibility/Speech.antt =====
-- Reading aloud: client/src/utils/speech.ts over the browser's queue of utterances. A timer that is set is
-- a text that waits; the timers of 100 ms run in the order in which they were set.
use sigecat_oraculos.Prelude.{
  ℕ, Bool, true, false, Option, none, some, List, [], ◌∷◌, ◌++◌, find, Text, txt, starts_with,
  if◌then◌else◌, ◌≡◌, refl,
}
use sigecat_oraculos.Js.Strings.{trim, to_lower}

-- a voice may have no language
pub record Voice : Type 0 where
  pub lang : Option Text
  pub name : Text

pub record Utterance : Type 0 where
  pub text : Text
  pub lang : Text
  pub voice : Option Voice

pub record Speech : Type 0 where
  pub is_supported : Bool
  pub paused : Bool
  pub queue : List Utterance
  pub voices : List Voice
  pub cached_voices : List Voice
  pub timers : List Text

abbrev pub is_spanish : Voice → Bool
is_spanish voice = elim voice.lang [
  | none ↦ false
  | some lang ↦ starts_with (to_lower lang) (txt "es")
]

abbrev pub head : List Voice → Option Voice
head [] = none
head (voice ∷ voices) = some voice

abbrev pub or_head : Option Voice → List Voice → Option Voice
or_head none voices = head voices
or_head (some voice) voices = some voice

abbrev pub known_voices : List Voice → List Voice → List Voice
known_voices [] voices = voices
known_voices (voice ∷ cached) voices = voice ∷ cached

unfoldable pub pick_spanish_voice : Speech → Option Voice
pick_spanish_voice s =
    or_head (find is_spanish (known_voices s.cached_voices s.voices))
      (known_voices s.cached_voices s.voices)

-- `window.speechSynthesis.cancel()`
abbrev pub cancel : Speech → Speech
cancel s = record s { queue = [] }

abbrev pub load_voices : Speech → Speech
load_voices s = if s.is_supported then record s { cached_voices = s.voices } else s

abbrev pub speak_trimmed : Text → Speech → Speech
speak_trimmed [] s = s
speak_trimmed (c ∷ text) s = record (cancel s) { timers = s.timers ++ ((c ∷ text) ∷ []) }

unfoldable pub speak : Text → Speech → Speech
speak text s = if s.is_supported then speak_trimmed (trim text) s else s

abbrev pub utterance_of : Text → Speech → Utterance
utterance_of text s = record { text = text; lang = txt "es-CR"; voice = pick_spanish_voice s }

-- the callback of a timer; a synthesis that is paused is resumed
abbrev pub fire : Text → Speech → Speech
fire text s = record s { paused = false; queue = s.queue ++ (utterance_of text s ∷ []) }

abbrev pub fire_each : List Text → Speech → Speech
fire_each [] s = s
fire_each (text ∷ texts) s = fire_each texts (fire text s)

-- 100 ms pass
unfoldable pub elapse : Speech → Speech
elapse s = fire_each s.timers (record s { timers = [] })

unfoldable pub stop_speaking : Speech → Speech
stop_speaking s = if s.is_supported then cancel s else s

-- Where the API is there and no timer runs, a text that is not blank, spoken and then stopped before
-- 100 ms are over, is read all the same; and of two such texts that are spoken within 100 ms both are
-- read, one after the other.
pub elapse_late :
    (a b : Text) (c d : ℕ) (first second : Text) (s : Speech)
    → s.is_supported ≡ true
    → s.timers ≡ []
    → trim a ≡ c ∷ first
    → trim b ≡ d ∷ second
    → ((elapse (stop_speaking (speak a s))).queue ≡ utterance_of (c ∷ first) s ∷ [])
      × ((elapse (speak b (speak a s))).queue
          ≡ utterance_of (c ∷ first) s ∷ utterance_of (d ∷ second) s ∷ [])
unfolding elapse stop_speaking speak pick_spanish_voice
elapse_late a b c d first second s supported idle one two =
    rw (supported, one, two, idle) (refl, refl)
