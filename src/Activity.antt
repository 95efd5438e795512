-- ===== src/Activity.antt =====
-- The business activity that the client derives from the log: client/src/services/activityLog.ts,
-- with the log entry of client/src/services/logService.ts.
pub mod Labels
pub mod Laws
use sigecat_oraculos.Prelude.{
  ℕ, ◌==◌, Bool, true, false, not, ◌&&◌, ◌||◌, Option, none, some, List, [], ◌∷◌, ◌++◌, Text, txt,
  text_eq, any, filter, map, or_else, if◌then◌else◌,
}
use sigecat_oraculos.Js.Strings.{trim, is_empty, upper_unit}
use sigecat_oraculos.Activity.Labels.{entity_labels, verb_labels, context_labels, lookup}

pub data LogLevel : Type 0 where
  debug info warning error critical : LogLevel

-- A value of a context, with the texts that `String(v)` and `JSON.stringify(v)` give; of the values
-- whose `typeof` is 'object' null has its own constructor.
pub data Value : Type 0 where
  null undefined : Value
  text : Text → Value
  object : Text → Text → Value
  other : Text → Value

pub record SystemLog : Type 0 where
  pub id : Text
  pub level : LogLevel
  pub action : Option Text
  pub message : Text
  pub context : Option (List (Text × Value))
  pub user_id : Option Text
  pub created_at : Text

pub data Severity : Type 0 where
  low medium high : Severity

abbrev pub technical_actions : List Text
technical_actions =
    txt "http.request"
    ∷ txt "rate_limit.error"
    ∷ txt "rate_limit.exceeded"
    ∷ txt "unhandled.exception"
    ∷ []

unfoldable pub is_business_event : SystemLog → Bool
is_business_event log = elim log.action [
  | none ↦ false
  | some action ↦ not (is_empty action) && not (any (text_eq action) technical_actions)
]

-- `slug.replace(/_/g, ' ')`
unfoldable pub underscores_to_blanks : Text → Text
underscores_to_blanks [] = []
underscores_to_blanks (c ∷ s) = (if c == b'_' then 32 else c) ∷ underscores_to_blanks s

unfoldable pub title_case : Text → Text
unfolding underscores_to_blanks upper_unit
title_case [] = txt "Evento"
title_case (c ∷ s) = upper_unit c ++ underscores_to_blanks s

unfoldable pub severity_for : Text → LogLevel → Severity
severity_for verb error = high
severity_for verb critical = high
severity_for verb _ =
    if text_eq verb (txt "delete")
    then high
    else if text_eq verb (txt "login") || text_eq verb (txt "logout")
    then low
    else medium

-- `raw.slice(0, dot)` and `raw.slice(dot + 1)` at the first dot; with no dot, the text and nothing
unfoldable pub before_dot : Text → Text
before_dot [] = []
before_dot (c ∷ s) = let rest = before_dot s in if c == b'.' then [] else c ∷ rest

unfoldable pub after_dot : Text → Text
after_dot [] = []
after_dot (c ∷ s) = let rest = after_dot s in if c == b'.' then s else rest

unfoldable pub split_action : Option Text → Text × Text
unfolding before_dot after_dot
split_action action = (before_dot (or_else action []), after_dot (or_else action []))

pub record ActivityMeta : Type 0 where
  pub entity_slug : Text
  pub verb : Text
  pub entity_label : Text
  pub action_label : Text
  pub severity : Severity

unfoldable pub activity_meta : SystemLog → ActivityMeta
unfolding split_action title_case severity_for
activity_meta log =
    let (entity_slug, verb) = split_action log.action in
    record {
      entity_slug = entity_slug;
      verb = verb;
      entity_label = or_else (lookup entity_labels entity_slug) (title_case entity_slug);
      action_label = or_else (lookup verb_labels verb) (title_case verb);
      severity = severity_for verb log.level;
    }

-- `ctx[key]`, for a key that may be missing
unfoldable pub value_at : Text → List (Text × Value) → Value
value_at key [] = undefined
value_at key ((k, v) ∷ rest) = let later = value_at key rest in if text_eq k key then v else later

-- a text with something to read in it
abbrev pub named : Value → Option Text
named (text s) = if is_empty (trim s) then none else some s
named _ = none

abbrev pub first_named : List Text → List (Text × Value) → Option Text
first_named [] ctx = none
first_named (key ∷ keys) ctx = elim (named (value_at key ctx)) [
  | some s ↦ some s
  | none ↦ first_named keys ctx
]

unfoldable pub affected_label : SystemLog → Option Text
unfolding value_at
affected_label log = elim log.context [
  | none ↦ none
  | some ctx ↦ first_named (txt "name" ∷ txt "title" ∷ txt "label" ∷ txt "email" ∷ []) ctx
]

-- `String(value)`
abbrev pub shown_text : Value → Text
shown_text null = txt "null"
shown_text undefined = txt "undefined"
shown_text (text s) = s
shown_text (object shown json) = shown
shown_text (other shown) = shown

abbrev pub is_filled : Text × Value → Bool
is_filled (key, null) = false
is_filled (key, undefined) = false
is_filled (key, v) = not (is_empty (trim (shown_text v)))

pub record ContextRow : Type 0 where
  pub label : Text
  pub value : Text

abbrev pub row_value : Value → Text
row_value null = txt "null"
row_value (object shown json) = json
row_value v = shown_text v

abbrev pub context_row : Text × Value → ContextRow
context_row (key, v) = record {
  label = or_else (lookup context_labels key) (title_case key);
  value = row_value v;
}

unfoldable pub context_rows : SystemLog → List ContextRow
unfolding title_case
context_rows log = elim log.context [
  | none ↦ []
  | some ctx ↦ map context_row (filter is_filled ctx)
]
