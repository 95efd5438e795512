-- ===== src/Time/Host.antt =====
-- What the browser decides and the client relies on: how `new Date(text)` reads a text, the time
-- zone behind `new Date(y, m, d, …)` and the getters, and the es-CR texts. `none` is an invalid
-- date. The two laws are those of `getHours` and `getMinutes`.
use sigecat_oraculos.Prelude.{ℕ, ◌<◌, Bool, Option, Text}
use sigecat_oraculos.Js.Numbers.{Number}

pub record Host : Type 1 where
  pub Date : Type 0
  -- `new Date(text)`
  pub of_text : Text → Option Date
  -- `new Date(year, month, day, hour, minute, second)`
  pub of_fields : Number → Number → Number → Number → Number → Number → Option Date
  -- `new Date()` after `setHours(hour, minute, 0, 0)`
  pub today_at : Number → Number → Option Date
  pub year : Date → Number
  pub month : Date → ℕ
  pub day : Date → ℕ
  pub hours : Date → ℕ
  pub minutes : Date → ℕ
  pub seconds : Date → ℕ
  -- `a < b` on dates
  pub earlier : Date → Date → Bool
  -- `toLocaleDateString('es-CR')`, with and without two-digit fields, `toLocaleString` with the
  -- time, and `toLocaleTimeString`
  pub locale_date : Date → Text
  pub locale_date_2 : Date → Text
  pub locale_date_time : Date → Text
  pub locale_time : Date → Text
  pub hours_lt : (d : Date) → hours d < 24
  pub minutes_lt : (d : Date) → minutes d < 60
