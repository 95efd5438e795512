-- ===== src/Time/Samples.antt =====
-- A host for tests: it reads no text by itself and keeps the time of day of a date.
use sigecat_oraculos.Prelude.{ℕ, ◌%◌, some, none, false, ◌∷◌, ◌++◌, txt, arith}
use sigecat_oraculos.Js.Numbers.{Number, nat, pad2}
use sigecat_oraculos.Time.Host.{Host}

abbrev whole : Number → ℕ
whole (nat n) = n
whole _ = 0

abbrev pub sample : Host
sample = record {
  Date = ℕ × ℕ;
  of_text = λ s. none;
  of_fields = λ y m d h mi s. some (whole h % 24, whole mi % 60);
  today_at = λ h mi. some (whole h % 24, whole mi % 60);
  year = λ d. nat 2026;
  month = λ d. 0;
  day = λ d. 1;
  hours = λ d. d.0 % 24;
  minutes = λ d. d.1 % 60;
  seconds = λ d. 0;
  earlier = λ a b. false;
  locale_date = λ d. txt "fecha";
  locale_date_2 = λ d. txt "fecha";
  locale_date_time = λ d. pad2 (nat d.0) ++ (b':' ∷ pad2 (nat d.1));
  locale_time = λ d. pad2 (nat d.0);
  hours_lt = λ d. omega arith;
  minutes_lt = λ d. omega arith;
}
