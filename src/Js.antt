-- ===== src/Js.antt =====
-- The part of JavaScript's standard library that the client's own code leans on, over code units:
-- `trim`, `toUpperCase`, `toLowerCase`, `split`, `parseInt`, `String(n)` and `padStart`.
-- Case is mapped over Latin-1 (the texts of the API and of the catalogues); a unit past it stays.
pub mod Strings
pub mod Numbers
pub mod Fractions
pub mod Splitting
pub mod Decimals
pub mod Digits
