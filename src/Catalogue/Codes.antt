-- ===== src/Catalogue/Codes.antt =====
-- What is sent of a valid form of JobPage.tsx and JobClassPage.tsx, client/src/app/pages/admin/, and of
-- an official function in use, FunctionsPage.tsx.
use sigecat_oraculos.Prelude.{ℕ, ◌*◌, ◌≤◌, true, ◌≡◌}
use sigecat_oraculos.Js.Fractions.{Decimal, not_a_number, decimal, power}

-- a whole number that is at most the bound
abbrev pub IsWhole : ℕ → Decimal → Type 0
IsWhole bound not_a_number = ⊥
IsWhole bound (decimal negative d k) =
    (n : ℕ) × (d ≡ n * power k) × (n ≤ bound) × (negative ≡ true → n ≡ 0)
