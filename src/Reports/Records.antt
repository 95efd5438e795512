-- ===== src/Reports/Records.antt =====
-- The record of reports of DeclarationFunctions.tsx as a map: setting, deleting and looking up.
use sigecat_oraculos.Prelude.{
  ◌≡◌, refl, sym, ap, inl, inr, true, false, Bool-cases, none, some, [], ◌∷◌, Text, text_eq,
  text_eq_iff, text_eq_refl,
}
use mathlib.Core.Option.{some-injective, none-ne-some}
use sigecat_oraculos.Reports.{Report, Reports, report_of, set_report, delete_report}

pub report_of-set_report :
    (id : Text) (r : Report) (reports : Reports) → report_of id (set_report id r reports) ≡ some r
unfolding report_of set_report
report_of-set_report id r [] = rw (text_eq_refl id) refl
report_of-set_report id r ((k, s) ∷ rest) = elim (Bool-cases (text_eq k id)) [
  | inl h ↦ rw (h, h) refl
  | inr h ↦ rw (h, h) (report_of-set_report id r rest)
]

differs :
    (k id other : Text) → text_eq k id ≡ true → text_eq id other ≡ false → text_eq k other ≡ false
differs k id other e h = rw ((text_eq_iff k id).0 e) h

pub report_of-set_report-other :
    (id other : Text) (r : Report) (reports : Reports)
    → text_eq id other ≡ false
    → report_of other (set_report id r reports) ≡ report_of other reports
unfolding report_of set_report
report_of-set_report-other id other r [] h = rw h refl
report_of-set_report-other id other r ((k, s) ∷ rest) h = elim (Bool-cases (text_eq k id)) [
  | inl e ↦ rw (e, differs k id other e h) refl
  | inr e ↦ rw (e, report_of-set_report-other id other r rest h) refl
]

pub report_of-delete_report :
    (id : Text) (reports : Reports) → report_of id (delete_report id reports) ≡ none
unfolding report_of delete_report
report_of-delete_report id [] = refl
report_of-delete_report id ((k, s) ∷ rest) = elim (Bool-cases (text_eq k id)) [
  | inl e ↦ rw e (report_of-delete_report id rest)
  | inr e ↦ rw (e, e) (report_of-delete_report id rest)
]

pub report_of-delete_report-other :
    (id other : Text) (reports : Reports)
    → text_eq id other ≡ false
    → report_of other (delete_report id reports) ≡ report_of other reports
unfolding report_of delete_report
report_of-delete_report-other id other [] h = refl
report_of-delete_report-other id other ((k, s) ∷ rest) h = elim (Bool-cases (text_eq k id)) [
  | inl e ↦ rw (e, differs k id other e h) (report_of-delete_report-other id other rest h)
  | inr e ↦ rw (e, report_of-delete_report-other id other rest h) refl
]

-- Setting what is there changes nothing.
pub set_report-report_of :
    (id : Text) (r : Report) (reports : Reports)
    → report_of id reports ≡ some r
    → set_report id r reports ≡ reports
unfolding report_of set_report
set_report-report_of id r [] h = absurd (none-ne-some r h)
set_report-report_of id r ((k, s) ∷ rest) h = elim (Bool-cases (text_eq k id)) [
  | inl e ↦ rw e (ap (λ t. (k, t) ∷ rest) (sym (some-injective s r (rw e at h))))
  | inr e ↦ rw e (ap (λ t. (k, s) ∷ t) (set_report-report_of id r rest (rw e at h)))
]
