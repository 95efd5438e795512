-- ===== src/Status/Workflow.antt =====
-- `canChangeStatus` against an independent description of the workflow.
use sigecat_oraculos.Prelude.{◌≡◌, refl, ◌↔◌, Bool, true, false, arith}
use sigecat_oraculos.Status.{
  DeclarationStatus, incomplete, revision, approved, rejected, abandoned, completed, UserRole,
  admin, employee, can_change_status, status_translations,
}

-- Who may move a declaration where: one constructor for each rule of the office. The last two
-- indices are the caller's role and whether the declaration is the caller's.
pub data Permitted : DeclarationStatus → DeclarationStatus → UserRole → Bool → Type 0 where
  finish : (r : UserRole) (own : Bool) → Permitted incomplete completed r own
  give_up : (r : UserRole) → Permitted incomplete abandoned r true
  discard : (own : Bool) → Permitted incomplete abandoned admin own
  take_up : (own : Bool) → Permitted completed revision admin own
  approve : (own : Bool) → Permitted revision approved admin own
  reject : (own : Bool) → Permitted revision rejected admin own
  revoke : (own : Bool) → Permitted approved rejected admin own

ruleset rules = (finish, give_up, discard, take_up, approve, reject, revoke)

can_change_status_complete :
    {s t : DeclarationStatus} {r : UserRole} {own : Bool}
    → Permitted s t r own
    → can_change_status s t r own ≡ true
unfolding can_change_status
can_change_status_complete (finish admin true) = refl
can_change_status_complete (finish admin false) = refl
can_change_status_complete (finish employee true) = refl
can_change_status_complete (finish employee false) = refl
can_change_status_complete (give_up admin) = refl
can_change_status_complete (give_up employee) = refl
can_change_status_complete (discard true) = refl
can_change_status_complete (discard false) = refl
can_change_status_complete (take_up own) = refl
can_change_status_complete (approve own) = refl
can_change_status_complete (reject own) = refl
can_change_status_complete (revoke own) = refl

can_change_status_sound :
    (s t : DeclarationStatus) (r : UserRole) (own : Bool)
    → can_change_status s t r own ≡ true
    → Permitted s t r own
unfolding can_change_status
can_change_status_sound incomplete completed r own h = finish r own
can_change_status_sound incomplete abandoned r true h = give_up r
can_change_status_sound incomplete abandoned admin false h = discard false
can_change_status_sound incomplete abandoned employee false h = cc
can_change_status_sound completed revision admin own h = take_up own
can_change_status_sound revision approved admin own h = approve own
can_change_status_sound revision rejected admin own h = reject own
can_change_status_sound approved rejected admin own h = revoke own
can_change_status_sound _ _ _ _ h = cc

-- `canChangeStatus` answers true exactly on the moves that the rules of `Permitted` allow.
pub can_change_status-iff-Permitted :
    (s t : DeclarationStatus) (r : UserRole) (own : Bool)
    → (can_change_status s t r own ≡ true) ↔ Permitted s t r own
can_change_status-iff-Permitted s t r own =
    (can_change_status_sound s t r own, can_change_status_complete)

-- Two statuses with the same Spanish label are the same status.
pub status_translations_injective :
    (s t : DeclarationStatus) → status_translations s ≡ status_translations t → s ≡ t
unfolding status_translations
status_translations_injective s t h = ground arith
