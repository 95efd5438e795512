-- ===== src/Status/Tests.antt =====
-- Runs of the workflow, and each theorem at an input that meets its conditions.
use sigecat_oraculos.Prelude.{◌≡◌, refl, ◌↔◌, true, false}
use sigecat_oraculos.Status.{
  incomplete, revision, approved, rejected, abandoned, completed, employee, can_change_status,
}
use sigecat_oraculos.Status.Workflow.{Permitted, can_change_status-iff-Permitted}
use sigecat_oraculos.Status.History.{History, start, by_employee, by_admin}

can_change_status-iff-Permitted_example :
    (can_change_status incomplete abandoned employee true ≡ true)
    ↔ Permitted incomplete abandoned employee true
can_change_status-iff-Permitted_example =
    can_change_status-iff-Permitted incomplete abandoned employee true

-- the longest history: finished, taken up, approved, revoked
longest : History incomplete rejected 4 true
unfolding can_change_status
longest =
    by_admin rejected false
      (by_admin approved false
        (by_admin revision false (by_employee completed true start refl) refl) refl)
      refl
