-- ===== src/Completion/Laws.antt =====
-- What completing a declaration in client/src/app/pages/AdditionalInformationPage.tsx guarantees.
use sigecat_oraculos.Prelude.{
  ◌≡◌, ◌⊎◌, inl, inr, refl, Bool, true, false, ◌&&◌, Bool-cases, Option, none, some, List, [], ◌∷◌,
  ◌++◌, Text, Result, ok, err, arith,
}
use sigecat_oraculos.Js.Strings.{trim, is_empty}
use sigecat_oraculos.Completion.{
  Page, Call, update_justification, complete_declaration, success, handle_complete, complete_for,
  completed, justified, is_valid,
}

-- What the requests of a successful run are.
abbrev pub IsRun : (Call → Result {0, 0} (Option Text) Unit) → Page → Text → List Call → Type 0
IsRun send page id calls =
    ((is_empty (trim page.justification) ≡ true)
      × (page.justification_required ≡ false)
      × (calls ≡ complete_declaration id ∷ []))
    ⊎ ((is_empty (trim page.justification) ≡ false)
        × (send (update_justification id (trim page.justification)) ≡ ok tt)
        × (calls
            ≡ update_justification id (trim page.justification) ∷ complete_declaration id ∷ []))

not_required : (b : Bool) → (b && true) ≡ false → b ≡ false
not_required true h = h
not_required false h = refl

completed_lem :
    (id text : Text) (calls : List Call) (answer : Result {0, 0} (Option Text) Unit)
    → (completed id calls answer).1 ≡ success text
    → (answer ≡ ok tt) × ((completed id calls answer).0 ≡ calls ++ complete_declaration id ∷ [])
completed_lem id text calls (ok done) h = (refl, refl)
completed_lem id text calls (err m) h = absurd (ground arith)

justified_lem :
    (send : Call → Result {0, 0} (Option Text) Unit) (id given text : Text)
    (answer : Result {0, 0} (Option Text) Unit)
    → (justified send id given answer).1 ≡ success text
    → (send (complete_declaration id) ≡ ok tt)
      × (answer ≡ ok tt)
      × ((justified send id given answer).0
          ≡ update_justification id given ∷ complete_declaration id ∷ [])
justified_lem send id given text (ok done) h =
    let (sent, calls) =
      completed_lem id text (update_justification id given ∷ []) (send (complete_declaration id))
        h in
    (sent, refl, calls)
justified_lem send id given text (err m) h = absurd (ground arith)

complete_for_lem :
    (send : Call → Result {0, 0} (Option Text) Unit) (page : Page) (held : Option Text)
    (text : Text)
    → (complete_for send page held).1 ≡ success text
    → (id : Text) × (held ≡ some id)
      × (send (complete_declaration id) ≡ ok tt)
      × IsRun send page id (complete_for send page held).0
unfolding complete_for is_valid
complete_for_lem send page none text h = absurd (ground arith)
complete_for_lem send page (some id) text h = elim (Bool-cases (is_empty id)) [
  | inl e ↦ absurd (ground (arith, e))
  | inr e ↦ elim (Bool-cases (page.justification_required && is_empty (trim page.justification))) [
    | inl f ↦ absurd (ground (arith, e, f))
    | inr f ↦ elim (Bool-cases (is_empty (trim page.justification))) [
      | inl g ↦
          let (sent, calls) =
            completed_lem id text [] (send (complete_declaration id)) (rw (e, f, g) at h) in
          (
            id,
            refl,
            sent,
            rw (e, f, g) (inl (refl, not_required page.justification_required (rw g at f), calls)),
          )
      | inr g ↦
          let (sent, stored, calls) =
            justified_lem send id (trim page.justification) text _ (rw (e, f, g) at h) in
          (id, refl, sent, rw (e, f, g) (inr (refl, stored, calls)))
    ]
  ]
]

-- The page reports success only for a declaration that it has, and only when the API has accepted
-- every request: the status alone where no justification is given and none is required, and else the
-- trimmed justification first and the status after it.
pub handle_complete_lem :
    (send : Call → Result {0, 0} (Option Text) Unit) (page : Page) (text : Text)
    → (handle_complete send page).1 ≡ success text
    → (id : Text) × (page.declaration_id ≡ some id)
      × (send (complete_declaration id) ≡ ok tt)
      × IsRun send page id (handle_complete send page).0
unfolding handle_complete
handle_complete_lem send page text h = complete_for_lem send page page.declaration_id text h
