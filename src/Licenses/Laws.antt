-- ===== src/Licenses/Laws.antt =====
-- Adding and removing a license, client/src/features/employee/DeclarationLicenses.tsx.
use sigecat_oraculos.Prelude.{
  true, false, not, some, List, [], ◌∷◌, ◌++◌, All, filter, Text, text_eq, text_eq_refl, ◌≡◌, refl,
  sym, ap, ◌∙◌, subst, ok,
}
use sigecat_oraculos.Licenses.{
  Api, LicensesState, LicensePayload, LicenseResponse, DeclaredLicense, name_of_type,
  total_input_minutes, validate, checked, added, removed, add_checked, handle_add, remove,
}

-- no license of the list has the id
abbrev pub IsFresh : Text → List DeclaredLicense → Type 0
IsFresh id licenses = All (λ l. text_eq l.id id ≡ false) licenses

filter-added :
    (id : Text) (licenses : List DeclaredLicense) (l : DeclaredLicense)
    → l.id ≡ id
    → IsFresh id licenses
    → filter (λ k. not (text_eq k.id id)) (licenses ++ (l ∷ [])) ≡ licenses
filter-added id [] l e h = rw (e, text_eq_refl id) refl
filter-added id (k ∷ licenses) l e (h, hs) =
    rw h (ap (λ r. k ∷ r) (filter-added id licenses l e hs))

-- the license that a form adds
abbrev pub license_of : LicensesState → LicenseResponse → DeclaredLicense
license_of s created = record {
  id = created.license_time_id;
  type_id = s.type_id;
  type_name = name_of_type s.types s.type_id created.license_type_name;
  total_minutes = total_input_minutes s;
}

abbrev pub payload_of : Text → LicensesState → LicensePayload
payload_of id s = record {
  declaration_id = id;
  license_type_id = s.type_id;
  duration_minutes = total_input_minutes s;
}

module _ {S : Type 0} (api : Api S) where
  -- the list after the addition, and after the removal of the license that was added
  abbrev pub IsUndone : LicensesState → LicenseResponse → S → S × LicensesState → Type 0
  IsUndone s created next (store, t) =
      (t.licenses ≡ s.licenses ++ (license_of s created ∷ []))
      × ((remove api created.license_time_id store t).1.licenses ≡ s.licenses)
      × ((remove api created.license_time_id store t).0 ≡ next)

  removed-undoes :
      (id : Text) (next : S) (t : LicensesState) (licenses : List DeclaredLicense)
      (l : DeclaredLicense)
      → t.licenses ≡ licenses ++ (l ∷ [])
      → l.id ≡ id
      → IsFresh id licenses
      → (removed id (next, ok tt) t).1.licenses ≡ licenses
  unfolding removed
  removed-undoes id next t licenses l e k fresh =
      ap (filter (λ k. not (text_eq k.id id))) e ∙ filter-added id licenses l k fresh

  added-IsUndone :
      (created : LicenseResponse) (mid next : S) (s : LicensesState)
      → IsFresh created.license_time_id s.licenses
      → api.delete created.license_time_id mid ≡ (next, ok tt)
      → IsUndone s created next (added (total_input_minutes s) (mid, ok created) (checked s))
  unfolding added remove checked removed
  added-IsUndone created mid next s fresh deletes = (
    refl,
    subst
        (λ answer.
          (removed created.license_time_id answer
            ((added (total_input_minutes s) (mid, ok created) (checked s)).1)).1.licenses
          ≡ s.licenses)
        (sym deletes)
        (filter-added created.license_time_id s.licenses (license_of s created) refl fresh),
    subst
        (λ answer.
          (removed created.license_time_id answer
            ((added (total_input_minutes s) (mid, ok created) (checked s)).1)).0
          ≡ next)
        (sym deletes) refl,
  )

  -- A valid form of a declaration whose creation the API accepts, with an id that is new to the list,
  -- appends one license with the form's type and minutes; removing that license, where the API accepts
  -- it, gives the list as it was before.
  pub handle_add-IsUndone :
      (id : Text) (created : LicenseResponse) (store mid next : S) (s : LicensesState)
      → validate s ≡ true
      → s.declaration_id ≡ some id
      → api.create (payload_of id s) store ≡ (mid, ok created)
      → IsFresh created.license_time_id s.licenses
      → api.delete created.license_time_id mid ≡ (next, ok tt)
      → IsUndone s created next (handle_add api store s)
  unfolding handle_add add_checked checked
  handle_add-IsUndone id created store mid next s valid opened creates fresh deletes =
      subst
        (λ test.
          IsUndone s created next
            (add_checked api test s.declaration_id (total_input_minutes s) store (checked s)))
        (sym valid)
        (subst
          (λ found.
            IsUndone s created next
              (add_checked api true found (total_input_minutes s) store (checked s)))
          (sym opened)
          (subst
            (λ answer. IsUndone s created next (added (total_input_minutes s) answer (checked s)))
            (sym creates) (added-IsUndone created mid next s fresh deletes)))
