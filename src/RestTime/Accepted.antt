-- ===== src/RestTime/Accepted.antt =====
-- The list of rest times of client/src/features/employee/DeclarationRestTimes.tsx under any events.
use sigecat_oraculos.Prelude.{
  ℕ, ◌*◌, ◌≤◌, ◌&&◌, inl, inr, Bool, true, false, not, Option, none, some, is_some, List, [], ◌∷◌,
  ◌++◌, All, filter, map, Text, ◌≡◌, refl, sym, subst, if-both, Result, ok, err, ◌>>=◌, arith,
}
use sigecat_oraculos.Js.Numbers.{Number, nan, nat, neg}
use sigecat_oraculos.Declarations.{RestType, RestTime}
use sigecat_oraculos.RestTime.{rest_time_max_minutes}
use sigecat_oraculos.Reports.Minutes.{entered_minutes}
use sigecat_oraculos.Services.{ServiceError}
use sigecat_oraculos.RestTime.Opening.{opened_id}
use sigecat_oraculos.RestTime.Page.{
  Api, RestTimesState, RestTimePayload, DeclaredRestTime, declared, read_times, open_id, load,
  total_input_minutes, validate, no_type_error, duration_error, checked, added, add_checked,
  handle_add, removed, remove, initial, Event, mounted, type_chosen, hours_entered, minutes_entered,
  add_clicked, remove_clicked, step, run,
}
use sigecat_oraculos.RestTime.PageLaws.{IsNumber, entered-IsNumber}

-- the bounds of `validateRestTimeDuration` for a total in parts of a minute: above 0, and at most the
-- maximum of the type
abbrev pub Lasts : ℕ → RestType → Number → Type 0
Lasts parts t total = (n : ℕ) × (total ≡ nat n) × (1 ≤ n) × (n ≤ rest_time_max_minutes t * parts)

abbrev pub IsAccepted : ℕ → DeclaredRestTime → Type 0
IsAccepted parts r = Lasts parts r.rest_type r.total_minutes

-- What the form relies on: the API lists rest times within their bounds, and answers a creation with the
-- type that it was sent.
pub record IsHonest {S : Type 0} (parts : ℕ) (api : Api S) : Type 0 where
  pub lists :
      (id : Text) (store : S) (rows : List RestTime)
      → api.rest_times_of id store ≡ ok rows
      → All (λ r. IsAccepted parts (declared parts r)) rows
  pub creates :
      (payload : RestTimePayload) (store : S) (created : RestTime)
      → (api.create payload store).1 ≡ ok created
      → created.rest_type ≡ payload.rest_type

AllAccepted-append :
    (parts : ℕ) (rows : List DeclaredRestTime) (r : DeclaredRestTime)
    → All (IsAccepted parts) rows
    → IsAccepted parts r
    → All (IsAccepted parts) (rows ++ (r ∷ []))
AllAccepted-append parts [] r h k = (k, tt)
AllAccepted-append parts (x ∷ rows) r (h, hs) k = (h, AllAccepted-append parts rows r hs k)

AllAccepted-filter :
    (parts : ℕ) (keep : DeclaredRestTime → Bool) (rows : List DeclaredRestTime)
    → All (IsAccepted parts) rows
    → All (IsAccepted parts) (filter keep rows)
AllAccepted-filter parts keep [] h = tt
AllAccepted-filter parts keep (r ∷ rows) (h, hs) =
    if-both (All (IsAccepted parts)) (keep r) (h, AllAccepted-filter parts keep rows hs)
      (AllAccepted-filter parts keep rows hs)

AllAccepted-map :
    (parts : ℕ) (rows : List RestTime)
    → All (λ r. IsAccepted parts (declared parts r)) rows
    → All (IsAccepted parts) (map (declared parts) rows)
AllAccepted-map parts [] h = tt
AllAccepted-map parts (r ∷ rows) (h, hs) = (h, AllAccepted-map parts rows hs)

module _ {S : Type 0} (parts : ℕ) (api : Api S) (honest : IsHonest parts api) where
  read_times-IsAccepted :
      (id : Text) (answer : Result {0, 0} ServiceError (List RestTime)) (s : RestTimesState)
      → ((rows : List RestTime)
          → answer ≡ ok rows
          → All (λ r. IsAccepted parts (declared parts r)) rows)
      → All (IsAccepted parts) s.rest_times
      → All (IsAccepted parts) (read_times parts id answer s).rest_times
  read_times-IsAccepted id (ok rows) s all h = AllAccepted-map parts rows (all rows refl)
  read_times-IsAccepted id (err e) s all h = h

  both-listed :
      (id : Text) (store : S) (found : Result {0, 0} ServiceError Unit) (rows : List RestTime)
      → (found >>= (λ accepted. api.rest_times_of id store)) ≡ ok rows
      → All (λ r. IsAccepted parts (declared parts r)) rows
  both-listed id store (ok accepted) rows e = honest.lists id store rows e
  both-listed id store (err failure) rows e = cc

  open_id-IsAccepted :
      (opened : Result {0, 0} ServiceError (Option Text)) (store : S) (s : RestTimesState)
      → All (IsAccepted parts) s.rest_times
      → All (IsAccepted parts) (open_id parts api opened store s).rest_times
  open_id-IsAccepted (ok none) store s h = h
  open_id-IsAccepted (ok (some id)) store s h =
      read_times-IsAccepted id
        (api.get_declaration id store >>= (λ accepted. api.rest_times_of id store)) s
        (λ rows e. both-listed id store (api.get_declaration id store) rows e) h
  open_id-IsAccepted (err e) store s h = h

  added-IsAccepted :
      (t : RestType) (total : Number) (answer : S × Result {0, 0} ServiceError RestTime)
      (s : RestTimesState)
      → ((created : RestTime) → answer.1 ≡ ok created → created.rest_type ≡ t)
      → Lasts parts t total
      → All (IsAccepted parts) s.rest_times
      → All (IsAccepted parts) ((added total answer s).1).rest_times
  added-IsAccepted t total (store, ok created) s same keeps h =
      AllAccepted-append parts s.rest_times _ h
        (subst (λ u. Lasts parts u total) (sym (same created refl)) keeps)
  added-IsAccepted t total (store, err e) s same keeps h = h

  add_checked-IsAccepted :
      (test : Bool) (id : Option Text) (chosen : Option RestType) (total : Number) (store : S)
      (s : RestTimesState)
      → ((t : RestType) → test ≡ true → chosen ≡ some t → Lasts parts t total)
      → All (IsAccepted parts) s.rest_times
      → All (IsAccepted parts) ((add_checked parts api test id chosen total store s).1).rest_times
  add_checked-IsAccepted true (some id) (some t) total store s keeps h =
      added-IsAccepted t total _ s
        (honest.creates (record { declaration_id = id; rest_type = t; duration_minutes = total })
          store)
        (keeps t refl refl) h
  add_checked-IsAccepted true (some id) none total store s keeps h = h
  add_checked-IsAccepted true none t total store s keeps h = h
  add_checked-IsAccepted false id t total store s keeps h = h

  removed-IsAccepted :
      (id : Text) (answer : S × Result {0, 0} ServiceError Unit) (s : RestTimesState)
      → All (IsAccepted parts) s.rest_times
      → All (IsAccepted parts) ((removed id answer s).1).rest_times
  removed-IsAccepted id (store, ok accepted) s h = AllAccepted-filter parts _ s.rest_times h
  removed-IsAccepted id (store, err e) s h = h

  valid-accepted :
      (s : RestTimesState) (t : RestType)
      → validate parts s ≡ true
      → s.rest_type ≡ some t
      → Lasts parts t (total_input_minutes s)
  unfolding validate total_input_minutes
  valid-accepted s t valid chosen =
      lasts t (entered_minutes s.duration_hours s.duration_minutes)
        (entered-IsNumber s.duration_hours s.duration_minutes)
        (subst
          (λ c.
            (not (is_some (no_type_error c))
              && not (
                  is_some
                    (duration_error parts c (entered_minutes s.duration_hours s.duration_minutes))))
            ≡ true)
          chosen valid)
    where
      lasts :
          (t : RestType) (d : Number)
          → IsNumber d
          → not (is_some (duration_error parts (some t) d)) ≡ true
          → Lasts parts t d
      lasts t nan (n, inl e) h = cc
      lasts t nan (n, inr e) h = cc
      lasts t (nat n) k h = (n, refl, ground arith, ground arith)
      lasts t (neg n) k h = ground arith

  step-IsAccepted :
      (event : Event) (store : S) (s : RestTimesState)
      → All (IsAccepted parts) s.rest_times
      → All (IsAccepted parts) ((step parts api event store s).1).rest_times
  unfolding step load handle_add checked remove
  step-IsAccepted (mounted state_id) store s h =
      open_id-IsAccepted (opened_id state_id (api.check_incomplete store)) store s h
  step-IsAccepted (type_chosen t) store s h = h
  step-IsAccepted (hours_entered entry) store s h = h
  step-IsAccepted (minutes_entered entry) store s h = h
  step-IsAccepted add_clicked store s h =
      add_checked-IsAccepted (validate parts s) s.declaration_id s.rest_type (total_input_minutes s)
        store (checked parts s) (valid-accepted s) h
  step-IsAccepted (remove_clicked id) store s h = removed-IsAccepted id (api.delete id store) s h

  run-IsAccepted :
      (events : List Event) (store : S) (s : RestTimesState)
      → All (IsAccepted parts) s.rest_times
      → All (IsAccepted parts) ((run parts api events store s).1).rest_times
  unfolding run
  run-IsAccepted [] store s h = h
  run-IsAccepted (event ∷ events) store s h =
      run-IsAccepted events ((step parts api event store s).0) ((step parts api event store s).1)
        (step-IsAccepted event store s h)

  -- For any number of parts of a minute in which the entries are counted, with an API that lists rest
  -- times within their bounds and answers a creation with its type: after any events, each with its
  -- requests answered before the next, every rest time that the form lists lasts more than 0 and at most
  -- the maximum of its type.
  pub run-AllAccepted :
      (events : List Event) (store : S)
      → All (IsAccepted parts) ((run parts api events store initial).1).rest_times
  run-AllAccepted events store = run-IsAccepted events store initial tt
