-- ===== src/Catalogue/Crossing.antt =====
-- The loads of a page of the administration, client/src/app/pages/admin/AreasPage.tsx, with the requests
-- that are still under way: the page asks again on each change of its page and of its filter, and takes
-- every answer as it arrives. The server's rows do not change meanwhile.
mod Tests
use sigecat_oraculos.Prelude.{
  ℕ, zero, suc, All, Bool, ◌&&◌, ◌==◌, text_eq, true, false, if-both, Option, none, some, List, [],
  ◌∷◌, ◌++◌, map, Text, length, ◌≡◌, refl, sym, subst, ap, ok, if◌then◌else◌, arith,
}
use sigecat_oraculos.Js.Strings.{trim}
use sigecat_oraculos.Services.{ListParams, Service}
use sigecat_oraculos.Catalogue.{Kind, State, load, loaded, show, start, limit}
use sigecat_oraculos.Catalogue.Refinement.{Serves, IsSynced, load-IsSynced}

-- the page and the requests under way, in the order in which they were sent
pub record Loading (Item Field : Type 0) : Type 0 where
  pub shown : State Item Field
  pub sent : List ListParams

-- a page is chosen, the search rests, or the request at an index of those under way is answered
pub data Event : Type 0 where
  page_chosen : ℕ → Event
  search_rested : Text → Event
  answered : ℕ → Event

abbrev pub cons_out : {A : Type 0} → A → Option (A × List A) → Option (A × List A)
cons_out x none = none
cons_out x (some (y, ys)) = some (y, x ∷ ys)

-- the element at an index, and the others
abbrev pub take_out : {A : Type 0} → ℕ → List A → Option (A × List A)
take_out i [] = none
take_out zero (x ∷ xs) = some (x, xs)
take_out (suc i) (x ∷ xs) = cons_out x (take_out i xs)

module _ {Item Field Payload S : Type 0} (kind : Kind Item Field Payload)
    (service : Service S Item Payload) (store : S) where
  abbrev pub params_of : State Item Field → ListParams
  params_of s = record {
    page = s.page;
    limit = limit;
    filter = s.applied_filter;
    status = kind.status;
  }

  -- the first half of a load, up to its request
  abbrev pub send : State Item Field → List ListParams → Loading Item Field
  send s sent = record { shown = record s { loading = true }; sent = sent ++ (params_of s ∷ []) }

  -- `setPage` and `setAppliedFilter`, and the effect where one of them changes
  abbrev pub show_soon : ℕ → Text → Loading Item Field → Loading Item Field
  show_soon page filter l =
      if (page == l.shown.page) && text_eq filter l.shown.applied_filter
      then l
      else send (record l.shown { page = page; applied_filter = filter }) l.sent

  -- the second half of a load, of a request that was sent with these parameters
  abbrev pub receive :
      Option (ListParams × List ListParams) → Loading Item Field → Loading Item Field
  receive none l = l
  receive (some (params, sent)) l = record {
    shown = loaded kind.load_failed (service.list_page params store) l.shown;
    sent = sent;
  }

  unfoldable pub step : Event → Loading Item Field → Loading Item Field
  step (page_chosen page) l = show_soon page l.shown.applied_filter l
  step (search_rested text) l =
      if kind.skips_same_filter && text_eq (trim text) l.shown.applied_filter
      then record l { shown = record l.shown { search = text } }
      else show_soon 1 (trim text) (record l { shown = record l.shown { search = text } })
  step (answered i) l = receive (take_out i l.sent) l

  unfoldable pub run : List Event → Loading Item Field → Loading Item Field
  unfolding step
  run [] l = l
  run (event ∷ events) l = run events (step event l)

  -- the page as it opens
  abbrev pub mounted : Loading Item Field
  mounted = send (start kind) []

  -- A load that is sent and answered with nothing else under way is the handler's load.
  pub sent-answered :
      (s : State Item Field) → (step (answered 0) (send s [])).shown ≡ load kind service store s
  unfolding step load
  sent-answered s = refl

  module _ (server : Serves service) where
    -- with requests under way, the last one asks for what the page is to show; with none, it shows it
    abbrev pub IsUnderWay : List ListParams → State Item Field → Type 0
    IsUnderWay [] s = IsSynced kind service server store s
    IsUnderWay (params ∷ []) s = params ≡ params_of s
    IsUnderWay (params ∷ next ∷ rest) s = IsUnderWay (next ∷ rest) s

    send-IsUnderWay :
        (sent : List ListParams) (s : State Item Field)
        → IsUnderWay (sent ++ (params_of s ∷ [])) (record s { loading = true })
    send-IsUnderWay [] s = refl
    send-IsUnderWay (params ∷ []) s = refl
    send-IsUnderWay (params ∷ next ∷ rest) s = send-IsUnderWay (next ∷ rest) s

    searched-IsUnderWay :
        (sent : List ListParams) (s : State Item Field) (text : Text)
        → IsUnderWay sent s
        → IsUnderWay sent (record s { search = text })
    searched-IsUnderWay [] s text h = h
    searched-IsUnderWay (params ∷ []) s text h = h
    searched-IsUnderWay (params ∷ next ∷ rest) s text h = searched-IsUnderWay (next ∷ rest) s text h

    -- an answer that shows other rows leaves what is asked for
    kept-IsUnderWay :
        (next : ListParams) (rest : List ListParams) (s t : State Item Field)
        → params_of s ≡ params_of t
        → IsUnderWay (next ∷ rest) s
        → IsUnderWay (next ∷ rest) t
    kept-IsUnderWay next [] s t same h = subst (λ params. next ≡ params) same h
    kept-IsUnderWay next (other ∷ rest) s t same h = kept-IsUnderWay other rest s t same h

    answer-IsUnderWay :
        (sent : List ListParams) (s : State Item Field)
        → IsUnderWay sent s
        → let l = receive (take_out 0 sent) (record { shown = s; sent = sent }) in
          IsUnderWay l.sent l.shown
    answer-IsUnderWay [] s h = h
    answer-IsUnderWay (params ∷ []) s h =
        subst
          (λ asked.
            IsSynced kind service server store
              (loaded kind.load_failed (service.list_page asked store) s))
          (sym h)
          (subst (λ res. IsSynced kind service server store (loaded kind.load_failed res s))
            (sym (server.serves (params_of s) store)) (refl, refl))
    answer-IsUnderWay (params ∷ next ∷ rest) s h =
        kept-IsUnderWay next rest s _
          (subst (λ res. params_of s ≡ params_of (loaded kind.load_failed res s))
            (sym (server.serves params store)) refl)
          h

    show_soon-IsUnderWay :
        (page : ℕ) (filter : Text) (l : Loading Item Field)
        → IsUnderWay l.sent l.shown
        → IsUnderWay (show_soon page filter l).sent (show_soon page filter l).shown
    show_soon-IsUnderWay page filter l h =
        if-both {A = Loading Item Field} (λ m. IsUnderWay m.sent m.shown)
          ((page == l.shown.page) && text_eq filter l.shown.applied_filter) h
          (send-IsUnderWay l.sent (record l.shown { page = page; applied_filter = filter }))

    -- only the request that was sent first is answered
    abbrev pub IsInOrder : Event → Type 0
    IsInOrder (answered i) = i ≡ 0
    IsInOrder (page_chosen page) = Unit
    IsInOrder (search_rested text) = Unit

    step-IsUnderWay :
        (event : Event) (l : Loading Item Field)
        → IsInOrder event
        → IsUnderWay l.sent l.shown
        → IsUnderWay (step event l).sent (step event l).shown
    unfolding step
    step-IsUnderWay (page_chosen page) l in_order h =
        show_soon-IsUnderWay page l.shown.applied_filter l h
    step-IsUnderWay (search_rested text) l in_order h =
        if-both {A = Loading Item Field} (λ m. IsUnderWay m.sent m.shown)
          (kind.skips_same_filter && text_eq (trim text) l.shown.applied_filter)
          (searched-IsUnderWay l.sent l.shown text h)
          (show_soon-IsUnderWay 1 (trim text)
            (record l { shown = record l.shown { search = text } })
            (searched-IsUnderWay l.sent l.shown text h))
    step-IsUnderWay (answered zero) l in_order h = answer-IsUnderWay l.sent l.shown h
    step-IsUnderWay (answered (suc i)) l in_order h = absurd (omega arith)

    run-IsUnderWay :
        (events : List Event) (l : Loading Item Field)
        → All IsInOrder events
        → IsUnderWay l.sent l.shown
        → IsUnderWay (run events l).sent (run events l).shown
    unfolding run
    run-IsUnderWay [] l in_order h = h
    run-IsUnderWay (event ∷ events) l (now, later) h =
        run-IsUnderWay events (step event l) later (step-IsUnderWay event l now h)

    -- Against a server that answers every page of its lists, whose rows do not change: a page opens, and
    -- pages are chosen and searches rest while requests are still under way. Where the answers arrive in
    -- the order of the requests and all of them have arrived, the rows shown are the chosen page of the
    -- server's list under the applied filter, and the number of pages is that of this list.
    pub run-settled :
        (events : List Event)
        → All IsInOrder events
        → (run events mounted).sent ≡ []
        → IsSynced kind service server store (run events mounted).shown
    run-settled events in_order settled =
        subst (λ sent. IsUnderWay sent (run events mounted).shown) settled
          (run-IsUnderWay events mounted in_order refl)
