-- ===== src/Catalogue/Samples.antt =====
-- Servers and rows for the tests of the pages of the administration, client/src/app/pages/admin/.
use sigecat_oraculos.Prelude.{
  ℕ, ◌+◌, Bool, true, false, not, any, none, some, List, [], ◌∷◌, map, filter, includes, Text, txt,
  text_eq, if◌then◌else◌, ◌≡◌, refl, Result, ok, err, arith,
}
use sigecat_oraculos.Logs.Recent.{answer}
use sigecat_oraculos.Services.{ServiceError, Service}
use sigecat_oraculos.Catalogue.Refinement.{Serves}
use sigecat_oraculos.Catalogue.Organization.{Area, AreaPayload}
use sigecat_oraculos.Catalogue.Functions.{TimedFunction, FunctionPayload, function_in_use}

abbrev pub area : Text → Text → Area
area id name = record { area_id = id; name = name; description = none }

abbrev pub duplicate : ServiceError
duplicate = record { code = txt "DUPLICATE"; message = some (txt "Ya existe.") }

abbrev pub matching : Text → List Area → List Area
matching text store = filter (λ a. includes a.name text) store

abbrev pub unless : Bool → List Area → List Area → List Area × Result {0, 0} ServiceError Unit
unless true before after = (before, err duplicate)
unless false before after = (after, ok tt)

abbrev pub create_area : AreaPayload → List Area → List Area × Result {0, 0} ServiceError Unit
create_area payload store =
    unless (any (λ a. text_eq a.name payload.name) store) store
      (area payload.name payload.name ∷ store)

-- a server that keeps its areas in a list and refuses a second one of a name
abbrev pub area_server : Service (List Area) Area AreaPayload
area_server = record {
  list_page = λ params store. ok (answer (matching params.filter store) params.limit params.page);
  create = create_area;
  update = λ id payload store.
      (map (λ a. if text_eq a.area_id id then area id payload.name else a) store, ok tt);
  remove = λ id store. (filter (λ a. not (text_eq a.area_id id)) store, ok tt);
}

pub unless-refused :
    (test : Bool) (before after : List Area) (e : ServiceError)
    → (unless test before after).1 ≡ err e
    → (unless test before after).0 ≡ before
unless-refused true before after e h = refl
unless-refused false before after e h = ground arith

pub never-refused :
    {A : Type 0} {a b : A} (answer : Result {0, 0} ServiceError Unit) (e : ServiceError)
    → answer ≡ ok tt
    → answer ≡ err e
    → a ≡ b
never-refused answer e g h = ground arith

abbrev pub area_server-Serves : Serves area_server
area_server-Serves = record {
  listing = λ store text status. matching text store;
  serves = λ params store. refl;
  create_refused = λ payload store e h.
      unless-refused (any (λ a. text_eq a.name payload.name) store) store
        (area payload.name payload.name ∷ store) e h;
  update_refused = λ id payload store e h. never-refused (ok tt) e refl h;
  remove_refused = λ id store e h. never-refused (ok tt) e refl h;
}

abbrev pub eleven : List Area
eleven =
    area (txt "1") (txt "a")
    ∷ area (txt "2") (txt "b")
    ∷ area (txt "3") (txt "c")
    ∷ area (txt "4") (txt "d")
    ∷ area (txt "5") (txt "e")
    ∷ area (txt "6") (txt "f")
    ∷ area (txt "7") (txt "g")
    ∷ area (txt "8") (txt "h")
    ∷ area (txt "9") (txt "i")
    ∷ area (txt "10") (txt "j")
    ∷ area (txt "11") (txt "k")
    ∷ []

abbrev pub in_use : ServiceError
in_use = record { code = function_in_use; message = some (txt "En uso.") }

abbrev pub update_if : Bool → ℕ → ℕ × Result {0, 0} ServiceError Unit
update_if true store = (store + 1, ok tt)
update_if false store = (store, err in_use)

abbrev pub update_function : Text → FunctionPayload → ℕ → ℕ × Result {0, 0} ServiceError Unit
update_function id payload store = update_if payload.confirm store

-- a server of functions that all are in use; it counts the updates
abbrev pub function_server : Service ℕ TimedFunction FunctionPayload
function_server = record {
  list_page = λ params store. ok (answer [] params.limit params.page);
  create = λ payload store. (store, ok tt);
  update = update_function;
  remove = λ id store. (store, ok tt);
}
