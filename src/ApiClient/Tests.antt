-- ===== src/ApiClient/Tests.antt =====
-- Two requests that fail while the tokens are refreshed, and one with no session.
use sigecat_oraculos.ApiClient.Progress.{IsSettled, answered, Run-settles}
use sigecat_oraculos.Prelude.{
  Option, Text, ◌⊎◌, ◌+◌, ◌≡◌, refl, true, false, some, none, List, [], ◌∷◌, txt,
}
use sigecat_oraculos.Session.Storage.{Storage, get_refresh_token}
use sigecat_oraculos.ApiClient.{Request, Client, init, on_error, on_refreshed}
use sigecat_oraculos.ApiClient.Events.{Run, start, fails, refreshes, IsConsistent, Run-IsConsistent}
use sigecat_oraculos.ApiClient.Settlement.{count, count_rejected, settled_once}

abbrev session : Storage
session key = some (txt "valor")

abbrev no_session : Storage
no_session key = none

abbrev first : Request
first = record { id = 1; url = txt "/areas"; retry = false }

abbrev second : Request
second = record { id = 2; url = txt "/units"; retry = false }

abbrev tried : Request
tried = record { id = 1; url = txt "/areas"; retry = true }

abbrev waits : Client
unfolding on_error
waits = on_error (some 401) second (on_error (some 401) first (init session))

abbrev done : Client
unfolding on_refreshed
done = on_refreshed (txt "a2") (txt "r2") tried waits

abbrev requests : List Request
requests = second ∷ first ∷ []

run : Run session requests done
unfolding waits done on_error get_refresh_token
run =
    refreshes (txt "a2") (txt "r2") tried (fails (some 401) second (fails (some 401) first start))
      refl

Run-IsConsistent_example : IsConsistent done
Run-IsConsistent_example = Run-IsConsistent run

settled_once_example : count 2 done.resent + count_rejected 2 done.rejected ≡ count 2 requests
unfolding done on_refreshed
settled_once_example = settled_once 2 run refl

-- a request that is refused with no session goes to the login
refused_goes_to_login : (on_error (some 401) first (init no_session)).at_login ≡ true
unfolding on_error get_refresh_token
refused_goes_to_login = refl

Run-settles_example :
    IsSettled requests waits
    ⊎ ((r : Request) × (waits.waiting ≡ some r)
        × ((answer : Option (Text × Text))
            → Run session requests (answered answer r waits)
              × IsSettled requests (answered answer r waits)))
unfolding waits
Run-settles_example = Run-settles (fails (some 401) second (fails (some 401) first start))
