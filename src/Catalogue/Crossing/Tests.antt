-- ===== src/Catalogue/Crossing/Tests.antt =====
-- The second page of eleven areas, asked for while the first is under way.
use sigecat_oraculos.Prelude.{List, [], ◌∷◌, length, ◌≡◌, refl}
use sigecat_oraculos.Catalogue.Organization.{areas}
use sigecat_oraculos.Catalogue.Refinement.{IsSynced}
use sigecat_oraculos.Catalogue.Crossing.{
  Event, page_chosen, answered, step, run, mounted, run-settled,
}
use sigecat_oraculos.Catalogue.Samples.{area_server, area_server-Serves, eleven}

abbrev in_turn : List Event
in_turn = page_chosen 2 ∷ answered 0 ∷ answered 0 ∷ []

run-settled_example :
    IsSynced areas area_server area_server-Serves eleven
      (run areas area_server eleven in_turn (mounted areas area_server eleven)).shown
unfolding run step areas
run-settled_example =
    run-settled areas area_server eleven area_server-Serves in_turn (tt, (refl, (refl, tt))) refl

-- where the first request is answered last, its ten rows stand under the second page
abbrev crossed : List Event
crossed = page_chosen 2 ∷ answered 1 ∷ answered 0 ∷ []

crossed_shows_first :
    (length (run areas area_server eleven crossed (mounted areas area_server eleven)).shown.rows
      ≡ 10)
    × ((run areas area_server eleven crossed (mounted areas area_server eleven)).shown.page ≡ 2)
unfolding run step areas
crossed_shows_first = (refl, refl)
