-- ===== src/RestTime/Tests.antt =====
-- A rest time at the limit of its type.
use sigecat_oraculos.Prelude.{
  ℕ, ◌+◌, ◌≡◌, arith, none, some, true, List, [], ◌∷◌, All, txt, refl, sym, ap, subst, Result, ok,
}
use sigecat_oraculos.Services.{ServiceError}
use sigecat_oraculos.RestTime.Page.{
  Api, declared, Event, mounted, type_chosen, hours_entered, minutes_entered, add_clicked,
  remove_clicked, run, initial, validate, total_input_minutes,
}
use sigecat_oraculos.RestTime.Accepted.{IsAccepted, IsHonest, run-AllAccepted}
use sigecat_oraculos.Js.Numbers.{nat, add, times}
use sigecat_oraculos.Reports.Minutes.{entered_minutes}
use sigecat_oraculos.Declarations.{coffee, lunch, RestTime}
use sigecat_oraculos.RestTime.{rest_time_max_minutes}

abbrev coffee_time : RestTime
coffee_time = record { rest_time_id = txt "r1"; rest_type = coffee; duration_minutes = 15 }

abbrev server : Api ℕ
server = record {
  check_incomplete = λ n. ok (record { has_incomplete = true; declaration_id = some (txt "d") });
  get_declaration = λ id n. ok tt;
  rest_times_of = λ id n. ok (coffee_time ∷ []);
  create = λ payload n. (
    n + 1,
    ok (record { rest_time_id = txt "r2"; rest_type = payload.rest_type; duration_minutes = 20 }),
  );
  delete = λ id n. (n + 1, ok tt);
}

answer_unique :
    {A : Type 0} {x y : A} (answer : Result {0, 0} ServiceError A)
    → answer ≡ ok x
    → answer ≡ ok y
    → x ≡ y
answer_unique answer e h = cc

listed : All (λ r. IsAccepted 10 (declared 10 r)) (coffee_time ∷ [])
unfolding rest_time_max_minutes
listed = ((150, refl, omega arith, omega arith), tt)

server-IsHonest : IsHonest 10 server
server-IsHonest = record {
  lists = λ id n rows e.
      subst (All (λ r. IsAccepted 10 (declared 10 r)))
        (answer_unique (server.rest_times_of id n) refl e) listed;
  creates = λ payload n created e.
      sym (ap (λ r. r.rest_type) (answer_unique ((server.create payload n).1) refl e));
}

-- an hour, then half an hour more, then ten minutes and a half, in tenths
abbrev morning : List Event
morning =
    mounted none
    ∷ type_chosen (some lunch)
    ∷ hours_entered (some (nat 10))
    ∷ add_clicked
    ∷ minutes_entered (some (nat 300))
    ∷ add_clicked
    ∷ type_chosen (some coffee)
    ∷ minutes_entered (some (nat 105))
    ∷ add_clicked
    ∷ remove_clicked (txt "r1")
    ∷ []

run-AllAccepted_example : All (IsAccepted 10) ((run 10 server morning 0 initial).1).rest_times
run-AllAccepted_example = run-AllAccepted 10 server server-IsHonest morning 0

-- ten minutes and a half pass the form
fraction_passes :
    validate 10 (record initial { rest_type = some coffee; duration_minutes = some (nat 105) })
    ≡ true
unfolding validate total_input_minutes entered_minutes add times rest_time_max_minutes
fraction_passes = refl
