-- ===== src/RestTime.antt =====
-- The rest times that an employee may declare: the tables and `validateRestTimeDuration` of
-- client/src/services/restTimeService.ts. A duration that is no whole number counts as NaN.
pub mod Validation
pub mod Opening
pub mod Page
pub mod PageLaws
pub mod Accepted
mod Tests
use sigecat_oraculos.Prelude.{
  ℕ, Option, none, some, ◌++◌, Text, txt, ltb, Bool, true, false, ◌||◌, not, if◌then◌else◌,
}
use sigecat_oraculos.Js.Numbers.{Number, nan, nat, neg, nat_text}
use sigecat_oraculos.Declarations.{RestType, breakfast, coffee, dinner, lunch}

unfoldable pub rest_type_name : RestType → Text
rest_type_name breakfast = txt "Breakfast"
rest_type_name coffee = txt "Coffee"
rest_type_name dinner = txt "Dinner"
rest_type_name lunch = txt "Lunch"

unfoldable pub rest_time_max_minutes : RestType → ℕ
rest_time_max_minutes coffee = 30
rest_time_max_minutes breakfast = 60
rest_time_max_minutes dinner = 60
rest_time_max_minutes lunch = 60

unfoldable pub rest_type_labels : RestType → Text
rest_type_labels breakfast = txt "Desayuno"
rest_type_labels coffee = txt "Café"
rest_type_labels dinner = txt "Cena"
rest_type_labels lunch = txt "Almuerzo"

-- `!Number.isInteger(d) || d <= 0`
abbrev pub is_not_positive : Number → Bool
is_not_positive nan = true
is_not_positive (neg n) = true
is_not_positive (nat n) = not (ltb 0 n)

-- `d > max`
abbrev pub exceeds : Number → ℕ → Bool
exceeds (nat n) k = ltb k n
exceeds _ k = false

unfoldable pub validate_rest_time_duration : RestType → Number → Option Text
unfolding rest_time_max_minutes
validate_rest_time_duration rest_type duration =
    if is_not_positive duration
    then some (txt "La duración debe ser un número entero mayor a 0")
    else if exceeds duration (rest_time_max_minutes rest_type)
    then some (
        txt "La duración del descanso '"
        ++ (rest_type_name rest_type
            ++ (txt "' no puede exceder los "
                ++ (nat_text (rest_time_max_minutes rest_type) ++ txt " minutos"))))
    else none
