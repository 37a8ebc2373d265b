-- ===== src/Tests/Conditions.antt =====
-- The laws of internal/conditions at a list with a Ready condition.
use mathlib.Core.Quot
use restic_backup_operator.Base.{false, some, [], ◌∷◌, ◌≡◌, refl}
use restic_backup_operator.Conditions.{
  Condition, set_condition, get_condition, is_condition_true, condition_false,
}
use restic_backup_operator.Conditions.Laws
use restic_backup_operator.Conditions.Board
use restic_backup_operator.Conditions.Board.{set, remove, write_all, post_all}
use restic_backup_operator.Tests.Samples.{ready}

abbrev not_ready : Condition
not_ready = record ready { status = condition_false; last_transition_time = 9 }

-- The same status keeps its time, another one takes the present.
kept_time : set_condition 70 (ready ∷ []) ready ≡ ready ∷ []
unfolding set_condition
kept_time = refl

new_time :
    set_condition 70 (ready ∷ []) not_ready ≡ record not_ready { last_transition_time = 70 } ∷ []
unfolding set_condition
new_time = refl

get_condition-set_condition_example :
    get_condition (set_condition 70 (ready ∷ []) not_ready) "Ready"
    ≡ some (record not_ready { last_transition_time = 70 })
unfolding get_condition
get_condition-set_condition_example =
    Laws.get_condition-set_condition 70 (ready ∷ []) not_ready "Ready"

is_condition_true-set_condition_example :
    is_condition_true (set_condition 70 (ready ∷ []) not_ready) "Ready" ≡ false
is_condition_true-set_condition_example =
    Laws.is_condition_true-set_condition 70 (ready ∷ []) not_ready "Ready"

write_all_refines_example :
    get_condition (write_all (set 70 not_ready ∷ remove "Stalled" ∷ []) (ready ∷ []))
    ≡ post_all (set 70 not_ready ∷ remove "Stalled" ∷ []) (get_condition (ready ∷ []))
write_all_refines_example =
    Board.write_all_refines (set 70 not_ready ∷ remove "Stalled" ∷ []) (ready ∷ [])
