-- ===== src/Conditions.antt =====
-- internal/conditions/conditions.go: the list of conditions in a resource's status. A function that
-- mutates the slice behind a pointer returns the new list; the time of `time.Now()` is an argument.
pub mod Laws
pub mod Board
use restic_backup_operator.Base.{
  ℕ, String, Bool, true, false, not, ◌&&◌, Option, none, some, List, [], ◌∷◌, ◌==◌, if◌then◌else◌,
}

-- `metav1.ConditionStatus`, an enumeration of the Kubernetes API.
pub data ConditionStatus : Type 0 where
  condition_true condition_false condition_unknown : ConditionStatus

abbrev pub same_status : ConditionStatus → ConditionStatus → Bool
same_status condition_true condition_true = true
same_status condition_false condition_false = true
same_status condition_unknown condition_unknown = true
same_status _ _ = false

-- `metav1.Condition`, with the fields that this program sets.
pub record Condition : Type 0 where
  pub type : String
  pub status : ConditionStatus
  pub reason : String
  pub message : String
  pub last_transition_time : ℕ

-- The loop of `SetCondition` and the `append` after it; `c` already carries the present time.
place : List Condition → Condition → List Condition
place [] c = c ∷ []
place (old ∷ rest) c =
    if old.type == c.type
    then (if same_status old.status c.status
        then record c { last_transition_time = old.last_transition_time } ∷ rest
        else c ∷ rest)
    else old ∷ place rest c

-- `SetCondition` on the slice of a status, whose address is never nil.
unfoldable pub set_condition : ℕ → List Condition → Condition → List Condition
unfolding place
set_condition now cs c = place cs (record c { last_transition_time = now })

-- `SetCondition` on a pointer, where nil is `none`.
unfoldable pub set_condition_at : ℕ → Option (List Condition) → Condition → Option (List Condition)
unfolding set_condition
set_condition_at now none c = none
set_condition_at now (some cs) c = some (set_condition now cs c)

unfoldable pub get_condition : List Condition → String → Option Condition
get_condition [] type = none
get_condition (c ∷ cs) type = if c.type == type then some c else get_condition cs type

abbrev has_status : ConditionStatus → Option Condition → Bool
has_status s none = false
has_status s (some c) = same_status c.status s

unfoldable pub is_condition_true : List Condition → String → Bool
is_condition_true cs type = has_status condition_true (get_condition cs type)

unfoldable pub is_condition_false : List Condition → String → Bool
is_condition_false cs type = has_status condition_false (get_condition cs type)

unfoldable pub is_condition_unknown : List Condition → String → Bool
is_condition_unknown cs type = has_status condition_unknown (get_condition cs type)

-- The loop of `RemoveCondition`.
keep_others : List Condition → String → List Condition
keep_others [] type = []
keep_others (c ∷ cs) type =
    let rest = keep_others cs type in if not (c.type == type) then c ∷ rest else rest

unfoldable pub remove_condition : Option (List Condition) → String → Option (List Condition)
unfolding keep_others
remove_condition none type = none
remove_condition (some cs) type = some (keep_others cs type)

unfoldable pub new_condition : ℕ → String → ConditionStatus → String → String → Condition
new_condition now type status reason message = record {
  type = type;
  status = status;
  reason = reason;
  message = message;
  last_transition_time = now;
}

unfoldable pub ready_condition : ℕ → String → String → Condition
unfolding new_condition
ready_condition now reason message = new_condition now "Ready" condition_true reason message

unfoldable pub not_ready_condition : ℕ → String → String → Condition
unfolding new_condition
not_ready_condition now reason message = new_condition now "Ready" condition_false reason message

unfoldable pub unknown_condition : ℕ → String → String → Condition
unfolding new_condition
unknown_condition now reason message = new_condition now "Ready" condition_unknown reason message
