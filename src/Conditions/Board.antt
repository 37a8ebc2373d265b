-- ===== src/Conditions/Board.antt =====
-- The list of conditions as its callers see it: a function from types to conditions. The order of the list,
-- and a second condition of a type, are forgotten.
use mathlib.Core.Path.{fun_ext}
use mathlib.Core.Quot
use mathlib.Core.Quot.{Quot, Quot-set}
use restic_backup_operator.Base.{
  ℕ, String, Option, none, some, List, [], ◌∷◌, ◌≡◌, refl, sym, ◌∙◌, ap, ◌==◌, if◌then◌else◌,
}
use restic_backup_operator.Conditions.{Condition, set_condition, get_condition, remove_condition}
use restic_backup_operator.Conditions.Laws.{
  transition_time, get_condition-set_condition, get_condition-remove_condition,
}

-- The writes of a client, a condition at a time and the removal of a type.
pub data Write : Type 0 where
  set : ℕ → Condition → Write
  remove : String → Write

abbrev pub Board : Type 0
Board = String → Option Condition

-- What a write means: one type changes, and the time changes where the status does.
unfoldable pub post : Write → Board → Board
post (set now c) board type =
    if c.type == type
    then some (record c { last_transition_time = transition_time now (board c.type) c.status })
    else board type
post (remove gone) board type = if gone == type then none else board type

unfoldable pub post_all : List Write → Board → Board
unfolding post
post_all [] board = board
post_all (w ∷ ws) board = post_all ws (post w board)

abbrev pub what_is_left : List Condition → Option (List Condition) → List Condition
what_is_left cs none = cs
what_is_left cs (some left) = left

-- The same writes on the list, by the code.
abbrev pub write : Write → List Condition → List Condition
write (set now c) cs = set_condition now cs c
write (remove gone) cs = what_is_left cs (remove_condition (some cs) gone)

unfoldable pub write_all : List Write → List Condition → List Condition
write_all [] cs = cs
write_all (w ∷ ws) cs = write_all ws (write w cs)

get_condition-write :
    (w : Write) (cs : List Condition) → get_condition (write w cs) ≡ post w (get_condition cs)
unfolding post
get_condition-write (set now c) cs = fun_ext (get_condition-set_condition now cs c)
get_condition-write (remove gone) cs =
    let (_, (left, removed, looked_up)) = get_condition-remove_condition cs gone in
    ap (λ kept. get_condition (what_is_left cs kept)) removed ∙ fun_ext looked_up

-- Two lists that no lookup tells apart.
abbrev pub SameLookups : List Condition → List Condition → Type 0
SameLookups cs ds = get_condition cs ≡ get_condition ds

-- A status is a list of conditions up to what lookups tell.
abbrev pub Status : Type 0
Status = Quot SameLookups

pub write-SameLookups :
    (w : Write) (cs ds : List Condition) → SameLookups cs ds → SameLookups (write w cs) (write w ds)
write-SameLookups w cs ds same =
    get_condition-write w cs ∙ (ap (post w) same ∙ sym (get_condition-write w ds))

unfoldable pub write_status : Write → Status → Status
write_status w =
    Quot.lift Quot-set (λ cs. Quot.mk (write w cs))
      (λ cs ds same. Quot.sound (write-SameLookups w cs ds same))

abbrev pub type_of : Write → String
type_of (set now c) = c.type
type_of (remove gone) = gone

-- For any sequence of writes, lookups in the list that the code leaves are lookups in the board that
-- the same writes leave, whatever list they start from.
pub write_all_refines :
    (ws : List Write) (cs : List Condition)
    → get_condition (write_all ws cs) ≡ post_all ws (get_condition cs)
unfolding write_all post_all
write_all_refines [] cs = refl
write_all_refines (w ∷ ws) cs =
    write_all_refines ws (write w cs) ∙ ap (post_all ws) (get_condition-write w cs)
