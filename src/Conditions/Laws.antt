-- ===== src/Conditions/Laws.antt =====
-- What the operations on conditions promise to their callers.
use restic_backup_operator.Base.{
  ℕ, String, Bool, true, false, Option, none, some, List, [], ◌∷◌, ◌≡◌, refl, sym, subst, arith,
  ◌==◌, eq_iff, eq_refl, if◌then◌else◌,
}
use restic_backup_operator.Conditions.{
  ConditionStatus, Condition, same_status, place, set_condition, get_condition, is_condition_true,
  keep_others, remove_condition, condition_true, condition_false, condition_unknown,
  ready_condition, not_ready_condition, unknown_condition,
}

-- The time that a written condition carries: the old one where the status stays, else the present.
abbrev pub transition_time : ℕ → Option Condition → ConditionStatus → ℕ
transition_time now none status = now
transition_time now (some old) status =
    if same_status old.status status then old.last_transition_time else now

get_condition-place :
    (cs : List Condition) (c : Condition) (type : String)
    → get_condition (place cs c) type ≡ (
        if c.type == type
        then some (record c {
          last_transition_time =
              transition_time c.last_transition_time (get_condition cs c.type) c.status;
        })
        else get_condition cs type)
unfolding get_condition place
get_condition-place [] c type = refl
get_condition-place (old ∷ cs) c type = ground (
  arith,
  eq_iff old.type c.type,
  eq_iff c.type type,
  eq_iff old.type type,
  get_condition-place cs c type,
)

-- After `set_condition` a lookup of the written type gives the condition, with the old transition
-- time where a condition of that type and status was there and the present time otherwise; a lookup
-- of any other type gives what it gave before.
pub get_condition-set_condition :
    (now : ℕ) (cs : List Condition) (c : Condition) (type : String)
    → get_condition (set_condition now cs c) type ≡ (
        if c.type == type
        then some (record c {
          last_transition_time = transition_time now (get_condition cs c.type) c.status;
        })
        else get_condition cs type)
unfolding set_condition
get_condition-set_condition now cs c type = get_condition-place cs _ type

place_again :
    (cs : List Condition) (c : Condition) (now : ℕ)
    → place (place cs c) (record c { last_transition_time = now }) ≡ place cs c
unfolding place
place_again [] c now = ground (arith, eq_refl c.type)
place_again (old ∷ cs) c now =
    ground (arith, eq_iff old.type c.type, eq_refl c.type, place_again cs c now)

-- Writing the same condition a second time, at any later or earlier time, changes nothing: a
-- reconciliation that finds the same state again keeps the transition time.
set_condition_idem :
    (now again : ℕ) (cs : List Condition) (c : Condition)
    → set_condition again (set_condition now cs c) c ≡ set_condition now cs c
unfolding set_condition
set_condition_idem now again cs c = place_again cs (record c { last_transition_time = now }) again

same_status_refl : (s : ConditionStatus) → same_status s s ≡ true
same_status_refl condition_true = refl
same_status_refl condition_false = refl
same_status_refl condition_unknown = refl

-- The head is the condition, or it has another type.
place-stays_cons :
    (first : Condition) (cs : List Condition) (c : Condition) (since : ℕ) (b : Bool)
    → (first.type == c.type) ≡ b
    → (if b then some first else get_condition cs c.type)
      ≡ some (record c { last_transition_time = since })
    → (get_condition cs c.type ≡ some (record c { last_transition_time = since }) → place cs c ≡ cs)
    → place (first ∷ cs) c ≡ first ∷ cs
unfolding place
place-stays_cons first cs c since true here found later =
    let same : first ≡ record c { last_transition_time = since } = cc in
    subst (λ f. place (f ∷ cs) c ≡ f ∷ cs) (sym same)
      (rw (eq_refl c.type, same_status_refl c.status) refl)
place-stays_cons first cs c since false other found later = rw (other, later found) refl

place-stays :
    (cs : List Condition) (c : Condition) (since : ℕ)
    → get_condition cs c.type ≡ some (record c { last_transition_time = since })
    → place cs c ≡ cs
unfolding get_condition
place-stays [] c since found = cc
place-stays (first ∷ cs) c since found =
    place-stays_cons first cs c since _ refl found (place-stays cs c since)

-- Writing a condition changes nothing where the one of its type is there, from whatever time.
pub set_condition-stays :
    (now : ℕ) (cs : List Condition) (c : Condition) (since : ℕ)
    → get_condition cs c.type ≡ some (record c { last_transition_time = since })
    → set_condition now cs c ≡ cs
unfolding set_condition
set_condition-stays now cs c since found = place-stays cs _ since found

-- No two conditions of the list have the same type.
abbrev UniqueTypes : List Condition → Type 0
UniqueTypes [] = Unit {0}
UniqueTypes (c ∷ cs) = (get_condition cs c.type ≡ none) × UniqueTypes cs

place-UniqueTypes :
    (cs : List Condition) (c : Condition) → UniqueTypes cs → UniqueTypes (place cs c)
unfolding place get_condition
place-UniqueTypes [] c u = (refl, tt)
place-UniqueTypes (old ∷ cs) c u = ground (
  arith,
  eq_iff old.type c.type,
  eq_iff c.type old.type,
  get_condition-place cs c old.type,
  place-UniqueTypes cs c u.1,
)

-- Where no two conditions have the same type, `set_condition` keeps it so.
set_condition-UniqueTypes :
    (now : ℕ) (cs : List Condition) (c : Condition)
    → UniqueTypes cs
    → UniqueTypes (set_condition now cs c)
unfolding set_condition
set_condition-UniqueTypes now cs c u = place-UniqueTypes cs _ u

get_condition-keep_others :
    (cs : List Condition) (gone type : String)
    → get_condition (keep_others cs gone) type
      ≡ (if gone == type then none else get_condition cs type)
unfolding get_condition keep_others
get_condition-keep_others [] gone type = ground arith
get_condition-keep_others (c ∷ cs) gone type = ground (
  arith,
  eq_iff c.type gone,
  eq_iff c.type type,
  eq_iff gone type,
  get_condition-keep_others cs gone type,
)

-- After `remove_condition` no condition of the removed type is left, however many there were, and
-- every other type is looked up as before; on a nil pointer nothing happens.
pub get_condition-remove_condition :
    (cs : List Condition) (gone : String)
    → (remove_condition none gone ≡ none)
      × ((left : List Condition) × (remove_condition (some cs) gone ≡ some left)
          × ((type : String)
              → get_condition left type ≡ (if gone == type then none else get_condition cs type)))
unfolding remove_condition
get_condition-remove_condition cs gone =
    (refl, (keep_others cs gone, refl, λ type. get_condition-keep_others cs gone type))

-- The Ready test after a write of a Ready condition answers by the status that was written.
pub is_condition_true-set_condition :
    (now : ℕ) (cs : List Condition) (c : Condition) (type : String)
    → is_condition_true (set_condition now cs c) type
      ≡ (if c.type == type then same_status c.status condition_true else is_condition_true cs type)
unfolding is_condition_true
is_condition_true-set_condition now cs c type =
    rw get_condition-set_condition (ground (arith, eq_iff c.type type))

-- What a condition of each of the three kinds leaves for the Ready test.
pub ready_write :
    (now then_ : ℕ) (cs : List Condition) (reason message : String)
    → is_condition_true (set_condition now cs (ready_condition then_ reason message)) "Ready" ≡ true
unfolding ready_condition
ready_write now then_ cs reason message = rw is_condition_true-set_condition

pub not_ready_write :
    (now then_ : ℕ) (cs : List Condition) (reason message : String)
    → is_condition_true (set_condition now cs (not_ready_condition then_ reason message)) "Ready"
      ≡ false
unfolding not_ready_condition
not_ready_write now then_ cs reason message = rw is_condition_true-set_condition

pub unknown_write :
    (now then_ : ℕ) (cs : List Condition) (reason message : String)
    → is_condition_true (set_condition now cs (unknown_condition then_ reason message)) "Ready"
      ≡ false
unfolding unknown_condition
unknown_write now then_ cs reason message = rw is_condition_true-set_condition
