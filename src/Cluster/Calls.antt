-- ===== src/Cluster/Calls.antt =====
-- Which calls a handler may make: one rule for each way to build a handler.
use restic_backup_operator.Base.{Bool, true, false, ◌∷◌, ◌≡◌, if◌then◌else◌}
use restic_backup_operator.Cluster.{
  Trace, Call, Handler, Exit, stop, go, Outcome, Reply, accepted, refused, continue, ◌>>=◌, pure,
  stop_with, call, ask, or_fail, or_ignore, run_handler,
}

-- The second trace is the first one after some calls that are allowed.
pub data Extends (allowed : Call → Bool) (t : Trace) : Trace → Type 0 where
  same : Extends allowed t t
  more :
      {t' : Trace} {c : Call} → Extends allowed t t' → allowed c ≡ true → Extends allowed t (c ∷ t')

pub Extends-trans :
    {allowed : Call → Bool} {t t1 t2 : Trace}
    → Extends allowed t t1
    → Extends allowed t1 t2
    → Extends allowed t t2
Extends-trans first same = first
Extends-trans first (more rest ok) = more (Extends-trans first rest) ok

-- What each allowed call keeps is kept.
pub Extends-induction :
    {allowed : Call → Bool} (I : Trace → Type 0)
    → ((c : Call) (t : Trace) → allowed c ≡ true → I t → I (c ∷ t))
    → {t t' : Trace} → Extends allowed t t'
    → I t
    → I t'
Extends-induction I step same i = i
Extends-induction I step (more rest ok) i = step _ _ ok (Extends-induction I step rest i)

-- The handler makes allowed calls only.
pub record Within {A : Type 0} (allowed : Call → Bool) (m : Handler A) : Type 0 where
  pub at : (t : Trace) → Extends allowed t (m t).1

module _ {allowed : Call → Bool} {A : Type 0} where
  pub Within-pure : (a : A) → Within allowed (pure a)
  Within-pure a = record { at = λ t. same }

  pub Within-stop_with : (o : Outcome) → Within {A = A} allowed (stop_with o)
  Within-stop_with o = record { at = λ t. same }

  pub Within-call :
      (c : Call) (answer : Trace → A) → allowed c ≡ true → Within allowed (call c answer)
  Within-call c answer ok = record { at = λ t. more same ok }

  pub Within-ask : (f : Trace → A) → Within allowed (ask f)
  Within-ask f = record { at = λ t. same }

  pub Within-or_fail : (reply : Reply A) → Within allowed (or_fail reply)
  Within-or_fail (accepted a) = record { at = λ t. same }
  Within-or_fail (refused problem) = record { at = λ t. same }

  pub Within-or_ignore : (reply : Reply A) → Within allowed (or_ignore reply)
  Within-or_ignore (accepted a) = record { at = λ t. same }
  Within-or_ignore (refused problem) = record { at = λ t. same }

  pub Within-if :
      (b : Bool) (m n : Handler A)
      → Within allowed m
      → Within allowed n
      → Within allowed (if b then m else n)
  Within-if true m n wm wn = wm
  Within-if false m n wm wn = wn

pub Within-bind :
    {allowed : Call → Bool} {A B : Type 0} (m : Handler A) (f : A → Handler B)
    → Within allowed m
    → ((a : A) → Within allowed (f a))
    → Within allowed (m >>= f)
Within-bind {allowed} {A} m f wm wf = record { at = λ t. Extends-trans (wm.at t) (after (m t)) }
  where
    after : (x : Exit A × Trace) → Extends allowed x.1 (continue x f).1
    after (stop o, t) = same
    after (go a, t) = (wf a).at t

-- A call whose answer is known to the rest of the block.
pub Within-call_then :
    {allowed : Call → Bool} {A B : Type 0} (c : Call) (answer : Trace → A) (f : A → Handler B)
    → allowed c ≡ true
    → ((t : Trace) → Within allowed (f (answer t)))
    → Within allowed (call c answer >>= f)
Within-call_then c answer f ok wf = record {
  at = λ t. Extends-trans (more same ok) ((wf t).at (c ∷ t));
}

pub Extends-run_handler :
    {allowed : Call → Bool} (m : Handler Outcome) (t : Trace)
    → Within allowed m
    → Extends allowed t (run_handler m t).1
Extends-run_handler m t w = w.at t

pub ruleset within_rules = (
  Within-pure, Within-stop_with, Within-call, Within-ask, Within-or_fail, Within-or_ignore,
  Within-if, Within-bind,
)
