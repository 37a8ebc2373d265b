-- ===== src/Cluster/Outcomes.antt =====
-- With which outcomes a handler may end: one rule for each way to build a handler.
use restic_backup_operator.Base.{◌<◌, ◌∷◌, Bool, true, false, arith, if◌then◌else◌}
use restic_backup_operator.Cluster.{
  Trace, Call, Handler, Outcome, finished, failed, requeue_after, panicked, Reply, accepted,
  refused, ◌>>=◌, pure, stop_with, call, ask, or_fail,
}
use restic_backup_operator.Cluster.Logic.{Meets, stopped, goes, Meets-continue}

-- The manager runs the reconciler again: at once and then more slowly after an error, or after a
-- time that is not zero, which would mean never.
abbrev pub ComesBack : Outcome → Type 0
ComesBack finished = ⊥
ComesBack (requeue_after d) = 0 < d
ComesBack (failed message) = Unit
ComesBack panicked = ⊥

abbrev pub Anything : {A : Type 0} → A → Type 0
Anything a = Unit {0}

-- Where the handler stops, the reconciler comes back, and the value with which it goes on is a `P`.
pub record Guarantees {A : Type 0} (P : A → Type 0) (m : Handler A) : Type 0 where
  pub at : (t : Trace) → Meets (λ o t'. ComesBack o) (λ a t'. P a) (m t)

module _ {A : Type 0} {P : A → Type 0} where
  pub Guarantees-pure : (a : A) → P a → Guarantees P (pure a)
  Guarantees-pure a p = record { at = λ t. goes p }

  pub Guarantees-stop_with : (o : Outcome) → ComesBack o → Guarantees P (stop_with o)
  Guarantees-stop_with o h = record { at = λ t. stopped h }

  pub Guarantees-if :
      (b : Bool) (m n : Handler A)
      → Guarantees P m
      → Guarantees P n
      → Guarantees P (if b then m else n)
  Guarantees-if true m n pm pn = pm
  Guarantees-if false m n pm pn = pn

module _ {A : Type 0} where
  pub Guarantees-call : (c : Call) (answer : Trace → A) → Guarantees Anything (call c answer)
  Guarantees-call c answer = record { at = λ t. goes tt }

  pub Guarantees-ask : (f : Trace → A) → Guarantees Anything (ask f)
  Guarantees-ask f = record { at = λ t. goes tt }

  pub Guarantees-or_fail : (reply : Reply A) → Guarantees Anything (or_fail reply)
  Guarantees-or_fail (accepted a) = record { at = λ t. goes tt }
  Guarantees-or_fail (refused problem) = record { at = λ t. stopped tt }

pub Guarantees-bind :
    {A B : Type 0} {P : B → Type 0} (m : Handler A) (f : A → Handler B)
    → Guarantees Anything m
    → ((a : A) → Guarantees P (f a))
    → Guarantees P (m >>= f)
Guarantees-bind m f gm gf = record {
  at = λ t. Meets-continue {f = f} (gm.at t) (λ a t' u. (gf a).at t');
}

-- A call whose answer is known to the rest of the block.
pub Guarantees-call_then :
    {A B : Type 0} {P : B → Type 0} (c : Call) (answer : Trace → A) (f : A → Handler B)
    → ((t : Trace) → Guarantees P (f (answer t)))
    → Guarantees P (call c answer >>= f)
Guarantees-call_then c answer f gf = record { at = λ t. (gf t).at (c ∷ t) }

pub half_a_minute : 0 < 30_000_000_000
half_a_minute = omega arith

pub ten_seconds : 0 < 10_000_000_000
ten_seconds = omega arith

pub five_minutes : 0 < 300_000_000_000
five_minutes = omega arith

pub one_hour : 0 < 3_600_000_000_000
one_hour = omega arith

pub ruleset outcome_rules = (
  tt, half_a_minute, ten_seconds, five_minutes, one_hour, Guarantees-pure, Guarantees-stop_with,
  Guarantees-if, Guarantees-call, Guarantees-ask, Guarantees-or_fail, Guarantees-bind,
)
