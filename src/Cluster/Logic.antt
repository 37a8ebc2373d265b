-- ===== src/Cluster/Logic.antt =====
-- Rules for what a handler guarantees: `R` of the outcome and trace with which it stops, `Q` of the
-- value and trace with which it goes on.
use restic_backup_operator.Base.{◌≡◌, refl}
use restic_backup_operator.Cluster.{
  Trace, Handler, Exit, stop, go, Outcome, Reply, accepted, refused, continue, or_fail, or_ignore,
  outcome_of, run_handler,
}

pub data Meets {A : Type 0} (R : Outcome → Trace → Type 0) (Q : A → Trace → Type 0)
    : Exit A × Trace → Type 0 where
  stopped : {o : Outcome} {t : Trace} → R o t → Meets R Q (stop o, t)
  goes : {a : A} {t : Trace} → Q a t → Meets R Q (go a, t)

module _ {A B : Type 0} {R : Outcome → Trace → Type 0} where
  pub Meets-continue :
      {P : A → Trace → Type 0} {Q : B → Trace → Type 0} {x : Exit A × Trace} {f : A → Handler B}
      → Meets R P x
      → ((a : A) (t : Trace) → P a t → Meets R Q (f a t))
      → Meets R Q (continue x f)
  Meets-continue (stopped r) k = stopped r
  Meets-continue (goes {a} {t} q) k = k a t q

-- The answer to a write, where an error is returned at once.
pub Meets-or_fail :
    {A : Type 0} {R : Outcome → Trace → Type 0} {Q : A → Trace → Type 0} (reply : Reply A)
    (t : Trace)
    → ((o : Outcome) → R o t)
    → ((a : A) → reply ≡ accepted a → Q a t)
    → Meets R Q (or_fail reply t)
Meets-or_fail (accepted a) t on_stop on_go = goes (on_go a refl)
Meets-or_fail (refused e) t on_stop on_go = stopped (on_stop _)

-- The answer to the first read.
pub Meets-or_ignore :
    {A : Type 0} {R : Outcome → Trace → Type 0} {Q : A → Trace → Type 0} (reply : Reply A)
    (t : Trace)
    → ((o : Outcome) → R o t)
    → ((a : A) → reply ≡ accepted a → Q a t)
    → Meets R Q (or_ignore reply t)
Meets-or_ignore (accepted a) t on_stop on_go = goes (on_go a refl)
Meets-or_ignore (refused e) t on_stop on_go = stopped (on_stop _)

-- A postcondition of all ends is one of the outcome and the trace.
pub Meets-run_handler :
    {R : Outcome → Trace → Type 0} (m : Handler Outcome) (t : Trace)
    → Meets R R (m t)
    → R (run_handler m t).0 (run_handler m t).1
Meets-run_handler {R} m t h = at_end h
  where
    at_end : {x : Exit Outcome × Trace} → Meets R R x → R (outcome_of x.0) x.1
    at_end (stopped r) = r
    at_end (goes q) = q
