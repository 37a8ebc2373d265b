-- ===== src/Controller/Restore/Lifecycle.antt =====
-- internal/controller/resticrestore_controller.go: one restore over any number of reconciliations, on
-- an API server that holds the phase that was last written to it.
use restic_backup_operator.Base.{
  ℕ, zero, suc, ◌+◌, ◌≤◌, Option, none, some, [], ◌∷◌, ◌≡◌, refl, sym, subst, arith,
}
use restic_backup_operator.Api.Meta.{NamespacedName}
use restic_backup_operator.Api.Restore.{
  ResticRestore, RestorePhase, unset, pending, in_progress, completed, failed, other,
}
use restic_backup_operator.Cluster.{
  Trace, Env, Reply, accepted, refused, get, restores, update_restore, update_restore_status,
}
use restic_backup_operator.Controller.Restore.{reconcile}
use restic_backup_operator.Controller.Restore.Phases.{known, learn, AllJustified, Edge, FromKnown}
use restic_backup_operator.Controller.Restore.Phases.Laws.{reconcile-KeepsPhases}

-- The life of a restore.
pub data Step : RestorePhase → RestorePhase → Type 0 where
  initialized : Step unset pending
  started : Step pending in_progress
  rejected : Step pending failed
  succeeded : Step in_progress completed
  broke : Step in_progress failed

pub data Reaches (start : RestorePhase) : RestorePhase → Type 0 where
  here : Reaches start start
  next : {p q : RestorePhase} → Reaches start p → Step p q → Reaches start q

abbrev pub IsTerminal : RestorePhase → Type 0
IsTerminal completed = Unit
IsTerminal failed = Unit
IsTerminal _ = ⊥

-- The phase that a status write leaves on the server.
abbrev pub settle : Reply ResticRestore → RestorePhase → RestorePhase → RestorePhase
settle (accepted _) sent old = sent
settle (refused _) sent old = old

abbrev pub one_if_accepted : Reply ResticRestore → ℕ
one_if_accepted (accepted _) = 1
one_if_accepted (refused _) = 0

-- How far along its life a phase is.
abbrev pub rank : RestorePhase → ℕ
rank unset = 0
rank pending = 1
rank in_progress = 2
rank _ = 3

module _ (e : Env) (start : RestorePhase) where
  unfoldable pub stored : Trace → RestorePhase
  stored [] = start
  stored (update_restore_status r ∷ t) = settle (e.put_restore_status t r) r.status.phase (stored t)
  stored (_ ∷ t) = stored t

  -- The status writes that the server accepted.
  unfoldable pub status_writes : Trace → ℕ
  status_writes [] = 0
  status_writes (update_restore_status r ∷ t) =
      one_if_accepted (e.put_restore_status t r) + status_writes t
  status_writes (_ ∷ t) = status_writes t

  -- What the server answers with carries the phase that it holds; a write of the object alone
  -- does not touch the status, which is a subresource.
  pub record IsFaithful : Type 0 where
    pub on_get :
        (t : Trace) (name : NamespacedName) (r : ResticRestore)
        → e.get_restore t name ≡ accepted r
        → r.status.phase ≡ stored t
    pub on_put :
        (t : Trace) (r r' : ResticRestore)
        → e.put_restore t r ≡ accepted r'
        → r'.status.phase ≡ stored t
    pub on_put_status :
        (t : Trace) (r r' : ResticRestore)
        → e.put_restore_status t r ≡ accepted r'
        → r'.status.phase ≡ r.status.phase

  -- `n` reconciliations, one after the other.
  unfoldable pub reconcile_times : ℕ → NamespacedName → Trace
  reconcile_times zero name = []
  reconcile_times (suc n) name = (reconcile e name (reconcile_times n name)).1

  reconcile_times-AllJustified :
      (n : ℕ) (name : NamespacedName) → AllJustified e (reconcile_times n name)
  unfolding reconcile_times
  reconcile_times-AllJustified zero name = tt
  reconcile_times-AllJustified (suc n) name =
      reconcile-KeepsPhases e name _ (reconcile_times-AllJustified n name)

  abbrev IsStored : RestorePhase → Option ResticRestore → Type 0
  IsStored p none = Unit
  IsStored p (some r) = r.status.phase ≡ p

  learn-IsStored :
      (p : RestorePhase) (old : Option ResticRestore) (reply : Reply ResticRestore)
      → ((r : ResticRestore) → reply ≡ accepted r → r.status.phase ≡ p)
      → IsStored p old
      → IsStored p (learn reply old)
  learn-IsStored p old (accepted r) holds k = holds r refl
  learn-IsStored p old (refused problem) holds k = k

  settle-IsStored :
      (sent p : RestorePhase) (old : Option ResticRestore) (reply : Reply ResticRestore)
      → ((r : ResticRestore) → reply ≡ accepted r → r.status.phase ≡ sent)
      → IsStored p old
      → IsStored (settle reply sent p) (learn reply old)
  settle-IsStored sent p old (accepted r) holds k = holds r refl
  settle-IsStored sent p old (refused problem) holds k = k

  -- What the controller knows of the phase is what the server holds.
  known-IsStored : IsFaithful → (t : Trace) → IsStored (stored t) (known e t)
  unfolding stored
  known-IsStored f [] = tt
  known-IsStored f (get restores name ∷ t) =
      learn-IsStored _ _ _ (f.on_get t name) (known-IsStored f t)
  known-IsStored f (update_restore sent ∷ t) =
      learn-IsStored _ _ _ (f.on_put t sent) (known-IsStored f t)
  known-IsStored f (update_restore_status sent ∷ t) =
      settle-IsStored _ _ _ _ (f.on_put_status t sent) (known-IsStored f t)
  known-IsStored f (_ ∷ t) = known-IsStored f t

  Edge-Step : (t : Trace) (p q : RestorePhase) → Edge e t p q → Step p q
  Edge-Step t unset pending edge = initialized
  Edge-Step t pending in_progress edge = started
  Edge-Step t pending failed edge = rejected
  Edge-Step t in_progress completed edge = succeeded
  Edge-Step t in_progress failed edge = broke
  Edge-Step t _ _ edge = elim edge [ ]

  known-Step :
      (t : Trace) (p q : RestorePhase) (o : Option ResticRestore)
      → IsStored p o
      → FromKnown e (λ from. Edge e t from q) o
      → Step p q
  known-Step t p q none held edge = elim edge [ ]
  known-Step t p q (some r) held edge = Edge-Step t p q (subst (λ from. Edge e t from q) held edge)

  settle-Reaches :
      (p q : RestorePhase) (reply : Reply ResticRestore)
      → Reaches start p
      → Step p q
      → Reaches start (settle reply q p)
  settle-Reaches p q (accepted _) path step = next path step
  settle-Reaches p q (refused _) path step = path

  stored-Reaches : IsFaithful → (t : Trace) → AllJustified e t → Reaches start (stored t)
  unfolding stored
  stored-Reaches f [] j = here
  stored-Reaches f (update_restore_status sent ∷ t) (edge, j) =
      settle-Reaches _ _ _ (stored-Reaches f t j) (known-Step t _ _ _ (known-IsStored f t) edge)
  stored-Reaches f (_ ∷ t) (_, j) = stored-Reaches f t j

  settle-rank :
      (p q : RestorePhase) (reply : Reply ResticRestore) (n : ℕ)
      → n + rank start ≤ rank p
      → Step p q
      → one_if_accepted reply + n + rank start ≤ rank (settle reply q p)
  settle-rank p q (accepted _) n h initialized = omega arith
  settle-rank p q (accepted _) n h started = omega arith
  settle-rank p q (accepted _) n h rejected = omega arith
  settle-rank p q (accepted _) n h succeeded = omega arith
  settle-rank p q (accepted _) n h broke = omega arith
  settle-rank p q (refused _) n h step = omega arith

  status_writes-rank :
      IsFaithful → (t : Trace) → AllJustified e t → status_writes t + rank start ≤ rank (stored t)
  unfolding stored status_writes
  status_writes-rank f [] j = omega arith
  status_writes-rank f (update_restore_status sent ∷ t) (edge, j) =
      settle-rank _ _ _ _ (status_writes-rank f t j) (known-Step t _ _ _ (known-IsStored f t) edge)
  status_writes-rank f (_ ∷ t) (_, j) = status_writes-rank f t j

rank-bound : (p : RestorePhase) → rank p ≤ 3
rank-bound unset = omega arith
rank-bound pending = omega arith
rank-bound in_progress = omega arith
rank-bound completed = omega arith
rank-bound failed = omega arith
rank-bound (other _) = omega arith

no_way_on : {p q : RestorePhase} → Step p q → ¬ (IsTerminal p)
no_way_on initialized final = final
no_way_on started final = final
no_way_on rejected final = final
no_way_on succeeded final = final
no_way_on broke final = final

terminal_stays : {p q : RestorePhase} → Reaches p q → IsTerminal p → q ≡ p
terminal_stays here final = refl
terminal_stays (next path step) final =
    absurd (no_way_on step (subst IsTerminal (sym (terminal_stays path final)) final))

-- On a server that answers with the phase it holds, the phase it holds after any number of
-- reconciliations of a restore is one that the life of a restore leads to from the first one.
pub reconcile_times-Reaches :
    (e : Env) (start : RestorePhase) (n : ℕ) (name : NamespacedName)
    → IsFaithful e start
    → Reaches start (stored e start (reconcile_times e start n name))
reconcile_times-Reaches e start n name f =
    stored-Reaches e start f _ (reconcile_times-AllJustified e start n name)

-- On a server that answers with the phase it holds, a restore that is Completed or Failed has that
-- phase after any number of reconciliations.
reconcile_times-IsTerminal :
    (e : Env) (start : RestorePhase) (n : ℕ) (name : NamespacedName)
    → IsFaithful e start
    → IsTerminal start
    → stored e start (reconcile_times e start n name) ≡ start
reconcile_times-IsTerminal e start n name f =
    terminal_stays (reconcile_times-Reaches e start n name f)

-- On a server that answers with the phase it holds, the status writes of a restore come to an end:
-- however many reconciliations there are, the server accepts at most three.
pub status_writes-bounded :
    (e : Env) (start : RestorePhase) (n : ℕ) (name : NamespacedName)
    → IsFaithful e start
    → status_writes e start (reconcile_times e start n name) ≤ 3
status_writes-bounded e start n name f = omega (
  arith,
  status_writes-rank e start f _ (reconcile_times-AllJustified e start n name),
  rank-bound (stored e start (reconcile_times e start n name)),
)
