-- ===== src/Acceptance/Session/Laws.antt =====
-- What every run leaves behind, on each of its ways out.
use mathlib.Core.Path.{subst}
use rollup_starter.Common.{Option, none, some, Result, ok, err, ◌≡◌, refl, sym, ap, ◌∙◌, ◌⊎◌}
use rollup_starter.Common.Exec.{continue_with, lift}
use rollup_starter.Acceptance.StateDir.{PathState}
use rollup_starter.Acceptance.Setup.{MockFiles}
use rollup_starter.Acceptance.Process.{ManagedRollupProcess}
use rollup_starter.Acceptance.Soak.Teardown.Laws.{IsGone}
use rollup_starter.Acceptance.Session.{World, SessionError, cleanup_failed, Running, Services}

-- No process that the run has given up is left running.
abbrev pub Gone : Option ManagedRollupProcess → Type 0
Gone none = Unit
Gone (some p) = IsGone p

-- An error that is not one of the cleanup at the end.
abbrev pub IsEarly : SessionError → Type 0
IsEarly (cleanup_failed e) = ⊥
IsEarly e = Unit

abbrev pub Unchanged : World → World → Type 0
Unchanged w w' = (w'.state_dir ≡ w.state_dir) × (w'.disk ≡ w.disk)

-- A run may relate the state directory after it to the one before it in one of two ways.
abbrev pub Relation : Type 1
Relation = PathState → PathState → Type 0

abbrev pub Same : Relation
Same before after = after ≡ before

-- It is as it was, or the process has worked on it and the harness has left it at that.
abbrev pub MayWork : Services → Relation
MayWork services before after =
    (after ≡ before) ⊎ ((mock : MockFiles) × (after ≡ (services.rollup_leaves (before, mock)).0))

abbrev pub Kept : Relation → World → World → Type 0
Kept K w w' = K w.state_dir w'.state_dir × (w'.disk.persistent ≡ w.disk.persistent)

kept : (K : Relation) → ((s : PathState) → K s s) → (w w' : World) → Unchanged w w' → Kept K w w'
kept K same w w' (d, m) =
    (subst (K w.state_dir) (sym d) (same w.state_dir), ap (λ x. x.persistent) m)

module _ {A : Type 0} where
  -- A step that leaves no process running, and the state directory and the mock DA as they are.
  abbrev pub IsCalm : Running A → Type 0
  IsCalm m = (w : World) → Gone w.process → Gone (m w).1.process × Unchanged w (m w).1

  -- A run that leaves no process running and, where it fails before the cleanup, the persistent files of
  -- the mock DA as they were, and the state directory in the relation.
  abbrev pub Tidy : Relation → World → Result SessionError A × World → Type 0
  Tidy K w r = Gone r.1.process × ((e : SessionError) → r.0 ≡ err e → IsEarly e → Kept K w r.1)

  -- A step in which the process may work, and is gone after it.
  abbrev pub Works : Services → Running A → Type 0
  Works services m =
      (w : World) → Gone w.process → Gone (m w).1.process × Kept (MayWork services) w (m w).1

module _ {A B : Type 0} where
  pub bind-IsCalm :
      (m : Running A) (f : A → Running B)
      → IsCalm m
      → ((a : A) → IsCalm (f a))
      → IsCalm (λ w. continue_with f (m w))
  bind-IsCalm m f h k w gone = go (m w) (h w gone)
    where
      go :
          (r : Result SessionError A × World)
          → Gone r.1.process × Unchanged w r.1
          → Gone (continue_with f r).1.process × Unchanged w (continue_with f r).1
      go (err e, w') p = p
      go (ok a, w') (g, (same, disk)) =
          let (g', (same', disk')) = k a w' g in (g', (same' ∙ same, disk' ∙ disk))

  pub bind-Tidy :
      (K : Relation) (same : (s : PathState) → K s s) (m : Running A) (f : A → Running B)
      (w : World)
      → IsCalm m
      → ((a : A) (w' : World) → Gone w'.process → Tidy K w' (f a w'))
      → Gone w.process
      → Tidy K w (continue_with f (m w))
  bind-Tidy K same m f w h k gone = go (m w) (h w gone)
    where
      go :
          (r : Result SessionError A × World)
          → Gone r.1.process × Unchanged w r.1
          → Tidy K w (continue_with f r)
      go (err e, w') (g, calm) = (g, λ e' h' early. kept K same w w' calm)
      go (ok a, w') (g, (dir, disk)) =
          let (g', early) = k a w' g in
          (
            g',
            λ e h' i.
                let (d, m) = early e h' i in
                (subst (λ s. K s (f a w').1.state_dir) dir d, m ∙ ap (λ x. x.persistent) disk),
          )

  -- After the process is gone, an error that is early leaves what the process has left.
  pub Works-Tidy :
      (services : Services) (m : Running A) (f : A → Running B) (w : World)
      → Works services m
      → ((a : A) (w' : World) → Gone w'.process → Tidy Same w' (f a w'))
      → Gone w.process
      → Tidy (MayWork services) w (continue_with f (m w))
  Works-Tidy services m f w h k gone = go (m w) (h w gone)
    where
      go :
          (r : Result SessionError A × World)
          → Gone r.1.process × Kept (MayWork services) w r.1
          → Tidy (MayWork services) w (continue_with f r)
      go (err e, w') (g, worked) = (g, λ e' h' early. worked)
      go (ok a, w') (g, (dir, persistent)) =
          let (g', early) = k a w' g in
          (
            g',
            λ e h' i.
                let (d, m) = early e h' i in
                (subst (MayWork services w.state_dir) (sym d) dir, m ∙ persistent),
          )

pub lift-IsCalm : {A : Type 0} (r : Result SessionError A) → IsCalm (lift r)
lift-IsCalm r w gone = (gone, (refl, refl))

pub lift-bind-IsCalm :
    {A B : Type 0} (r : Result SessionError A) (f : A → Running B)
    → ((a : A) → IsCalm (f a))
    → IsCalm (λ w. continue_with f (lift r w))
lift-bind-IsCalm r f h = bind-IsCalm (lift r) f (lift-IsCalm r) h

pub lift-bind-Tidy :
    {A B : Type 0} (K : Relation) (same : (s : PathState) → K s s) (r : Result SessionError A)
    (f : A → Running B) (w : World)
    → Gone w.process
    → ((a : A) → Tidy K w (f a w))
    → Tidy K w (continue_with f (lift r w))
lift-bind-Tidy K same (err e) f w gone h = (gone, λ e' h' early. (same w.state_dir, refl))
lift-bind-Tidy K same (ok a) f w gone h = h a
