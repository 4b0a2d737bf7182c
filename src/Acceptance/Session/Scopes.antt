-- ===== src/Acceptance/Session/Scopes.antt =====
-- The scopes of the process and of the postgres guard.
use rollup_starter.Common.{Result, ok, err, ◌≡◌, ◌≢◌, refl, sym, ap, ◌∙◌, ◌⊎◌, inl, inr}
use mathlib.Core.Path.{subst}
use rollup_starter.Acceptance.StateDir.{PathState}
use rollup_starter.Common.Codes.{Codes}
use rollup_starter.Acceptance.Postgres.{
  Docker, DockerError, start_and_wait_for_postgres_ready, drop_guard,
}
use rollup_starter.Acceptance.Process.{ManagedRollupProcess}
use rollup_starter.Acceptance.Soak.Teardown.{
  ThroughputReport, SoakRun, still_running, unwound, start_failed, finished,
}
use rollup_starter.Acceptance.Soak.Teardown.Laws.{IsGone, drop-IsGone}
use rollup_starter.Acceptance.Session.{
  Services, worked_on, World, SessionError, postgres_failed, Running, guarded, with_postgres,
  settle, handed_over, with_rollup,
}
use rollup_starter.Acceptance.Session.Laws.{
  Gone, IsCalm, Tidy, Unchanged, Kept, Relation, MayWork, Works,
}

-- A soak run that has ended leaves no process running.
abbrev pub EndsGone : SoakRun × ManagedRollupProcess → Type 0
EndsGone r = r.0 ≢ still_running → IsGone r.1

settle-IsGone : (r : SoakRun × ManagedRollupProcess) → EndsGone r → IsGone (settle r).1
settle-IsGone (still_running, p) h = drop-IsGone p
settle-IsGone (unwound, p) h = h (λ q. cc q)
settle-IsGone (start_failed e, p) h = h (λ q. cc q)
settle-IsGone (finished (err e), p) h = h (λ q. cc q)
settle-IsGone (finished (ok report), p) h = h (λ q. cc q)

pub with_rollup-Works :
    {A : Type 0} (services : Services) (p : ManagedRollupProcess) (before : Running A)
    (soak : A → ManagedRollupProcess → SoakRun × ManagedRollupProcess)
    → IsCalm before
    → ((a : A) → EndsGone (soak a p))
    → Works services (with_rollup services p before soak)
unfolding with_rollup
with_rollup-Works {A} services p before soak h k w gone = go (before w) (h w gone)
  where
    worked : (w' : World) → Unchanged w w' → Kept (MayWork services) w (worked_on services w')
    worked w' (dir, disk) = (
      inr (w'.disk.mock, ap (λ s. (services.rollup_leaves (s, w'.disk.mock)).0) dir),
      ap (λ d. d.persistent) disk,
    )

    go :
        (r : Result SessionError A × World)
        → Gone r.1.process × Unchanged w r.1
        → Gone (handed_over services p soak r).1.process
          × Kept (MayWork services) w (handed_over services p soak r).1
    go (err e, w') (g, same) = (drop-IsGone p, worked w' same)
    go (ok a, w') (g, same) = (settle-IsGone (soak a p) (k a), worked w' same)

settle-eq-ok :
    (r : SoakRun × ManagedRollupProcess) (report : ThroughputReport)
    → (settle r).0 ≡ ok report
    → r.0 ≡ finished (ok report)
settle-eq-ok (still_running, p) report h = absurd (cc h)
settle-eq-ok (unwound, p) report h = absurd (cc h)
settle-eq-ok (start_failed e, p) report h = absurd (cc h)
settle-eq-ok (finished (err e), p) report h = absurd (cc h)
settle-eq-ok (finished (ok r), p) report h = cc h

pub with_rollup-eq-ok :
    {A : Type 0} (services : Services) (p : ManagedRollupProcess) (before : Running A)
    (soak : A → ManagedRollupProcess → SoakRun × ManagedRollupProcess) (w : World)
    (report : ThroughputReport) (w' : World)
    → with_rollup services p before soak w ≡ (ok report, w')
    → (a : A) × (w₁ : World) × (before w ≡ (ok a, w₁))
      × ((soak a p).0 ≡ finished (ok report))
      × (w' ≡ record (worked_on services w₁) { process = w'.process })
unfolding with_rollup
with_rollup-eq-ok {A} services p before soak w report w' h = go (before w) refl h
  where
    go :
        (r : Result SessionError A × World)
        → before w ≡ r
        → handed_over services p soak r ≡ (ok report, w')
        → (a : A) × (w₁ : World) × (before w ≡ (ok a, w₁))
          × ((soak a p).0 ≡ finished (ok report))
          × (w' ≡ record (worked_on services w₁) { process = w'.process })
    go (err e, w₁) q k = absurd (cc (ap (λ x. x.0) k))
    go (ok a, w₁) q k = (
      a,
      w₁,
      q,
      settle-eq-ok (soak a p) report (ap (λ x. x.0) k),
      subst (λ y. y ≡ record (worked_on services w₁) { process = y.process }) (ap (λ x. x.1) k)
          refl,
    )

pub with_postgres-eq-ok :
    {A : Type 0} (name password : Codes) (body : Running A) (w : World) (x : A) (w' : World)
    → with_postgres name password body w ≡ (ok x, w')
    → (w₁ : World) × ((w₂ : World) × (body w₁ ≡ (ok x, w₂))
        × (w' ≡ record w₂ { docker = drop_guard name w₂.docker }))
unfolding with_postgres
with_postgres-eq-ok {A} name password body w x w' h =
    go (start_and_wait_for_postgres_ready name password w.docker) h
  where
    Ran : World → Type 0
    Ran w₁ =
        (w₂ : World) × (body w₁ ≡ (ok x, w₂))
        × (w' ≡ record w₂ { docker = drop_guard name w₂.docker })

    inner :
        (w₁ : World) (r : Result SessionError A × World)
        → body w₁ ≡ r
        → ◌≡◌ {A = Result SessionError A × World}
            (r.0, record r.1 { docker = drop_guard name r.1.docker })
            (ok x, w')
        → Ran w₁
    inner w₁ (err e, w₂) q k = absurd (cc (ap (λ y. y.0) k))
    inner w₁ (ok y, w₂) q k =
        let same : y ≡ x = cc (ap (λ z. z.0) k) in
        (w₂, q ∙ ap (λ z. (ok z, w₂)) same, sym (ap (λ z. z.1) k))

    go :
        (started : Result DockerError (Unit {0}) × Docker)
        → guarded name body (record w { docker = started.1 }) started.0 ≡ (ok x, w')
        → (w₁ : World) × Ran w₁
    go (err e, d) k = absurd (cc (ap (λ y. y.0) k))
    go (ok u, d) k = let w₁ : World = record w { docker = d } in (w₁, inner w₁ (body w₁) refl k)

-- The guard is dropped last, when no process is left running.
abbrev pub Guarded : {A : Type 0} → Codes → World → Result SessionError A × World → Type 0
Guarded name w r =
    ((e : DockerError) × (r.0 ≡ err (postgres_failed e)) × (r.1 ≡ record w { docker = r.1.docker }))
    ⊎ ((before : World) × Gone before.process
        × (r.1 ≡ record before { docker = drop_guard name before.docker }))

pub with_postgres-Guarded :
    {A : Type 0} (K : Relation) (same : (s : PathState) → K s s) (name password : Codes)
    (body : Running A) (w : World)
    → ((w' : World) → Gone w'.process → Tidy K w' (body w'))
    → Gone w.process
    → Tidy K w (with_postgres name password body w)
      × Guarded name w (with_postgres name password body w)
unfolding with_postgres
with_postgres-Guarded {A} K same name password body w h gone =
    go (start_and_wait_for_postgres_ready name password w.docker)
  where
    go :
        (started : Result DockerError (Unit {0}) × Docker)
        → let r = guarded name body (record w { docker = started.1 }) started.0 in
          Tidy K w r × Guarded name w r
    go (err e, d) = ((gone, λ f p early. (same w.state_dir, refl)), inl (e, refl, refl))
    go (ok u, d) =
        let w' : World = record w { docker = d } in
        let (g, early) = h w' gone in ((g, early), inr ((body w').1, g, refl))
