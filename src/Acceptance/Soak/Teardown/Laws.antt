-- ===== src/Acceptance/Soak/Teardown/Laws.antt =====
-- When a soak run succeeds, and what becomes of its process.
use mathlib.Core.Path.{ap₂, subst}
use rollup_starter.Common.{
  Bool, true, false, String, List, [], ◌∷◌, ◌++◌, Option, none, some, Result, ok, err, ap, sym, ◌≢◌,
  ◌≡◌, refl, ◌↔◌, ◌⊎◌, inl, inr, arith, All, Bool-cases,
}
use rollup_starter.Acceptance.Slots.{Json, Files}
use rollup_starter.Acceptance.Process.{
  Signal, sigkill, ManagedRollupProcess, ProcessError, ensure_stopped, drop, combine_soak_errors,
}
use rollup_starter.Acceptance.Process.Laws.{combine_soak_errors_iff}
use rollup_starter.Acceptance.Soak.{
  SoakRunOptions, Soak, SoakError, Break, break_ok, break_panic, break_err, Event, very_close,
  run_loop, initial,
}
use rollup_starter.Acceptance.Soak.Teardown.{
  ThroughputReport, Task, StartError, finish, primary_error, TaskEnd, completed, cancelled,
  task_failed, task_panicked, join_tasks, still_running, finished, stop_errors, stop_rollup,
  outcome, report_of, teardown, process_after, run_soak,
}

-- A task's end that counts as no error: near the end of the run a failure is expected, never a panic.
abbrev pub IsHarmless : Bool → TaskEnd → Type 0
IsHarmless close completed = Unit
IsHarmless close cancelled = Unit
IsHarmless close (task_failed e) = close ≡ true
IsHarmless close (task_panicked e) = ⊥

join_tasks_iff :
    (close : Bool) (tasks : List TaskEnd)
    → (join_tasks close tasks ≡ []) ↔ All (IsHarmless close) tasks
unfolding join_tasks
join_tasks_iff close [] = (λ h. tt, λ h. refl)
join_tasks_iff close (completed ∷ tasks) =
    let (f, g) = join_tasks_iff close tasks in (λ h. (tt, f h), λ h. g h.1)
join_tasks_iff close (cancelled ∷ tasks) =
    let (f, g) = join_tasks_iff close tasks in (λ h. (tt, f h), λ h. g h.1)
join_tasks_iff true (task_failed e ∷ tasks) =
    let (f, g) = join_tasks_iff true tasks in (λ h. (refl, f h), λ h. g h.1)
join_tasks_iff false (task_failed e ∷ tasks) = (λ h. absurd (cc h), λ h. absurd (cc (h.0)))
join_tasks_iff close (task_panicked e ∷ tasks) = (λ h. absurd (cc h), λ h. absurd (h.0))

append-eq-nil : (xs ys : List String) → xs ++ ys ≡ [] → (xs ≡ []) × (ys ≡ [])
append-eq-nil [] ys h = (refl, h)
append-eq-nil (x ∷ xs) ys h = absurd (cc h)

-- The process has been seen to exit, or the last signal that it got is SIGKILL.
abbrev pub IsGone : ManagedRollupProcess → Type 0
IsGone p = (p.reaped ≡ true) ⊎ ((earlier : List Signal) × (p.signals ≡ sigkill ∷ earlier))

pub drop-IsGone : (p : ManagedRollupProcess) → IsGone (drop p)
unfolding drop
drop-IsGone p = elim (Bool-cases p.reaped) [
  | inl reaped ↦ inl (ground arith)
  | inr running ↦ inr (p.signals, rw (running, drop))
]

module _ (json : Json) (o : SoakRunOptions) (show : SoakError → String)
    (show_process : ProcessError → String) where
  stop_errors_iff :
      (r : Result ProcessError (Unit {0}))
      → (stop_errors json o show show_process r ≡ []) ↔ (r ≡ ok tt)
  stop_errors_iff (ok u) = (λ h. refl, λ h. refl)
  stop_errors_iff (err e) = (λ h. absurd (cc h), λ h. absurd (cc h))

  outcome_iff :
      (s : Soak) (first : Option String) (report : ThroughputReport)
      → (outcome json o show show_process s first ≡ ok report)
        ↔ ((first ≡ none) × (report ≡ report_of json o show show_process s))
  outcome_iff s none report = (λ h. (refl, cc h), λ h. cc (h.1))
  outcome_iff s (some e) report = (λ h. absurd (cc h), λ h. absurd (cc (h.0)))

  -- No error comes together exactly if there is none of the loop, of the tasks and of the stop.
  gather_iff :
      (s : Soak) (first : Option String) (close : Bool) (tasks : List TaskEnd)
      (stopped : Result ProcessError (Unit {0})) (report : ThroughputReport)
      → (outcome json o show show_process s (
            combine_soak_errors first
              (join_tasks close tasks ++ stop_errors json o show show_process stopped))
          ≡ ok report)
        ↔ ((first ≡ none)
            × All (IsHarmless close) tasks
            × (stopped ≡ ok tt)
            × (report ≡ report_of json o show show_process s))
  gather_iff s first close tasks stopped report =
      let errors : List String =
        join_tasks close tasks ++ stop_errors json o show show_process stopped in
      let (f, f') = outcome_iff s (combine_soak_errors first errors) report in
      let (g, g') = combine_soak_errors_iff first errors in
      (
        λ h.
            let (empty, same) = f h in
            let (no_first, no_more) = g empty in
            let (no_task, no_stop) = append-eq-nil (join_tasks close tasks) _ no_more in
            (
              no_first,
              (join_tasks_iff close tasks).0 no_task,
              (stop_errors_iff stopped).0 no_stop,
              same,
            ),
        λ h.
            let no_task = (join_tasks_iff close tasks).1 (h.1) in
            let no_stop = (stop_errors_iff stopped).1 (h.2) in
            f' (g' (h.0, ap₂ (λ xs ys. xs ++ ys) no_task no_stop), h.3),
      )

  abbrev pub Succeeds :
      Option SoakError → Soak → List TaskEnd → ManagedRollupProcess → ThroughputReport → Type 0
  Succeeds error s tasks p report =
      (error ≡ none)
      × All (IsHarmless (very_close json o s)) tasks
      × ((ensure_stopped p).0 ≡ ok tt)
      × (report ≡ report_of json o show show_process s)

  teardown_iff :
      (error : Option SoakError) (s : Soak) (tasks : List TaskEnd) (p : ManagedRollupProcess)
      (report : ThroughputReport)
      → ((teardown json o show show_process error s tasks p).0 ≡ ok report)
        ↔ Succeeds error s tasks p report
  unfolding teardown
  teardown_iff none s tasks p report =
      let (f, g) = gather_iff s none (very_close json o s) tasks (ensure_stopped p).0 report in
      (
        λ h. let (_, harmless, stopped, same) = f h in (refl, harmless, stopped, same),
        λ h. g (refl, h.1, h.2, h.3),
      )
  teardown_iff (some e) s tasks p report =
      let (f, g) =
        gather_iff s (some (show e)) (very_close json o s) tasks
          (stop_rollup json o show show_process (some (show e)) p).0 report in
      (λ h. absurd (cc (f h).0), λ h. absurd (cc (h.0)))

  teardown-IsGone :
      (error : Option SoakError) (s : Soak) (tasks : List TaskEnd) (p : ManagedRollupProcess)
      → IsGone (teardown json o show show_process error s tasks p).1
  unfolding teardown
  teardown-IsGone error s tasks p =
      drop-IsGone
        (stop_rollup json o show show_process (primary_error json o show show_process error) p).1

  -- The run was started, its loop ended well, no task failed but near the end, and the rollup stopped.
  abbrev pub RanWell :
      Result StartError (List Task)
      → List Event
      → List TaskEnd
      → Files
      → ManagedRollupProcess
      → ThroughputReport
      → Type 0
  RanWell startup events tasks files p report =
      ((started : List Task) × (startup ≡ ok started))
      × ((s : Soak) × (run_loop json o events (initial json o files) ≡ (err break_ok, s))
          × All (IsHarmless (very_close json o s)) tasks
          × ((ensure_stopped
                (process_after json o show show_process events (initial json o files) p)).0
              ≡ ok tt)
          × (report ≡ report_of json o show show_process s))

  finish_lem :
      (events : List Event) (tasks : List TaskEnd) (p : ManagedRollupProcess)
      (r : Result Break (Unit {0}) × Soak) (report : ThroughputReport)
      → let done = finish json o show show_process tasks p r in
        (done.0 ≢ still_running → IsGone done.1)
        × ((done.0 ≡ finished (ok report)) ↔ (
            (s : Soak) × (r ≡ (err break_ok, s))
            × All (IsHarmless (very_close json o s)) tasks
            × ((ensure_stopped p).0 ≡ ok tt)
            × (report ≡ report_of json o show show_process s)))
  finish_lem events tasks p (ok u, s) report =
      (λ h. absurd (h refl), (λ h. absurd (cc h), λ h. absurd (cc (ap (λ x. x.0) h.1))))
  finish_lem events tasks p (err break_panic, s) report =
      (λ h. drop-IsGone p, (λ h. absurd (cc h), λ h. absurd (cc (ap (λ x. x.0) h.1))))
  finish_lem events tasks p (err (break_err e), s) report =
      let (f, g) = teardown_iff (some e) s tasks p report in
      (
        λ h. teardown-IsGone (some e) s tasks p,
        (λ h. absurd (cc (f (cc h)).0), λ h. absurd (cc (ap (λ x. x.0) h.1))),
      )
  finish_lem events tasks p (err break_ok, s) report =
      let (f, g) = teardown_iff none s tasks p report in
      (
        λ h. teardown-IsGone none s tasks p,
        (
          λ h. let (_, harmless, stopped, same) = f (cc h) in (s, refl, harmless, stopped, same),
          λ h.
              let same : h.0 ≡ s = sym (ap (λ q. q.1) h.1) in
              ap (λ r. finished r)
                (g (subst (λ y. Succeeds none y tasks p report) same (refl, h.2, h.3, h.4))),
        ),
      )

  -- A run that does not go on leaves its process gone: seen to exit, or with SIGKILL as the last signal.
  -- It succeeds exactly if it was started, its loop was left with success, the tasks that were joined
  -- then did not panic, and failed at most near the end of the run, and the rollup stopped by itself or
  -- in a shutdown; the report has the counters of the loop.
  pub run_soak-RanWell :
      (startup : Result StartError (List Task)) (events : List Event) (tasks : List TaskEnd)
      (files : Files) (p : ManagedRollupProcess) (report : ThroughputReport)
      → let run = run_soak json o show show_process startup events tasks files p in
        (run.0 ≢ still_running → IsGone run.1)
        × ((run.0 ≡ finished (ok report)) ↔ RanWell startup events tasks files p report)
  unfolding run_soak
  run_soak-RanWell (err e) events tasks files p report =
      (λ h. drop-IsGone p, (λ h. absurd (cc h), λ h. absurd (cc (h.0.1))))
  run_soak-RanWell (ok started) events tasks files p report =
      let (gone, (f, g)) =
        finish_lem events tasks
          (process_after json o show show_process events (initial json o files) p)
          (run_loop json o events (initial json o files)) report in
      (gone, (λ h. ((started, refl), f h), λ h. g (h.1)))
