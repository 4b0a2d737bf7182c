-- ===== src/Acceptance/Process.antt =====
-- `ManagedRollupProcess` of scripts/acceptance-test/src/lib.rs with the errors of a soak run. The
-- operating system's answers to the waits are a script in the state, and a wait beyond the script
-- runs into its time limit.
pub mod Laws
mod Tests
use rollup_starter.Common.{
  ℕ, zero, suc, ◌+◌, Bool, true, false, String, List, [], ◌∷◌, ◌++◌, Option, none, some, Result, ok,
  err, if◌then◌else◌, ensure,
}
use rollup_starter.Common.Exec.{Exec, pure, raise, lift, ◌>>=◌, ◌>>◌}
use rollup_starter.Common.Text.{◌<>◌, join_with, decimal}

pub data Signal : Type 0 where
  sigterm sigkill : Signal

-- A wait sees the process exit, successfully or not, fails, or runs into its time limit.
pub data Wait : Type 0 where
  exits : Bool → Wait
  fails times_out : Wait

pub record ManagedRollupProcess : Type 0 where
  -- Whether a wait has seen the process exit; then `id` is none.
  pub reaped : Bool
  -- The signals sent to its process group, the last one first.
  pub signals : List Signal
  pub waits : List Wait

pub data ProcessError : Type 0 where
  wait_failed exit_failure not_killed : ProcessError

abbrev pub Managing : Type 0 → Type 0
Managing A = Exec ManagedRollupProcess ProcessError A

-- A signal is sent to a process that has an id.
pub send : Signal → Managing (Unit {0})
send signal p = (ok tt, record p { signals = signal ∷ p.signals })

unfoldable pub request_shutdown : Managing (Unit {0})
unfolding send
request_shutdown p = if p.reaped then (ok tt, p) else send sigterm p

pub wait_for_exit : Managing (Option Bool)
wait_for_exit p = elim p.waits [
  | [] ↦ (ok none, p)
  | times_out ∷ rest ↦ (ok none, record p { waits = rest })
  | fails ∷ rest ↦ (err wait_failed, record p { waits = rest })
  | exits success ∷ rest ↦ (ok (some success), record p { waits = rest; reaped = true })
]

pub ensure_rollup_exit_status : Bool → Managing (Unit {0})
ensure_rollup_exit_status success = lift (ensure success exit_failure)

-- After the wait that follows SIGKILL.
pub killed : Option Bool → Managing (Unit {0})
unfolding ensure_rollup_exit_status
killed (some success) = ensure_rollup_exit_status success
killed none = raise not_killed

-- After the wait that follows SIGTERM.
pub terminated : Option Bool → Managing (Unit {0})
unfolding ensure_rollup_exit_status wait_for_exit killed send
terminated (some success) = ensure_rollup_exit_status success
terminated none = do send sigkill; status ← wait_for_exit; killed status

unfoldable pub shutdown : Managing (Unit {0})
unfolding request_shutdown wait_for_exit terminated
shutdown p =
    let stop = (request_shutdown >> (wait_for_exit >>= terminated)) p in
    if p.reaped then (ok tt, p) else stop

-- After the wait for the process to end by itself.
pub waited : Option Bool → Managing (Unit {0})
unfolding ensure_rollup_exit_status shutdown
waited (some success) = ensure_rollup_exit_status success
waited none = shutdown

unfoldable pub ensure_stopped : Managing (Unit {0})
unfolding wait_for_exit waited
ensure_stopped p = let stop = (wait_for_exit >>= waited) p in if p.reaped then (ok tt, p) else stop

unfoldable pub drop : ManagedRollupProcess → ManagedRollupProcess
unfolding send
drop p = if p.reaped then p else (send sigkill p).1

-- The errors are the texts that they print.
abbrev additional : ℕ → List String → List String
unfolding decimal
additional idx [] = []
additional idx (e ∷ es) =
    ("Additional error " <> decimal (idx + 1) <> ": " <> e) ∷ additional (idx + 1) es

abbrev primary : Option String → List String
primary none = []
primary (some e) = ("Primary error: " <> e) ∷ []

unfoldable pub combine_soak_errors : Option String → List String → Option String
unfolding join_with additional
combine_soak_errors none [] = none
combine_soak_errors (some e) [] = some e
combine_soak_errors none (e ∷ []) = some e
combine_soak_errors first (e ∷ es) = some (join_with "\n" (primary first ++ additional 0 (e ∷ es)))
