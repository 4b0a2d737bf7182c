-- ===== src/Acceptance/Postgres.antt =====
-- The postgres container of scripts/acceptance-test/src/lib.rs. The state is the commands given to docker,
-- the last one first, and docker's answers to the next ones.
pub mod Laws
use rollup_starter.Common.{
  ℕ, zero, suc, Bool, true, false, List, [], ◌∷◌, Option, none, some, Result, ok, err,
  if◌then◌else◌,
}
use rollup_starter.Common.Exec.{Exec, pure, raise, lift, ◌>>=◌, ◌>>◌}
use rollup_starter.Common.Codes.{Codes, codes, contains}

pub data DockerCommand : Type 0 where
  rm : Codes → DockerCommand
  -- `run`, with the container's name and the password.
  run : Codes → Codes → DockerCommand
  pg_isready : Codes → DockerCommand

pub record Output : Type 0 where
  pub success : Bool
  pub stderr : Codes

-- An answer that is missing stands for a docker that cannot be run.
pub record Docker : Type 0 where
  pub commands : List DockerCommand
  pub answers : List (Option Output)

pub data DockerError : Type 0 where
  docker_failed remove_failed start_failed not_ready : DockerError

abbrev pub Dockering : Type 0 → Type 0
Dockering A = Exec Docker DockerError A

abbrev given : Option Output → Result DockerError Output
given none = err docker_failed
given (some output) = ok output

unfoldable pub docker_output : DockerCommand → Dockering Output
docker_output command d = elim d.answers [
  | [] ↦ (err docker_failed, record d { commands = command ∷ d.commands })
  | answer ∷ answers ↦ (given answer, record { commands = command ∷ d.commands; answers = answers })
]

abbrev removed : Output → Dockering (Unit {0})
removed output =
    if output.success
    then pure tt
    else if contains output.stderr (codes "No such container")
    then pure tt
    else raise remove_failed

unfoldable pub cleanup_postgres_container : Codes → Dockering (Unit {0})
unfolding docker_output contains
cleanup_postgres_container name = do output ← docker_output (rm name); removed output

-- The loop over the attempts that are left, one each second.
unfoldable pub await_ready : Codes → ℕ → Dockering (Unit {0})
unfolding docker_output cleanup_postgres_container
await_ready name zero d = (err not_ready, (cleanup_postgres_container name d).1)
await_ready name (suc attempts) d =
    (docker_output (pg_isready name) >>= λ output. elim output.success [
      | true ↦ pure tt
      | false ↦ await_ready name attempts
    ])
      d

abbrev pub max_attempts : ℕ
max_attempts = 30

abbrev started : Output → Dockering (Unit {0})
started output = if output.success then pure tt else raise start_failed

unfoldable pub start_and_wait_for_postgres_ready : Codes → Codes → Dockering (Unit {0})
unfolding cleanup_postgres_container await_ready docker_output
start_and_wait_for_postgres_ready name password = do
  cleanup_postgres_container name
  output ← docker_output (run name password)
  started output
  await_ready name max_attempts

-- The drop of the guard, which only logs a failure.
unfoldable pub drop_guard : Codes → Docker → Docker
unfolding cleanup_postgres_container
drop_guard name d = (cleanup_postgres_container name d).1
