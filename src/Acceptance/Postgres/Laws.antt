-- ===== src/Acceptance/Postgres/Laws.antt =====
-- What is left of the container.
use rollup_starter.Common.{List, [], ◌∷◌, Option, Result, ok, err, ◌≡◌, refl, ap, ◌∙◌, arith}
use rollup_starter.Common.Exec.{continue_with}
use rollup_starter.Common.Codes.{Codes}
use rollup_starter.Acceptance.Postgres.{
  DockerCommand, rm, Output, Docker, DockerError, docker_failed, given, removed, docker_output,
  drop_guard,
}

-- The last command removes the container.
abbrev pub RemovedLast : Codes → Docker → Docker → Type 0
RemovedLast name before after = after.commands ≡ rm name ∷ before.commands

docker_output-commands :
    (command : DockerCommand) (d : Docker)
    → (docker_output command d).1.commands ≡ command ∷ d.commands
unfolding docker_output
docker_output-commands command d = go d.answers
  where
    go :
        (answers : List (Option Output))
        → (elim answers as (λ _. Result DockerError Output × Docker) [
          | [] ↦ (err docker_failed, record d { commands = command ∷ d.commands })
          | answer ∷ rest ↦
              (given answer, record { commands = command ∷ d.commands; answers = rest })
        ]).1.commands
          ≡ command ∷ d.commands
    go [] = refl
    go (answer ∷ rest) = refl

removed_unchanged : (r : Result DockerError Output × Docker) → (continue_with removed r).1 ≡ r.1
removed_unchanged (err e, d) = refl
removed_unchanged (ok output, d) = ground arith

pub drop_guard-RemovedLast : (name : Codes) (d : Docker) → RemovedLast name d (drop_guard name d)
unfolding drop_guard docker_output
drop_guard-RemovedLast name d =
    ap (λ x. x.commands) (removed_unchanged (docker_output (rm name) d))
    ∙ docker_output-commands (rm name) d
