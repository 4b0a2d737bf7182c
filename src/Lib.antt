-- ===== src/Lib.antt =====
-- Verification of the Sovereign rollup starter: the authenticator of its state transition
-- function, the node discovery beside it, and the acceptance-test harness, which drives a rollup
-- through several versions, records its slots and checks a later run against the record.
--
-- The parts and their files. Common holds the tests on numbers, results and lists, `Exec`
-- (fallible code whose writes stay written on an error), texts, and texts as lists of codes with
-- the printing of numbers (Codes). Stf models crates/stf/src: `authenticate`, `compute_tx_hash`,
-- `decode_serialized_tx` and `authenticate_unregistered` of authentication.rs, and `wrap_call` and
-- the constructors of inputs of runtime.rs and delegation.rs; the SDK they call is the record
-- `Sdk`.
--
-- Acceptance models scripts/acceptance-test/src. Settings, Paths and StateDir are config.rs,
-- Directories is `Directories::from_settings_with_acceptance_dir_and_cwd` of lib.rs. Plan is
-- versioned_setup.rs: Sources loads the version spec, Targets builds the local head, Parts works
-- out one version, Bounds finds where recorded data ends, Prepare is the loop over them and
-- `prepare_acceptance_run_plan`, and Versions is the plan, its methods and the configurations
-- derived from it. The harness prepares a plan, spawns the manager with it, resyncs the rollup
-- against the recorded slots, and then runs the soak test.
--
-- Slots is fetch_and_compare.rs: the comparisons and snapshots, the monitor (Slots.Monitor) and
-- the fetcher (Slots.Fetcher). Resync is `resync_and_verify_slots` and `reconnect_after_handover`
-- of lib.rs, Soak the loop of `run_soak`, and Process `ManagedRollupProcess` and
-- `combine_soak_errors`. Setup is bin/setup.rs: the check of the append boundary, the manual setup
-- with its queries (Queries, Manual), and with `copy_persistent_mock_data` of lib.rs the files of
-- the mock DA. Consistency is state_consistency.rs: the draining of the slot stream, the polling
-- of the node's heights in at most 600 and 20 queries, the classification of a rejected assertion
-- (Rejection) and the worker's loop (Worker). Evm is evm_soak.rs: the keys of the workers (Keys),
-- the metadata and the cache's configuration (Metadata), the deployment of the contracts, and the
-- worker's loop with the contract that it calls, evm-contracts/StateConsistencyTester.sol
-- (Worker). Soak.Teardown is what `run_soak` does before and after its loop: it starts and joins
-- the background tasks, stops the process and gathers the errors.
--
-- Postgres is the container of lib.rs and its guard, Shutdown the waits that a signal cuts short
-- and `run_until_shutdown_signal`. Session has what both programs share: the world of a run (mock
-- DA, docker, process, state directory, written files), `write_manager_config` and
-- `spawn_rollup_manager` of versioned_setup.rs, and the scopes of the guard and of the process.
-- RunTest is main.rs, with `prepare_test_run` and `run_test`, and RunSetup is bin/setup.rs, with
-- `prepare_setup_run` and `run_setup`: both are compositions of the components before them.
-- NodeDiscovery models crates/utils/node-discovery/src/main.rs, which writes and reloads the nginx
-- configuration of the cluster's nodes. Each component keeps its definitions in one file and its
-- lemmas, theorems and runs in the files below it.
--
-- State is explicit: a function takes the state and returns it with its result. Loops recurse on
-- the list they run over, or on the list of the events that they wait for (`resync`, `run_loop`),
-- so that they need no fuel; a list that ends before the loop does leaves it waiting. `decimal`
-- has fuel for the 20 digits of a `u64`, and so has `print`. The worker's loop has as fuel one
-- more than the length of the slot stream, which is enough, since each round takes a slot from it
-- or waits. Integers of Rust are natural numbers, with the wrap-around of a release build written
-- out where the code adds or multiplies (`add64`, `mul64`), and saturating subtraction is that of
-- the natural numbers.
--
-- Given as parameters: the SDK, cargo and the artifact builder, the file system's answers,
-- docker's answers, YAML and JSON values, hex and ABI encodings, the ledger API, the RPC of the
-- EVM, the operating system's answers to waits, and what the manager's process makes of the state
-- directory and of the mock DA while it runs (`rollup_leaves`), which is any change at all but of
-- the mock DA's persistent copies, on which it does not work. A directory that cannot be removed
-- may be left in part (`Removal`). A panic in the loop of the soak run, which a save interval of 0
-- causes, drops the process without the teardown. Not modelled: logging and the texts of errors,
-- signing, the floating-point comparison of throughputs, the assembly of the node, the provers and
-- the generated runtime.
pub mod Common
pub mod Stf
pub mod Acceptance
pub mod NodeDiscovery
