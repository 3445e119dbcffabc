-- ===== src/Lib.antt =====
-- The parity harness of client-rust: what it decides, over the transactional client that it drives.
--
-- The repository runs scenarios against TiKV through two drivers, one over client-rust and one over
-- client-go, and settles claims by the difference of the two traces. Five parts of it are modelled.
--
--   Proto    the vocabulary that both drivers report in. crates/parity-proto/src/class.rs is
--            Proto.Class; crates/parity-proto/src/observation.rs is Proto.Observation, its base64
--            Proto.Base64; crates/parity-proto/src/trace.rs is Proto.Trace;
--            crates/parity-proto/src/command.rs is Proto.Command;
--            crates/parity-proto/src/project.rs is Proto.Project, and its `diff` Proto.Diff. Proto.Json
--            is the part of serde_json's values that they build and inspect.
--   Driver   the Rust driver. crates/rust-driver/src/mapping.rs is Driver.Mapping: it makes an
--            observation of an error of the client. crates/rust-driver/src/probe.rs is Driver.Probe,
--            with the client as the driver calls it, Driver.Probe.Api; the commands of
--            crates/rust-driver/src/exec.rs are Driver.Exec, the loop of `ScanLocks` Driver.Paging,
--            and the loop over the lines of crates/rust-driver/src/main.rs Driver.Exec.Log.
--   Gate     the metadata store that the gate tests run, crates/parity-gate/src/lib.rs: `commit` and
--            `stage` are Gate.Commit, `is_lost_race` is Gate.Race, `scan` is Gate.Scan and
--            `prefix_upper_bound` is Gate.Prefix; the batch of crates/parity-gate/src/traits.rs is
--            Gate.Batch.
--   Runner   the runner of scenarios. crates/parity-runner/src/scenario.rs is Runner.Scenario;
--            crates/parity-runner/src/driver.rs is Runner.Process, the runner's end of the
--            conversation; crates/parity-runner/src/run.rs is Runner.Execute, and its `substitute`
--            Runner.Substitute; `run_scenario` of crates/parity-runner/src/main.rs is Runner.Main, its
--            loop of attempts Runner.Retry, the names of its files Runner.Files, and its `main`
--            Runner.Cli, with `load_provenance` of crates/parity-runner/src/run.rs.
--   Harness  the cluster under test. `encode_key` and the region lookup of
--            crates/harness/src/cluster.rs are Harness.Memcomparable, its HTTP client of PD
--            Harness.Pd and its wait for a boundary Harness.CrossRegion, which takes PD as the interface
--            that Harness.Pd provides; crates/harness/src/split_wait.rs is Harness.SplitWait;
--            crates/harness/src/lib.rs is Harness.Fixtures, and its corpora Harness.Corpus.
--
-- The runner validates a scenario, starts a driver for each role and sends it the commands one by
-- one, under the prefix of the run; the driver answers each with an observation; the traces of two
-- runs are projected and compared.
--
-- Driver and Gate read the same errors of the client, Tikv.Error, with rules of their own. The
-- client itself is a parameter: Tikv.Client and Driver.Probe.Api are the records of the calls that
-- the gate and the driver make, each of them a function of a world that answers a result and the
-- world after it, so that others may have changed the world between two calls. So are the runner's
-- processes, clock and files, Runner.Process.Environment and Runner.Main.Disk, and the clocks of
-- the two waits. What a transaction is relied on to do is Gate.Commit.Contract, a record of laws
-- that the theorems on `commit` take; Tests.Commit is a store in memory that satisfies it.
--
-- A `BTreeMap` is the list of its entries in the order of the keys, Base.Map. Bytes are natural
-- numbers, and where a result depends on their range a hypothesis says so; text is its UTF-8 bytes.
-- The 32-bit buffer of the base64 decoder drops what is shifted out of it, as the code's does. A
-- loop that has no structural measure runs on fuel: `scan_loop` needs one round more than there are
-- locks, `scan` one round more than there are entries, `chunks` has the length of its key, `fill`
-- the length of the corpus, `wait_for_split` one round more than its limit has units of time, since
-- each round sleeps, and `ensure_cross_region` one more than the 90 pauses of its time limit. The
-- loop over the lines of a driver, the steps of a run and the attempts at it are structural. A log
-- line, a message's layout on stderr and the wrapping of an error in a box are left out; where the
-- code formats an error for a reader, Runner and the waits have a constructor with what the text
-- quotes. A panic is a value of its own.
--
-- Not modelled: the JSON form of commands and traces, which is serde's, the processes of the
-- drivers and the pipes to them, the parser of the provenance's file, the HTTP client behind the
-- requests to PD, the Go driver, the scripts, and the gate's tests, which are scenarios of their own
-- against a live cluster.
pub mod Base
pub mod Proto
pub mod Tikv
pub mod Harness
pub mod Gate
pub mod Driver
pub mod Runner
mod Tests
