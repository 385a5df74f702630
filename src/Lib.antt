-- ===== src/Lib.antt =====
-- Verification library of clusterkit: the worker manager (packages/worker-manager/src) and its plugins.
--
-- The program is the primary process of a node:cluster fleet. The orchestrator owns the services and
-- joins them: the worker manager forks and tracks workers, the restart coordinator replaces crashed
-- ones with backoff behind a circuit breaker (the crash tracker), the health monitor asks for
-- recycling, the drain coordinator retires a replaced worker, and the shutdown coordinator ends the
-- fleet. Validation turns the user's options into the configuration that all of them read.
--
-- The plugins change the fleet's size and environment before the fork (container sizing, from the
-- control group's limits), restart it when files change (file watcher, with its .env parser), and
-- count what happens to it (Prometheus, OTLP).
--
-- Files and what they model (paths below packages/worker-manager/src, unless a package is named):
--   Config, EnvVars       types.ts; assertSafeEnvObject of validation.ts and the spread of env objects
--   Crash                 crash-tracker.ts; Crash/Window and Crash/Trip compare it with the full history
--   Fleet                 worker-manager.ts: forkWorker, tracking, marks; Fleet/Recycle: recycleWorkerNow,
--                         the age sweep and its timers; Fleet/Record: the state that the services share
--   Restart               restart-coordinator.ts, its loop in Restart/Loop; the loop's end (Rounds), the breaker
--                         (Breaker), backoff (Backoff), quarantine (Boot), a restart carried out
--                         (Replace), what it keeps (Preserve)
--   Health                health-monitor.ts, the primary's side; Health/Streak and Health/OneShot;
--                         Health/Reporting: a worker's reports
--   Drain                 drain-coordinator.ts as automata over the events that reach it
--   Shutdown              shutdown-coordinator.ts: the ACK wait, the exit wait, the kills
--   Orchestrator          orchestrator.ts: handlers of the primary; Orchestrator/Roll: restartWorkers and
--                         rollWorkers; Orchestrator/Steps: everything that can happen, in any order;
--                         Preserve, Invariant, Safety and Exits: what holds over all such runs;
--                         Bailout: a roll that cannot fork
--   Validation            validation.ts: Numbers (JavaScript numbers), Text (trim and the patterns),
--                         Resolve (defaults, validateConfig), Checks, Workers and Sound, and Given and Again
--                         (idempotence)
--   Sizing                the worker count of orchestrator.ts and sizing.ts; Sizing/Fixed
--   Cgroup                cgroup.ts: both interfaces; Cgroup/Bounds, and Cgroup/Confined: the files read
--   Platform              platform.ts: the detection and its cache; Platform/Probe: the two sockets
--   Lifecycle             orchestrator.ts: run, use, patchWorkerEnv, installPlugins, uninstallPlugins;
--                         Lifecycle/Rollback: a failing installation
--   Child                 orchestrator.ts: startWorker's shutdown handler; Child/Phases, Child/First, Child/Once
--   Container             plugin-container-sizing/src/calculator.ts, and its index.ts (Plugin); Options,
--                         StepDown (the loop), Bounds, Memory; Plugin/Merge (mergeNodeOptions), Plugin/Applied
--   Watcher               plugin-file-watcher/src/index.ts: timers, pending change, poll, teardown; Reports
--                         (the changes reported), Pending (the queue that it implements), Spacing, Storm, Closed, Polling
--   EnvFile               plugin-file-watcher/src/parse-env.ts; EnvFile/Safe and EnvFile/RoundTrip
--   SignalRestart         plugin-signal-restart/src/index.ts
--   Prometheus            plugin-prometheus/src/index.ts: metrics and endpoint; History, Counts; Cache and
--                         Cached: the merged metrics
--   Otlp                  plugin-otlp-meter/src/index.ts; Otlp/Latch: the meter providers
--   Texts                 JavaScript's operations on strings that several parts use
--   Common                shared names, tests, lists, sets and maps; Tests: concrete runs
--
-- State and operations keep the source's names in snake_case. The services mutate shared objects
-- (metrics, exit code, readiness, the tracker); here they are one record `Host` that every operation
-- takes and returns. The asynchronous restart loop is cut at its suspensions: a `Phase` says whether
-- it is idle, in a backoff wait, or about to read its queue again, and `turn` runs it to its next
-- suspension. A rolling restart is cut the same way (`Roll`). Timers are flags, and a timer that is
-- not set does not fire. `Date.now()` is a field of the state, which `time_passes` advances.
--
-- Surroundings: `cluster.fork` is the parameter `spawn`, which gives the id of the n-th fork or throws;
-- which workers die, answer or come online, and when, is part of a run. The resolved worker count is the
-- parameter `target`, one value for a whole run.
--
-- Bounds: the restart loop needs no fuel in the model: `turns` runs so many of its turns as it is given
-- states of the fleet for. A
-- number is shown with fuel for one more digit than its value, more than it has. Lists
-- are traversed by structural recursion. Milliseconds, megabytes and the backoff multiplier are
-- natural numbers in the services; validation works on fractions, with exact sums.
--
-- In the plugins a timer is the time at which it is due, and each event comes with its time. Files,
-- sockets, prom-client, the OpenTelemetry SDK, node:path and a plugin's own code are arguments or
-- stand in the events. The sizing is computed on exact fractions, where the source rounds to doubles.
--
-- Not modelled: log text, process ids, exit codes and signal names in events, listeners that throw,
-- calls of the OTLP plugin that overlap and exporters that cannot be created, a shutdown before the
-- primary has forked its first workers, the start context of a worker, the warnings on unknown
-- options, what the libraries of the metrics plugins do, benchmarks and examples.
pub mod Common
pub mod Crash
pub mod EnvVars
pub mod Config
pub mod Fleet
pub mod Restart
pub mod Health
pub mod Drain
pub mod Shutdown
pub mod Orchestrator
pub mod Validation
pub mod Sizing
pub mod Tests
pub mod EnvFile
pub mod Watcher
pub mod Texts
pub mod Cgroup
pub mod Container
pub mod Lifecycle
pub mod Child
pub mod Prometheus
pub mod Platform
pub mod Otlp
pub mod SignalRestart
