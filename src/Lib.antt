-- ===== src/Lib.antt =====
-- Verification of the core service of Sora (core/), which keeps one VPN session at a time for a
-- desktop client.
--
-- The parts and how they interact. A plan (core/engine/plan.go) names the server, the routing and the
-- tunnel of a session; it is validated, and an engine is selected that can carry it. Servers come from
-- subscriptions (core/subscription), whose links and servers a book (core/control/subscriptions.go)
-- keeps in an encrypted store (core/secret). The session manager (core/session/manager.go) owns at
-- most one session; a session (core/session/runner.go, session.go, network.go) starts and stops an
-- engine with the plan, owns a guard that changes system settings (core/session/guard.go), and writes
-- what happens into a journal that clients resume from (core/session/journal.go). The engine is a
-- process under the supervisor of core/engine/supervise/supervisor.go, which restarts it within the
-- budget of core/engine/backoff.go and reports on the event bus of core/engine/events.go. Output of
-- the parts goes to the log center (core/logs), whose redactor masks the secrets of the plan
-- (core/engine/redact.go), and errors carry the codes and details of core/errs.
--
-- Where what is modelled:
--   Prelude, Prelude/Tests, Prelude/Lists   names, Boolean tests on numbers, lists
--   Errs, Errs/Line          core/errs/errs.go: `Error` and its readers, `oneLine`; Chains proves
--   Errs/Catalog             core/errs/catalog.go: the keys of errors
--   Errs/Causes, Classify    core/errs/classify.go: foreign errors, `From`; Private, Agrees prove
--   Logs/Entries             core/logs/logs.go: `Entry`, `Filter`
--   Logs, Logs/Query         core/logs/logs.go, watch.go: `Center`; Bounds, Sequence and Pages prove
--   Engine/Version           core/engine/engine.go: `Version`; Decimal and Parse are `ParseVersion`
--   Engine/Events            core/engine/engine.go, events.go: `State`, `Event`
--   Engine/Bus               core/engine/events.go: `EventBus`; Runs proves
--   Engine/Backoff           core/engine/backoff.go: `Backoff`, `RestartBudget`; Delays and Windows prove
--   Engine/Supervisor        core/engine/supervise/supervisor.go, process.go: the state, `setState`,
--                            `unroute`, `Process.Stop`; Start is `start`, Apply is `Apply`, `reload`,
--                            `Stop` and `Close`, Watch is `watch`; Owned, Keeps, Restarts, Runs,
--                            Quiet and Lost prove
--   Session/State            core/session/session.go: `State`, `canTransition`, `Status`
--   Session/Journal          core/session/journal.go: `Journal`; History, Since and Race prove
--   Session/World            what a session calls: engine, guard, clock, redactor
--   Session/Runner, Lifecycle, Notices, Supervise   core/session/runner.go: state changes, `Start`,
--                            `Stop` and `SetKillSwitch`, what the loop journals, the loop
--   Session/Network          core/session/network.go: `networkWatch`
--   Session/Guard            core/session/guard.go: `compositeGuard`; Loop, Rollback, Holds and Reapply
--                            prove
--   Session/Manager          core/session/manager.go: `Manager`; Ownership, Connects and Runs prove
--   Session/Guarding, Ordering, Rounds   what the operations and the loop do to the guard, and in
--                            which order
--   Plan/Names, Model        core/engine/plan.go, profile.go: the parts of a plan
--   Plan/Needs, Catalog, Select   core/engine/refs.go, catalog.go, catalog_linux.go: what a plan needs,
--                            what engines offer, `SelectEngine`; Recent, Fitness, Offered,
--                            Carries and First prove
--   Plan/Cycle               core/engine/validate.go: `groupCycle`; Grounded and Enough prove
--   Plan/Fields, Strategy, Parts, Validate   core/engine/fields.go, validate.go, refs.go: the field
--                            checks and `Plan.Validate`; Validate/Accepted proves
--   Plan/Secrets, Redactor   core/engine/validate.go, profile.go, redact.go: `Secrets`, `Redactor`; Order
--                            and Masks prove
--   Plan/Tunnel              core/engine/tun.go: the adapter's addresses; Kept proves
--   Routing/Presets          core/routing/presets.go: the presets and `Apply`; Applied proves
--   Subscription/Reference, Fetch, Info   core/subscription: the link, the fetch with its redirects,
--                            the user information header; Requests and Bounds prove
--   Secret/Items, Store      core/secret/store.go, format.go: `Store`; Kept and Atomic prove
--   Control/Book             core/control/subscriptions.go: Record is the stored record and `persistLocked`,
--                            Save is `save` and `delete`, Update is `refresh` and `applyUpdateLocked`;
--                            Distinct, Runs and Removed prove
--   Tests                    runs on concrete inputs
--
-- State and steps. A Go struct is a record, and a method is a function from the record to the error
-- that it returns (`none` for nil) and the new record; an early return is a clause or a branch. What
-- the code calls outside these files is answered by an environment, a record of functions: the
-- session's may look at every call made before, and the supervisor's is asked with a counter that each
-- question raises, so that an answer may change over time. A mutex makes a critical section one step.
-- Operations that hold one lock throughout are one step, those of a session run from their first to
-- their last lock, a refresh of the book is one step before and one after the fetch, and
-- Session/Journal/Race takes the deliveries of the journal apart. The two critical sections of `watch`
-- are two steps, so that `Apply` and `Stop` may come in between.
--
-- What the guard has in force is read off the calls made to it and their answers (`hold` of
-- Session/World). Settings that were applied are in force until a Restore returns no error, and one that
-- failed may have taken some of them back. A guard that has refused settings is in doubt: a refusal with
-- nothing in force is settled by a Restore without an error, and a refusal over settings that may be in
-- force only by an Apply without one, since `compositeGuard` may forget a part then. Session/Guard/Holds
-- compares this reading with `compositeGuard`. The theorems on sessions say nothing of what a guard
-- in doubt has in force.
--
-- Numbers are natural numbers, and 32 and 64 bit counters wrap where they are raised. Lengths, limits,
-- capacities and durations that Go tests for `<= 0` are 0 there. Times are numbers of nanoseconds, 0
-- for Go's zero time. Log texts and stored values are lists of bytes. The order in which Go visits a
-- map is that of a list.
--
-- Fuel. Loops are recursion on lists. `Logs.Pages.pages` reads pages on fuel, and one more page than
-- there are entries is enough, since every page but the last is not empty. `group_cycle` has one
-- more than the map of groups has entries, since the groups being visited are distinct members of the
-- map. The loop of `Fetch` has the number of hops that the limit of redirects leaves, and a number is
-- printed with the number itself, since each step divides it by ten. A stored list is cut into parts
-- with its length, since no part is empty.
--
-- Parameters. The standard library's parsers and printers (net.ParseIP, net.ParseCIDR, net/url,
-- encoding/json, encoding/base64, mime, net/netip, regexp, `%q`), its case mapping and the HTTP
-- client are arguments; a text that only tells a reader what went wrong is a constructor.
--
-- Not modelled: the regular expressions of core/logs/privacy.go, which are an argument; the float
-- products of core/engine/backoff.go, which are arguments; the probing of binaries, ports and secrets
-- (core/engine/supervise/binary.go, host.go) and the output pump of process.go; `maskedError` of
-- core/engine/redact.go, and a `net.OpError` without a cause; the renderers and controllers of the
-- engines (core/engine/mihomo, singbox, xray, clashapi, bypass) and their registry; parsers
-- (core/parser); the rest of the control plane (core/control), and of the book its loading, its schedule and its watchers; firewall and route changes (core/guard,
-- core/engine/tunroute), probes, diagnostics and IPC; the encryption, the key and the file of
-- core/secret; the service's entry point, the desktop application, generated code and zapret.
pub mod Prelude
pub mod Errs
pub mod Logs
pub mod Engine
pub mod Session
pub mod Plan
pub mod Routing
pub mod Subscription
pub mod Secret
pub mod Control
pub mod Tests
