-- ===== src/Lib.antt =====
-- LSMF hardens a Linux machine for a desktop user: a desktop program asks a system service to apply
-- modules of sysctl settings, and to take them back. This library models the security core of the
-- service, lsmf/*.py, and proves what its parts promise. A module is named for the part it models.
--
-- - Base: Boolean tests, lists, Python's dictionaries (association lists in insertion order),
--   results (a raised exception is `err` with its message) and the patterns of the source's regular
--   expressions, as run-lengths of character classes (Base/Text.antt).
-- - Peer: lsmf/ipc_security.py and lsmf/system_session.py. Peer/Identity.antt has the dataclasses and
--   one function for each `__post_init__`; Peer/Derive.antt has `derive_peer` and
--   `SystemdLoginSessionAdapter`, over the calls of sd-login, which are the fields of a record
--   `LoginBackend`; Peer/Derive/Laws.antt and Peer/Derive/Backend.antt have their theorems.
-- - Authorization: lsmf/system_authorization.py. Authorization/ProcessTime.antt is
--   `process_start_time`; Authorization/Pkcheck.antt has the credential adapter of the bus, the check
--   of the executable and `PkcheckAuthorizer`, and Authorization/AsyncPkcheck.antt
--   `AsyncPkcheckAuthorizer` with what it does to its child process.
-- - Registry: lsmf/ipc_security.py `LiveRequestRegistry`, a record with one function for each method;
--   the invariant is in Registry/Invariant.antt, what methods do to a request in
--   Registry/Behaviour.antt.
-- - Protocol: lsmf/production_protocol.py. Protocol/Models.antt has the dataclasses, Protocol/Checks.antt
--   their `__post_init__`, Protocol/Wire.antt and Protocol/Wire/Results.antt the decoders and encoders
--   between models and JSON trees (Protocol/Json.antt, Protocol/Objects.antt), with their round trips
--   in modules RoundTrip; Protocol/Agreement.antt compares the checks with those of
--   lsmf/privileged_protocol.py.
-- - Dispatcher: lsmf/production_dispatcher.py. Dispatcher/State.antt is the state of a
--   `ProductionDispatcher`, with the audit events of lsmf/protected_audit.py and `_failure`;
--   Dispatcher/Submit.antt is `submit`, cut into functions at its awaits, `cancel` and `disconnected`.
--   Dispatcher/Schedule.antt puts them together: an event is what happens next (a call, the lock taken,
--   an answer of the authorizer, a time-out, the end of an executor's task, the cancellation of the
--   task that runs a call), and a trace is a list of events, each with what the injected functions
--   answer then. The lock may go to any call that waits for it, where asyncio's is first come, first
--   served. Proofs are in Submit/Exclusion and Schedule/Exclusion (the lock), Schedule/Executions,
--   Schedule/Calls (by the counts of Weights.antt) and Submit/Results.
-- - Bus: lsmf/system_bus_service.py. Bus/Caller.antt finds out who sent a message;
--   Bus/Service.antt is `SystemBusServiceBoundary`, cut at the awaits of its dispatcher, and
--   Bus/Service/Consistency.antt puts its parts together as events in any order. Bus/Router.antt is
--   `DbusNextRouter`, from a message to what is asked of the boundary, and from its answer to the
--   reply.
-- - Audit: lsmf/protected_audit.py, in Audit/Sink.antt, over a kernel that may fail at each call.
-- - Config: lsmf/configuration.py, over texts as lists of code points. Config/Values.antt is
--   `validate_value`, Config/Lines.antt what Python makes of lines, Config/Parse.antt `parse_config`,
--   Config/Legacy.antt `parse_legacy_mixed`, and Config/Save.antt `write_config_atomic` and
--   `ConfigStore`.
-- - ReadOnly: lsmf/read_only_process.py. ReadOnly/Commands.antt is the constructor,
--   ReadOnly/Results.antt has the allowlist and the results of `ReadOnlyProcessExecutor`,
--   ReadOnly/Output.antt `_read_bounded`, ReadOnly/Executor.antt `execute` and `_stop`, over the
--   rounds of its loop; what becomes of the process is in ReadOnly/Cleanup.antt, what its answers
--   say in ReadOnly/Success.antt.
-- - Privileged: lsmf/privileged_protocol.py (Privileged/Models.antt, the dataclasses and their
--   `__post_init__`) and lsmf/privileged_helper.py (Privileged/Helper.antt, `handle` with every stage
--   and `_validated_result`), over injected boundaries that are what they answer during one call.
--   What is executed is proved in Privileged/Helper/Execution.antt and Once.antt, the bounds on results
--   in Bounds.antt. Privileged/Wire.antt is `decode_request` and `encode_request` between models and
--   JSON trees (Protocol/Json.antt), Privileged/Wire/RoundTrip.antt their round trip.
-- - Sysctl: lsmf/sysctl_manifest.py and lsmf/sysctl_transaction.py. Sysctl/Manifest.antt has the
--   manifest and `SysctlManifestPolicy`, Manifest/Load.antt `load_sysctl_manifest` over the
--   checks of Manifest/Checks.antt; what
--   a loaded manifest is follows in Manifest/Trusted.antt and Manifest/Policy.antt.
--   Sysctl/World.antt is the machine that a transaction works on: the managed tree, the sysctls, the
--   backup store, the recovery marker, and the cancellation token of lsmf/synthetic_executor.py. A
--   method is a function from a world to an outcome (a value or an exception) and a world. Each
--   system call takes one of a list of choices: it works, it fails before or after it took effect or
--   halfway, or a cancellation arrives; so a theorem about all worlds is one about all faults and all
--   moments of a cancellation. Sysctl/Files.antt is `RootedManagedFiles`, Sysctl/Values.antt
--   `ProcSysctlValues`, Sysctl/Backups.antt `SysctlBackupStore`; `SysctlTransactionExecutor` is in
--   Sysctl/Capture.antt (`_snapshot`), Sysctl/Restore.antt (`_restore`), Sysctl/Apply.antt (`_apply`),
--   Sysctl/Rollback.antt (`_rollback`, `execute`) and Sysctl/Outcomes.antt (its results). The proofs
--   are in Sysctl/Proofs: inversions of single calls (Reads, Store), what computations keep of the
--   disk (Frame, Confined), which exceptions they raise (Throws), and the theorems.
-- - Tests: the theorems at concrete inputs.
--
-- Loops over lists are structural recursion. `str(n)` (Base/Decimal.antt) has fuel n + 1: each round
-- divides by ten, and the number is read back from what is written. The loop of `_append` has the
-- length of the line as fuel, and it is proved that it never ends for lack of it.
--
-- Parameters, because their code is not in the repository: the sd-login calls (`LoginBackend`), the
-- helper's policy, authorizer, executor and audit sink (`Boundaries`), those of the dispatcher with
-- its clock, the SHA-256 of parameters, the size of a JSON text and the digits of `\d` (`Env`), and
-- in a record `Host` SHA-256 of a content and of a payload, the size of an encoded envelope, the
-- process's user and group and its file mode mask, whether the parents of a path are directories
-- and no links, the path of the temporary file beside a path, and what the kernel makes of a value
-- written to a sysctl; the replies of the bus daemon (`Call`), the text of `/proc/PID/stat` and
-- what pkcheck does (`Answers`), the kernel's answers to the audit sink (`Kernel`) and to a save
-- (`Disk`), Unicode's digits beyond ASCII (`Digits`), what comes of opening, reading and decoding a
-- manifest (`ManifestFile`), and what Python decodes, the time (`Library`) and what a worker's
-- process does (`ReadOnly.Executor.Answers`). Where a theorem has a hypothesis about one of them
-- (the size of a text in a round trip, the form of an answer), it is written out in its statement.
-- Python's `json` is between a text and a tree: the decoder takes the tree and the text's size, and
-- the encoder ends before its size check. A backup file is kept as the envelope that its JSON
-- stands for or as damaged, and the marker as the ID in it or as unusable.
--
-- Not modelled: the time stamps of a transaction's result and the checks that its constructor
-- makes; the checks that the constructors of the file, sysctl and backup classes make of their root
-- directories; `isinstance` checks, which the types make here; threads, since a transaction runs in
-- one; the desktop program, the connection to the bus, the other worker processes, profiles and the
-- settings editor; UTF-8; a call of `ReadOnlyProcessExecutor` that waits for ever, for its worker
-- or for an output that does not end; a child of `AsyncPkcheckAuthorizer` whose start is cancelled,
-- which asyncio kills and waits for; a part of a content in the temporary file of a write that
-- fails (it is there whole, or empty); a limit on the digits of a number that Python's `int` reads.
pub mod Base
pub mod Peer
pub mod Authorization
pub mod Registry
pub mod Protocol
pub mod Privileged
pub mod Sysctl
pub mod Dispatcher
pub mod Bus
pub mod Audit
pub mod Config
pub mod ReadOnly
pub mod Tests
