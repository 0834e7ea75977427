-- ===== src/Dispatcher/Submit.antt =====
-- lsmf/production_dispatcher.py `submit`, cut at its awaits, with `cancel` and `disconnected`. Each
-- part runs with no other between; the parts of different calls interleave.
pub mod Exclusion
pub mod Results
use lsmf.Base.{
  ℕ, suc, String, Bool, true, false, not, ◌&&◌, ◌||◌, List, [], ◌∷◌, ◌++◌, Option, none, some,
  str_eq, opt_eq, ◌==◌, if◌then◌else◌,
}
use lsmf.Base.Results.{Result, ok, err, ◌>>=◌}
use lsmf.Base.Dict.{Dict, lookup, insert, erase, contains}
use lsmf.Peer.Identity.{Action, action_eq, RequestBinding, binding_eq}
use lsmf.Protocol.Json.{Json}
use lsmf.Protocol.Models.{
  ProductionStatus, ProductionRequest, ProductionResult, ProductionCancelResponse,
}
use lsmf.Protocol.Checks.{is_one}
use lsmf.Protocol.Wire.Results.{production_status_value}
use lsmf.Sysctl.World.{cancel}
use lsmf.Dispatcher.State.{
  Env, Phase, waiting, authorizing, running, Operation, Dispatcher, authorization_id_of,
  audit_event, record_audit, failure_result, encoded,
}

-- the `finally` of `submit`, after the lock is released where it was held
unfoldable pub leave : String → Result Json → Dispatcher → Dispatcher
leave id answer d = record d {
  operations = erase id d.operations;
  locked = if opt_eq d.locked (some id) then none else d.locked;
  answers = d.answers ++ (id, answer) ∷ [];
}

-- what an `_audit_required` that stands before `return encode_result(result)` makes of the answer
abbrev required : Env → Bool → ProductionResult → Result Json
required env true result = encoded env result
required env false result = err "protected audit recording failed"

-- `result = self._failure(...)`, `self._audit_required(...)`, `return encode_result(result)`
unfoldable pub conclude :
    Env → Operation → String → String → Result ProductionResult → Dispatcher → Dispatcher
conclude env op lifecycle outcome (err x) d = leave op.binding.request_id (err x) d
conclude env op lifecycle outcome (ok result) d =
    let e =
      audit_event env op.binding (authorization_id_of op.request.action) lifecycle outcome
        (some result) in
    let (recorded, d') = record_audit env e d in
    leave op.binding.request_id (required env recorded result) d'

-- `except SyntheticCancelled`
unfoldable pub stop : Env → Operation → Bool → Dispatcher → Dispatcher
stop env op timed_out =
    conclude env op
      (production_status_value
        (if timed_out then ProductionStatus.timed_out else ProductionStatus.cancelled))
      "not_requested"
      (failure_result env op.request
        (if timed_out then ProductionStatus.timed_out else ProductionStatus.cancelled)
        (if timed_out then "timed_out" else "cancelled") "Request stopped before execution" none
        none)

-- `except asyncio.CancelledError`, which sets a token that nobody reads any more
unfoldable pub abandon : Operation → Dispatcher → Dispatcher
abandon op = leave op.binding.request_id (err "CancelledError")

abbrev pub is_allowed : Result Bool → Bool
is_allowed (ok allowed) = allowed
is_allowed (err _) = false

-- the first test of `submit`, a live request of the same ID included
abbrev pub is_mismatched : Env → ProductionRequest → RequestBinding → Dispatcher → Bool
is_mismatched env request binding d =
    not (str_eq request.request_id binding.request_id)
    || not (action_eq request.action binding.action)
    || not (str_eq (env.parameter_digest request) binding.parameter_digest)
    || contains request.request_id d.operations

abbrev pub entering : ProductionRequest → RequestBinding → Operation
entering request binding = record {
  request = request;
  binding = binding;
  token = none;
  phase = waiting;
}

-- `self._operations[request.request_id] = operation`
abbrev pub enter : ProductionRequest → RequestBinding → Dispatcher → Dispatcher
enter request binding d = record d {
  operations = insert request.request_id (entering request binding) d.operations;
}

-- raised before the operation is entered
abbrev pub refuse : ProductionRequest → Dispatcher → Dispatcher
refuse request d = record d {
  answers = d.answers ++ (request.request_id, err "request does not match its live binding") ∷ [];
}

-- `except Exception: valid = False`, and the answer of an entered request that is not valid
unfoldable pub admit : Env → Operation → Bool → Dispatcher → Dispatcher
admit env op true d = d
admit env op false d =
    conclude env op "rejected" "not_requested"
      (failure_result env op.request ProductionStatus.rejected "request_rejected"
        "Request is not eligible" none none)
      d

-- `submit` up to where it waits for the lock
unfoldable pub submit : Env → ProductionRequest → RequestBinding → Dispatcher → Dispatcher
submit env request binding d =
    if is_mismatched env request binding d
    then refuse request d
    else admit env (entering request binding) (is_allowed (env.validate request))
        (enter request binding d)

abbrev pub update : Operation → Dispatcher → Dispatcher
update op d = record d { operations = insert op.binding.request_id op d.operations }

-- `operation.token.checkpoint()`, and what follows it
unfoldable pub checkpoint :
    Env → Operation → (Dispatcher → Dispatcher) → Option Bool → Dispatcher → Dispatcher
checkpoint env op next none d = next d
checkpoint env op next (some timed_out) d = stop env op timed_out d

-- the lock is taken: the first checkpoint, and the authorization task is made
unfoldable pub acquire : Env → Operation → Dispatcher → Dispatcher
acquire env op =
    checkpoint env op
      (λ d. record (update (record op { phase = authorizing }) d) {
        locked = some op.binding.request_id;
      })
      op.token

-- what the authorization task gives: an answer, a `SyntheticCancelled` of its own, another exception;
-- or that it was cancelled
pub data Authorization : Type 0 where
  said interrupted : Bool → Authorization
  raised cancelled_error : Authorization

abbrev deny : Env → Operation → Dispatcher → Dispatcher
deny env op = conclude env op "denied" "denied" (
    failure_result env op.request ProductionStatus.denied "authorization_denied"
      "Authorization denied" none none)

-- `executor_task = asyncio.create_task(...)`, where `started` was recorded
unfoldable pub launch : Operation → Bool × Dispatcher → Dispatcher
launch op (false, d) = leave op.binding.request_id (err "protected audit recording failed") d
launch op (true, d) = record (update (record op { phase = running d.next_task }) d) {
  tasks = d.tasks ++ d.next_task ∷ [];
  next_task = suc d.next_task;
  executions = d.executions ++ op.request ∷ [];
}

-- the second checkpoint, `started`, and the executor's task is made
unfoldable pub begin : Env → Operation → Dispatcher → Dispatcher
begin env op =
    checkpoint env op
      (λ d. launch op (
        record_audit env
          (audit_event env op.binding (authorization_id_of op.request.action) "started" "authorized"
            none)
          d))
      op.token

-- the authorization task has ended
unfoldable pub authorized : Env → Authorization → Operation → Dispatcher → Dispatcher
authorized env (said true) op d = begin env op d
authorized env (said false) op d = deny env op d
authorized env raised op d = deny env op d
authorized env (interrupted timed_out) op d = stop env op timed_out d
authorized env cancelled_error op d = checkpoint env op (abandon op) op.token d

-- what the executor's task gives: a result, a `SyntheticExecutorError` with its backup ID, or another
-- exception; or that it was cancelled
pub data Execution : Type 0 where
  returned : ProductionResult → Execution
  executor_error : Option String → Execution
  other_error stopped_task : Execution

-- `_validate_result`; a version that a constructor has passed equals 1
unfoldable pub matches_request : ProductionRequest → ProductionResult → Bool
matches_request request result =
    is_one result.protocol_version
    && is_one request.protocol_version
    && str_eq result.request_id request.request_id
    && action_eq result.action request.action

-- `result` as the handlers around the executor leave it
unfoldable pub executed_result : Env → ProductionRequest → Execution → Result ProductionResult
executed_result env request (returned result) =
    if matches_request request result
    then ok result
    else failure_result env request ProductionStatus.failed "executor_failed"
        "Executor failed closed" none none
executed_result env request (executor_error backup_id) =
    failure_result env request ProductionStatus.failed "executor_failed" "Executor failed closed"
      none backup_id
executed_result env request _ =
    failure_result env request ProductionStatus.failed "executor_failed" "Executor failed closed"
      none none

-- what the terminal `_audit` makes of the answer
abbrev final : Env → ProductionRequest → Bool → ProductionResult → Result Json
final env request true result = encoded env result
final env request false result =
    failure_result env request ProductionStatus.failed "audit_failed"
      "Terminal audit recording failed" (some result) none
    >>= encoded env

-- the terminal event, and `return encode_result(result)`
unfoldable pub report : Env → Operation → Result ProductionResult → Dispatcher → Dispatcher
report env op (err x) d = leave op.binding.request_id (err x) d
report env op (ok result) d =
    let e =
      audit_event env op.binding (authorization_id_of op.request.action)
        (production_status_value result.status) "authorized" (some result) in
    let (recorded, d') = record_audit env e d in
    leave op.binding.request_id (final env op.request recorded result) d'

abbrev pub without : ℕ → List ℕ → List ℕ
without n [] = []
without n (m ∷ ms) = if m == n then ms else m ∷ without n ms

-- the executor's task has ended, and its `submit` still waits for it
unfoldable pub executed : Env → Execution → Operation → Dispatcher → Dispatcher
executed env stopped_task op d = abandon op d
executed env x op d = report env op (executed_result env op.request x) d

-- `operation.token.cancel()`
abbrev pub cancelled_operation : Bool → Operation → Operation
cancelled_operation timed_out op = record op { token = cancel timed_out op.token }

-- the `operation` of a binding, where it is that of a live `submit`
unfoldable pub cancel_if : RequestBinding → Option Operation → Dispatcher → Bool × Dispatcher
cancel_if binding none d = (false, d)
cancel_if binding (some op) d =
    if binding_eq op.binding binding
    then (true, update (cancelled_operation false op) d)
    else (false, d)

-- `cancel`, and whether it was accepted
unfoldable pub cancel_request : RequestBinding → Dispatcher → Bool × Dispatcher
cancel_request binding d = cancel_if binding (lookup binding.request_id d.operations) d

-- `disconnected`
unfoldable pub disconnected : List RequestBinding → Dispatcher → Dispatcher
disconnected [] d = d
disconnected (b ∷ bs) d = disconnected bs (cancel_request b d).1
