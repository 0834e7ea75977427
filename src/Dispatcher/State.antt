-- ===== src/Dispatcher/State.antt =====
-- The state of a `ProductionDispatcher` and its audit events. A `submit` that is under way is an entry
-- of `_operations`, with how far it has come.
use lsmf.Base.{
  ℕ, String, Bool, true, false, List, [], ◌∷◌, ◌++◌, Option, none, some, ltb, if◌then◌else◌, ℤ,
}
use lsmf.Base.Results.{Result, ok, err, ◌>>=◌}
use lsmf.Base.Dict.{Dict}
use lsmf.Peer.Identity.{Action, action_value, RequestBinding}
use lsmf.Protocol.Json.{Json}
use lsmf.Protocol.Models.{ProductionStatus, ProductionRequest, ErrorDetail, ProductionResult}
use lsmf.Protocol.Checks.{error_detail, production_result}
use lsmf.Protocol.Wire.Results.{encode_result, production_status_value}

-- protected_audit.py: `class ProductionAuditEvent`
pub record ProductionAuditEvent : Type 0 where
  pub timestamp : String
  pub request_id : String
  pub lifecycle : String
  pub uid : ℕ
  pub pid : ℕ
  pub session_id : String
  pub seat_id : String
  pub action : String
  pub parameter_digest : String
  pub authorization_id : String
  pub authorization_outcome : String
  pub terminal_status : Option String
  pub exit_code : Option ℕ
  pub backup_id : Option String
  pub error_code : Option String

-- What is injected, as it answers during one step, with the clock, SHA-256 over parameters, the size
-- of a text that `json.dumps` makes, and the digits of Python's `\d`.
pub record Env : Type 0 where
  pub validate : ProductionRequest → Result Bool
  pub audit_sink : ProductionAuditEvent → Result (Option Bool)
  pub now : String
  pub parameter_digest : ProductionRequest → String
  pub text_size : Json → ℕ
  pub is_decimal : ℕ → Bool

-- Where a `submit` waits: for the lock, for the authorization task, or for the executor's task, which
-- has a number.
pub data Phase : Type 0 where
  waiting authorizing : Phase
  running : ℕ → Phase

-- `_Operation`, with the request of its `submit`; there is an authorization task while the phase is
-- `authorizing`. The token is set or not, and set with whether by a time-out.
pub record Operation : Type 0 where
  pub request : ProductionRequest
  pub binding : RequestBinding
  pub token : Option Bool
  pub phase : Phase

-- `executions` are the requests for which the executor was called, `answers` what each finished
-- `submit` returned or raised, and `tasks` the numbers of the executor's tasks under way.
pub record Dispatcher : Type 0 where
  pub operations : Dict Operation
  pub locked : Option String
  pub tasks : List ℕ
  pub next_task : ℕ
  pub executions : List ProductionRequest
  pub audit_events : List ProductionAuditEvent
  pub answers : List (String × Result Json)

-- `AUTHORIZATION_IDS[...]`
unfoldable pub authorization_id_of : Action → String
authorization_id_of Action.audit = "org.lsmf.helper.audit"
authorization_id_of Action.verify_module = "org.lsmf.helper.verify-module"
authorization_id_of Action.apply_module = "org.lsmf.helper.apply-module"
authorization_id_of Action.apply_modules = "org.lsmf.helper.apply-modules"
authorization_id_of Action.rollback_backup = "org.lsmf.helper.rollback-backup"

abbrev status_text : Option ProductionResult → Option String
status_text none = none
status_text (some r) = some (production_status_value r.status)

abbrev code_of : Option ErrorDetail → Option String
code_of none = none
code_of (some e) = some e.code

abbrev error_code_of : Option ProductionResult → Option String
error_code_of none = none
error_code_of (some r) = code_of r.error

abbrev exit_code_of : Option ProductionResult → Option ℕ
exit_code_of none = none
exit_code_of (some r) = r.exit_code

abbrev backup_id_of : Option ProductionResult → Option String
backup_id_of none = none
backup_id_of (some r) = r.backup_id

-- `_event`
unfoldable pub audit_event :
    Env → RequestBinding → String → String → String → Option ProductionResult → ProductionAuditEvent
audit_event env binding authorization_id lifecycle authorization_outcome result = record {
  timestamp = env.now;
  request_id = binding.request_id;
  lifecycle = lifecycle;
  uid = binding.peer.uid;
  pid = binding.peer.pid;
  session_id = binding.peer.session_id;
  seat_id = binding.peer.seat_id;
  action = action_value binding.action;
  parameter_digest = binding.parameter_digest;
  authorization_id = authorization_id;
  authorization_outcome = authorization_outcome;
  terminal_status = status_text result;
  exit_code = exit_code_of result;
  backup_id = backup_id_of result;
  error_code = error_code_of result;
}

-- `self._audit_sink(event) is not False`, and False where it raises
abbrev pub is_recorded : Result (Option Bool) → Bool
is_recorded (ok (some false)) = false
is_recorded (ok _) = true
is_recorded (err _) = false

-- `_audit`
unfoldable pub record_audit : Env → ProductionAuditEvent → Dispatcher → Bool × Dispatcher
record_audit env e d =
    (is_recorded (env.audit_sink e), record d { audit_events = d.audit_events ++ e ∷ [] })

abbrev or_else : Option String → Option String → Option String
or_else none o = o
or_else (some s) o = some s

-- what `_failure` takes from the result before, or from the request
abbrev prior_modules : ProductionRequest → Option ProductionResult → List String
prior_modules request none = request.module_ids
prior_modules request (some r) = r.module_ids

abbrev prior_backup : ProductionRequest → Option String → Option ProductionResult → Option String
prior_backup request backup_id none = or_else backup_id request.backup_id
prior_backup request backup_id (some r) = r.backup_id

abbrev no_findings : Action → Option ℤ
no_findings Action.audit = some (ℤ.pos 0)
no_findings _ = none

abbrev findings_of : Option ℕ → Option ℤ
findings_of none = none
findings_of (some n) = some (ℤ.pos n)

abbrev prior_findings : ProductionRequest → Option ProductionResult → Option ℤ
prior_findings request none = no_findings request.action
prior_findings request (some r) = findings_of r.finding_count

-- `_failure`, whose constructors' checks may raise
unfoldable pub failure_result :
    Env
    → ProductionRequest
    → ProductionStatus
    → String
    → String
    → Option ProductionResult
    → Option String
    → Result ProductionResult
failure_result env request status code message prior backup_id = do
  detail ← error_detail code message
  production_result env.is_decimal (Json.int (ℤ.pos 1)) request.request_id request.action status
      env.now env.now none message "" false (some detail) (prior_modules request prior)
      (prior_backup request backup_id prior) (prior_findings request prior)

-- `encode_result`, with its size check
unfoldable pub encoded : Env → ProductionResult → Result Json
encoded env r =
    let j = encode_result r in
    if ltb 131072 (env.text_size j) then err "encoded payload exceeds its size limit" else ok j
