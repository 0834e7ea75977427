-- ===== src/Privileged/Helper.antt =====
-- lsmf/privileged_helper.py `PrivilegedHelper`. The policy, the authorizer, the executor and the
-- audit sink are injected: each is what it answers during one call of `handle`, or that it raises.
-- `calls` is what was asked of the sink and the executor so far, in order.
pub mod Bounds
pub mod Execution
pub mod Once
use Prim.Native.Char.{code}
use Prim.Native.Nat.{◌+◌, ◌-◌}
use lsmf.Base.{
  ℕ, zero, suc, String, Bool, true, false, not, ◌&&◌, ◌||◌, List, [], ◌∷◌, ◌++◌, Option, none, some,
  ltb, leb, ◌==◌, ℤ, str_eq, if◌then◌else◌,
}
use lsmf.Base.Results.{Result, ok, err, ◌>>=◌, ◌>>◌, raise_if}
use lsmf.Base.Dict.{mem}
use lsmf.Peer.Identity.{Action, action_value, action_eq}
use lsmf.Privileged.Models.{
  ResultStatus, status_value, utf8_size, bytes_of, PrivilegedRequest, PrivilegedResult,
  privileged_result,
}
use lsmf.Sysctl.Manifest.{ids_eq}

-- `AUTHORIZATION_IDS.get`
unfoldable pub authorization_of : Action → Option String
authorization_of Action.audit = some "org.lsmf.helper.audit"
authorization_of Action.verify_module = some "org.lsmf.helper.verify-module"
authorization_of Action.apply_module = some "org.lsmf.helper.apply-module"
authorization_of Action.apply_modules = some "org.lsmf.helper.apply-modules"
authorization_of Action.rollback_backup = some "org.lsmf.helper.rollback-backup"

pub record AuditEvent : Type 0 where
  pub request_id : Option String
  pub action : Option String
  pub authorization_id : Option String
  pub outcome : String
  pub detail : String

pub record HelperOutcome : Type 0 where
  pub result : Option PrivilegedResult
  pub audit_event : AuditEvent

-- What `__init__` is given.
pub record Boundaries : Type 0 where
  pub policy : Option (PrivilegedRequest → Result Bool)
  pub authorizer : Option (String → PrivilegedRequest → Result Bool)
  pub executor : Option (PrivilegedRequest → Result PrivilegedResult)
  pub audit_sink : Option (AuditEvent → Result (Option Bool))

pub data Call : Type 0 where
  recorded : AuditEvent → Call
  executed : PrivilegedRequest → Call

pub record Helper : Type 0 where
  pub audit_events : List AuditEvent  -- `_audit_events`
  pub seen : List String  -- `_seen_request_ids`
  pub calls : List Call

-- the longest beginning whose encoding fits, which is what the cut and `errors="ignore"` leave
abbrev pub fitting : ℕ → String → String
fitting limit String.[] = String.[]
fitting limit (String.◌∷◌ c s) =
    let rest = fitting (limit - utf8_size (code c)) s in
    if leb (utf8_size (code c)) limit then String.◌∷◌ c rest else String.[]

-- `_bound_text`
unfoldable pub bound_text : String → ℕ → String
bound_text value limit =
    if limit == 0 then "" else if leb (bytes_of value) limit then value else fitting limit value

abbrev least : ℕ → ℕ → ℕ
least a b = if leb a b then a else b

-- the loop over `result.output[:MAX_OUTPUT_LINES]`; `lines` counts what the slice has left
unfoldable pub bound_output : ℕ → ℕ → List String → List String
bound_output zero remaining items = []
bound_output (suc lines) remaining [] = []
bound_output (suc lines) remaining (item ∷ items) =
    let bounded = bound_text item (least 4096 remaining) in
    let left = remaining - bytes_of bounded in
    let rest = bound_output lines left items in if left == 0 then bounded ∷ [] else bounded ∷ rest

abbrev same_version : ℤ → ℤ → Bool
same_version (ℤ.pos a) (ℤ.pos b) = a == b
same_version (ℤ.negsuc a) (ℤ.negsuc b) = a == b
same_version _ _ = false

-- `_validated_result`
unfoldable pub validated_result : PrivilegedRequest → PrivilegedResult → Result PrivilegedResult
validated_result request result = do
  raise_if
      (not (same_version result.version request.version)
        || not (str_eq result.request_id request.request_id)
        || not (action_eq result.action request.action))
      "executor result does not match request"
  let message = bound_text result.message 512
  let output = bound_output 64 32768 result.output
  privileged_result result.version result.request_id result.action result.status message output
      (result.truncated || not (str_eq message result.message) || not (ids_eq output result.output))

-- `_error`; its constructor's checks pass, since the request has passed the same ones
unfoldable pub error_result : PrivilegedRequest → ResultStatus → String → PrivilegedResult
error_result request status message = record {
  version = request.version;
  request_id = request.request_id;
  action = request.action;
  status = status;
  message = message;
  output = [];
  truncated = false;
}

-- `_event`
unfoldable pub event : Option PrivilegedRequest → String → String → AuditEvent
event none outcome detail = record {
  request_id = none;
  action = none;
  authorization_id = none;
  outcome = outcome;
  detail = detail;
}
event (some request) outcome detail = record {
  request_id = some request.request_id;
  action = some (action_value request.action);
  authorization_id = authorization_of request.action;
  outcome = outcome;
  detail = detail;
}

-- `self._audit_events.append`
abbrev pub append_event : AuditEvent → Helper → Helper
append_event e h = record h { audit_events = h.audit_events ++ e ∷ [] }

-- `recorded is not False`, where the sink did not raise
abbrev pub is_recorded : Result (Option Bool) → Bool
is_recorded (ok (some false)) = false
is_recorded (ok _) = true
is_recorded (err _) = false

abbrev pub ask : Call → Helper → Helper
ask c h = record h { calls = h.calls ++ c ∷ [] }

-- `_record`
unfoldable pub record_event : Boundaries → Bool → AuditEvent → Helper → Bool × Helper
record_event b require_sink e h = elim b.audit_sink [
  | none ↦ (not require_sink, append_event e h)
  | some sink ↦ (is_recorded (sink e), ask (recorded e) (append_event e h))
]

-- what `_finish` answers once the terminal event was recorded, or was not
abbrev pub ending :
    Option PrivilegedResult
    → Option PrivilegedRequest
    → AuditEvent
    → Bool × Helper
    → HelperOutcome × Helper
ending result request e (true, h) = (record { result = result; audit_event = e }, h)
ending result none e (false, h) =
    let lost = event none "error" "terminal audit recording failed" in
    (record { result = result; audit_event = lost }, append_event lost h)
ending result (some request) e (false, h) =
    let lost = event (some request) "error" "terminal audit recording failed" in
    (
      record {
        result = some (error_result request ResultStatus.error "Audit recording failed");
        audit_event = lost;
      },
      append_event lost h,
    )

-- `_finish`
unfoldable pub finish :
    Boundaries
    → Option PrivilegedResult
    → Option PrivilegedRequest
    → String
    → String
    → Helper
    → HelperOutcome × Helper
finish b result request outcome detail h =
    let e = event request outcome detail in ending result request e (record_event b false e h)

-- `return self._finish(self._error(...), request, ...)`
unfoldable pub refuse :
    Boundaries
    → PrivilegedRequest
    → ResultStatus
    → String
    → String
    → String
    → Helper
    → HelperOutcome × Helper
refuse b request status message outcome detail =
    finish b (some (error_result request status message)) (some request) outcome detail

-- the last `try` of `handle`, and what follows it
unfoldable pub execute_request :
    Boundaries
    → PrivilegedRequest
    → (PrivilegedRequest → Result PrivilegedResult)
    → Helper
    → HelperOutcome × Helper
execute_request b request executor h = elim (executor request >>= validated_result request) [
  | err _ ↦
      refuse b request ResultStatus.error "Execution failed" "error" "executor error"
        (ask (executed request) h)
  | ok result ↦
      finish b (some result) (some request) (status_value result.status) "request completed"
        (ask (executed request) h)
]

-- what follows `started = ...`
unfoldable pub start :
    Boundaries
    → PrivilegedRequest
    → (PrivilegedRequest → Result PrivilegedResult)
    → Helper
    → HelperOutcome × Helper
start b request executor h =
    begin (record_event b true (event (some request) "started" "executor starting") h)
  where
    begin : Bool × Helper → HelperOutcome × Helper
    begin (true, h) = execute_request b request executor h
    begin (false, h) =
        let lost = event (some request) "error" "start audit recording failed" in
        (
          record {
            result = some (error_result request ResultStatus.error "Audit recording failed");
            audit_event = lost;
          },
          append_event lost h,
        )

-- the checks of the executor and the sink
unfoldable pub check_executor : Boundaries → PrivilegedRequest → Helper → HelperOutcome × Helper
check_executor b request h = elim b.executor [
  | none ↦
      refuse b request ResultStatus.denied "Execution is unavailable" "denied"
        "executor unavailable" h
  | some executor ↦ elim b.audit_sink [
    | none ↦
        refuse b request ResultStatus.error "Audit recording is unavailable" "error"
          "audit sink unavailable before execution" h
    | some _ ↦ start b request executor h
  ]
]

-- the check of the authorizer
unfoldable pub check_authorizer :
    Boundaries → PrivilegedRequest → String → Helper → HelperOutcome × Helper
check_authorizer b request authorization_id h = elim b.authorizer [
  | none ↦
      refuse b request ResultStatus.denied "Authorization is unavailable" "denied"
        "authorizer unavailable" h
  | some authorize ↦ elim (authorize authorization_id request) [
    | err _ ↦
        refuse b request ResultStatus.denied "Authorization failed" "denied" "authorizer error" h
    | ok false ↦
        refuse b request ResultStatus.denied "Authorization denied" "denied" "authorization denied"
          h
    | ok true ↦ check_executor b request h
  ]
]

-- `policy_allowed is True`, where the policy did not raise
abbrev pub is_allowed : Result Bool → Bool
is_allowed (ok allowed) = allowed
is_allowed (err _) = false

-- the checks of the action and of the policy
unfoldable pub check_policy : Boundaries → PrivilegedRequest → Helper → HelperOutcome × Helper
check_policy b request h = elim (authorization_of request.action) [
  | none ↦
      refuse b request ResultStatus.denied "Action is not allowed" "denied"
        "action has no authorization policy" h
  | some authorization_id ↦ elim b.policy [
    | none ↦
        refuse b request ResultStatus.denied "Request policy is unavailable" "rejected"
          "request policy unavailable" h
    | some validate ↦ elim (is_allowed (validate request)) [
      | false ↦
          refuse b request ResultStatus.denied "Request is not eligible" "rejected"
            "trusted request policy rejected request" h
      | true ↦ check_authorizer b request authorization_id h
    ]
  ]
]

-- `handle`, given what `decode_request` made of the payload
unfoldable pub handle : Boundaries → Result PrivilegedRequest → Helper → HelperOutcome × Helper
handle b (err _) h = finish b none none "invalid" "request validation failed" h
handle b (ok request) h =
    if mem request.request_id h.seen
    then refuse b request ResultStatus.denied "Request ID was already used" "rejected"
        "request ID replay rejected" h
    else check_policy b request (record h { seen = request.request_id ∷ h.seen })
