-- ===== src/Protocol/Wire/Results.antt =====
-- lsmf/production_protocol.py `decode_result` and `encode_result`.
pub mod RoundTrip
use lsmf.Base.{
  ℕ, String, Bool, true, false, not, List, [], ◌∷◌, Option, none, some, ltb, ℤ, str_eq,
  if◌then◌else◌,
}
use lsmf.Base.Results.{Result, ok, err, ◌>>=◌, ◌>>◌, raise_if}
use lsmf.Peer.Identity.{Action, action_value}
use lsmf.Protocol.Json.{Json, Fields}
use lsmf.Protocol.Objects.{get, action_of, text_of, array_of, items_of}
use lsmf.Protocol.Models.{ProductionStatus, ErrorDetail, ProductionResult}
use lsmf.Protocol.Checks.{error_detail, production_result}
use lsmf.Protocol.Wire.{fields_of, value_of, bool_of, parse, exact, optional_text}

-- `ProductionStatus.value`
unfoldable pub production_status_value : ProductionStatus → String
production_status_value ProductionStatus.succeeded = "succeeded"
production_status_value ProductionStatus.failed = "failed"
production_status_value ProductionStatus.denied = "denied"
production_status_value ProductionStatus.cancelled = "cancelled"
production_status_value ProductionStatus.timed_out = "timed_out"
production_status_value ProductionStatus.rejected = "rejected"

-- `ProductionStatus(value)`
unfoldable pub status_of : Option Json → Result ProductionStatus
status_of (some (Json.str s)) =
    if str_eq s "succeeded"
    then ok ProductionStatus.succeeded
    else if str_eq s "failed"
    then ok ProductionStatus.failed
    else if str_eq s "denied"
    then ok ProductionStatus.denied
    else if str_eq s "cancelled"
    then ok ProductionStatus.cancelled
    else if str_eq s "timed_out"
    then ok ProductionStatus.timed_out
    else if str_eq s "rejected"
    then ok ProductionStatus.rejected
    else err "unknown result action or status"
status_of _ = err "unknown result action or status"

-- a field that some check refuses unless it is null or an `int` and no `bool`
abbrev pub optional_int_of : String → Option Json → Result (Option ℤ)
optional_int_of message (some Json.null) = ok none
optional_int_of message (some (Json.int n)) = ok (some n)
optional_int_of message _ = err message

-- a field that some check refuses unless it is null or a text
abbrev pub optional_text_of : String → Option Json → Result (Option String)
optional_text_of message (some Json.null) = ok none
optional_text_of message (some (Json.str s)) = ok (some s)
optional_text_of message _ = err message

-- the branch of `decode_result` on `value["error"]`
unfoldable pub decode_error : Option Json → Result (Option ErrorDetail)
decode_error (some Json.null) = ok none
decode_error raw_error = do
  fields ← fields_of "error must be an object or null" raw_error
  exact fields ("code" ∷ "message" ∷ [])
  code ← text_of "error code is invalid" (get "code" fields)
  message ← text_of "error message is invalid or too long" (get "message" fields)
  e ← error_detail code message
  ok (some e)

-- the branches of `decode_result` on the action
unfoldable pub decode_result_object :
    Action → Fields → Result (List String × Option String × Option ℤ)
decode_result_object Action.audit raw_result = do
  exact raw_result ("finding_count" ∷ [])
  finding_count ← optional_int_of "audit result shape is invalid" (get "finding_count" raw_result)
  ok ([], none, finding_count)
decode_result_object _ raw_result = do
  exact raw_result ("module_ids" ∷ "backup_id" ∷ [])
  module_ids ← array_of (get "module_ids" raw_result)
  backup_id ← optional_text_of "backup ID is malformed" (get "backup_id" raw_result)
  ok (module_ids, backup_id, none)

-- `decode_result`
unfoldable pub decode_result : (ℕ → Bool) → ℕ → Json → Result ProductionResult
decode_result is_decimal size payload = do
  value ← parse 131072 size payload
  exact value (
      "action" ∷ "error" ∷ "exit_code" ∷ "finished_at" ∷ "output" ∷ "output_truncated"
      ∷ "protocol_version" ∷ "request_id" ∷ "result" ∷ "started_at" ∷ "status" ∷ "summary" ∷ [])
  action ← action_of (get "action" value)
  status ← status_of (get "status" value)
  error ← decode_error (get "error" value)
  raw_result ← fields_of "result must be an object" (get "result" value)
  parts ← decode_result_object action raw_result
  version ← value_of (get "protocol_version" value)
  request_id ← text_of "request_id must be a canonical lowercase UUID" (get "request_id" value)
  started_at ← text_of "started_at is not canonical UTC" (get "started_at" value)
  finished_at ← text_of "finished_at is not canonical UTC" (get "finished_at" value)
  exit_code ← optional_int_of "exit_code is invalid" (get "exit_code" value)
  summary ← text_of "summary is invalid or too long" (get "summary" value)
  output ← text_of "output is invalid or too long" (get "output" value)
  output_truncated ← bool_of "output_truncated must be boolean" (get "output_truncated" value)
  production_result is_decimal version request_id action status started_at finished_at exit_code
      summary output output_truncated error parts.0 parts.1 parts.2

abbrev pub optional_int : Option ℕ → Json
optional_int none = Json.null
optional_int (some n) = Json.int (ℤ.pos n)

abbrev pub error_object : Option ErrorDetail → Json
error_object none = Json.null
error_object (some e) =
    Json.obj (
      Fields.field "code" (Json.str e.code)
        (Fields.field "message" (Json.str e.message) Fields.end))

-- `result_object`
unfoldable pub result_object : Action → List String → Option String → Option ℕ → Fields
result_object Action.audit module_ids backup_id finding_count =
    Fields.field "finding_count" (optional_int finding_count) Fields.end
result_object _ module_ids backup_id finding_count =
    Fields.field "backup_id" (optional_text backup_id)
      (Fields.field "module_ids" (Json.arr (items_of module_ids)) Fields.end)

-- `encode_result`
unfoldable pub encode_result : ProductionResult → Json
encode_result r = Json.obj (
    Fields.field "action" (Json.str (action_value r.action)) (
      Fields.field "error" (error_object r.error) (
        Fields.field "exit_code" (optional_int r.exit_code) (
          Fields.field "finished_at" (Json.str r.finished_at) (
            Fields.field "output" (Json.str r.output) (
              Fields.field "output_truncated" (Json.bool r.output_truncated) (
                Fields.field "protocol_version" r.protocol_version (
                  Fields.field "request_id" (Json.str r.request_id) (
                    Fields.field "result"
                      (Json.obj (result_object r.action r.module_ids r.backup_id r.finding_count))
                      (Fields.field "started_at" (Json.str r.started_at) (
                        Fields.field "status" (Json.str (production_status_value r.status))
                          (Fields.field "summary" (Json.str r.summary) Fields.end))))))))))))
