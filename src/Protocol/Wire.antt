-- ===== src/Protocol/Wire.antt =====
-- lsmf/production_protocol.py: the decoders and encoders, between models and JSON trees. The text of
-- a tree is the work of Python's `json`; its size in bytes is an argument here, and an encoder ends
-- before its size check. Where several checks refuse a payload, the message may be that of another
-- one of them.
pub mod RoundTrip
pub mod Results
use lsmf.Base.{
  ℕ, String, Bool, true, false, not, List, [], ◌∷◌, Option, none, some, ltb, ℤ, str_eq,
  if◌then◌else◌,
}
use lsmf.Base.Results.{Result, ok, err, ◌>>=◌, ◌>>◌, raise_if}
use lsmf.Peer.Identity.{Action, action_value}
use lsmf.Protocol.Json.{Json, Fields}
use lsmf.Protocol.Objects.{
  field_names, get, is_unique, same_names, action_of, int_of, text_of, texts_of, array_of, items_of,
}
use lsmf.Protocol.Models.{
  ProductionStatus, ProductionRequest, ProductionCancel, ProductionCancelResponse, ErrorDetail,
  ProductionResult,
}
use lsmf.Protocol.Checks.{
  check_module_id, check_backup_id, production_request, production_cancel,
  production_cancel_response, error_detail, production_result,
}

-- a value that must be an object
abbrev pub fields_of : String → Option Json → Result Fields
fields_of message (some (Json.obj fields)) = ok fields
fields_of message _ = err message

-- a field that is handed on as it is, once `_exact` has found it there
abbrev pub value_of : Option Json → Result Json
value_of (some v) = ok v
value_of none = err "payload fields do not match the schema"

-- a field that some check refuses unless it is a `bool`
abbrev pub bool_of : String → Option Json → Result Bool
bool_of message (some (Json.bool b)) = ok b
bool_of message _ = err message

-- `_decode`, from its size check on
unfoldable pub parse : ℕ → ℕ → Json → Result Fields
parse maximum size value = do
  raise_if (ltb maximum size) "payload exceeds its size limit"
  raise_if (not (is_unique value)) "duplicate JSON field"
  fields_of "payload must be a JSON object" (some value)

-- `_exact`
unfoldable pub exact : Fields → List String → Result (Unit {0})
exact value fields =
    raise_if (not (same_names (field_names value) fields)) "payload fields do not match the schema"

-- the branches of `decode_request`
unfoldable pub decode_parameters : Json → String → Action → Fields → Result ProductionRequest
decode_parameters version request_id Action.audit parameters = do
  exact parameters []
  production_request version request_id Action.audit [] none
decode_parameters version request_id Action.apply_modules parameters = do
  exact parameters ("module_ids" ∷ [])
  modules ← array_of (get "module_ids" parameters)
  production_request version request_id Action.apply_modules modules none
decode_parameters version request_id Action.rollback_backup parameters = do
  exact parameters ("backup_id" ∷ [])
  backup_id ← text_of "backup ID is malformed" (get "backup_id" parameters)
  check_backup_id backup_id
  production_request version request_id Action.rollback_backup [] (some backup_id)
decode_parameters version request_id action parameters = do
  exact parameters ("module_id" ∷ [])
  module_id ← text_of "module ID is malformed" (get "module_id" parameters)
  check_module_id module_id
  production_request version request_id action (module_id ∷ []) none

-- `decode_request`
unfoldable pub decode_production_request : ℕ → Json → Result ProductionRequest
decode_production_request size payload = do
  value ← parse 16384 size payload
  exact value ("protocol_version" ∷ "request_id" ∷ "action" ∷ "parameters" ∷ [])
  version ← int_of (get "protocol_version" value)
  action ← action_of (get "action" value)
  parameters ← fields_of "parameters must be an object" (get "parameters" value)
  request_id ← text_of "request_id must be a canonical lowercase UUID" (get "request_id" value)
  decode_parameters (Json.int version) request_id action parameters

abbrev first_module : List String → Fields
first_module (i ∷ _) = Fields.field "module_id" (Json.str i) Fields.end
first_module [] = Fields.end

abbrev pub optional_text : Option String → Json
optional_text none = Json.null
optional_text (some s) = Json.str s

-- `parameters`
unfoldable pub parameters_of : Action → List String → Option String → Fields
parameters_of Action.audit modules backup_id = Fields.end
parameters_of Action.apply_modules modules backup_id =
    Fields.field "module_ids" (Json.arr (items_of modules)) Fields.end
parameters_of Action.rollback_backup modules backup_id =
    Fields.field "backup_id" (optional_text backup_id) Fields.end
parameters_of _ modules backup_id = first_module modules

-- `encode_request`
unfoldable pub encode_production_request : ProductionRequest → Json
encode_production_request r = Json.obj (
    Fields.field "action" (Json.str (action_value r.action)) (
      Fields.field "parameters" (Json.obj (parameters_of r.action r.module_ids r.backup_id)) (
        Fields.field "protocol_version" r.protocol_version
          (Fields.field "request_id" (Json.str r.request_id) Fields.end))))

-- `decode_cancel`
unfoldable pub decode_cancel : ℕ → Json → Result ProductionCancel
decode_cancel size payload = do
  value ← parse 16384 size payload
  exact value ("protocol_version" ∷ "request_id" ∷ [])
  version ← value_of (get "protocol_version" value)
  request_id ← text_of "request_id must be a canonical lowercase UUID" (get "request_id" value)
  production_cancel version request_id

-- `encode_cancel`
unfoldable pub encode_cancel : ProductionCancel → Json
encode_cancel c = Json.obj (
    Fields.field "protocol_version" c.protocol_version
      (Fields.field "request_id" (Json.str c.request_id) Fields.end))

-- `decode_cancel_response`
unfoldable pub decode_cancel_response : ℕ → Json → Result ProductionCancelResponse
decode_cancel_response size payload = do
  value ← parse 16384 size payload
  exact value ("protocol_version" ∷ "request_id" ∷ "accepted" ∷ [])
  version ← value_of (get "protocol_version" value)
  request_id ← text_of "request_id must be a canonical lowercase UUID" (get "request_id" value)
  accepted ← bool_of "accepted must be boolean" (get "accepted" value)
  production_cancel_response version request_id accepted

-- `encode_cancel_response`
unfoldable pub encode_cancel_response : ProductionCancelResponse → Json
encode_cancel_response r = Json.obj (
    Fields.field "accepted" (Json.bool r.accepted) (
      Fields.field "protocol_version" r.protocol_version
        (Fields.field "request_id" (Json.str r.request_id) Fields.end)))
