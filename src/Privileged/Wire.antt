-- ===== src/Privileged/Wire.antt =====
-- lsmf/privileged_protocol.py `decode_request` and `encode_request`, between models and JSON trees.
-- The text of a tree is the work of Python's `json`; its size in bytes is an argument here.
-- Where several checks refuse a payload, the message may be that of another one of them.
pub mod RoundTrip
pub mod Results
use lsmf.Base.{
  ℕ, String, Bool, true, false, not, ◌&&◌, ◌||◌, List, [], ◌∷◌, ◌++◌, Option, none, some, ltb, ℤ,
}
use lsmf.Base.Results.{Result, ok, err, ◌>>=◌, ◌>>◌, raise_if}
use lsmf.Peer.Identity.{Action, action_value}
use lsmf.Protocol.Json.{Json, Fields}
use lsmf.Protocol.Objects.{
  field_names, get, is_unique, same_names, action_of, int_of, text_of, array_of, items_of,
}
use lsmf.Privileged.Models.{
  PrivilegedRequest, privileged_request, validate_module_id, validate_backup_id,
}

-- `_decode`, from its size check on
unfoldable pub decode : ℕ → ℕ → Json → Result Fields
decode maximum size value = do
  raise_if (ltb maximum size) "payload exceeds its size limit"
  raise_if (not (is_unique value)) "duplicate JSON field"
  elim value [ Json.obj fields ↦ ok fields | _ ↦ err "payload must be a JSON object" ]

-- `_exact_fields`
unfoldable pub exact_fields : Fields → List String → Result (Unit {0})
exact_fields value expected =
    raise_if (not (same_names (field_names value) expected))
      "payload fields do not match the action schema"

-- the branches of `decode_request`
unfoldable pub decode_arguments : ℤ → Action → Fields → Result PrivilegedRequest
decode_arguments version Action.audit value = do
  exact_fields value ("version" ∷ "request_id" ∷ "action" ∷ [])
  i ← text_of "request_id must be a canonical lowercase UUID" (get "request_id" value)
  privileged_request version i Action.audit [] none
decode_arguments version Action.apply_modules value = do
  exact_fields value ("version" ∷ "request_id" ∷ "action" ∷ "module_ids" ∷ [])
  modules ← array_of (get "module_ids" value)
  i ← text_of "request_id must be a canonical lowercase UUID" (get "request_id" value)
  privileged_request version i Action.apply_modules modules none
decode_arguments version Action.rollback_backup value = do
  exact_fields value ("version" ∷ "request_id" ∷ "action" ∷ "backup_id" ∷ [])
  backup_id ← text_of "backup ID is malformed" (get "backup_id" value)
  validate_backup_id backup_id
  i ← text_of "request_id must be a canonical lowercase UUID" (get "request_id" value)
  privileged_request version i Action.rollback_backup [] (some backup_id)
decode_arguments version action value = do
  exact_fields value ("version" ∷ "request_id" ∷ "action" ∷ "module_id" ∷ [])
  module_id ← text_of "module IDs must be lowercase allowlisted identifiers" (get "module_id" value)
  validate_module_id module_id
  i ← text_of "request_id must be a canonical lowercase UUID" (get "request_id" value)
  privileged_request version i action (module_id ∷ []) none

-- `decode_request`
unfoldable pub decode_request : ℕ → Json → Result PrivilegedRequest
decode_request size payload = do
  value ← decode 16384 size payload
  version ← int_of (get "version" value)
  action ← action_of (get "action" value)
  decode_arguments version action value

-- the fields that every request has, after those of its action, in the order of `sort_keys`
abbrev tail_of : PrivilegedRequest → Fields
tail_of r =
    Fields.field "request_id" (Json.str r.request_id)
      (Fields.field "version" (Json.int r.version) Fields.end)

abbrev module_field : List String → Fields → Fields
module_field (i ∷ _) fs = Fields.field "module_id" (Json.str i) fs
module_field [] fs = fs

abbrev backup_field : Option String → Fields → Fields
backup_field (some i) fs = Fields.field "backup_id" (Json.str i) fs
backup_field none fs = Fields.field "backup_id" Json.null fs

abbrev arguments_of : Action → PrivilegedRequest → Fields
arguments_of Action.audit r = tail_of r
arguments_of Action.apply_modules r =
    Fields.field "module_ids" (Json.arr (items_of r.module_ids)) (tail_of r)
arguments_of Action.rollback_backup r = backup_field r.backup_id (tail_of r)
arguments_of _ r = module_field r.module_ids (tail_of r)

-- `encode_request` up to its size check
unfoldable pub encode_request : PrivilegedRequest → Result Json
encode_request request = do
  validated ←
      privileged_request request.version request.request_id request.action request.module_ids
        request.backup_id
  ok (
      Json.obj (
        Fields.field "action" (Json.str (action_value validated.action))
          (arguments_of validated.action validated)))
