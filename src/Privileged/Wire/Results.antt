-- ===== src/Privileged/Wire/Results.antt =====
-- lsmf/privileged_protocol.py `decode_result` and `encode_result`, between models and JSON trees.
use Prim.Native.Nat.{◌≤◌}
use lsmf.Base.{ℕ, ◌≡◌, refl, false, [], ◌∷◌, Option, some, ltb, arith, str_eq, if◌then◌else◌}
use lsmf.Base.Results.{Result, ok, err, ◌>>=◌, ◌>>◌}
use lsmf.Peer.Identity.{action_value}
use lsmf.Protocol.Json.{Json, Fields}
use lsmf.Protocol.Objects.{
  get, action_of, int_of, text_of, array_of, items_of, texts-items, unique-items, action_of-value,
}
use lsmf.Protocol.Wire.{bool_of}
use lsmf.Privileged.Models.{ResultStatus, status_value, PrivilegedResult, privileged_result}
use lsmf.Privileged.Wire.{decode, exact_fields}

-- `ResultStatus(value)`
unfoldable pub result_status_of : Option Json → Result ResultStatus
result_status_of (some (Json.str s)) =
    if str_eq s "success"
    then ok ResultStatus.success
    else if str_eq s "error"
    then ok ResultStatus.error
    else if str_eq s "denied"
    then ok ResultStatus.denied
    else if str_eq s "cancelled"
    then ok ResultStatus.cancelled
    else if str_eq s "timeout"
    then ok ResultStatus.timeout
    else err "unknown action or result status"
result_status_of _ = err "unknown action or result status"

-- `decode_result`; a field of another type is refused by the constructor at the latest
unfoldable pub decode_privileged_result : ℕ → Json → Result PrivilegedResult
decode_privileged_result size payload = do
  value ← decode 65536 size payload
  exact_fields value
      ("version" ∷ "request_id" ∷ "action" ∷ "status" ∷ "message" ∷ "output" ∷ "truncated" ∷ [])
  version ← int_of (get "version" value)
  action ← action_of (get "action" value)
  status ← result_status_of (get "status" value)
  output ← array_of (get "output" value)
  request_id ← text_of "request_id must be a canonical lowercase UUID" (get "request_id" value)
  message ← text_of "message must be a string" (get "message" value)
  truncated ← bool_of "truncated must be a boolean" (get "truncated" value)
  privileged_result version request_id action status message output truncated

-- the keys in the order of `sort_keys`
abbrev result_object : PrivilegedResult → Json
result_object r = Json.obj (
    Fields.field "action" (Json.str (action_value r.action)) (
      Fields.field "message" (Json.str r.message) (
        Fields.field "output" (Json.arr (items_of r.output)) (
          Fields.field "request_id" (Json.str r.request_id) (
            Fields.field "status" (Json.str (status_value r.status)) (
              Fields.field "truncated" (Json.bool r.truncated)
                (Fields.field "version" (Json.int r.version) Fields.end)))))))

-- `encode_result` up to its size check
unfoldable pub encode_privileged_result : PrivilegedResult → Result Json
encode_privileged_result result = do
  validated ←
      privileged_result result.version result.request_id result.action result.status result.message
        result.output result.truncated
  ok (result_object validated)

status_of-value : (s : ResultStatus) → result_status_of (some (Json.str (status_value s))) ≡ ok s
unfolding result_status_of status_value
status_of-value ResultStatus.success = refl
status_of-value ResultStatus.error = refl
status_of-value ResultStatus.denied = refl
status_of-value ResultStatus.cancelled = refl
status_of-value ResultStatus.timeout = refl

small : (n : ℕ) → n ≤ 65536 → ltb 65536 n ≡ false
small n h = ground (arith, h)

-- The checks of the constructor pass on the result.
abbrev pub IsCheckedResult : PrivilegedResult → Type 0
IsCheckedResult r =
    privileged_result r.version r.request_id r.action r.status r.message r.output r.truncated ≡ ok r

-- A result that passed its constructor's checks is encoded, and what it is encoded to is decoded to
-- the same result, if its text is within the size limit.
pub decode_privileged_result-encode :
    (r : PrivilegedResult)
    → IsCheckedResult r
    → (size : ℕ) → size ≤ 65536
    → (j : Json) × (encode_privileged_result r ≡ ok j) × (decode_privileged_result size j ≡ ok r)
unfolding encode_privileged_result decode_privileged_result decode exact_fields
decode_privileged_result-encode r h size fits = (
  result_object r,
  rw h refl,
  rw
      (
        small size fits,
        unique-items r.output,
        texts-items r.output,
        action_of-value r.action,
        status_of-value r.status,
      )
      h,
)
