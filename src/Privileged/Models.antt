-- ===== src/Privileged/Models.antt =====
-- lsmf/privileged_protocol.py: requests and results, with the checks that their constructors make.
use Prim.Native.Char.{code}
use Prim.Native.Nat.{◌+◌}
use lsmf.Base.{
  ℕ, String, Bool, false, not, ◌&&◌, ◌||◌, List, [], ◌∷◌, Option, none, some, ltb, ◌==◌, ℤ, length,
  is_empty, is_some, if◌then◌else◌,
}
use lsmf.Base.Results.{Result, ok, err, ◌>>=◌, ◌>>◌, raise_if}
use lsmf.Base.Dict.{distinct}
use lsmf.Base.Text.{codes, is_lower, is_upper, is_digit, is_word, headed}
use lsmf.Peer.Identity.{Action, is_request_id}

pub data ResultStatus : Type 0 where
  success error denied cancelled timeout : ResultStatus

-- `ResultStatus.value`
unfoldable pub status_value : ResultStatus → String
status_value ResultStatus.success = "success"
status_value ResultStatus.error = "error"
status_value ResultStatus.denied = "denied"
status_value ResultStatus.cancelled = "cancelled"
status_value ResultStatus.timeout = "timeout"

-- `version == PROTOCOL_VERSION`
abbrev pub is_version : ℤ → Bool
is_version (ℤ.pos n) = n == 1
is_version (ℤ.negsuc n) = false

-- the bytes of one code point in UTF-8
abbrev pub utf8_size : ℕ → ℕ
utf8_size c = if ltb c 128 then 1 else if ltb c 2048 then 2 else if ltb c 65536 then 3 else 4

-- `len(value.encode("utf-8"))`
abbrev pub bytes_of : String → ℕ
bytes_of String.[] = 0
bytes_of (String.◌∷◌ c s) = utf8_size (code c) + bytes_of s

-- `"\x00" in value`
abbrev pub has_nul : String → Bool
has_nul String.[] = false
has_nul (String.◌∷◌ c s) = code c == 0 || has_nul s

-- `_validate_module_id`
unfoldable pub validate_module_id : String → Result String
validate_module_id value =
    if headed is_lower is_word 63 (codes value)
    then ok value
    else err "module IDs must be lowercase allowlisted identifiers"

-- `".." in value`
abbrev pub has_dot_dot : List ℕ → Bool
has_dot_dot (x ∷ y ∷ cs) = (x == b'.' && y == b'.') || has_dot_dot (y ∷ cs)
has_dot_dot _ = false

abbrev pub is_alphanumeric : ℕ → Bool
is_alphanumeric c = is_upper c || is_lower c || is_digit c

-- `_validate_backup_id`; a single dot does not begin as the pattern asks
unfoldable pub validate_backup_id : String → Result String
validate_backup_id value = do
  raise_if
      (not (
        headed is_alphanumeric (λ c. is_alphanumeric c || c == b'_' || c == b'.' || c == b'-') 127
          (codes value)))
      "backup ID is malformed"
  raise_if (has_dot_dot (codes value)) "backup ID must not contain path traversal syntax"
  ok value

-- `_validate_text`
unfoldable pub validate_text : String → ℕ → Result String
validate_text value maximum = do
  raise_if (ltb maximum (bytes_of value)) "text exceeds its length limit"
  raise_if (has_nul value) "text must not contain NUL"
  ok value

pub record PrivilegedRequest : Type 0 where
  pub version : ℤ
  pub request_id : String
  pub action : Action
  pub module_ids : List String
  pub backup_id : Option String

unfoldable pub validate_module_ids : List String → Result (List String)
validate_module_ids [] = ok []
validate_module_ids (i ∷ is) = do validate_module_id i; rest ← validate_module_ids is; ok (i ∷ rest)

-- the branches on the action in `PrivilegedRequest.__post_init__`
unfoldable pub check_arguments : Action → List String → Option String → Result (Unit {0})
check_arguments Action.audit modules backup_id =
    raise_if (not (is_empty modules) || is_some backup_id) "audit accepts no arguments"
check_arguments Action.verify_module modules backup_id =
    raise_if (not (length modules == 1) || is_some backup_id)
      "verify_module requires exactly one module ID"
check_arguments Action.apply_module modules backup_id =
    raise_if (not (length modules == 1) || is_some backup_id)
      "apply_module requires exactly one module ID"
check_arguments Action.apply_modules modules backup_id =
    raise_if (is_empty modules || ltb 32 (length modules) || is_some backup_id)
      "apply_modules requires 1 to 32 module IDs"
check_arguments Action.rollback_backup modules none = err "rollback requires exactly one backup ID"
check_arguments Action.rollback_backup modules (some i) = do
  raise_if (not (is_empty modules)) "rollback requires exactly one backup ID"
  validate_backup_id i
  ok tt

-- `PrivilegedRequest.__post_init__`
unfoldable pub privileged_request :
    ℤ → String → Action → List String → Option String → Result PrivilegedRequest
privileged_request version request_id action module_ids backup_id = do
  raise_if (not (is_version version)) "unsupported protocol version"
  raise_if (not (is_request_id request_id)) "request_id must be a canonical lowercase UUID"
  modules ← validate_module_ids module_ids
  raise_if (not (distinct modules)) "duplicate module IDs are not allowed"
  check_arguments action modules backup_id
  ok (record {
    version = version;
    request_id = request_id;
    action = action;
    module_ids = module_ids;
    backup_id = backup_id;
  })

pub record PrivilegedResult : Type 0 where
  pub version : ℤ
  pub request_id : String
  pub action : Action
  pub status : ResultStatus
  pub message : String
  pub output : List String
  pub truncated : Bool

-- the loop over the items of `output`, with the sum of their bytes
unfoldable pub output_total : List String → Result ℕ
output_total [] = ok 0
output_total (item ∷ items) = do
  validate_text item 4096
  rest ← output_total items
  ok (bytes_of item + rest)

-- `PrivilegedResult.__post_init__`
unfoldable pub privileged_result :
    ℤ → String → Action → ResultStatus → String → List String → Bool → Result PrivilegedResult
privileged_result version request_id action status message output truncated = do
  raise_if (not (is_version version)) "unsupported protocol version"
  raise_if (not (is_request_id request_id)) "request_id must be a canonical lowercase UUID"
  validate_text message 1024
  raise_if (ltb 32 (length output)) "output contains too many items"
  total ← output_total output
  raise_if (ltb 32768 total) "combined output exceeds its length limit"
  ok (record {
    version = version;
    request_id = request_id;
    action = action;
    status = status;
    message = message;
    output = output;
    truncated = truncated;
  })
