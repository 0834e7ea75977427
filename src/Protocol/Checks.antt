-- ===== src/Protocol/Checks.antt =====
-- lsmf/production_protocol.py: the validators, and the checks that the constructors make.
use lsmf.Base.{
  ℕ, zero, suc, String, ◌<>◌, Bool, true, false, not, ◌&&◌, ◌||◌, List, [], ◌∷◌, ◌++◌, Option, none,
  some, ltb, leb, ◌==◌, ℤ, length, is_empty, is_some, if◌then◌else◌,
}
use lsmf.Base.Results.{Result, ok, err, ◌>>=◌, ◌>>◌, raise_if}
use lsmf.Base.Dict.{distinct}
use lsmf.Base.Text.{Piece, codes, is_lower, is_word, headed, matches, lit}
use lsmf.Peer.Identity.{Action, is_request_id}
use lsmf.Privileged.Models.{bytes_of, has_nul, has_dot_dot, is_alphanumeric}
use lsmf.Protocol.Json.{Json}
use lsmf.Protocol.Models.{
  ProductionStatus, ProductionRequest, ProductionCancel, ProductionCancelResponse, ErrorDetail,
  ProductionResult,
}

-- `not isinstance(value, bool) and value == PRODUCTION_PROTOCOL_VERSION`
abbrev pub is_one : Json → Bool
is_one (Json.int (ℤ.pos n)) = n == 1
is_one (Json.real (some (ℤ.pos n))) = n == 1
is_one _ = false

abbrev pub check_version : Json → Result (Unit {0})
check_version version = raise_if (not (is_one version)) "unsupported production protocol version"

-- `_canonical_request_id`
unfoldable pub canonical_request_id : String → Result String
canonical_request_id value =
    if is_request_id value then ok value else err "request_id must be a canonical lowercase UUID"

-- `_module_id`
unfoldable pub check_module_id : String → Result String
check_module_id value =
    if headed is_lower is_word 63 (codes value) then ok value else err "module ID is malformed"

-- `_backup_id`; a single dot does not begin as the pattern asks
unfoldable pub check_backup_id : String → Result String
check_backup_id value =
    if headed is_alphanumeric (λ c. is_alphanumeric c || c == b'_' || c == b'.' || c == b'-') 127
        (codes value)
      && not (has_dot_dot (codes value))
    then ok value
    else err "backup ID is malformed"

-- `_bounded_text`
unfoldable pub bounded_text : String → String → ℕ → Result String
bounded_text value label maximum =
    if has_nul value || ltb maximum (bytes_of value)
    then err (label <> " is invalid or too long")
    else ok value

-- `tuple(_module_id(item) for item in ...)`, which is the same tuple where no item is refused
unfoldable pub check_module_ids : List String → Result (Unit {0})
check_module_ids [] = ok tt
check_module_ids (i ∷ is) = check_module_id i >> check_module_ids is

-- the branches on the action in `ProductionRequest.__post_init__`
unfoldable pub check_parameters : Action → List String → Option String → Result (Unit {0})
check_parameters Action.audit modules backup_id =
    raise_if (not (is_empty modules) || is_some backup_id) "audit accepts no parameters"
check_parameters Action.apply_modules modules backup_id =
    raise_if (is_empty modules || ltb 32 (length modules) || is_some backup_id)
      "apply_modules requires a bounded module list"
check_parameters Action.rollback_backup modules none = err "rollback requires one backup ID"
check_parameters Action.rollback_backup modules (some i) =
    raise_if (not (is_empty modules)) "rollback requires one backup ID"
    >> check_backup_id i
    >> ok tt
check_parameters _ modules backup_id =
    raise_if (not (length modules == 1) || is_some backup_id)
      "single-module action requires one module ID"

-- `ProductionRequest.__post_init__`
unfoldable pub production_request :
    Json → String → Action → List String → Option String → Result ProductionRequest
production_request version request_id action module_ids backup_id = do
  check_version version
  canonical_request_id request_id
  check_module_ids module_ids
  raise_if (not (distinct module_ids)) "duplicate module IDs are forbidden"
  check_parameters action module_ids backup_id
  ok (record {
    protocol_version = version;
    request_id = request_id;
    action = action;
    module_ids = module_ids;
    backup_id = backup_id;
  })

-- `ProductionCancel.__post_init__`
unfoldable pub production_cancel : Json → String → Result ProductionCancel
production_cancel version request_id = do
  check_version version
  canonical_request_id request_id
  ok (record { protocol_version = version; request_id = request_id })

-- `ProductionCancelResponse.__post_init__`
unfoldable pub production_cancel_response : Json → String → Bool → Result ProductionCancelResponse
production_cancel_response version request_id accepted = do
  check_version version
  canonical_request_id request_id
  ok (record { protocol_version = version; request_id = request_id; accepted = accepted })

-- `ErrorDetail.__post_init__`
unfoldable pub error_detail : String → String → Result ErrorDetail
error_detail code message = do
  raise_if (not (headed is_lower is_word 63 (codes code))) "error code is invalid"
  bounded_text message "error message" 512
  ok (record { code = code; message = message })

-- a Python int that is None or lies between 0 and a bound
abbrev pub bounded_int : ℕ → String → Option ℤ → Result (Option ℕ)
bounded_int most message none = ok none
bounded_int most message (some (ℤ.pos n)) = if leb n most then ok (some n) else err message
bounded_int most message (some (ℤ.negsuc n)) = err message

-- `_backup_id`, where there is one
abbrev pub check_some_backup : Option String → Result (Unit {0})
check_some_backup none = ok tt
check_some_backup (some i) = check_backup_id i >> ok tt

-- `status is ProductionStatus.SUCCEEDED`
abbrev pub is_succeeded : ProductionStatus → Bool
is_succeeded ProductionStatus.succeeded = true
is_succeeded _ = false

-- the branches on the action in `ProductionResult.__post_init__`
unfoldable pub check_result_shape :
    Action → ProductionStatus → List String → Option String → Option ℕ → Result (Unit {0})
check_result_shape Action.audit status modules backup_id none = err "audit result shape is invalid"
check_result_shape Action.audit status modules backup_id (some n) =
    raise_if (not (is_empty modules) || is_some backup_id) "audit result shape is invalid"
check_result_shape Action.verify_module status modules backup_id finding_count =
    raise_if (not (length modules == 1) || is_some backup_id || is_some finding_count)
      "verify result shape is invalid"
check_result_shape Action.rollback_backup status modules none finding_count =
    err "rollback result shape is invalid"
check_result_shape Action.rollback_backup status modules (some i) finding_count = do
  raise_if (is_some finding_count) "rollback result shape is invalid"
  raise_if (is_succeeded status && is_empty modules)
      "successful rollback must identify restored modules"
  check_backup_id i
  ok tt
check_result_shape _ status modules backup_id finding_count = do
  raise_if (is_empty modules || is_some finding_count) "apply result shape is invalid"
  check_some_backup backup_id

-- Python's `\d`, a digit of any script, is an argument.
module _ (is_decimal : ℕ → Bool) where
  abbrev date_and_time : List Piece
  date_and_time =
      (is_decimal, 4)
      ∷ lit b'-'
      ∷ (is_decimal, 2)
      ∷ lit b'-'
      ∷ (is_decimal, 2)
      ∷ lit b'T'
      ∷ (is_decimal, 2)
      ∷ lit b':'
      ∷ (is_decimal, 2)
      ∷ lit b':'
      ∷ (is_decimal, 2)
      ∷ []

  -- with a fraction of at most so many digits
  abbrev fraction : ℕ → List ℕ → Bool
  fraction zero cs = false
  fraction (suc n) cs =
      matches (date_and_time ++ lit b'.' ∷ (is_decimal, suc n) ∷ lit b'Z' ∷ []) cs || fraction n cs

  -- `_TIMESTAMP.fullmatch`
  unfoldable pub is_timestamp : String → Bool
  is_timestamp s = matches (date_and_time ++ lit b'Z' ∷ []) (codes s) || fraction 6 (codes s)

  -- `ProductionResult.__post_init__`
  unfoldable pub production_result :
      Json
      → String
      → Action
      → ProductionStatus
      → String
      → String
      → Option ℤ
      → String
      → String
      → Bool
      → Option ErrorDetail
      → List String
      → Option String
      → Option ℤ
      → Result ProductionResult
  production_result version request_id action status started_at finished_at exit_code summary output
        output_truncated error module_ids backup_id finding_count =
      do
        check_version version
        canonical_request_id request_id
        raise_if (not (is_timestamp started_at)) "started_at is not canonical UTC"
        raise_if (not (is_timestamp finished_at)) "finished_at is not canonical UTC"
        code ← bounded_int 255 "exit_code is invalid" exit_code
        bounded_text summary "summary" 512
        bounded_text output "output" 65536
        check_module_ids module_ids
        raise_if (ltb 32 (length module_ids) || not (distinct module_ids))
            "result module list is invalid"
        findings ← bounded_int 10000 "audit result shape is invalid" finding_count
        check_result_shape action status module_ids backup_id findings
        ok (record {
          protocol_version = version;
          request_id = request_id;
          action = action;
          status = status;
          started_at = started_at;
          finished_at = finished_at;
          exit_code = code;
          summary = summary;
          output = output;
          output_truncated = output_truncated;
          error = error;
          module_ids = module_ids;
          backup_id = backup_id;
          finding_count = findings;
        })
