-- ===== src/Tests/Helpers.antt =====
-- A helper whose boundaries allow everything, and one audit request.
use Prim.Native.Nat.{◌≤◌}
use lsmf.Base.{arith, ◌≡◌, refl, true, false, [], ◌∷◌, ◌++◌, none, some, ℤ, ◌⊎◌}
use lsmf.Base.Results.{ok}
use lsmf.Base.Dict.{mem, distinct}
use lsmf.Peer.Identity.{Action, is_request_id, action_value}
use lsmf.Protocol.Json.{Json}
use lsmf.Privileged.Models.{
  ResultStatus, bytes_of, PrivilegedRequest, PrivilegedResult, privileged_result, output_total,
  validate_text, status_value, privileged_request, validate_module_ids, check_arguments,
}
use lsmf.Privileged.Helper.{
  Boundaries, handle, validated_result, bound_text, bound_output, check_policy, authorization_of,
  check_authorizer, check_executor, start, record_event, execute_request, finish, error_result,
  event, refuse,
}
use lsmf.Privileged.Wire.{decode_request, encode_request}
use lsmf.Privileged.Wire.RoundTrip.{IsChecked, decode_request-encode_request}
use lsmf.Privileged.Helper.Execution.{executions, IsPermitted}
use lsmf.Privileged.Helper.Once.{run, ids, idle, handle_guarded, executes_once}
use lsmf.Privileged.Helper.Bounds.{bytes_all, validated_result_bounded}

abbrev audit_request : PrivilegedRequest
audit_request = record {
  version = ℤ.pos 1;
  request_id = "3f2a1c9e-5b7d-4e21-9c3a-0a1b2c3d4e5f";
  action = Action.audit;
  module_ids = [];
  backup_id = none;
}

abbrev answer : PrivilegedResult
answer = record {
  version = ℤ.pos 1;
  request_id = "3f2a1c9e-5b7d-4e21-9c3a-0a1b2c3d4e5f";
  action = Action.audit;
  status = ResultStatus.success;
  message = "no findings";
  output = "checked 12 settings" ∷ [];
  truncated = false;
}

abbrev willing : Boundaries
willing = record {
  policy = some (λ request. ok true);
  authorizer = some (λ i request. ok true);
  executor = some (λ request. ok answer);
  audit_sink = some (λ e. ok none);
}

handle_guarded_example :
    (executions (handle willing (ok audit_request) idle).1.calls ≡ executions idle.calls)
    ⊎ ((r : PrivilegedRequest) × (ok audit_request ≡ ok r)
        × (mem r.request_id idle.seen ≡ false)
        × ((handle willing (ok audit_request) idle).1.seen ≡ r.request_id ∷ idle.seen)
        × IsPermitted willing r
        × (executions (handle willing (ok audit_request) idle).1.calls
            ≡ executions idle.calls ++ r ∷ []))
handle_guarded_example = handle_guarded willing (ok audit_request) idle

executes_once_example :
    distinct (
      ids (
        executions
          (run ((willing, ok audit_request) ∷ (willing, ok audit_request) ∷ []) idle).calls))
    ≡ true
executes_once_example =
    executes_once ((willing, ok audit_request) ∷ (willing, ok audit_request) ∷ [])

answer_valid :
    privileged_result
      (ℤ.pos 1)
      "3f2a1c9e-5b7d-4e21-9c3a-0a1b2c3d4e5f"
      Action.audit
      ResultStatus.success
      "no findings"
      ("checked 12 settings" ∷ [])
      false
    ≡ ok answer
unfolding privileged_result output_total validate_text is_request_id
answer_valid = refl

answer_passes : validated_result audit_request answer ≡ ok answer
unfolding validated_result bound_text bound_output privileged_result output_total validate_text
    is_request_id
answer_passes = refl

validated_result_bounded_example :
    (answer.request_id ≡ audit_request.request_id)
    × (answer.action ≡ audit_request.action)
    × (answer.status ≡ answer.status)
    × (bytes_of answer.message ≤ 512)
    × (bytes_all answer.output ≤ 32768)
validated_result_bounded_example =
    validated_result_bounded audit_request answer answer answer_passes

-- the second time the request is a replay, and only the first is executed
executed_first :
    executions (run ((willing, ok audit_request) ∷ (willing, ok audit_request) ∷ []) idle).calls
    ≡ audit_request ∷ []
unfolding run handle check_policy authorization_of check_authorizer check_executor start
    record_event execute_request validated_result privileged_result is_request_id validate_text
    bound_text bound_output output_total finish error_result event refuse status_value action_value
executed_first = refl

audit-IsChecked : IsChecked audit_request
unfolding privileged_request validate_module_ids check_arguments is_request_id
audit-IsChecked = refl

decode_request-encode_request_example :
    (j : Json) × (encode_request audit_request ≡ ok j) × (decode_request 120 j ≡ ok audit_request)
decode_request-encode_request_example =
    decode_request-encode_request audit_request audit-IsChecked 120 (omega arith)
