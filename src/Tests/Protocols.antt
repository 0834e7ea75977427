-- ===== src/Tests/Protocols.antt =====
-- Requests and results over the wire.
use lsmf.Base.{ℕ, ◌≡◌, refl, false, [], ◌∷◌, none, some, arith, ℤ, leb, ◌&&◌, Bool}
use lsmf.Base.Results.{ok, is_ok}
use lsmf.Peer.Identity.{Action, is_request_id}
use lsmf.Protocol.Json.{Json}
use lsmf.Protocol.Models.{ProductionStatus, ProductionRequest, ProductionResult}
use lsmf.Protocol.Checks.{
  production_request, canonical_request_id, check_module_ids, check_module_id, check_parameters,
  production_result, is_timestamp, bounded_text, check_result_shape, check_backup_id,
}
use lsmf.Privileged.Models.{privileged_request}
use lsmf.Protocol.Wire.{decode_production_request, encode_production_request}
use lsmf.Protocol.Wire.RoundTrip.{decode_production_request-encode}
use lsmf.Protocol.Wire.Results.{decode_result, encode_result}
use lsmf.Protocol.Wire.Results.RoundTrip.{decode_result-encode}
use lsmf.Protocol.Agreement.{production_request-privileged_request}

abbrev two_modules : ProductionRequest
two_modules = record {
  protocol_version = Json.int (ℤ.pos 1);
  request_id = "0f8fad5b-d9cb-469f-a165-70867728950e";
  action = Action.apply_modules;
  module_ids = "net" ∷ "kernel" ∷ [];
  backup_id = none;
}

decode_production_request-encode_example :
    decode_production_request 200 (encode_production_request two_modules) ≡ ok two_modules
unfolding production_request canonical_request_id is_request_id check_module_ids check_module_id
    check_parameters
decode_production_request-encode_example =
    decode_production_request-encode (ℤ.pos 1) two_modules refl refl 200 (omega arith)

abbrev ascii_digit : ℕ → Bool
ascii_digit c = leb 48 c && leb c 57

abbrev applied_result : ProductionResult
applied_result = record {
  protocol_version = Json.int (ℤ.pos 1);
  request_id = "0f8fad5b-d9cb-469f-a165-70867728950e";
  action = Action.apply_modules;
  status = ProductionStatus.succeeded;
  started_at = "2026-01-02T03:04:05Z";
  finished_at = "2026-01-02T03:04:06Z";
  exit_code = some 0;
  summary = "Applied";
  output = "";
  output_truncated = false;
  error = none;
  module_ids = "net" ∷ "kernel" ∷ [];
  backup_id = some "backup_1";
  finding_count = none;
}

decode_result-encode_example :
    decode_result ascii_digit 600 (encode_result applied_result) ≡ ok applied_result
unfolding production_result canonical_request_id is_request_id is_timestamp bounded_text
    check_module_ids check_module_id check_result_shape check_backup_id
decode_result-encode_example =
    decode_result-encode ascii_digit applied_result (refl, tt) 600 (omega arith)

production_request-privileged_request_example :
    is_ok (
      production_request
        (Json.int (ℤ.pos 1))
        "0f8fad5b-d9cb-469f-a165-70867728950e"
        Action.audit
        []
        none)
    ≡ is_ok
        (privileged_request (ℤ.pos 1) "0f8fad5b-d9cb-469f-a165-70867728950e" Action.audit [] none)
production_request-privileged_request_example =
    production_request-privileged_request (ℤ.pos 1) "0f8fad5b-d9cb-469f-a165-70867728950e"
      Action.audit [] none
