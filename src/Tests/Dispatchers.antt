-- ===== src/Tests/Dispatchers.antt =====
-- Two clients of one dispatcher.
use lsmf.Base.{String, ◌≡◌, refl, true, false, List, [], ◌∷◌, none, some, ℤ, ◌⊎◌}
use lsmf.Base.Results.{ok}
use lsmf.Peer.Identity.{Action, PeerIdentity, RequestBinding, binding_eq, peer_eq}
use lsmf.Protocol.Json.{Json}
use lsmf.Protocol.Models.{ProductionStatus, ProductionRequest, ProductionResult}
use lsmf.Dispatcher.State.{Env}
use lsmf.Dispatcher.Submit.{
  returned, said, executed_result, matches_request, cancel_request, cancel_if, submit, admit,
  acquire, checkpoint,
}
use lsmf.Dispatcher.Submit.Results.{executed_result-IsFor}
use lsmf.Dispatcher.Schedule.{
  Event, submitted, acquires, answers, cancels, step, run, idle, acquire_at,
}
use lsmf.Dispatcher.Schedule.Exclusion.{run-IsMutuallyExclusive}
use lsmf.Dispatcher.Schedule.Executions.{IsGuarded, step-IsGuarded}
use lsmf.Dispatcher.Schedule.Calls.{calls, submissions, run-calls}
use lsmf.Dispatcher.Weights.{one_for}

-- a validator that takes every request and a sink that records every event
abbrev granting : Env
granting = record {
  validate = λ r. ok true;
  audit_sink = λ e. ok none;
  now = "2026-01-02T03:04:05Z";
  parameter_digest = λ r. "0123456789abcdef0123456789abcdef0123456789abcdef0123456789abcdef";
  text_size = λ j. 500;
  is_decimal = λ c. false;
}

abbrev client : PeerIdentity
client = record {
  pid = 4711;
  uid = 1000;
  unique_owner = ":1.42";
  session_id = "c2";
  seat_id = "seat0";
}

abbrev request_of : String → ProductionRequest
request_of id = record {
  protocol_version = Json.int (ℤ.pos 1);
  request_id = id;
  action = Action.apply_module;
  module_ids = "net" ∷ [];
  backup_id = none;
}

abbrev binding_of : String → RequestBinding
binding_of id = record {
  request_id = id;
  action = Action.apply_module;
  parameter_digest = "0123456789abcdef0123456789abcdef0123456789abcdef0123456789abcdef";
  peer = client;
}

abbrev result_of : String → ProductionResult
result_of id = record {
  protocol_version = Json.int (ℤ.pos 1);
  request_id = id;
  action = Action.apply_module;
  status = ProductionStatus.succeeded;
  started_at = "2026-01-02T03:04:05Z";
  finished_at = "2026-01-02T03:04:05Z";
  exit_code = some 0;
  summary = "Applied";
  output = "";
  output_truncated = false;
  error = none;
  module_ids = "net" ∷ [];
  backup_id = some "b1";
  finding_count = none;
}

-- two requests, one of which has taken the lock
abbrev two_calls : List (Env × Event)
two_calls =
    (granting, submitted (request_of "r1") (binding_of "r1"))
    ∷ (granting, submitted (request_of "r2") (binding_of "r2"))
    ∷ (granting, acquires "r2")
    ∷ (granting, acquires "r1")
    ∷ (granting, cancels (binding_of "r1"))
    ∷ []

run-IsMutuallyExclusive_example :
    ((binding_of "r2").request_id ≡ (binding_of "r2").request_id)
    × ((run two_calls idle).locked ≡ some "r2")
unfolding run step cancel_request cancel_if submit admit acquire_at acquire checkpoint binding_eq
    peer_eq
run-IsMutuallyExclusive_example = run-IsMutuallyExclusive two_calls "r2" "r2" refl refl

step-IsGuarded_example : IsGuarded granting (answers "r2" (said true)) (run two_calls idle)
step-IsGuarded_example = step-IsGuarded granting (answers "r2" (said true)) (run two_calls idle)

run-calls_example : calls (one_for "r2") (run two_calls idle) ≡ submissions (one_for "r2") two_calls
run-calls_example = run-calls two_calls "r2"

executed_result-IsFor_example :
    ((result_of "r1").request_id ≡ (request_of "r1").request_id)
    × ((result_of "r1").action ≡ (request_of "r1").action)
    × ((returned (result_of "r1") ≡ returned (result_of "r1"))
        ⊎ (((result_of "r1").status ≡ ProductionStatus.failed)
            × ((result_of "r1").exit_code ≡ none)))
unfolding executed_result matches_request
executed_result-IsFor_example =
    executed_result-IsFor granting (request_of "r1") (returned (result_of "r1")) (result_of "r1")
      refl
