-- ===== src/Dispatcher/Submit/Results.antt =====
-- What the dispatcher reports of an execution.
use lsmf.Base.{
  String, ◌≡◌, refl, Bool, true, false, Option, none, arith, ◌⊎◌, inr, eq_iff, if◌then◌else◌,
}
use lsmf.Base.Results.{ok}
use lsmf.Peer.Identity.{action_eq_iff}
use lsmf.Protocol.Models.{ProductionStatus, ProductionRequest, ProductionResult}
use lsmf.Protocol.Checks.{production_result}
use lsmf.Dispatcher.State.{Env, failure_result}
use lsmf.Dispatcher.Submit.{
  Execution, returned, executor_error, other_error, stopped_task, matches_request, executed_result,
}

-- what `_failure` makes is about its request
record IsFailure (request : ProductionRequest) (status : ProductionStatus) (r : ProductionResult)
    : Type 0 where
  id : r.request_id ≡ request.request_id
  action : r.action ≡ request.action
  status_as : r.status ≡ status
  no_exit : r.exit_code ≡ none

failure_result-IsFailure :
    (env : Env) (request : ProductionRequest) (status : ProductionStatus) (code message : String)
    (prior : Option ProductionResult) (backup_id : Option String) (r : ProductionResult)
    → failure_result env request status code message prior backup_id ≡ ok r
    → IsFailure request status r
unfolding failure_result production_result
failure_result-IsFailure env request status code message prior backup_id r h = ground (arith, h)

-- what a reported result satisfies
abbrev IsFor : ProductionRequest → Execution → ProductionResult → Type 0
IsFor request x r =
    (r.request_id ≡ request.request_id)
    × (r.action ≡ request.action)
    × ((x ≡ returned r) ⊎ ((r.status ≡ ProductionStatus.failed) × (r.exit_code ≡ none)))

failure-IsFor :
    (request : ProductionRequest) (x : Execution) (r : ProductionResult)
    → IsFailure request ProductionStatus.failed r
    → IsFor request x r
failure-IsFor request x r f = (f.id, f.action, inr (f.status_as, f.no_exit))

returned-IsFor :
    (env : Env) (request : ProductionRequest) (y r : ProductionResult) (t : Bool)
    → matches_request request y ≡ t
    → (if t
        then ok y
        else failure_result env request ProductionStatus.failed "executor_failed"
            "Executor failed closed" none none)
      ≡ ok r
    → IsFor request (returned y) r
unfolding matches_request
returned-IsFor env request y r true m h =
    ground
      (arith, m, h, eq_iff y.request_id request.request_id, action_eq_iff y.action request.action)
returned-IsFor env request y r false m h =
    failure-IsFor request _ r (failure_result-IsFailure env request _ _ _ _ _ r h)

-- Whatever the executor does, the result that the dispatcher goes on to report, if there is one, has
-- the request's ID and action, and is the executor's own result or a failure without an exit code.
pub executed_result-IsFor :
    (env : Env) (request : ProductionRequest) (x : Execution) (r : ProductionResult)
    → executed_result env request x ≡ ok r
    → (r.request_id ≡ request.request_id)
      × (r.action ≡ request.action)
      × ((x ≡ returned r) ⊎ ((r.status ≡ ProductionStatus.failed) × (r.exit_code ≡ none)))
unfolding executed_result
executed_result-IsFor env request (executor_error b) r h =
    failure-IsFor request _ r (failure_result-IsFailure env request _ _ _ _ _ r h)
executed_result-IsFor env request other_error r h =
    failure-IsFor request _ r (failure_result-IsFailure env request _ _ _ _ _ r h)
executed_result-IsFor env request stopped_task r h =
    failure-IsFor request _ r (failure_result-IsFailure env request _ _ _ _ _ r h)
executed_result-IsFor env request (returned y) r h = returned-IsFor env request y r _ refl h
