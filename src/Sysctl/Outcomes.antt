-- ===== src/Sysctl/Outcomes.antt =====
-- lsmf/sysctl_transaction.py `_success`, `_failure`, `_cancelled`. A result is what the code puts
-- into a `ProductionResult` beside the request's own fields and the two time stamps.
use lsmf.Base.{ℕ, String, Bool, List, Option, none, some, if◌then◌else◌}
use lsmf.Base.Results
use lsmf.Protocol.Models.{ProductionStatus, ProductionRequest}
use lsmf.Sysctl.World.{failure, M, pure, raise}

pub record TransactionResult : Type 0 where
  pub status : ProductionStatus
  pub exit_code : ℕ
  pub summary : String
  pub error_code : Option String
  pub module_ids : List String
  pub backup_id : Option String

-- `_success`
abbrev pub success : String → List String → Option String → TransactionResult
success summary modules backup_id = record {
  status = ProductionStatus.succeeded;
  exit_code = 0;
  summary = summary;
  error_code = none;
  module_ids = modules;
  backup_id = backup_id;
}

-- `_failure`
abbrev pub failed : ProductionRequest → String → String → Option String → TransactionResult
failed request code summary backup_id = record {
  status = ProductionStatus.failed;
  exit_code = 1;
  summary = summary;
  error_code = some code;
  module_ids = request.module_ids;
  backup_id = backup_id;
}

-- `_cancelled`
abbrev pub stopped : ProductionRequest → Bool → Option String → TransactionResult
stopped request timed_out backup_id = record {
  status = if timed_out then ProductionStatus.timed_out else ProductionStatus.cancelled;
  exit_code = 1;
  summary = if timed_out then "Sysctl transaction timed out" else "Sysctl transaction cancelled";
  error_code = some (if timed_out then "timed_out" else "cancelled");
  module_ids = request.module_ids;
  backup_id = backup_id;
}

-- `selected`, whose `KeyError` is an exception like any other
abbrev pub of_result {ℓ} : {A : Type ℓ} → Results.Result A → M A
of_result (Results.ok a) = pure a
of_result (Results.err e) = raise (failure e)
