-- ===== src/Protocol/Models.antt =====
-- lsmf/production_protocol.py: the models, as values that have passed their `__post_init__`.
use lsmf.Base.{ℕ, String, List, Option, Bool}
use lsmf.Peer.Identity.{Action}
use lsmf.Protocol.Json.{Json}

pub data ProductionStatus : Type 0 where
  succeeded failed denied cancelled timed_out rejected : ProductionStatus

-- The version is the number 1, and Python's `==` takes 1.0 for it too: it is kept as it came.
pub record ProductionRequest : Type 0 where
  pub protocol_version : Json
  pub request_id : String
  pub action : Action
  pub module_ids : List String
  pub backup_id : Option String

pub record ErrorDetail : Type 0 where
  pub code : String
  pub message : String

pub record ProductionResult : Type 0 where
  pub protocol_version : Json
  pub request_id : String
  pub action : Action
  pub status : ProductionStatus
  pub started_at : String
  pub finished_at : String
  pub exit_code : Option ℕ
  pub summary : String
  pub output : String
  pub output_truncated : Bool
  pub error : Option ErrorDetail
  pub module_ids : List String
  pub backup_id : Option String
  pub finding_count : Option ℕ

pub record ProductionCancel : Type 0 where
  pub protocol_version : Json
  pub request_id : String

pub record ProductionCancelResponse : Type 0 where
  pub protocol_version : Json
  pub request_id : String
  pub accepted : Bool
