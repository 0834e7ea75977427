-- ===== src/ReadOnly/Results.antt =====
-- lsmf/read_only_process.py: the allowlist of commands, and the results that a call answers with.
use Prim.Native.Nat.{◌*◌}
use lsmf.Base.{
  ℕ, zero, ◌+◌, ◌-◌, String, Bool, true, false, ◌&&◌, List, [], ◌∷◌, Option, none, some, ltb, leb,
  ◌==◌, ℤ, if◌then◌else◌,
}
use lsmf.Base.Results.{Result, ok, ◌>>=◌}
use lsmf.Base.Dict.{Dict, lookup, contains}
use lsmf.Base.Text.{codes, is_digit}
use lsmf.Peer.Identity.{Action}
use lsmf.Protocol.Models.{ProductionRequest, ProductionResult, ProductionStatus, ErrorDetail}
use lsmf.Protocol.Checks.{production_result, error_detail}

-- the commands that the executor was built with
pub record Commands : Type 0 where
  pub audit_command : List String
  pub verification_commands : Dict (List String)

-- `permits`
unfoldable pub permits : Commands → ProductionRequest → Bool
permits commands request = elim request.action [
  | Action.audit ↦ true
  | Action.verify_module ↦ single request.module_ids
  | _ ↦ false
]
  where
    single : List String → Bool
    single (i ∷ []) = contains i commands.verification_commands
    single _ = false

-- `validate`
abbrev pub validate : Commands → ProductionRequest → Bool
validate = permits

-- the command of a permitted request
unfoldable pub command_of : Commands → ProductionRequest → Option (List String)
command_of commands request = elim request.action [
  | Action.audit ↦ some commands.audit_command
  | _ ↦ first request.module_ids
]
  where
    first : List String → Option (List String)
    first [] = none
    first (i ∷ _) = lookup i commands.verification_commands

abbrev pub is_audit : Action → Bool
is_audit Action.audit = true
is_audit _ = false

abbrev strip_prefix : List ℕ → List ℕ → Option (List ℕ)
strip_prefix [] cs = some cs
strip_prefix (p ∷ ps) [] = none
strip_prefix (p ∷ ps) (c ∷ cs) = let rest = strip_prefix ps cs in if p == c then rest else none

-- `([0-9]{1,5})\n`, with the digits that may follow, and if there was one
abbrev count_line : ℕ → Bool → ℕ → List ℕ → Option (ℕ × List ℕ)
count_line left seen value [] = none
count_line left seen value (c ∷ cs) =
    let more = count_line (left - 1) true (value * 10 + (c - b'0')) cs in
    if is_digit c && ltb 0 left then more else if c == 10 && seen then some (value, cs) else none

abbrev counted : Option (List ℕ) → Option (ℕ × List ℕ)
counted none = none
counted (some cs) = count_line 5 false 0 cs

-- `_FINDING_COUNT.match`: the number, and what is left of the output
unfoldable pub finding_count_of : List ℕ → Option (ℕ × List ℕ)
finding_count_of raw = counted (strip_prefix (codes "LSMF_FINDING_COUNT=") raw)

-- What Python's library does here: digits for `\d`, `bytes.decode("utf-8", errors="replace")`, and
-- the time.
pub record Library : Type 0 where
  pub is_decimal : ℕ → Bool
  pub decode : List ℕ → String
  pub now : String

-- `exit_code if 0 <= exit_code <= 255 else 1`
abbrev exit_of : ℤ → ℤ
exit_of (ℤ.pos n) = if leb n 255 then ℤ.pos n else ℤ.pos 1
exit_of (ℤ.negsuc n) = ℤ.pos 1

abbrev pub is_zero : ℤ → Bool
is_zero (ℤ.pos zero) = true
is_zero _ = false

module _ (lib : Library) (request : ProductionRequest) where
  -- `_failure`
  unfoldable pub failure_of : String → List ℕ → Bool → Result ProductionResult
  failure_of code raw truncated = do
    detail ← error_detail code "Audit worker did not provide a typed finding count"
    production_result lib.is_decimal request.protocol_version request.request_id request.action
        ProductionStatus.failed lib.now lib.now (some (ℤ.pos 1)) "Audit result was invalid"
        (lib.decode raw) truncated (some detail) request.module_ids none (some (ℤ.pos 0))

  -- `_cancelled`
  unfoldable pub cancelled_of : Bool → Result ProductionResult
  cancelled_of timed_out = do
    detail ←
        error_detail (if timed_out then "timed_out" else "cancelled")
          "Read-only command was stopped"
    production_result lib.is_decimal request.protocol_version request.request_id request.action
        (if timed_out then ProductionStatus.timed_out else ProductionStatus.cancelled) lib.now
        lib.now (some (ℤ.pos 1))
        (if timed_out then "Read-only operation timed out" else "Read-only operation cancelled") ""
        false (some detail) request.module_ids none
        (if is_audit request.action then some (ℤ.pos 0) else none)

  -- the summary of `_result`
  abbrev summary_of : Bool → String
  summary_of succeeded =
      if is_audit request.action && succeeded
      then "Audit completed"
      else if succeeded
      then "Module verification passed"
      else if is_audit request.action
      then "Audit failed"
      else "Module verification failed"

  abbrev pub detail_of : Bool → Result (Option ErrorDetail)
  detail_of true = ok none
  detail_of false = do
    detail ← error_detail "verification_failed" "Read-only command reported failure"
    ok (some detail)

  -- `_result` after the number of findings is read
  abbrev pub result_with : ℤ → List ℕ → Bool → Option ℤ → Result ProductionResult
  result_with code raw truncated findings = do
    detail ← detail_of (is_zero code)
    production_result lib.is_decimal request.protocol_version request.request_id request.action
        (if is_zero code then ProductionStatus.succeeded else ProductionStatus.failed) lib.now
        lib.now (some (exit_of code)) (summary_of (is_zero code)) (lib.decode raw) truncated detail
        request.module_ids none findings

  abbrev pub audited : ℤ → List ℕ → Bool → Option (ℕ × List ℕ) → Result ProductionResult
  audited code raw truncated none = failure_of "invalid_audit_output" raw truncated
  audited code raw truncated (some (n, rest)) = result_with code rest truncated (some (ℤ.pos n))

  -- `_result`
  unfoldable pub result_of : ℤ → List ℕ → Bool → Result ProductionResult
  result_of code raw truncated =
      if is_audit request.action
      then audited code raw truncated (finding_count_of raw)
      else result_with code raw truncated none
