-- ===== src/Sysctl/Rollback.antt =====
-- lsmf/sysctl_transaction.py `_rollback` and `execute`.
use lsmf.Base.{
  String, ◌<>◌, Bool, not, ◌&&◌, ◌||◌, none, some, str_eq, opt_eq, is_some, if◌then◌else◌,
}
use lsmf.Peer.Identity.{Action, action_eq}
use lsmf.Protocol.Models.{ProductionRequest}
use lsmf.Sysctl.World.{
  TransactionSnapshot, Host, Exc, failure, cancelled, M, pure, raise, attempt, ◌>>=◌, ◌>>◌, check,
  checkpoint,
}
use lsmf.Sysctl.Backups
use lsmf.Sysctl.Manifest.{SysctlManifest, selected, policy_validate}
use lsmf.Sysctl.Outcomes.{TransactionResult, success, failed, stopped, of_result}
use lsmf.Sysctl.Restore.{restore, restore_or_mark}
use lsmf.Sysctl.Capture.{take}
use lsmf.Sysctl.Apply.{apply}

module _ (host : Host) where
  -- the `try` block of `_rollback` after `recovery = ...`
  unfoldable pub rollback_body :
      Bool → String → TransactionSnapshot → TransactionSnapshot → M (Unit {0})
  rollback_body required backup_id target recovery = do
    Backups.create host recovery
    checkpoint (some backup_id)
    restore host target
    checkpoint (some backup_id)
    if required then Backups.clear_recovery_required host backup_id else pure tt

  -- the `except` clauses of `_rollback`, once `recovery` is bound
  unfoldable pub rollback_handler :
      ProductionRequest → String → TransactionSnapshot → Exc → M TransactionResult
  rollback_handler request backup_id recovery (cancelled t _) =
      restore_or_mark host recovery recovery.backup_id (stopped request t (some backup_id)) (
        failed request "recovery_required" "Rollback cancellation recovery is required"
          (some recovery.backup_id))
  rollback_handler request backup_id recovery (failure _) = do
    usable ← Backups.eligible host recovery.backup_id none
    if usable
        then restore_or_mark host recovery recovery.backup_id
            (failed request "rollback_failed" "Rollback failed and current state was restored"
              (some backup_id))
            (failed request "recovery_required" "Rollback recovery is required"
              (some recovery.backup_id))
        else pure (
            failed request "rollback_failed" "Rollback was rejected before mutation"
              (some backup_id))

  -- the same before that, where no checkpoint can cancel
  unfoldable pub rollback_unbound : ProductionRequest → String → Exc → M TransactionResult
  rollback_unbound request backup_id (cancelled t _) = raise (failure "UnboundLocalError")
  rollback_unbound request backup_id (failure _) =
      pure
        (failed request "rollback_failed" "Rollback was rejected before mutation" (some backup_id))

  -- the `try` block of `_rollback` up to `recovery = ...`
  unfoldable pub prepare_rollback :
      SysctlManifest → ProductionRequest → String → M (TransactionSnapshot × TransactionSnapshot)
  prepare_rollback manifest request backup_id = do
    target ← Backups.load host backup_id
    check (str_eq target.manifest_digest manifest.digest) "backup belongs to a different manifest"
    modules ← of_result (selected manifest target.module_ids)
    recovery ← take host manifest ("recovery-" <> request.request_id) modules
    pure (target, recovery)

  -- `_rollback` when no other recovery is required
  unfoldable pub rollback_now :
      SysctlManifest → ProductionRequest → String → Bool → M TransactionResult
  rollback_now manifest request backup_id required w =
      attempt (prepare_rollback manifest request backup_id w)
        (λ p w.
          attempt (rollback_body required backup_id p.0 p.1 w)
            (λ _. pure (success "Exact rollback complete" p.0.module_ids (some backup_id)))
            (rollback_handler request backup_id p.1))
        (rollback_unbound request backup_id)

  -- `_rollback`, where the request names a backup
  unfoldable pub rollback_of : SysctlManifest → ProductionRequest → String → M TransactionResult
  rollback_of manifest request backup_id = do
    required ← Backups.recovery_backup_id host
    if is_some required && not (opt_eq required (some backup_id))
        then pure
            (failed request "recovery_required" "A different exact rollback is required" required)
        else rollback_now manifest request backup_id (is_some required)

  -- `_rollback`
  unfoldable pub rollback : SysctlManifest → ProductionRequest → M TransactionResult
  unfolding rollback_of
  rollback manifest request = elim request.backup_id [
    | none ↦ raise (failure "AssertionError")
    | some backup_id ↦ rollback_of manifest request backup_id
  ]

  -- `execute`; the policy is asked only about actions that need no look at the backups
  unfoldable pub execute : SysctlManifest → ProductionRequest → M TransactionResult
  execute manifest request = do
    check (action_eq request.action Action.rollback_backup || policy_validate manifest none request)
        "request is outside the exact sysctl manifest policy"
    elim request.action [
      | Action.apply_module ↦ apply host manifest request
      | Action.apply_modules ↦ apply host manifest request
      | Action.rollback_backup ↦ rollback manifest request
      | _ ↦ raise (failure "action is outside the sysctl transaction boundary")
    ]
