-- ===== src/Sysctl/Apply.antt =====
-- lsmf/sysctl_transaction.py `_apply`.
use lsmf.Base.{ℕ, String, ◌<>◌, List, [], ◌∷◌, ◌++◌, none, some, is_some, if◌then◌else◌}
use lsmf.Base.Text.{codes}
use lsmf.Protocol.Models.{ProductionRequest}
use lsmf.Sysctl.World.{
  TransactionSnapshot, Host, Exc, failure, cancelled, M, pure, attempt, ◌>>=◌, ◌>>◌, check,
  checkpoint,
}
use lsmf.Sysctl.Files
use lsmf.Sysctl.Files.{bytes_eq}
use lsmf.Sysctl.Values
use lsmf.Sysctl.Values.{is_value}
use lsmf.Sysctl.Backups
use lsmf.Sysctl.Manifest.{SysctlSetting, SysctlModule, SysctlManifest, selected}
use lsmf.Sysctl.Outcomes.{TransactionResult, success, failed, stopped, of_result}
use lsmf.Sysctl.Restore.{restore_or_mark}
use lsmf.Sysctl.Capture.{take}

-- `_content`: the lines of a drop-in file
unfoldable pub content : List SysctlSetting → List ℕ
content [] = []
content (s ∷ ss) = codes s.key ++ codes " = " ++ codes s.desired_value ++ codes "\n" ++ content ss

module _ (host : Host) where
  -- the settings of one module, in the first loop of `_apply`
  unfoldable pub apply_settings : String → List SysctlSetting → M (Unit {0})
  apply_settings backup_id [] = pure tt
  apply_settings backup_id (s ∷ ss) = do
    now ← Values.read s.key
    (if is_value now s.desired_value then pure tt else Values.write host s.key s.desired_value)
    checkpoint (some backup_id)
    apply_settings backup_id ss

  -- the first loop of `_apply`
  unfoldable pub apply_modules : String → List SysctlModule → M (Unit {0})
  apply_modules backup_id [] = pure tt
  apply_modules backup_id (m ∷ ms) = do
    Files.write host m.relative_target (content m.settings) 384
    apply_settings backup_id m.settings
    apply_modules backup_id ms

  unfoldable pub check_settings : List SysctlSetting → M (Unit {0})
  check_settings [] = pure tt
  check_settings (s ∷ ss) = do
    now ← Values.read s.key
    check (is_value now s.desired_value) "sysctl apply verification failed"
    check_settings ss

  -- the second loop of `_apply`
  unfoldable pub check_modules : List SysctlModule → M (Unit {0})
  check_modules [] = pure tt
  check_modules (m ∷ ms) = do
    now ← Files.snapshot host m.relative_target
    check (bytes_eq now.content (content m.settings)) "managed file verification failed"
    check_settings m.settings
    check_modules ms

  -- the `try` block of `_apply` after `snapshot = ...`
  unfoldable pub apply_body : TransactionSnapshot → List SysctlModule → M (Unit {0})
  apply_body s modules = do
    Backups.create host s
    checkpoint (some s.backup_id)
    apply_modules s.backup_id modules
    check_modules modules

  -- the `except` clauses of `_apply`, once `snapshot` is bound
  unfoldable pub apply_handler :
      ProductionRequest → String → TransactionSnapshot → Exc → M TransactionResult
  apply_handler request backup_id s (cancelled t none) = pure (stopped request t none)
  apply_handler request backup_id s (cancelled t (some _)) =
      restore_or_mark host s backup_id (stopped request t (some backup_id))
        (failed request "recovery_required" "Cancellation recovery is required" (some backup_id))
  apply_handler request backup_id s (failure _) = do
    usable ← Backups.eligible host backup_id none
    if usable
        then restore_or_mark host s backup_id
            (failed request "apply_failed" "Apply failed and exact state was restored"
              (some backup_id))
            (failed request "recovery_required" "Apply recovery is required" (some backup_id))
        else pure (failed request "backup_failed" "Durable backup failed before mutation" none)

  -- the `except` clauses of `_apply` before that: only the first checkpoint's cancellation, and
  -- failures of the snapshot
  unfoldable pub apply_unbound : ProductionRequest → Exc → M TransactionResult
  apply_unbound request (cancelled t _) = pure (stopped request t none)
  apply_unbound request (failure _) =
      pure (failed request "backup_failed" "Durable backup failed before mutation" none)

  -- `_apply` when no recovery is required
  unfoldable pub apply_now :
      SysctlManifest → ProductionRequest → List SysctlModule → M TransactionResult
  apply_now manifest request modules w =
      let backup_id = "backup-" <> request.request_id in
      attempt ((do checkpoint none; take host manifest backup_id modules) w)
        (λ s w.
          attempt (apply_body s modules w)
            (λ _. pure (success "Sysctl apply complete" request.module_ids (some backup_id)))
            (apply_handler request backup_id s))
        (apply_unbound request)

  -- `_apply`
  unfoldable pub apply : SysctlManifest → ProductionRequest → M TransactionResult
  apply manifest request = do
    recovery_id ← Backups.recovery_backup_id host
    if is_some recovery_id
        then pure (failed request "recovery_required" "Exact rollback is required" recovery_id)
        else (do
          modules ← of_result (selected manifest request.module_ids)
          apply_now manifest request modules)
