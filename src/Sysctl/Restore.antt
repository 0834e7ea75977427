-- ===== src/Sysctl/Restore.antt =====
-- lsmf/sysctl_transaction.py `_restore`, and the `try` that falls back on the recovery marker.
use lsmf.Base.{String, List, [], ◌∷◌, if◌then◌else◌}
use lsmf.Sysctl.World.{
  ManagedFileSnapshot, TransactionSnapshot, Host, M, pure, attempt, ◌>>=◌, ◌>>◌, check,
}
use lsmf.Sysctl.Files
use lsmf.Sysctl.Files.{file_eq}
use lsmf.Sysctl.Values
use lsmf.Sysctl.Values.{same_value}
use lsmf.Sysctl.Backups
use lsmf.Sysctl.Outcomes.{TransactionResult}

module _ (host : Host) where
  -- the first loop of `_restore`
  unfoldable pub restore_files : List ManagedFileSnapshot → M (Unit {0})
  restore_files [] = pure tt
  restore_files (f ∷ fs) = do Files.restore host f; restore_files fs

  -- the second loop of `_restore`
  unfoldable pub restore_values : List (String × String) → M (Unit {0})
  restore_values [] = pure tt
  restore_values ((key, value) ∷ rest) = do
    now ← Values.read key
    (if same_value now value then pure tt else Values.write host key value)
    restore_values rest

  -- the third loop of `_restore`
  unfoldable pub verify_files : List ManagedFileSnapshot → M (Unit {0})
  verify_files [] = pure tt
  verify_files (f ∷ fs) = do
    now ← Files.snapshot host f.relative_path
    check (file_eq now f) "file restoration verification failed"
    verify_files fs

  -- the fourth loop of `_restore`
  unfoldable pub verify_values : List (String × String) → M (Unit {0})
  verify_values [] = pure tt
  verify_values ((key, value) ∷ rest) = do
    now ← Values.read key
    check (same_value now value) "sysctl restoration verification failed"
    verify_values rest

  -- `_restore`
  unfoldable pub restore : TransactionSnapshot → M (Unit {0})
  restore s = do
    restore_files s.files
    restore_values s.sysctls
    verify_files s.files
    verify_values s.sysctls

  -- `try: self._restore(...); return done` / `except Exception: mark; return failure`
  unfoldable pub restore_or_mark :
      TransactionSnapshot → String → TransactionResult → TransactionResult → M TransactionResult
  restore_or_mark s mark_id done marked w =
      attempt (restore s w) (λ _. pure done)
        (λ _. do Backups.mark_recovery_required host mark_id; pure marked)
