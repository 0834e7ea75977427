-- ===== src/Sysctl/Capture.antt =====
-- lsmf/sysctl_transaction.py `_snapshot`.
use lsmf.Base.{String, List, [], ◌∷◌, ◌++◌}
use lsmf.Sysctl.World.{ManagedFileSnapshot, TransactionSnapshot, Host, M, pure, ◌>>=◌}
use lsmf.Sysctl.Files
use lsmf.Sysctl.Values
use lsmf.Sysctl.Manifest.{SysctlSetting, SysctlModule, SysctlManifest}

module _ (host : Host) where
  -- the files of `_snapshot`
  unfoldable pub take_files : List SysctlModule → M (List ManagedFileSnapshot)
  take_files [] = pure []
  take_files (m ∷ ms) = do
    f ← Files.snapshot host m.relative_target
    fs ← take_files ms
    pure (f ∷ fs)

  -- the sysctls of `_snapshot`, of one module
  unfoldable pub take_settings : List SysctlSetting → M (List (String × String))
  take_settings [] = pure []
  take_settings (s ∷ ss) = do v ← Values.read s.key; vs ← take_settings ss; pure ((s.key, v) ∷ vs)

  unfoldable pub take_values : List SysctlModule → M (List (String × String))
  take_values [] = pure []
  take_values (m ∷ ms) = do vs ← take_settings m.settings; rest ← take_values ms; pure (vs ++ rest)

  abbrev module_names : List SysctlModule → List String
  module_names [] = []
  module_names (m ∷ ms) = m.module_id ∷ module_names ms

  -- `_snapshot`
  unfoldable pub take : SysctlManifest → String → List SysctlModule → M TransactionSnapshot
  take manifest backup_id modules = do
    files ← take_files modules
    sysctls ← take_values modules
    pure (record {
      backup_id = backup_id;
      manifest_digest = manifest.digest;
      module_ids = module_names modules;
      files = files;
      sysctls = sysctls;
    })
