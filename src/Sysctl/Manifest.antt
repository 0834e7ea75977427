-- ===== src/Sysctl/Manifest.antt =====
-- lsmf/sysctl_manifest.py: the trusted manifest and the policy over it.
pub mod Checks
pub mod Load
pub mod Trusted
pub mod Policy
use lsmf.Base.{String, Bool, true, false, ◌&&◌, List, [], ◌∷◌, Option, none, some, any, str_eq}
use lsmf.Base.Results.{Result, ok, err, ◌>>=◌}
use lsmf.Base.Dict.{Dict, lookup}
use lsmf.Peer.Identity.{Action}
use lsmf.Protocol.Models.{ProductionRequest}

pub record SysctlSetting : Type 0 where
  pub key : String
  pub desired_value : String

pub record SysctlModule : Type 0 where
  pub module_id : String
  pub relative_target : String
  pub settings : List SysctlSetting

pub record SysctlManifest : Type 0 where
  pub module_order : List String
  pub single_apply : List String
  pub multi_apply : List (List String)
  pub modules : Dict SysctlModule
  pub digest : String

-- `SysctlManifest.selected`: a missing ID is a `KeyError`
unfoldable pub selected : SysctlManifest → List String → Result (List SysctlModule)
selected manifest [] = ok []
selected manifest (i ∷ is) = elim (lookup i manifest.modules) [
  | none ↦ err "KeyError"
  | some m ↦ (do ms ← selected manifest is; ok (m ∷ ms))
]

-- `==` of two tuples of texts
abbrev pub ids_eq : List String → List String → Bool
ids_eq [] [] = true
ids_eq (a ∷ xs) (b ∷ ys) = str_eq a b && ids_eq xs ys
ids_eq _ _ = false

-- `SysctlManifestPolicy.validate`; `backup_eligible` is `none` where the policy was given no such
-- function, and its answer `err` where the function raised.
unfoldable pub policy_validate :
    SysctlManifest → Option (String → Result Bool) → ProductionRequest → Bool
policy_validate manifest backup_eligible request = elim request.action [
  | Action.apply_module ↦ any (λ i. ids_eq request.module_ids (i ∷ [])) manifest.single_apply
  | Action.apply_modules ↦ any (ids_eq request.module_ids) manifest.multi_apply
  | Action.rollback_backup ↦ eligible backup_eligible request.backup_id
  | _ ↦ false
]
  where
    asked : Result Bool → Bool
    asked (ok true) = true
    asked _ = false

    eligible : Option (String → Result Bool) → Option String → Bool
    eligible (some f) (some i) = asked (f i)
    eligible _ _ = false
