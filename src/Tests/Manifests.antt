-- ===== src/Tests/Manifests.antt =====
-- A manifest that loads, and one whose two targets are one file.
use lsmf.Base.{String, true, false, List, [], ◌∷◌, none, ◌≡◌, refl, ℤ, All}
use lsmf.Base.Results.{ok, err}
use lsmf.Base.Dict.{distinct}
use lsmf.Peer.Identity.{Action}
use lsmf.Protocol.Json.{Json, Items, Fields}
use lsmf.Protocol.Models.{ProductionRequest}
use lsmf.Sysctl.Manifest.{SysctlModule, SysctlManifest, selected, policy_validate}
use lsmf.Sysctl.Manifest.Checks.{module_sequence, multi_sequences, check_target}
use lsmf.Sysctl.Manifest.Load.{
  ManifestFile, load_sysctl_manifest, read_trusted, check_manifest, load_modules, load_module,
  load_settings, load_setting,
}
use lsmf.Sysctl.Values.{is_sysctl_key}
use lsmf.Sysctl.Manifest.Trusted.{targets_of, all_keys, IsSafeModule}
use lsmf.Sysctl.Manifest.Policy.{policy-selects}

abbrev setting : String → String → Json
setting key value =
    Json.obj (Fields.field "key" (Json.str key) (Fields.field "value" (Json.str value) Fields.end))

abbrev module_of : String → String → String → Json
module_of target key value = Json.obj (
    Fields.field "relative_target" (Json.str target)
      (Fields.field "settings" (Json.arr (Items.cons (setting key value) Items.nil)) Fields.end))

abbrev two : Json
two = Json.arr (Items.cons (Json.str "kernel") (Items.cons (Json.str "net") Items.nil))

abbrev manifest_of : String → String → Json
manifest_of kernel_target net_target = Json.obj (
    Fields.field "version" (Json.int (ℤ.pos 2)) (
      Fields.field "module_order" two (
        Fields.field "single_apply" (Json.arr (Items.cons (Json.str "net") Items.nil)) (
          Fields.field "multi_apply" (Json.arr (Items.cons two Items.nil)) (
            Fields.field "modules"
              (Json.obj (
                Fields.field "kernel" (module_of kernel_target "kernel.kptr_restrict" "2") (
                  Fields.field "net" (module_of net_target "net.ipv4.tcp_syncookies" "1")
                    Fields.end)))
              Fields.end)))))

abbrev file_of : Json → ManifestFile
file_of tree = record {
  opens = ok tt;
  status = ok (record { is_regular = true; uid = 0; written_by_others = false });
  size = 500;
  tree = ok tree;
  sha256 = "d1";
}

abbrev kernel_module : String → SysctlModule
kernel_module target = record {
  module_id = "kernel";
  relative_target = target;
  settings = record { key = "kernel.kptr_restrict"; desired_value = "2" } ∷ [];
}

abbrev net_module : String → SysctlModule
net_module target = record {
  module_id = "net";
  relative_target = target;
  settings = record { key = "net.ipv4.tcp_syncookies"; desired_value = "1" } ∷ [];
}

abbrev loaded : String → String → SysctlManifest
loaded kernel_target net_target = record {
  module_order = "kernel" ∷ "net" ∷ [];
  single_apply = "net" ∷ [];
  multi_apply = ("kernel" ∷ "net" ∷ []) ∷ [];
  modules = ("kernel", kernel_module kernel_target) ∷ ("net", net_module net_target) ∷ [];
  digest = "d1";
}

abbrev both : ProductionRequest
both = record {
  protocol_version = Json.int (ℤ.pos 1);
  request_id = "00000000-0000-4000-8000-000000000001";
  action = Action.apply_modules;
  module_ids = "kernel" ∷ "net" ∷ [];
  backup_id = none;
}

abbrev distinct_targets : SysctlManifest
distinct_targets = loaded "etc/sysctl.d/10-kernel.conf" "etc/sysctl.d/20-net.conf"

loads :
    load_sysctl_manifest
      (file_of (manifest_of "etc/sysctl.d/10-kernel.conf" "etc/sysctl.d/20-net.conf"))
      0
      65536
    ≡ ok distinct_targets
unfolding load_sysctl_manifest read_trusted check_manifest module_sequence multi_sequences
    load_modules load_module load_settings load_setting check_target is_sysctl_key
loads = refl

lets_through : policy_validate distinct_targets none both ≡ true
unfolding policy_validate
lets_through = refl

policy-selects_example :
    ((ms : List SysctlModule) × (selected distinct_targets ("kernel" ∷ "net" ∷ []) ≡ ok ms)
      × All IsSafeModule ms)
    × (distinct (targets_of distinct_targets.modules) ≡ true)
    × (distinct (all_keys distinct_targets.modules) ≡ true)
policy-selects_example =
    policy-selects (file_of (manifest_of "etc/sysctl.d/10-kernel.conf" "etc/sysctl.d/20-net.conf"))
      0 65536 distinct_targets none both loads refl lets_through

-- An empty part and a single dot pass, so two names of one file pass as two targets.
loads_one_file_twice :
    load_sysctl_manifest
      (file_of (manifest_of "etc/sysctl.d/a.conf" "etc/sysctl.d/.//a.conf"))
      0
      65536
    ≡ ok (loaded "etc/sysctl.d/a.conf" "etc/sysctl.d/.//a.conf")
unfolding load_sysctl_manifest read_trusted check_manifest module_sequence multi_sequences
    load_modules load_module load_settings load_setting check_target is_sysctl_key
loads_one_file_twice = refl

-- a file that others may write to is refused, before its text is looked at
refuses_unsafe :
    read_trusted
      (record {
        opens = ok tt;
        status = ok (record { is_regular = true; uid = 0; written_by_others = true });
        size = 500;
        tree = err "sysctl manifest is not valid UTF-8 JSON";
        sha256 = "d1";
      })
      0
      65536
    ≡ err "sysctl manifest ownership or mode is unsafe"
unfolding read_trusted
refuses_unsafe = refl
