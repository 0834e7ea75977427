-- ===== src/Sysctl/Manifest/Load.antt =====
-- lsmf/sysctl_manifest.py `load_sysctl_manifest`: the file's checks and those of its JSON tree.
use lsmf.Base.{
  ℕ, suc, ◌+◌, String, Bool, true, false, not, ◌&&◌, ◌||◌, List, [], ◌∷◌, ◌++◌, Option, some, ltb,
  leb, ◌==◌, ℤ, str_eq, if◌then◌else◌, length, is_empty, any, all,
}
use lsmf.Base.Results.{Result, ok, err, ◌>>=◌, ◌>>◌, raise_if}
use lsmf.Base.Dict.{Dict, mem, keys}
use lsmf.Base.Text.{codes}
use lsmf.Protocol.Json.{Json, Items, Fields}
use lsmf.Protocol.Objects.{field_names, get, is_unique, same_names, text_of}
use lsmf.Sysctl.Values.{is_sysctl_key}
use lsmf.Sysctl.Manifest.{SysctlSetting, SysctlModule, SysctlManifest, ids_eq}
use lsmf.Sysctl.Manifest.Checks.{
  is_module_id, is_value, non_rollbackable_keys, module_sequence, multi_sequences, target_of,
}

-- What the kernel says of the opened file: if it is a regular file, its owner, and if the group or
-- others may write it.
pub record FileStatus : Type 0 where
  pub is_regular : Bool
  pub uid : ℕ
  pub written_by_others : Bool

-- A manifest's file: if it opens, its status, the number of bytes read, the tree of its JSON, or an
-- error, and its SHA-256.
pub record ManifestFile : Type 0 where
  pub opens : Result (Unit {0})
  pub status : Result FileStatus
  pub size : ℕ
  pub tree : Result Json
  pub sha256 : String

-- `_read_trusted` and `json.loads`
unfoldable pub read_trusted : ManifestFile → ℕ → ℕ → Result Json
read_trusted f expected_uid maximum_bytes = do
  f.opens
  s ← f.status
  raise_if (not s.is_regular || not (s.uid == expected_uid) || s.written_by_others)
      "sysctl manifest ownership or mode is unsafe"
  raise_if (ltb maximum_bytes f.size) "sysctl manifest exceeds its size limit"
  f.tree

-- one round of the loop over settings, with the keys so far
unfoldable pub load_setting : List String → Json → Result SysctlSetting
load_setting seen (Json.obj fields) = do
  raise_if (not (same_names (field_names fields) ("key" ∷ "value" ∷ [])))
      "sysctl setting fields are invalid"
  key ← text_of "sysctl key is invalid" (get "key" fields)
  raise_if (not (is_sysctl_key key)) "sysctl key is invalid"
  raise_if (mem key non_rollbackable_keys) "sysctl key is not rollback-capable"
  desired ← text_of "sysctl value is invalid" (get "value" fields)
  raise_if (not (is_value true (codes desired)) || ltb 128 (length (codes desired)))
      "sysctl value is invalid"
  raise_if (mem key seen) "sysctl keys must be unique across modules"
  ok (record { key = key; desired_value = desired })
load_setting seen _ = err "sysctl setting fields are invalid"

unfoldable pub load_settings : List String → Items → Result (List SysctlSetting)
load_settings seen Items.nil = ok []
load_settings seen (Items.cons v rest) = do
  setting ← load_setting seen v
  settings ← load_settings (seen ++ setting.key ∷ []) rest
  ok (setting ∷ settings)

abbrev pub settings_of : List String → Option Json → Result (List SysctlSetting)
settings_of seen (some (Json.arr Items.nil)) = err "sysctl module settings are invalid"
settings_of seen (some (Json.arr items)) = load_settings seen items
settings_of seen _ = err "sysctl module settings are invalid"

-- one round of the loop over modules, with the targets and the keys so far
unfoldable pub load_module : List String → List String → String → Json → Result SysctlModule
load_module targets seen id (Json.obj fields) = do
  raise_if (not (is_module_id id)) "module ID is invalid"
  raise_if (not (same_names (field_names fields) ("relative_target" ∷ "settings" ∷ [])))
      "sysctl module fields are invalid"
  target ← target_of (get "relative_target" fields)
  raise_if (mem target targets) "sysctl modules must have disjoint targets"
  settings ← settings_of seen (get "settings" fields)
  ok (record { module_id = id; relative_target = target; settings = settings })
load_module targets seen id _ = err "sysctl module fields are invalid"

abbrev pub setting_keys : List SysctlSetting → List String
setting_keys [] = []
setting_keys (s ∷ rest) = s.key ∷ setting_keys rest

unfoldable pub load_modules : List String → List String → Fields → Result (Dict SysctlModule)
load_modules targets seen Fields.end = ok []
load_modules targets seen (Fields.field id v rest) = do
  m ← load_module targets seen id v
  others ← load_modules (targets ++ m.relative_target ∷ []) (seen ++ setting_keys m.settings) rest
  ok ((id, m) ∷ others)

abbrev pub count_settings : Dict SysctlModule → ℕ
count_settings [] = 0
count_settings ((_, m) ∷ rest) = length m.settings + count_settings rest

abbrev pub modules_of : Option Json → Result (Dict SysctlModule)
modules_of (some (Json.obj fields)) = do
  raise_if (is_empty (field_names fields) || ltb 8 (length (field_names fields)))
      "sysctl manifest module set is invalid"
  load_modules [] [] fields
modules_of _ = err "sysctl manifest module set is invalid"

-- `order_index[module_id]`
abbrev pub index_of : String → List String → ℕ
index_of id [] = 0
index_of id (i ∷ is) = if str_eq i id then 0 else suc (index_of id is)

-- A sequence is sorted by the order, so that `sorted` leaves it as it is.
abbrev pub in_order : List String → List String → Bool
in_order order [] = true
in_order order (i ∷ []) = true
in_order order (i ∷ j ∷ rest) =
    leb (index_of i order) (index_of j order) && in_order order (j ∷ rest)

-- `set(xs) <= set(ys)`
abbrev pub subset : List String → List String → Bool
subset xs ys = all (λ x. mem x ys) xs

-- `value["version"] != 2 or isinstance(value["version"], bool)`
abbrev pub is_two : Option Json → Bool
is_two (some (Json.int (ℤ.pos n))) = n == 2
is_two (some (Json.real (some (ℤ.pos n)))) = n == 2
is_two _ = false

abbrev pub object_of : Json → Result Fields
object_of (Json.obj fields) = ok fields
object_of _ = err "sysctl manifest fields are invalid"

-- the last checks, and the manifest
unfoldable pub check_manifest :
    String
    → List String
    → List String
    → List (List String)
    → Dict SysctlModule
    → Result SysctlManifest
check_manifest digest order single multi modules = do
  raise_if (ltb 128 (count_settings modules)) "sysctl manifest has too many settings"
  raise_if (not (ids_eq order (keys modules)))
      "module order must exactly match manifest module order"
  raise_if
      (not (subset single (keys modules)) || any (λ ids. not (subset ids (keys modules))) multi)
      "apply policy names an unknown module"
  raise_if (any (λ ids. not (in_order order ids)) multi)
      "multi-apply sequence violates fixed module order"
  ok (record {
    module_order = order;
    single_apply = single;
    multi_apply = multi;
    modules = modules;
    digest = digest;
  })

-- `load_sysctl_manifest`
unfoldable pub load_sysctl_manifest : ManifestFile → ℕ → ℕ → Result SysctlManifest
unfolding check_manifest module_sequence multi_sequences load_modules
load_sysctl_manifest f expected_uid maximum_bytes = do
  value ← read_trusted f expected_uid maximum_bytes
  raise_if (not (is_unique value)) "duplicate manifest field"
  fields ← object_of value
  raise_if
      (not (
        same_names (field_names fields)
          ("version" ∷ "module_order" ∷ "single_apply" ∷ "multi_apply" ∷ "modules" ∷ [])))
      "sysctl manifest fields are invalid"
  raise_if (not (is_two (get "version" fields))) "sysctl manifest version is unsupported"
  order ← module_sequence true (get "module_order" fields)
  single ← module_sequence true (get "single_apply" fields)
  multi ← multi_sequences (get "multi_apply" fields)
  modules ← modules_of (get "modules" fields)
  check_manifest f.sha256 order single multi modules
