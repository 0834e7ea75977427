-- ===== src/Sysctl/Manifest/Policy.antt =====
-- What the policy over a loaded manifest lets through.
use lsmf.Base.{
  is_some, ℕ, String, Bool, true, false, not, ◌&&◌, ◌||◌, List, [], ◌∷◌, Option, none, some, ◌≡◌,
  refl, ap, sym, subst, ◌∙◌, arith, eq_iff, str_eq, any, all, All, Bool-cases, Option-cases, inl,
  inr, ltb,
}
use lsmf.Base.Results.{Result, ok, ok-injectivity, >>=-eq-ok}
use lsmf.Base.Dict.{Dict, mem, distinct, keys, lookup, contains-eq-mem}
use lsmf.Peer.Identity.{Action}
use lsmf.Protocol.Json.{Json}
use lsmf.Protocol.Objects.{field_names, get, is_unique, same_names}
use lsmf.Protocol.Models.{ProductionRequest}
use lsmf.Sysctl.Manifest.{SysctlModule, SysctlManifest, ids_eq, selected, policy_validate}
use lsmf.Sysctl.Manifest.Checks.{module_sequence, multi_sequences}
use lsmf.Sysctl.Manifest.Load.{
  ManifestFile, read_trusted, object_of, modules_of, check_manifest, load_sysctl_manifest,
  count_settings, subset, in_order, is_two,
}
use lsmf.Sysctl.Manifest.Trusted.{
  passes, true_of_not, neither, distinct-IsFresh, AreSafe, IsSafeModule, IsLoaded,
  load_modules_sound, targets_of, all_keys,
}

-- What `load_sysctl_manifest` has made sure of.
record IsTrusted (m : SysctlManifest) : Type 0 where
  loaded : IsLoaded [] [] m.modules
  singles : subset m.single_apply (keys m.modules) ≡ true
  multis : any (λ ids. not (subset ids (keys m.modules))) m.multi_apply ≡ false

check_manifest_sound :
    (digest : String) (order single : List String) (multi : List (List String))
    (modules : Dict SysctlModule) (m : SysctlManifest)
    → check_manifest digest order single multi modules ≡ ok m
    → IsLoaded [] [] modules
    → IsTrusted m
unfolding check_manifest
check_manifest_sound digest order single multi modules m h loaded =
    let (_, h₁) = passes (ltb 128 (count_settings modules)) _ _ h in
    let (_, h₂) = passes (not (ids_eq order (keys modules))) _ _ h₁ in
    let (known, h₃) =
      passes
        (not (subset single (keys modules)) || any (λ ids. not (subset ids (keys modules))) multi) _
        _ h₂ in
    let (_, h₄) = passes (any (λ ids. not (in_order order ids)) multi) _ _ h₃ in
    let (singles, multis) = neither _ _ known in
    subst IsTrusted
      {x = record {
        module_order = order;
        single_apply = single;
        multi_apply = multi;
        modules = modules;
        digest = digest;
      }}
      (ok-injectivity h₄)
      (record { loaded = loaded; singles = true_of_not _ singles; multis = multis })

modules_sound :
    (v : Option Json) (modules : Dict SysctlModule)
    → modules_of v ≡ ok modules
    → IsLoaded [] [] modules
modules_sound (some (Json.obj fields)) modules h =
    let (_, h₁) = passes _ _ _ h in load_modules_sound [] [] fields modules h₁
modules_sound none modules h = cc
modules_sound (some Json.null) modules h = cc
modules_sound (some (Json.bool b)) modules h = cc
modules_sound (some (Json.int n)) modules h = cc
modules_sound (some (Json.real n)) modules h = cc
modules_sound (some (Json.str t)) modules h = cc
modules_sound (some (Json.arr items)) modules h = cc

load-IsTrusted :
    (f : ManifestFile) (uid most : ℕ) (m : SysctlManifest)
    → load_sysctl_manifest f uid most ≡ ok m
    → IsTrusted m
unfolding load_sysctl_manifest
load-IsTrusted f uid most m h =
    let (value, _, h₁) = >>=-eq-ok (read_trusted f uid most) _ h in
    let (_, h₂) = passes (not (is_unique value)) _ _ h₁ in
    let (fields, _, h₃) = >>=-eq-ok (object_of value) _ h₂ in
    let (_, h₄) =
      passes
        (not (
          same_names (field_names fields)
            ("version" ∷ "module_order" ∷ "single_apply" ∷ "multi_apply" ∷ "modules" ∷ [])))
        _ _ h₃ in
    let (_, h₅) = passes (not (is_two (get "version" fields))) _ _ h₄ in
    let (order, _, h₆) = >>=-eq-ok (module_sequence true (get "module_order" fields)) _ h₅ in
    let (single, _, h₇) = >>=-eq-ok (module_sequence true (get "single_apply" fields)) _ h₆ in
    let (multi, _, h₈) = >>=-eq-ok (multi_sequences (get "multi_apply" fields)) _ h₇ in
    let (modules, em, h₉) = >>=-eq-ok (modules_of (get "modules" fields)) _ h₈ in
    check_manifest_sound f.sha256 order single multi modules m h₉
      (modules_sound (get "modules" fields) modules em)

abbrev or_else : SysctlModule → Option SysctlModule → SysctlModule
or_else n none = n
or_else n (some m) = m

lookup-AreSafe :
    (i : String) (d : Dict SysctlModule) (m : SysctlModule)
    → AreSafe d
    → lookup i d ≡ some m
    → IsSafeModule m
lookup-AreSafe i [] m h e = cc
lookup-AreSafe i ((j, n) ∷ d) m h e = elim (Bool-cases (str_eq j i)) [
  | inl same ↦
      let found : some n ≡ some m = rw same at e in subst IsSafeModule (ap (or_else n) found) h.0
  | inr other ↦ lookup-AreSafe i d m h.1 (rw other at e)
]

known_true : (a b : Bool) → (a && b) ≡ true → a ≡ true
known_true a b h = ground arith

-- IDs of known modules select safe modules.
select-subset :
    (m : SysctlManifest) (ids : List String)
    → AreSafe m.modules
    → subset ids (keys m.modules) ≡ true
    → (ms : List SysctlModule) × (selected m ids ≡ ok ms) × All IsSafeModule ms
unfolding selected
select-subset m [] safe h = ([], refl, tt)
select-subset m (i ∷ ids) safe h = elim (Option-cases (lookup i m.modules)) [
  | inl missing ↦
      let gone : mem i (keys m.modules) ≡ false =
        sym (contains-eq-mem i m.modules) ∙ ap is_some missing in
      absurd (ground (arith, gone, h))
  | inr (n, e) ↦
      let (ms, chosen, all_safe) = select-subset m ids safe (ground arith) in
      (n ∷ ms, rw (selected, e, chosen) refl, (lookup-AreSafe i m.modules n safe e, all_safe))
]

ids_eq_sound : (xs ys : List String) → ids_eq xs ys ≡ true → xs ≡ ys
ids_eq_sound [] [] h = refl
ids_eq_sound [] (y ∷ ys) h = cc
ids_eq_sound (x ∷ xs) [] h = cc
ids_eq_sound (x ∷ xs) (y ∷ ys) h = ground (arith, eq_iff x y, ids_eq_sound xs ys)

single_known :
    (ids single known : List String)
    → any (λ i. ids_eq ids (i ∷ [])) single ≡ true
    → subset single known ≡ true
    → subset ids known ≡ true
single_known ids [] known h s = cc
single_known ids (i ∷ single) known h s = elim (Bool-cases (ids_eq ids (i ∷ []))) [
  | inl same ↦ rw (ids_eq_sound ids (i ∷ []) same) (ground arith)
  | inr other ↦ single_known ids single known (ground (arith, other)) (ground arith)
]

multi_known :
    (ids : List String) (multi : List (List String)) (known : List String)
    → any (ids_eq ids) multi ≡ true
    → any (λ js. not (subset js known)) multi ≡ false
    → subset ids known ≡ true
multi_known ids [] known h s = cc
multi_known ids (js ∷ multi) known h s = elim (Bool-cases (ids_eq ids js)) [
  | inl same ↦ rw (ids_eq_sound ids js same) (ground arith)
  | inr other ↦ multi_known ids multi known (ground (arith, other)) (ground arith)
]

abbrev pub is_apply : Action → Bool
is_apply Action.apply_module = true
is_apply Action.apply_modules = true
is_apply _ = false

allowed-known :
    (m : SysctlManifest) (be : Option (String → Result Bool)) (request : ProductionRequest)
    → IsTrusted m
    → is_apply request.action ≡ true
    → policy_validate m be request ≡ true
    → subset request.module_ids (keys m.modules) ≡ true
unfolding policy_validate
allowed-known m be request trusted = go request.action refl
  where
    go :
        (a : Action)
        → request.action ≡ a
        → is_apply request.action ≡ true
        → policy_validate m be request ≡ true
        → subset request.module_ids (keys m.modules) ≡ true
    go Action.apply_module e p h =
        single_known request.module_ids m.single_apply (keys m.modules) (rw e at h) trusted.singles
    go Action.apply_modules e p h =
        multi_known request.module_ids m.multi_apply (keys m.modules) (rw e at h) trusted.multis
    go Action.rollback_backup e p h = cc
    go Action.audit e p h = cc
    go Action.verify_module e p h = cc

-- If a manifest is loaded and its policy lets an apply request through, then the IDs of the request
-- select modules, each of which writes a `.conf` file below `etc/sysctl.d/` with no `..` in its
-- path, and sets only keys that have the form of a sysctl and can be taken back; and no target and
-- no key of the manifest stands twice.
pub policy-selects :
    (f : ManifestFile) (expected_uid maximum_bytes : ℕ) (m : SysctlManifest)
    (backup_eligible : Option (String → Result Bool)) (request : ProductionRequest)
    → load_sysctl_manifest f expected_uid maximum_bytes ≡ ok m
    → is_apply request.action ≡ true
    → policy_validate m backup_eligible request ≡ true
    → ((ms : List SysctlModule) × (selected m request.module_ids ≡ ok ms) × All IsSafeModule ms)
      × (distinct (targets_of m.modules) ≡ true)
      × (distinct (all_keys m.modules) ≡ true)
policy-selects f expected_uid maximum_bytes m backup_eligible request h p v =
    let trusted = load-IsTrusted f expected_uid maximum_bytes m h in
    let (targets, all, safe) = trusted.loaded in
    (
      select-subset m request.module_ids safe (allowed-known m backup_eligible request trusted p v),
      distinct-IsFresh [] (targets_of m.modules) targets,
      distinct-IsFresh [] (all_keys m.modules) all,
    )
