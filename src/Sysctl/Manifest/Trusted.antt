-- ===== src/Sysctl/Manifest/Trusted.antt =====
-- What a manifest that was loaded is, and what its policy lets through.
use lsmf.Base.{
  String, Bool, true, false, not, ◌||◌, List, [], ◌∷◌, ◌++◌, Option, none, some, ◌≡◌, refl, ap, sym,
  subst, arith, eq_iff, any, All, append_assoc, append-nil,
}
use lsmf.Base.Results.{Result, ok, ok-injectivity, ◌>>=◌, >>=-eq-ok, raise_if}
use lsmf.Base.Dict.{Dict, mem, distinct, keys, mem-append_last}
use lsmf.Base.Text.{codes}
use lsmf.Protocol.Json.{Json, Items, Fields}
use lsmf.Protocol.Objects.{field_names, get, same_names, text_of}
use lsmf.Sysctl.Files.{is_dot_dot}
use lsmf.Sysctl.Values.{is_sysctl_key}
use lsmf.Sysctl.Manifest.{SysctlSetting, SysctlModule}
use lsmf.Sysctl.Manifest.Checks.{
  target_of, non_rollbackable_keys, starts_with, check_target, is_module_id, parts, last_is_conf,
}
use lsmf.Sysctl.Manifest.Load.{
  load_setting, load_settings, load_module, load_modules, setting_keys, settings_of,
}

-- A block that returns went past its check.
pub passes {ℓ} :
    {S : Type ℓ} (test : Bool) (message : String) (rest : Result S) {v : S}
    → (raise_if test message >>= λ ignored. rest) ≡ ok v
    → (test ≡ false) × (rest ≡ ok v)
passes true message rest h = cc
passes false message rest h = (refl, h)

pub true_of_not : (b : Bool) → not b ≡ false → b ≡ true
true_of_not b h = ground arith

pub neither : (a b : Bool) → (a || b) ≡ false → (a ≡ false) × (b ≡ false)
neither a b h = ground arith

-- None of these texts is in `seen`, and none stands twice.
abbrev pub IsFresh : List String → List String → Type 0
IsFresh seen [] = Unit
IsFresh seen (k ∷ ks) = (mem k seen ≡ false) × IsFresh (seen ++ k ∷ []) ks

IsFresh-append :
    (seen ks js : List String) → IsFresh seen ks → IsFresh (seen ++ ks) js → IsFresh seen (ks ++ js)
IsFresh-append seen [] js h g = subst (λ (l : List String). IsFresh l js) (append-nil seen) g
IsFresh-append seen (k ∷ ks) js h g = (
  h.0,
  IsFresh-append (seen ++ k ∷ []) ks js h.1
      (subst (λ (l : List String). IsFresh l js) (sym (append_assoc seen (k ∷ []) ks)) g),
)

mem-IsFresh :
    (k : String) (seen ks : List String) → IsFresh seen ks → mem k seen ≡ true → mem k ks ≡ false
mem-IsFresh k seen [] h m = refl
mem-IsFresh k seen (j ∷ ks) h m =
    ground (arith, mem-IsFresh k (seen ++ j ∷ []) ks h.1, mem-append_last k j seen, eq_iff j k)

pub distinct-IsFresh : (seen ks : List String) → IsFresh seen ks → distinct ks ≡ true
distinct-IsFresh seen [] h = refl
distinct-IsFresh seen (k ∷ ks) h = ground (
  arith,
  distinct-IsFresh (seen ++ k ∷ []) ks h.1,
  mem-IsFresh k (seen ++ k ∷ []) ks h.1,
  mem-append_last k k seen,
  eq_iff k k,
)

-- A setting's key has the form of a sysctl and can be taken back.
abbrev pub IsSafeKey : String → Type 0
IsSafeKey key = (is_sysctl_key key ≡ true) × (mem key non_rollbackable_keys ≡ false)

abbrev pub IsSafeSetting : SysctlSetting → Type 0
IsSafeSetting s = IsSafeKey s.key

load_setting_sound :
    (seen : List String) (v : Json) (s : SysctlSetting)
    → load_setting seen v ≡ ok s
    → (mem s.key seen ≡ false) × IsSafeSetting s
unfolding load_setting
load_setting_sound seen (Json.obj fields) s h =
    let (_, h₁) = passes _ _ _ h in
    let (key, _, h₂) = >>=-eq-ok (text_of "sysctl key is invalid" (get "key" fields)) _ h₁ in
    let (form, h₃) = passes (not (is_sysctl_key key)) _ _ h₂ in
    let (kept, h₄) = passes (mem key non_rollbackable_keys) _ _ h₃ in
    let (desired, _, h₅) =
      >>=-eq-ok (text_of "sysctl value is invalid" (get "value" fields)) _ h₄ in
    let (_, h₆) = passes _ _ _ h₅ in
    let (new, h₇) = passes (mem key seen) _ _ h₆ in
    let same : key ≡ s.key =
      ap (λ (t : SysctlSetting). t.key) {x = record { key = key; desired_value = desired }}
        (ok-injectivity h₇) in
    subst (λ (k : String). (mem k seen ≡ false) × IsSafeKey k) {x = key} same
      (new, (true_of_not _ form, kept))
load_setting_sound seen Json.null s h = cc
load_setting_sound seen (Json.bool b) s h = cc
load_setting_sound seen (Json.int n) s h = cc
load_setting_sound seen (Json.real n) s h = cc
load_setting_sound seen (Json.str t) s h = cc
load_setting_sound seen (Json.arr items) s h = cc

load_settings_sound :
    (seen : List String) (items : Items) (ss : List SysctlSetting)
    → load_settings seen items ≡ ok ss
    → IsFresh seen (setting_keys ss) × All IsSafeSetting ss
unfolding load_settings
load_settings_sound seen Items.nil ss h =
    subst (λ l. IsFresh seen (setting_keys l) × All IsSafeSetting l) (ok-injectivity h) (tt, tt)
load_settings_sound seen (Items.cons v rest) ss h =
    let (s, first, h₁) = >>=-eq-ok (load_setting seen v) _ h in
    let (others, later, h₂) = >>=-eq-ok (load_settings (seen ++ s.key ∷ []) rest) _ h₁ in
    let (new, safe) = load_setting_sound seen v s first in
    let (fresh, all_safe) = load_settings_sound (seen ++ s.key ∷ []) rest others later in
    subst (λ l. IsFresh seen (setting_keys l) × All IsSafeSetting l) (ok-injectivity h₂)
      ((new, fresh), (safe, all_safe))

settings_sound :
    (seen : List String) (v : Option Json) (ss : List SysctlSetting)
    → settings_of seen v ≡ ok ss
    → IsFresh seen (setting_keys ss) × All IsSafeSetting ss
settings_sound seen none ss h = cc
settings_sound seen (some (Json.arr Items.nil)) ss h = cc
settings_sound seen (some (Json.arr (Items.cons v rest))) ss h =
    load_settings_sound seen (Items.cons v rest) ss h
settings_sound seen (some Json.null) ss h = cc
settings_sound seen (some (Json.bool b)) ss h = cc
settings_sound seen (some (Json.int n)) ss h = cc
settings_sound seen (some (Json.real n)) ss h = cc
settings_sound seen (some (Json.str t)) ss h = cc
settings_sound seen (some (Json.obj fields)) ss h = cc

-- A target is a `.conf` file below `etc/sysctl.d/`, with no `..` in its path.
abbrev pub IsSafeTarget : String → Type 0
IsSafeTarget target =
    (starts_with (codes "etc/sysctl.d/") (codes target) ≡ true)
    × (any is_dot_dot (parts (codes target)) ≡ false)
    × (last_is_conf (parts (codes target)) ≡ true)

target_sound : (v : Option Json) (target : String) → target_of v ≡ ok target → IsSafeTarget target
unfolding check_target
target_sound (some (Json.str s)) target h =
    let (_, h₁) = passes _ _ _ h in
    let (local, h₂) =
      passes (starts_with (codes "/") (codes s) || any is_dot_dot (parts (codes s))) _ _ h₁ in
    let (inside, h₃) =
      passes
        (not (starts_with (codes "etc/sysctl.d/") (codes s))
          || not (last_is_conf (parts (codes s))))
        _ _ h₂ in
    let (_, h₄) = passes _ _ _ h₃ in
    let (below, conf) = neither _ _ inside in
    subst IsSafeTarget {x = s} (ok-injectivity h₄)
      (true_of_not _ below, (neither _ _ local).1, true_of_not _ conf)
target_sound none target h = cc
target_sound (some Json.null) target h = cc
target_sound (some (Json.bool b)) target h = cc
target_sound (some (Json.int n)) target h = cc
target_sound (some (Json.real n)) target h = cc
target_sound (some (Json.arr items)) target h = cc
target_sound (some (Json.obj fields)) target h = cc

load_module_sound :
    (targets seen : List String) (id : String) (v : Json) (m : SysctlModule)
    → load_module targets seen id v ≡ ok m
    → (mem m.relative_target targets ≡ false)
      × IsFresh seen (setting_keys m.settings)
      × IsSafeTarget m.relative_target
      × All IsSafeSetting m.settings
unfolding load_module
load_module_sound targets seen id (Json.obj fields) m h =
    let (_, h₁) = passes (not (is_module_id id)) _ _ h in
    let (_, h₂) =
      passes (not (same_names (field_names fields) ("relative_target" ∷ "settings" ∷ []))) _ _ h₁ in
    let (target, et, h₃) = >>=-eq-ok (target_of (get "relative_target" fields)) _ h₂ in
    let (new, h₄) = passes (mem target targets) _ _ h₃ in
    let (ss, es, h₅) = >>=-eq-ok (settings_of seen (get "settings" fields)) _ h₄ in
    let (fresh, safe) = settings_sound seen (get "settings" fields) ss es in
    subst
      (λ (n : SysctlModule).
        (mem n.relative_target targets ≡ false)
        × IsFresh seen (setting_keys n.settings)
        × IsSafeTarget n.relative_target
        × All IsSafeSetting n.settings)
      {x = record { module_id = id; relative_target = target; settings = ss }} (ok-injectivity h₅)
      (new, fresh, target_sound (get "relative_target" fields) target et, safe)
load_module_sound targets seen id Json.null m h = cc
load_module_sound targets seen id (Json.bool b) m h = cc
load_module_sound targets seen id (Json.int n) m h = cc
load_module_sound targets seen id (Json.real n) m h = cc
load_module_sound targets seen id (Json.str t) m h = cc
load_module_sound targets seen id (Json.arr items) m h = cc

-- the targets of all modules, and the keys of all settings, in order
abbrev pub targets_of : Dict SysctlModule → List String
targets_of [] = []
targets_of ((_, m) ∷ rest) = m.relative_target ∷ targets_of rest

abbrev pub all_keys : Dict SysctlModule → List String
all_keys [] = []
all_keys ((_, m) ∷ rest) = setting_keys m.settings ++ all_keys rest

-- A module's file and its settings are safe.
abbrev pub IsSafeModule : SysctlModule → Type 0
IsSafeModule m = IsSafeTarget m.relative_target × All IsSafeSetting m.settings

abbrev pub AreSafe : Dict SysctlModule → Type 0
AreSafe [] = Unit
AreSafe ((_, m) ∷ rest) = IsSafeModule m × AreSafe rest

abbrev pub IsLoaded : List String → List String → Dict SysctlModule → Type 0
IsLoaded targets seen modules =
    IsFresh targets (targets_of modules) × IsFresh seen (all_keys modules) × AreSafe modules

pub load_modules_sound :
    (targets seen : List String) (fields : Fields) (modules : Dict SysctlModule)
    → load_modules targets seen fields ≡ ok modules
    → IsLoaded targets seen modules
unfolding load_modules
load_modules_sound targets seen Fields.end modules h =
    subst (IsLoaded targets seen) {x = []} (ok-injectivity h) (tt, tt, tt)
load_modules_sound targets seen (Fields.field id v rest) modules h =
    let (m, em, h₁) = >>=-eq-ok (load_module targets seen id v) _ h in
    let (others, eo, h₂) =
      >>=-eq-ok
        (load_modules (targets ++ m.relative_target ∷ []) (seen ++ setting_keys m.settings) rest) _
        h₁ in
    let (new, keys, target, safe) = load_module_sound targets seen id v m em in
    let (later_targets, later_keys, later_safe) =
      load_modules_sound (targets ++ m.relative_target ∷ []) (seen ++ setting_keys m.settings) rest
        others eo in
    subst (IsLoaded targets seen) {x = (id, m) ∷ others} (ok-injectivity h₂) (
      (new, later_targets),
      IsFresh-append seen (setting_keys m.settings) (all_keys others) keys later_keys,
      ((target, safe), later_safe),
    )
