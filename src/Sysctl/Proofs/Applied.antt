-- ===== src/Sysctl/Proofs/Applied.antt =====
-- What a returned result of `_apply` says of the machine.
use lsmf.Base.{String, ◌≡◌, refl, sym, ◌∙◌, List, [], ◌∷◌, some, arith, ◌⊎◌, inl, inr, All, subst}
use lsmf.Base.Text.{codes}
use lsmf.Sysctl.Manifest.{SysctlSetting, SysctlModule}
use lsmf.Sysctl.World.{
  ManagedFileSnapshot, TransactionSnapshot, Disk, Host, World, Outcome, ok, raised, raise, attempt,
  ◌>>=◌, checkpoint,
}
use lsmf.Sysctl.Files
use lsmf.Sysctl.Files.{look, bytes_eq, bytes_eq_iff, put_node}
use lsmf.Sysctl.Values
use lsmf.Sysctl.Values.{look_value, is_value, canonical_sysctl_value, put_value}
use lsmf.Sysctl.Backups.{create, look_backup}
use lsmf.Sysctl.Apply.{content, apply_modules, check_settings, check_modules, apply_body}
use lsmf.Sysctl.Proofs.Reads.{>>=-eq-ok, check-eq-ok, snapshot_inv, read_inv}
use lsmf.Sysctl.Proofs.Frame.{
  Keeps, Keeps-bind, Keeps-checkpoint, NodeClosed, ValueClosed, Closed, apply_modules-Keeps,
  check_modules-Keeps,
}
use lsmf.Sysctl.Proofs.Store.{create-Keeps, create_inv}

-- Nothing that is managed was touched.
abbrev pub Untouched : Disk → Disk → Type 0
Untouched d d' = (d'.nodes ≡ d.nodes) × (d'.sysctls ≡ d.sysctls)

module _ (host : Host) where
  -- The sysctls of a module have their desired values.
  abbrev pub DesiredSettings : List SysctlSetting → Disk → Type 0
  DesiredSettings ss d =
      All
        (λ s.
          (x : String) × (look_value s.key d ≡ ok x)
          × (canonical_sysctl_value x ≡ codes s.desired_value))
        ss

  -- Every module's file has its content, and every sysctl its desired value.
  abbrev pub Desired : List SysctlModule → Disk → Type 0
  Desired ms d =
      All
        (λ m.
          ((f : ManagedFileSnapshot) × (look host m.relative_target d ≡ ok f)
            × (f.content ≡ content m.settings))
          × DesiredSettings m.settings d)
        ms

  check_settings_inv :
      (ss : List SysctlSetting) (w v : World)
      → check_settings host ss w ≡ (ok tt, v)
      → DesiredSettings ss w.disk × (v.disk ≡ w.disk)
  unfolding check_settings
  check_settings_inv [] w v h = (tt, ground arith)
  check_settings_inv (s ∷ ss) w v h =
      let (x, u, e₁, h₁) = >>=-eq-ok (Values.read s.key) _ w h in
      let (good, h₂) = check-eq-ok (is_value x s.desired_value) _ _ u h₁ in
      let (seen, unmoved) = read_inv s.key w e₁ in
      let (rest, still) = check_settings_inv ss u v h₂ in
      (
        (
          (x, seen, (bytes_eq_iff (canonical_sysctl_value x) (codes s.desired_value)).0 good),
          subst (DesiredSettings ss) unmoved rest,
        ),
        still ∙ unmoved,
      )

  check_modules_inv :
      (ms : List SysctlModule) (w v : World)
      → check_modules host ms w ≡ (ok tt, v)
      → Desired ms w.disk × (v.disk ≡ w.disk)
  unfolding check_modules
  check_modules_inv [] w v h = (tt, ground arith)
  check_modules_inv (m ∷ ms) w v h =
      let (f, u, e₁, h₁) = >>=-eq-ok (Files.snapshot host m.relative_target) _ w h in
      let (good, h₂) = check-eq-ok (bytes_eq f.content (content m.settings)) _ _ u h₁ in
      let (_, t, e₃, h₃) = >>=-eq-ok (check_settings host m.settings) _ u h₂ in
      let (seen, unmoved) = snapshot_inv host m.relative_target w e₁ in
      let (settings, kept) = check_settings_inv m.settings u t e₃ in
      let (rest, still) = check_modules_inv ms t v h₃ in
      (
        (
          (
            (f, seen, (bytes_eq_iff f.content (content m.settings)).0 good),
            subst (DesiredSettings m.settings) unmoved settings,
          ),
          subst (Desired ms) (kept ∙ unmoved) rest,
        ),
        still ∙ kept ∙ unmoved,
      )

  -- What no change of a path or of a value can break, no run of the loops breaks.
  Closed-everywhere :
      (P : Disk → Type 0)
      → ((p : String) → NodeClosed P host p)
      → ((k : String) → ValueClosed P k)
      → (ms : List SysctlModule) → Closed P host ms
  Closed-everywhere P n v [] = tt
  Closed-everywhere P n v (m ∷ ms) =
      ((n m.relative_target, settings m.settings), Closed-everywhere P n v ms)
    where
      settings : (ss : List SysctlSetting) → All (λ s. ValueClosed P s.key) ss
      settings [] = tt
      settings (s ∷ ss) = (v s.key, settings ss)

  abbrev pub Backs : TransactionSnapshot → Disk → Type 0
  Backs s d = look_backup host s.backup_id d ≡ ok s

  Backs-node : (s : TransactionSnapshot) (p : String) → NodeClosed (Backs s) host p
  unfolding look_backup
  Backs-node s p = (λ n d h. h, λ n d h. h)

  Backs-value : (s : TransactionSnapshot) (k : String) → ValueClosed (Backs s) k
  unfolding look_backup
  Backs-value s k x d h = h

  after_create :
      (s : TransactionSnapshot) (ms : List SysctlModule)
      → Keeps (Backs s) (
          checkpoint (some s.backup_id) >>= λ _.
          apply_modules host s.backup_id ms >>= λ _. check_modules host ms)
  after_create s ms = Keeps-bind (Backs s) _ _ (Keeps-checkpoint (Backs s) (some s.backup_id)) (λ _.
      Keeps-bind (Backs s) _ _
        (apply_modules-Keeps (Backs s) host s.backup_id ms
          (Closed-everywhere (Backs s) (Backs-node s) (Backs-value s) ms))
        (λ _. check_modules-Keeps (Backs s) host ms))

  -- After the `try` block of `_apply`, whatever its outcome: nothing that is managed was touched,
  -- or the snapshot's backup is in the store and usable.
  pub body_cases :
      (s : TransactionSnapshot) (ms : List SysctlModule) (w : World)
      → Untouched w.disk (apply_body host s ms w).1.disk ⊎ Backs s (apply_body host s ms w).1.disk
  unfolding apply_body
  body_cases s ms w = go (create host s w) refl
    where
      go :
          (r : Outcome (Unit {0}) × World)
          → create host s w ≡ r
          → let d =
              (attempt r
                (λ _. checkpoint (some s.backup_id) >>= λ _.
                  apply_modules host s.backup_id ms >>= λ _. check_modules host ms)
                raise).1.disk in
            Untouched w.disk d ⊎ Backs s d
      go (ok tt, u) e = inr ((after_create s ms).at u (create_inv host s w u e))
      go (raised x, u) e = inl (
          subst (λ (r : Outcome (Unit {0}) × World). Untouched w.disk r.1.disk) e
            ((create-Keeps host (Untouched w.disk) s (λ b d h. h)).at w (refl, refl)))

  pub body_ok :
      (s : TransactionSnapshot) (ms : List SysctlModule) (w v : World)
      → apply_body host s ms w ≡ (ok tt, v)
      → Desired ms v.disk × Backs s v.disk
  unfolding apply_body
  body_ok s ms w v h =
      let (_, w₁, e₁, h₁) = >>=-eq-ok (create host s) _ w h in
      let (_, w₂, e₂, h₂) = >>=-eq-ok (checkpoint (some s.backup_id)) _ w₁ h₁ in
      let (_, w₃, e₃, h₃) = >>=-eq-ok (apply_modules host s.backup_id ms) _ w₂ h₂ in
      let (desired, still) = check_modules_inv ms w₃ v h₃ in
      (
        subst (Desired ms) (sym still) desired,
        subst (λ (r : Outcome (Unit {0}) × World). Backs s r.1.disk) h₁
            ((after_create s ms).at w₁ (create_inv host s w w₁ e₁)),
      )
