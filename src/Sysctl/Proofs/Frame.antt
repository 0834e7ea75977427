-- ===== src/Sysctl/Proofs/Frame.antt =====
-- What a run can change on disk: a property of the disk that survives a change of each path and
-- key that the run was given survives the run, on every outcome.
use lsmf.Base.{
  ℕ, String, sym, Bool, true, false, List, [], ◌∷◌, Option, some, All, subst, if◌then◌else◌,
}
use lsmf.Sysctl.Manifest.{SysctlSetting, SysctlModule, SysctlManifest}
use lsmf.Sysctl.World.{
  Node, ManagedFileSnapshot, TransactionSnapshot, Disk, Host, World, Exc, Outcome, ok, raised, M,
  pure, raise, gets, observe, change, changing, attempt, ◌>>=◌, check, checkpoint, next, disk-next,
  Fault, fine, before, midway, after,
}
use lsmf.Sysctl.Files
use lsmf.Sysctl.Files.{put_node, look}
use lsmf.Sysctl.Values
use lsmf.Sysctl.Values.{put_value, look_value, same_value, is_value}
use lsmf.Sysctl.Restore.{verify_files, verify_values, restore_files, restore_values, restore}
use lsmf.Sysctl.Capture.{take_files, take_settings, take_values, take}
use lsmf.Sysctl.Apply.{apply_settings, apply_modules, check_settings, check_modules}
use lsmf.Sysctl.Proofs.Reads.{disk-observe, disk-checkpoint}

-- `m` keeps `P`, whether it returns or raises.
pub record Keeps {ℓ} {A : Type ℓ} (P : Disk → Type 0) (m : M A) : Type ℓ where
  pub at : (w : World) → P w.disk → P (m w).1.disk

module _ (P : Disk → Type 0) where
  attempt_keeps {ℓ κ} :
      {A : Type ℓ} {B : Type κ} (r : Outcome A × World) (f : A → M B) (g : Exc → M B)
      → P r.1.disk
      → ((a : A) → Keeps P (f a))
      → ((e : Exc) → Keeps P (g e))
      → P (attempt r f g).1.disk
  attempt_keeps (ok a, w) f g h kf kg = (kf a).at w h
  attempt_keeps (raised e, w) f g h kf kg = (kg e).at w h

  pub Keeps-attempt {ℓ κ} :
      {A : Type ℓ} {B : Type κ} (m : M A) (f : A → M B) (g : Exc → M B)
      → Keeps P m
      → ((a : A) → Keeps P (f a))
      → ((e : Exc) → Keeps P (g e))
      → Keeps P (λ w. attempt (m w) f g)
  Keeps-attempt m f g km kf kg = record { at = λ w h. attempt_keeps (m w) f g (km.at w h) kf kg }

  pub Keeps-raise {ℓ} : {A : Type ℓ} (e : Exc) → Keeps P (raise {A = A} e)
  Keeps-raise e = record { at = λ w h. h }

  pub Keeps-pure {ℓ} : {A : Type ℓ} (a : A) → Keeps P (pure a)
  Keeps-pure a = record { at = λ w h. h }

  pub Keeps-bind {ℓ κ} :
      {A : Type ℓ} {B : Type κ} (m : M A) (f : A → M B)
      → Keeps P m
      → ((a : A) → Keeps P (f a))
      → Keeps P (m >>= f)
  Keeps-bind m f km kf = Keeps-attempt m f raise km kf Keeps-raise

  pub Keeps-if {ℓ} :
      {A : Type ℓ} (c : Bool) (m n : M A) → Keeps P m → Keeps P n → Keeps P (if c then m else n)
  Keeps-if true m n km kn = km
  Keeps-if false m n km kn = kn

  pub Keeps-check : (c : Bool) (e : String) → Keeps P (check c e)
  unfolding check
  Keeps-check true e = record { at = λ w h. h }
  Keeps-check false e = record { at = λ w h. h }

  pub Keeps-gets {ℓ} : {A : Type ℓ} (f : Disk → A) → Keeps P (gets f)
  unfolding gets
  Keeps-gets f = record { at = λ w h. h }

  pub Keeps-observe {ℓ} : {A : Type ℓ} (f : Disk → Outcome A) → Keeps P (observe f)
  Keeps-observe f = record { at = λ w h. subst P (sym (disk-observe f w)) h }

  pub Keeps-checkpoint : (b : Option String) → Keeps P (checkpoint b)
  Keeps-checkpoint b = record { at = λ w h. subst P (sym (disk-checkpoint b w)) h }

  changing_keeps :
      (f : Disk → Disk) (r : Fault × World)
      → ((d : Disk) → P d → P (f d))
      → P r.1.disk
      → P (changing f r).1.disk
  changing_keeps f (fine, w) k h = k w.disk h
  changing_keeps f (before, w) k h = h
  changing_keeps f (midway, w) k h = h
  changing_keeps f (after, w) k h = k w.disk h

  pub Keeps-change : (f : Disk → Disk) → ((d : Disk) → P d → P (f d)) → Keeps P (change f)
  unfolding change
  Keeps-change f k = record {
    at = λ w h. changing_keeps f (next w) k (subst P (sym (disk-next w)) h);
  }

  -- `P` survives any change of what a path, or the temporary file beside a path, holds, and of a
  -- key's value.
  abbrev pub NodeClosed : Host → String → Type 0
  NodeClosed host p =
      ((n : Node) (d : Disk) → P d → P (put_node p n d))
      × ((n : Node) (d : Disk) → P d → P (put_node (host.temporary p) n d))

  abbrev pub ValueClosed : String → Type 0
  ValueClosed k = (x : String) (d : Disk) → P d → P (put_value k x d)

  module _ (host : Host) where
    pub snapshot-Keeps : (p : String) → Keeps P (Files.snapshot host p)
    unfolding Files.snapshot
    snapshot-Keeps p = Keeps-observe (look host p)

    pub read-Keeps : (k : String) → Keeps P (Values.read k)
    unfolding Values.read
    read-Keeps k = Keeps-observe (look_value k)

    place-Keeps :
        (p : String) (c : List ℕ) (m : ℕ) → NodeClosed host p → Keeps P (Files.place host p c m)
    unfolding Files.place
    place-Keeps p c m closed = Keeps-bind _ _ (Keeps-gets _) (λ _.
        Keeps-bind _ _ (Keeps-check _ _) (λ _. Keeps-bind _ _ (Keeps-change _ (closed.1 _)) (λ _.
          Keeps-bind _ _ (Keeps-change _ (closed.1 _)) (λ _.
            Keeps-bind _ _ (Keeps-change _ (λ d h. closed.1 _ _ (closed.0 _ d h)))
              (λ _. Keeps-observe _)))))

    give_up-Keeps : (p : String) → NodeClosed host p → Keeps P (Files.give_up host p)
    unfolding Files.give_up
    give_up-Keeps p closed =
        Keeps-attempt _ _ _ (Keeps-change _ (closed.1 _)) (λ _. Keeps-raise _) (λ _. Keeps-raise _)

    replace-Keeps :
        (p : String) (c : List ℕ) (m : ℕ) → NodeClosed host p → Keeps P (Files.replace host p c m)
    unfolding Files.replace
    replace-Keeps p c m closed =
        Keeps-attempt _ _ _ (place-Keeps p c m closed) Keeps-pure (λ _. give_up-Keeps p closed)

    pub write-Keeps :
        (p : String) (c : List ℕ) (m : ℕ) → NodeClosed host p → Keeps P (Files.write host p c m)
    unfolding Files.write
    write-Keeps p c m closed = Keeps-bind _ _ (Keeps-check _ _) (λ _.
        Keeps-bind _ _ (Keeps-check _ _) (λ _.
          Keeps-bind _ _ (Keeps-gets _)
            (λ _. Keeps-bind _ _ (Keeps-check _ _) (λ _. replace-Keeps p c m closed))))

    pub write_value-Keeps : (k x : String) → ValueClosed k → Keeps P (Values.write host k x)
    unfolding Values.write
    write_value-Keeps k x closed = Keeps-bind _ _ (Keeps-check _ _) (λ _.
        Keeps-bind _ _ (Keeps-gets _)
          (λ _. Keeps-bind _ _ (Keeps-check _ _) (λ _. Keeps-change _ (closed _))))

    remove-Keeps : (p : String) → NodeClosed host p → Keeps P (Files.remove p)
    unfolding Files.remove Files.unlink
    remove-Keeps p closed = Keeps-bind _ _ (Keeps-gets _) (λ n.
        Keeps-if _ _ _ (Keeps-bind _ _ (Keeps-check _ _) (λ _. Keeps-change _ (closed.0 _)))
          (Keeps-pure tt))

    restore_file-Keeps :
        (s : ManagedFileSnapshot) → NodeClosed host s.relative_path → Keeps P (Files.restore host s)
    unfolding Files.restore Files.change_owner Files.change_mode
    restore_file-Keeps s closed = Keeps-bind _ _ (Keeps-check _ _) (λ _.
        Keeps-if _ _ _
          (Keeps-bind _ _ (write-Keeps s.relative_path s.content s.mode closed) (λ _.
            Keeps-bind _ _ (Keeps-change _ (λ d. closed.0 _ d))
              (λ _. Keeps-change _ (λ d. closed.0 _ d))))
          (remove-Keeps s.relative_path closed))

    verify_files-Keeps : (fs : List ManagedFileSnapshot) → Keeps P (verify_files host fs)
    unfolding verify_files
    verify_files-Keeps [] = Keeps-pure tt
    verify_files-Keeps (f ∷ fs) =
        Keeps-bind _ _ (snapshot-Keeps f.relative_path)
          (λ now. Keeps-bind _ _ (Keeps-check _ _) (λ _. verify_files-Keeps fs))

    verify_values-Keeps : (ps : List (String × String)) → Keeps P (verify_values host ps)
    unfolding verify_values
    verify_values-Keeps [] = Keeps-pure tt
    verify_values-Keeps (p ∷ ps) =
        Keeps-bind _ _ (read-Keeps p.0)
          (λ now. Keeps-bind _ _ (Keeps-check _ _) (λ _. verify_values-Keeps ps))

    restore_files-Keeps :
        (fs : List ManagedFileSnapshot)
        → All (λ f. NodeClosed host f.relative_path) fs
        → Keeps P (restore_files host fs)
    unfolding restore_files
    restore_files-Keeps [] c = Keeps-pure tt
    restore_files-Keeps (f ∷ fs) c =
        Keeps-bind _ _ (restore_file-Keeps f c.0) (λ _. restore_files-Keeps fs c.1)

    restore_values-Keeps :
        (ps : List (String × String))
        → All (λ p. ValueClosed p.0) ps
        → Keeps P (restore_values host ps)
    unfolding restore_values
    restore_values-Keeps [] c = Keeps-pure tt
    restore_values-Keeps ((k, x) ∷ ps) c = Keeps-bind _ _ (read-Keeps k) (λ now.
        Keeps-bind _ _ (Keeps-if (same_value now x) _ _ (Keeps-pure tt) (write_value-Keeps k x c.0))
          (λ _. restore_values-Keeps ps c.1))

    -- A restore changes at most the paths and keys of its snapshot.
    pub restore-Keeps :
        (s : TransactionSnapshot)
        → All (λ f. NodeClosed host f.relative_path) s.files
        → All (λ p. ValueClosed p.0) s.sysctls
        → Keeps P (restore host s)
    unfolding restore
    restore-Keeps s cf cv = Keeps-bind _ _ (restore_files-Keeps s.files cf) (λ _.
        Keeps-bind _ _ (restore_values-Keeps s.sysctls cv)
          (λ _. Keeps-bind _ _ (verify_files-Keeps s.files) (λ _. verify_values-Keeps s.sysctls)))

    -- The paths and keys of the modules.
    abbrev pub Closed : List SysctlModule → Type 0
    Closed ms =
        All (λ m. NodeClosed host m.relative_target × All (λ s. ValueClosed s.key) m.settings) ms

    apply_settings-Keeps :
        (i : String) (ss : List SysctlSetting)
        → All (λ s. ValueClosed s.key) ss
        → Keeps P (apply_settings host i ss)
    unfolding apply_settings
    apply_settings-Keeps i [] c = Keeps-pure tt
    apply_settings-Keeps i (s ∷ ss) c = Keeps-bind _ _ (read-Keeps s.key) (λ now.
        Keeps-bind _ _
          (Keeps-if (is_value now s.desired_value) _ _ (Keeps-pure tt)
            (write_value-Keeps s.key s.desired_value c.0))
          (λ _. Keeps-bind _ _ (Keeps-checkpoint (some i)) (λ _. apply_settings-Keeps i ss c.1)))

    pub apply_modules-Keeps :
        (i : String) (ms : List SysctlModule) → Closed ms → Keeps P (apply_modules host i ms)
    unfolding apply_modules
    apply_modules-Keeps i [] c = Keeps-pure tt
    apply_modules-Keeps i (m ∷ ms) c =
        Keeps-bind _ _ (write-Keeps m.relative_target _ 384 c.0.0) (λ _.
          Keeps-bind _ _ (apply_settings-Keeps i m.settings c.0.1)
            (λ _. apply_modules-Keeps i ms c.1))

    check_settings-Keeps : (ss : List SysctlSetting) → Keeps P (check_settings host ss)
    unfolding check_settings
    check_settings-Keeps [] = Keeps-pure tt
    check_settings-Keeps (s ∷ ss) =
        Keeps-bind _ _ (read-Keeps s.key)
          (λ now. Keeps-bind _ _ (Keeps-check _ _) (λ _. check_settings-Keeps ss))

    pub check_modules-Keeps : (ms : List SysctlModule) → Keeps P (check_modules host ms)
    unfolding check_modules
    check_modules-Keeps [] = Keeps-pure tt
    check_modules-Keeps (m ∷ ms) = Keeps-bind _ _ (snapshot-Keeps m.relative_target) (λ now.
        Keeps-bind _ _ (Keeps-check _ _)
          (λ _. Keeps-bind _ _ (check_settings-Keeps m.settings) (λ _. check_modules-Keeps ms)))

    take_files-Keeps : (ms : List SysctlModule) → Keeps P (take_files host ms)
    unfolding take_files
    take_files-Keeps [] = Keeps-pure []
    take_files-Keeps (m ∷ ms) =
        Keeps-bind _ _ (snapshot-Keeps m.relative_target)
          (λ f. Keeps-bind _ _ (take_files-Keeps ms) (λ fs. Keeps-pure _))

    take_settings-Keeps : (ss : List SysctlSetting) → Keeps P (take_settings host ss)
    unfolding take_settings
    take_settings-Keeps [] = Keeps-pure []
    take_settings-Keeps (s ∷ ss) =
        Keeps-bind _ _ (read-Keeps s.key)
          (λ v. Keeps-bind _ _ (take_settings-Keeps ss) (λ vs. Keeps-pure _))

    take_values-Keeps : (ms : List SysctlModule) → Keeps P (take_values host ms)
    unfolding take_values
    take_values-Keeps [] = Keeps-pure []
    take_values-Keeps (m ∷ ms) =
        Keeps-bind _ _ (take_settings-Keeps m.settings)
          (λ v. Keeps-bind _ _ (take_values-Keeps ms) (λ vs. Keeps-pure _))

    pub take-Keeps :
        (manifest : SysctlManifest) (i : String) (ms : List SysctlModule)
        → Keeps P (take host manifest i ms)
    unfolding take
    take-Keeps manifest i ms =
        Keeps-bind _ _ (take_files-Keeps ms)
          (λ fs. Keeps-bind _ _ (take_values-Keeps ms) (λ vs. Keeps-pure _))
