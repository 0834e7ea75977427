-- ===== src/Sysctl/Proofs/Exact.antt =====
-- `_restore` verifies what it did, and `_snapshot` records what stands there: together, a restore
-- that returns has brought back the state in which the snapshot was taken.
use lsmf.Base.{String, ◌≡◌, sym, ◌∙◌, true, List, [], ◌∷◌, ◌++◌, arith, All, subst}
use lsmf.Sysctl.Manifest.{SysctlSetting, SysctlModule, SysctlManifest}
use lsmf.Sysctl.World.{ManagedFileSnapshot, TransactionSnapshot, Disk, Host, World, ok}
use lsmf.Sysctl.Files
use lsmf.Sysctl.Files.{look, file_eq, file_eq_iff}
use lsmf.Sysctl.Values
use lsmf.Sysctl.Values.{look_value, same_value, is_value}
use lsmf.Sysctl.Restore.{verify_files, verify_values, restore_files, restore_values, restore}
use lsmf.Sysctl.Capture.{take_files, take_settings, take_values, take}
use lsmf.Sysctl.Proofs.Reads.{>>=-eq-ok, check-eq-ok, snapshot_inv, read_inv, path-look}

module _ (host : Host) where
  -- The files of a snapshot are those on disk.
  abbrev pub FilesMatch : List ManagedFileSnapshot → Disk → Type 0
  FilesMatch fs d = All (λ f. look host f.relative_path d ≡ ok f) fs

  -- The sysctls of a snapshot are those on disk, up to white space.
  abbrev pub ValuesMatch : List (String × String) → Disk → Type 0
  ValuesMatch ps d =
      All (λ p. (x : String) × (look_value p.0 d ≡ ok x) × (same_value x p.1 ≡ true)) ps

  pub verify_files_inv :
      (fs : List ManagedFileSnapshot) (w v : World)
      → verify_files host fs w ≡ (ok tt, v)
      → FilesMatch fs w.disk × (v.disk ≡ w.disk)
  unfolding verify_files
  verify_files_inv [] w v h = (tt, ground arith)
  verify_files_inv (f ∷ fs) w v h =
      let (now, u, e₁, h₁) = >>=-eq-ok (Files.snapshot host f.relative_path) _ w h in
      let (same, h₂) = check-eq-ok (file_eq now f) _ _ u h₁ in
      let (seen, unmoved) = snapshot_inv host f.relative_path w e₁ in
      let (rest, still) = verify_files_inv fs u v h₂ in
      ((ground (arith, file_eq_iff now f), subst (FilesMatch fs) unmoved rest), still ∙ unmoved)

  pub verify_values_inv :
      (ps : List (String × String)) (w v : World)
      → verify_values host ps w ≡ (ok tt, v)
      → ValuesMatch ps w.disk × (v.disk ≡ w.disk)
  unfolding verify_values
  verify_values_inv [] w v h = (tt, ground arith)
  verify_values_inv ((k, x) ∷ ps) w v h =
      let (now, u, e₁, h₁) = >>=-eq-ok (Values.read k) _ w h in
      let (same, h₂) = check-eq-ok (same_value now x) _ _ u h₁ in
      let (seen, unmoved) = read_inv k w e₁ in
      let (rest, still) = verify_values_inv ps u v h₂ in
      (((now, seen, same), subst (ValuesMatch ps) unmoved rest), still ∙ unmoved)

  -- A restore that returns has left every file exactly as the snapshot has it, its existence,
  -- mode, owner, group and content, and every sysctl at its value up to white space, whichever
  -- system calls failed or were cut short on the way and whatever a write made of its value.
  pub restore_exact :
      (s : TransactionSnapshot) (w v : World)
      → restore host s w ≡ (ok tt, v)
      → FilesMatch s.files v.disk × ValuesMatch s.sysctls v.disk
  unfolding restore
  restore_exact s w v h =
      let (_, w₁, e₁, h₁) = >>=-eq-ok (restore_files host s.files) _ w h in
      let (_, w₂, e₂, h₂) = >>=-eq-ok (restore_values host s.sysctls) _ w₁ h₁ in
      let (_, w₃, e₃, h₃) = >>=-eq-ok (verify_files host s.files) _ w₂ h₂ in
      let (files, kept) = verify_files_inv s.files w₂ w₃ e₃ in
      let (values, still) = verify_values_inv s.sysctls w₃ v h₃ in
      (
        subst (FilesMatch s.files) (sym (still ∙ kept)) files,
        subst (ValuesMatch s.sysctls) (sym still) values,
      )

  -- A path holds the same file on both disks, as `snapshot` sees it.
  abbrev pub SameFile : Disk → Disk → String → Type 0
  SameFile d d' p = (f : ManagedFileSnapshot) × (look host p d ≡ ok f) × (look host p d' ≡ ok f)

  -- A key has the same value on both disks, up to white space.
  abbrev pub SameValue : Disk → Disk → String → Type 0
  SameValue d d' k =
      (x : String) × (y : String) × (look_value k d ≡ ok x)
      × (look_value k d' ≡ ok y)
      × (same_value y x ≡ true)

  abbrev pub SameSettings : Disk → Disk → List SysctlSetting → Type 0
  SameSettings d d' ss = All (λ s. SameValue d d' s.key) ss

  -- All that the modules manage is the same on both disks.
  abbrev pub SameState : List SysctlModule → Disk → Disk → Type 0
  SameState ms d d' = All (λ m. SameFile d d' m.relative_target × SameSettings d d' m.settings) ms

  take_files_inv :
      (ms : List SysctlModule) (w v : World) (fs : List ManagedFileSnapshot)
      → take_files host ms w ≡ (ok fs, v)
      → (v.disk ≡ w.disk)
        × ((d' : Disk) → FilesMatch fs d' → All (λ m. SameFile w.disk d' m.relative_target) ms)
  unfolding take_files
  take_files_inv [] w v fs h = (ground arith, λ d' m. tt)
  take_files_inv (m ∷ ms) w v fs h =
      let (f, u, e₁, h₁) = >>=-eq-ok (Files.snapshot host m.relative_target) _ w h in
      let (rest, t, e₂, h₂) = >>=-eq-ok (take_files host ms) _ u h₁ in
      let (seen, unmoved) = snapshot_inv host m.relative_target w e₁ in
      let (still, back) = take_files_inv ms u t rest e₂ in
      let path : f.relative_path ≡ m.relative_target =
        path-look host m.relative_target w.disk seen in
      let whole : f ∷ rest ≡ fs = ground arith in
      let last : v.disk ≡ t.disk = ground arith in
      (
        last ∙ still ∙ unmoved,
        λ d' match.
            let (now, others) = subst (λ l. FilesMatch l d') (sym whole) match in
            (
              (f, seen, subst (λ p. look host p d' ≡ ok f) path now),
              subst (λ d. All (λ m. SameFile d d' m.relative_target) ms) unmoved (back d' others),
            ),
      )

  take_settings_inv :
      (ss : List SysctlSetting) (w v : World) (ps : List (String × String))
      → take_settings host ss w ≡ (ok ps, v)
      → (v.disk ≡ w.disk) × ((d' : Disk) → ValuesMatch ps d' → SameSettings w.disk d' ss)
  unfolding take_settings
  take_settings_inv [] w v ps h = (ground arith, λ d' m. tt)
  take_settings_inv (s ∷ ss) w v ps h =
      let (x, u, e₁, h₁) = >>=-eq-ok (Values.read s.key) _ w h in
      let (rest, t, e₂, h₂) = >>=-eq-ok (take_settings host ss) _ u h₁ in
      let (seen, unmoved) = read_inv s.key w e₁ in
      let (still, back) = take_settings_inv ss u t rest e₂ in
      let whole : (s.key, x) ∷ rest ≡ ps = ground arith in
      let last : v.disk ≡ t.disk = ground arith in
      (
        last ∙ still ∙ unmoved,
        λ d' match.
            let ((y, now, same), others) = subst (λ l. ValuesMatch l d') (sym whole) match in
            ((x, y, seen, now, same), subst (λ d. SameSettings d d' ss) unmoved (back d' others)),
      )

  All-append {κ} :
      {A : Type 0} (P : A → Type κ) (xs ys : List A) → All P (xs ++ ys) → All P xs × All P ys
  All-append P [] ys h = (tt, h)
  All-append P (x ∷ xs) ys h = let (a, b) = All-append P xs ys h.1 in ((h.0, a), b)

  take_values_inv :
      (ms : List SysctlModule) (w v : World) (ps : List (String × String))
      → take_values host ms w ≡ (ok ps, v)
      → (v.disk ≡ w.disk)
        × ((d' : Disk) → ValuesMatch ps d' → All (λ m. SameSettings w.disk d' m.settings) ms)
  unfolding take_values
  take_values_inv [] w v ps h = (ground arith, λ d' m. tt)
  take_values_inv (m ∷ ms) w v ps h =
      let (xs, u, e₁, h₁) = >>=-eq-ok (take_settings host m.settings) _ w h in
      let (rest, t, e₂, h₂) = >>=-eq-ok (take_values host ms) _ u h₁ in
      let (unmoved, first) = take_settings_inv m.settings w u xs e₁ in
      let (still, back) = take_values_inv ms u t rest e₂ in
      let whole : xs ++ rest ≡ ps = ground arith in
      let last : v.disk ≡ t.disk = ground arith in
      (
        last ∙ still ∙ unmoved,
        λ d' match.
            let (here, there) =
              All-append _ xs rest (subst (λ l. ValuesMatch l d') (sym whole) match) in
            (
              first d' here,
              subst (λ d. All (λ m. SameSettings d d' m.settings) ms) unmoved (back d' there),
            ),
      )

  zip_All {κ} :
      {A : Type 0} (P Q : A → Type κ) (xs : List A) → All P xs → All Q xs → All (λ x. P x × Q x) xs
  zip_All P Q [] p q = tt
  zip_All P Q (x ∷ xs) p q = ((p.0, q.0), zip_All P Q xs p.1 q.1)

  -- A snapshot that was taken changed nothing, bears the ID and the manifest's digest that it was
  -- asked for, and any disk that matches it agrees, for every module, with the disk that it was
  -- taken of.
  pub take_inv :
      (manifest : SysctlManifest) (i : String) (ms : List SysctlModule) (w v : World)
      (s : TransactionSnapshot)
      → take host manifest i ms w ≡ (ok s, v)
      → (v.disk ≡ w.disk)
        × (s.backup_id ≡ i)
        × (s.manifest_digest ≡ manifest.digest)
        × ((d' : Disk) → FilesMatch s.files d' → ValuesMatch s.sysctls d' → SameState ms w.disk d')
  unfolding take
  take_inv manifest i ms w v s h =
      let (fs, u, e₁, h₁) = >>=-eq-ok (take_files host ms) _ w h in
      let (ps, t, e₂, h₂) = >>=-eq-ok (take_values host ms) _ u h₁ in
      let (unmoved, files) = take_files_inv ms w u fs e₁ in
      let (still, values) = take_values_inv ms u t ps e₂ in
      let last : v.disk ≡ t.disk = ground arith in
      let fs_eq : s.files ≡ fs = ground arith in
      let ps_eq : s.sysctls ≡ ps = ground arith in
      (
        last ∙ still ∙ unmoved,
        ground arith,
        ground arith,
        λ d' mf mv. zip_All _ _ ms (files d' (subst (λ l. FilesMatch l d') fs_eq mf)) (
            subst (λ d. All (λ m. SameSettings d d' m.settings) ms) unmoved
              (values d' (subst (λ l. ValuesMatch l d') ps_eq mv))),
      )
