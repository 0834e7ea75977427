-- ===== src/Sysctl/Proofs/Confined.antt =====
-- What a call of `_apply` can change on disk, on every outcome.
use lsmf.Base.{
  String, ◌<>◌, ◌≡◌, refl, false, List, [], ◌∷◌, ◌++◌, sym, none, some, arith, All, subst, is_some,
  str_eq,
}
use lsmf.Base.Results
use lsmf.Protocol.Models.{ProductionRequest}
use lsmf.Sysctl.Manifest.{SysctlSetting, SysctlModule, SysctlManifest, selected}
use lsmf.Sysctl.World.{
  TransactionSnapshot, ManagedFileSnapshot, Disk, Host, World, Exc, failure, cancelled, Outcome, ok,
  raised, M, pure, attempt, ◌>>=◌, checkpoint,
}
use lsmf.Sysctl.Files
use lsmf.Sysctl.Values
use lsmf.Sysctl.Outcomes.{TransactionResult, of_result, success}
use lsmf.Sysctl.Restore.{restore_or_mark}
use lsmf.Sysctl.Capture.{take_files, take_settings, take_values, take}
use lsmf.Sysctl.Apply.{apply_body, apply_handler, apply_unbound, apply_now, apply}
use lsmf.Sysctl.Proofs.Reads.{>>=-eq-ok, snapshot_inv, path-look}
use lsmf.Sysctl.Proofs.Frame.{
  Keeps, Keeps-bind, Keeps-attempt, Keeps-if, Keeps-pure, Keeps-raise, Keeps-checkpoint, NodeClosed,
  ValueClosed, Closed, restore-Keeps, apply_modules-Keeps, check_modules-Keeps, take-Keeps,
}
use lsmf.Sysctl.Proofs.Store.{
  eligible-Keeps, create-Keeps, mark-Keeps, recovery_backup_id-Keeps, BackupClosed, MarkerClosed,
}

module _ (P : Disk → Type 0) (host : Host) (backups : (i : String) → BackupClosed host P i)
    (marker : MarkerClosed host P) where
  body-Keeps :
      (s : TransactionSnapshot) (ms : List SysctlModule)
      → Closed P host ms
      → Keeps P (apply_body host s ms)
  unfolding apply_body
  body-Keeps s ms c = Keeps-bind P _ _ (create-Keeps host P s (backups s.backup_id)) (λ _.
      Keeps-bind P _ _ (Keeps-checkpoint P (some s.backup_id)) (λ _.
        Keeps-bind P _ _ (apply_modules-Keeps P host s.backup_id ms c)
          (λ _. check_modules-Keeps P host ms)))

  -- `P` survives a change of what the snapshot's paths and keys hold.
  abbrev pub ClosedAt : TransactionSnapshot → Type 0
  ClosedAt s =
      All (λ f. NodeClosed P host f.relative_path) s.files × All (λ p. ValueClosed P p.0) s.sysctls

  pub restore_or_mark-Keeps :
      (s : TransactionSnapshot) (i : String) (done marked : TransactionResult)
      → ClosedAt s
      → Keeps P (restore_or_mark host s i done marked)
  unfolding restore_or_mark
  restore_or_mark-Keeps s i done marked c =
      Keeps-attempt P _ _ _ (restore-Keeps P host s c.0 c.1) (λ _. Keeps-pure P done)
        (λ _. Keeps-bind P _ _ (mark-Keeps host P i marker) (λ _. Keeps-pure P marked))

  handler-Keeps :
      (request : ProductionRequest) (i : String) (s : TransactionSnapshot) (e : Exc)
      → ClosedAt s
      → Keeps P (apply_handler host request i s e)
  unfolding apply_handler
  handler-Keeps request i s (cancelled t none) c = Keeps-pure P _
  handler-Keeps request i s (cancelled t (some _)) c = restore_or_mark-Keeps s i _ _ c
  handler-Keeps request i s (failure _) c =
      Keeps-bind P _ _ (eligible-Keeps host P i none)
        (λ u. Keeps-if P u _ _ (restore_or_mark-Keeps s i _ _ c) (Keeps-pure P _))

  unbound-Keeps : (request : ProductionRequest) (e : Exc) → Keeps P (apply_unbound host request e)
  unfolding apply_unbound
  unbound-Keeps request (cancelled t i) = Keeps-pure P _
  unbound-Keeps request (failure x) = Keeps-pure P _

  take_files-Closed :
      (ms : List SysctlModule) (w v : World) (fs : List ManagedFileSnapshot)
      → Closed P host ms
      → take_files host ms w ≡ (ok fs, v)
      → All (λ f. NodeClosed P host f.relative_path) fs
  unfolding take_files
  take_files-Closed [] w v fs c h =
      subst (λ l. All (λ f. NodeClosed P host f.relative_path) l)
        (let e : [] ≡ fs = ground arith in e) tt
  take_files-Closed (m ∷ ms) w v fs c h =
      let (f, u, e₁, h₁) = >>=-eq-ok (Files.snapshot host m.relative_target) _ w h in
      let (rest, t, e₂, h₂) = >>=-eq-ok (take_files host ms) _ u h₁ in
      let path : f.relative_path ≡ m.relative_target =
        path-look host m.relative_target w.disk (snapshot_inv host m.relative_target w e₁).0 in
      let whole : f ∷ rest ≡ fs = ground arith in
      subst (λ l. All (λ f. NodeClosed P host f.relative_path) l) whole
        (subst (NodeClosed P host) (sym path) c.0.0, take_files-Closed ms u t rest c.1 e₂)

  take_settings_closed :
      (ss : List SysctlSetting) (w v : World) (ps : List (String × String))
      → All (λ s. ValueClosed P s.key) ss
      → take_settings host ss w ≡ (ok ps, v)
      → All (λ p. ValueClosed P p.0) ps
  unfolding take_settings
  take_settings_closed [] w v ps c h =
      subst (λ l. All (λ p. ValueClosed P p.0) l) (let e : [] ≡ ps = ground arith in e) tt
  take_settings_closed (s ∷ ss) w v ps c h =
      let (x, u, e₁, h₁) = >>=-eq-ok (Values.read s.key) _ w h in
      let (rest, t, e₂, h₂) = >>=-eq-ok (take_settings host ss) _ u h₁ in
      let whole : (s.key, x) ∷ rest ≡ ps = ground arith in
      subst (λ l. All (λ p. ValueClosed P p.0) l) whole
        (c.0, take_settings_closed ss u t rest c.1 e₂)

  All-append {κ} :
      {A : Type 0} (Q : A → Type κ) (xs ys : List A) → All Q xs → All Q ys → All Q (xs ++ ys)
  All-append Q [] ys a b = b
  All-append Q (x ∷ xs) ys a b = (a.0, All-append Q xs ys a.1 b)

  take_values-Closed :
      (ms : List SysctlModule) (w v : World) (ps : List (String × String))
      → Closed P host ms
      → take_values host ms w ≡ (ok ps, v)
      → All (λ p. ValueClosed P p.0) ps
  unfolding take_values
  take_values-Closed [] w v ps c h =
      subst (λ l. All (λ p. ValueClosed P p.0) l) (let e : [] ≡ ps = ground arith in e) tt
  take_values-Closed (m ∷ ms) w v ps c h =
      let (xs, u, e₁, h₁) = >>=-eq-ok (take_settings host m.settings) _ w h in
      let (rest, t, e₂, h₂) = >>=-eq-ok (take_values host ms) _ u h₁ in
      let whole : xs ++ rest ≡ ps = ground arith in
      subst (λ l. All (λ p. ValueClosed P p.0) l) whole
        (All-append (λ p. ValueClosed P p.0) xs rest
          (take_settings_closed m.settings w u xs c.0.1 e₁) (take_values-Closed ms u t rest c.1 e₂))

  -- A snapshot names the paths and keys of its modules, and no others.
  pub take-Closed :
      (manifest : SysctlManifest) (i : String) (ms : List SysctlModule) (w v : World)
      (s : TransactionSnapshot)
      → Closed P host ms
      → take host manifest i ms w ≡ (ok s, v)
      → ClosedAt s
  unfolding take
  take-Closed manifest i ms w v s c h =
      let (fs, u, e₁, h₁) = >>=-eq-ok (take_files host ms) _ w h in
      let (ps, t, e₂, h₂) = >>=-eq-ok (take_values host ms) _ u h₁ in
      let fs_eq : fs ≡ s.files = ground arith in
      let ps_eq : ps ≡ s.sysctls = ground arith in
      (
        subst (λ l. All (λ f. NodeClosed P host f.relative_path) l) fs_eq
            (take_files-Closed ms w u fs c e₁),
        subst (λ l. All (λ p. ValueClosed P p.0) l) ps_eq (take_values-Closed ms u t ps c e₂),
      )

  apply_now-Keeps :
      (manifest : SysctlManifest) (request : ProductionRequest) (ms : List SysctlModule)
      → Closed P host ms
      → Keeps P (apply_now host manifest request ms)
  unfolding apply_now
  apply_now-Keeps manifest request ms c = record {
    at = λ w h. go w (prepare w) refl (prepared w h);
  }
    where
      prepare : M TransactionSnapshot
      prepare = checkpoint none >>= λ _. take host manifest ("backup-" <> request.request_id) ms

      prepared : (w : World) → P w.disk → P (prepare w).1.disk
      prepared w h =
          (Keeps-bind P (checkpoint none) _ (Keeps-checkpoint P none)
              (λ _. take-Keeps P host manifest ("backup-" <> request.request_id) ms)).at
            w h

      go :
          (w : World) (o : Outcome TransactionSnapshot × World)
          → prepare w ≡ o
          → P (prepare w).1.disk
          → P
              (attempt o
                (λ s w.
                  attempt
                    (apply_body host s ms w)
                    (λ _. pure (
                      success "Sysctl apply complete" request.module_ids
                        (some ("backup-" <> request.request_id))))
                    (apply_handler host request ("backup-" <> request.request_id) s))
                (apply_unbound host request)).1.disk
      go w (ok s, u) e h =
          let (_, w₁, e₁, h₁) = >>=-eq-ok (checkpoint none) _ w e in
          let closed = take-Closed manifest ("backup-" <> request.request_id) ms w₁ u s c h₁ in
          (Keeps-attempt P (apply_body host s ms) _ _ (body-Keeps s ms c) (λ _. Keeps-pure P _)
              (λ x. handler-Keeps request ("backup-" <> request.request_id) s x closed)).at
            u (subst (λ (o : Outcome TransactionSnapshot × World). P o.1.disk) e h)
      go w (raised x, u) e h =
          (unbound-Keeps request x).at u
            (subst (λ (o : Outcome TransactionSnapshot × World). P o.1.disk) e h)

  of_result-Keeps {ℓ} : {A : Type ℓ} (r : Results.Result A) → Keeps P (of_result r)
  of_result-Keeps (Results.ok a) = Keeps-pure P a
  of_result-Keeps (Results.err e) = Keeps-raise P _

  -- What survives the changes of the selected modules' paths and keys survives the call.
  pub apply-Keeps :
      (manifest : SysctlManifest) (request : ProductionRequest)
      → ((ms : List SysctlModule)
          → selected manifest request.module_ids ≡ Results.ok ms
          → Closed P host ms)
      → Keeps P (apply host manifest request)
  unfolding apply
  apply-Keeps manifest request c = Keeps-bind P _ _ (recovery_backup_id-Keeps host P) (λ o.
      Keeps-if P (is_some o) _ _ (Keeps-pure P _) (chosen (selected manifest request.module_ids) c))
    where
      chosen :
          (r : Results.Result (List SysctlModule))
          → ((ms : List SysctlModule) → r ≡ Results.ok ms → Closed P host ms)
          → Keeps P (of_result r >>= λ modules. apply_now host manifest request modules)
      chosen (Results.ok ms) c = record {
        at = (apply_now-Keeps manifest request ms (c ms refl)).at;
      }
      chosen (Results.err e) c = record { at = λ w h. h }

-- A path that is no module's target, and not the temporary file beside one.
abbrev pub IsForeign : Host → String → List SysctlModule → Type 0
IsForeign host p ms =
    All
      (λ m.
        (str_eq p m.relative_target ≡ false)
        × (str_eq p (host.temporary m.relative_target) ≡ false))
      ms

abbrev pub IsForeignKey : String → List SysctlModule → Type 0
IsForeignKey k ms = All (λ m. All (λ (s : SysctlSetting). str_eq k s.key ≡ false) m.settings) ms

-- On every outcome, raised exceptions included and whichever system calls failed, an apply leaves
-- every path as it was that is no selected module's target, and not the temporary file beside one,
-- which a failure may leave behind, or take away where it was there before.
pub apply_confined :
    (host : Host) (manifest : SysctlManifest) (request : ProductionRequest) (w : World) (p : String)
    (ms : List SysctlModule)
    → selected manifest request.module_ids ≡ Results.ok ms
    → IsForeign host p ms
    → (apply host manifest request w).1.disk.nodes p ≡ w.disk.nodes p
apply_confined host manifest request w p ms e foreign =
    (apply-Keeps P host (λ i b d h. h) (λ m d h. h) manifest request
        (λ ns e'. closed ns (subst (IsForeign host p) (same ns e') foreign))).at
      w refl
  where
    P : Disk → Type 0
    P d = d.nodes p ≡ w.disk.nodes p

    same : (ns : List SysctlModule) → selected manifest request.module_ids ≡ Results.ok ns → ms ≡ ns
    same ns e' = ground (arith, e, e')

    settings : (ss : List SysctlSetting) → All (λ s. ValueClosed P s.key) ss
    settings [] = tt
    settings (s ∷ ss) = (λ x d h. h, settings ss)

    closed : (ns : List SysctlModule) → IsForeign host p ns → Closed P host ns
    closed [] f = tt
    closed (m ∷ ns) f = (
      ((λ n d h. ground (arith, f.0.0), λ n d h. ground (arith, f.0.1)), settings m.settings),
      closed ns f.1,
    )
