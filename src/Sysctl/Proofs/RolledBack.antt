-- ===== src/Sysctl/Proofs/RolledBack.antt =====
-- What a successful result of `_rollback` says of the machine.
use lsmf.Base.{
  String, ◌<>◌, ◌≡◌, ◌≢◌, refl, sym, ◌∙◌, ap, Bool, true, false, not, ◌&&◌, List, [], ◌∷◌, Option,
  none, some, arith, subst, is_some, str_eq, opt_eq, eq_iff, if◌then◌else◌, All, Bool-cases, inl,
  inr,
}
use lsmf.Base.Results
use lsmf.Protocol.Models.{ProductionStatus, ProductionRequest}
use lsmf.Sysctl.Manifest.{SysctlModule, SysctlManifest, selected}
use lsmf.Sysctl.World.{
  ManagedFileSnapshot, TransactionSnapshot, Disk, Host, World, Exc, failure, cancelled, Outcome, ok,
  raised, M, pure, raise, attempt, check, checkpoint,
}
use lsmf.Sysctl.Files.{look}
use lsmf.Sysctl.Values.{look_value}
use lsmf.Sysctl.Backups.{
  load, look_backup, create, recovery_backup_id, clear_recovery_required, eligible,
}
use lsmf.Sysctl.Outcomes.{TransactionResult, of_result, failed, success, stopped}
use lsmf.Sysctl.Restore.{restore, restore_or_mark}
use lsmf.Sysctl.Capture.{take}
use lsmf.Sysctl.Rollback.{
  rollback_body, rollback_handler, rollback_unbound, prepare_rollback, rollback_now, rollback_of,
  rollback,
}
use lsmf.Sysctl.Proofs.Reads.{>>=-eq-ok, check_inv, change_inv, disk-checkpoint}
use lsmf.Sysctl.Proofs.Exact.{FilesMatch, ValuesMatch, restore_exact, take_inv}
use lsmf.Sysctl.Proofs.Frame.{Keeps, restore-Keeps, NodeClosed, ValueClosed}
use lsmf.Sysctl.Proofs.Store.{load_inv, recovery_inv, create-Keeps, Requires}
use lsmf.Sysctl.Proofs.ApplyReport.{Matches, restore_or_mark_inv}

module _ (host : Host) where
  clear_inv :
      (i : String) (w v : World)
      → clear_recovery_required host i w ≡ (ok tt, v)
      → (v.disk.marker ≡ none) × (v.disk.nodes ≡ w.disk.nodes) × (v.disk.sysctls ≡ w.disk.sysctls)
  unfolding clear_recovery_required
  clear_inv i w v h =
      let (o, u, e, h₁) = >>=-eq-ok (recovery_backup_id host) _ w h in
      let (_, t, e₂, h₂) = >>=-eq-ok (check _ _) _ u h₁ in
      let (_, still) = recovery_inv host w o u e in
      let (_, same) = check_inv _ _ u e₂ in
      let last : v.disk ≡ record w.disk { marker = none } =
        change_inv (λ d. record d { marker = none }) t h₂
        ∙ ap (λ (d : Disk). let e : Disk = record d { marker = none } in e)
            (ap (λ (x : World). x.disk) same ∙ still) in
      (
        ap (λ (d : Disk). d.marker) last,
        ap (λ (d : Disk). d.nodes) last,
        ap (λ (d : Disk). d.sysctls) last,
      )

  Matches-of_same :
      (s : TransactionSnapshot) (d e : Disk)
      → e.nodes ≡ d.nodes
      → e.sysctls ≡ d.sysctls
      → Matches host s d
      → Matches host s e
  Matches-of_same s d e n v m = (files s.files m.0, values s.sysctls m.1)
    where
      look_same : (p : String) → look host p e ≡ look host p d
      look_same p = unfold look in ground (arith, n)

      value_same : (k : String) → look_value k e ≡ look_value k d
      value_same k = unfold look_value in ground (arith, v)

      files : (fs : List ManagedFileSnapshot) → FilesMatch host fs d → FilesMatch host fs e
      files [] h = tt
      files (f ∷ fs) h = (look_same f.relative_path ∙ h.0, files fs h.1)

      values : (ps : List (String × String)) → ValuesMatch host ps d → ValuesMatch host ps e
      values [] h = tt
      values (p ∷ ps) h = ((h.0.0, value_same p.0 ∙ h.0.1, h.0.2), values ps h.1)

  abbrev KeptMarker : Disk → Disk → Type 0
  KeptMarker d e = e.marker ≡ d.marker

  restore-Keeps_marker :
      (s : TransactionSnapshot) (d : Disk) → Keeps (KeptMarker d) (restore host s)
  restore-Keeps_marker s d = restore-Keeps (KeptMarker d) host s (files s.files) (values s.sysctls)
    where
      files :
          (fs : List ManagedFileSnapshot)
          → All (λ f. NodeClosed (KeptMarker d) host f.relative_path) fs
      files [] = tt
      files (f ∷ fs) = ((λ n e h. h, λ n e h. h), files fs)

      values : (ps : List (String × String)) → All (λ p. ValueClosed (KeptMarker d) p.0) ps
      values [] = tt
      values (p ∷ ps) = (λ x e h. h, values ps)

  ended :
      (required : Bool) (i : String) (w v : World)
      → (if required then clear_recovery_required host i else pure tt) w ≡ (ok tt, v)
      → (v.disk.nodes ≡ w.disk.nodes)
        × (v.disk.sysctls ≡ w.disk.sysctls)
        × (v.disk.marker ≡ (if required then none else w.disk.marker))
  ended true i w v h = let (marker, nodes, values) = clear_inv i w v h in (nodes, values, marker)
  ended false i w v h =
      let same : w ≡ v = ground arith in
      (
        ap (λ (x : World). x.disk.nodes) (sym same),
        ap (λ (x : World). x.disk.sysctls) (sym same),
        ap (λ (x : World). x.disk.marker) (sym same),
      )

  body_ok :
      (required : Bool) (i : String) (t s : TransactionSnapshot) (w v : World)
      → rollback_body host required i t s w ≡ (ok tt, v)
      → Matches host t v.disk × (v.disk.marker ≡ (if required then none else w.disk.marker))
  unfolding rollback_body
  body_ok required i t s w v h =
      let (_, w₁, e₁, h₁) = >>=-eq-ok (create host s) _ w h in
      let (_, w₂, e₂, h₂) = >>=-eq-ok (checkpoint (some i)) _ w₁ h₁ in
      let (_, w₃, e₃, h₃) = >>=-eq-ok (restore host t) _ w₂ h₂ in
      let (_, w₄, e₄, h₄) = >>=-eq-ok (checkpoint (some i)) _ w₃ h₃ in
      let (nodes, values, marker) = ended required i w₄ v h₄ in
      let d₁ : w₁.disk.marker ≡ w.disk.marker =
        subst (λ (r : Outcome (Unit {0}) × World). KeptMarker w.disk r.1.disk) e₁
          ((create-Keeps host (KeptMarker w.disk) s (λ b d k. k)).at w refl) in
      let d₂ : w₂.disk ≡ w₁.disk =
        ap (λ (r : Outcome (Unit {0}) × World). r.1.disk) (sym e₂) ∙ disk-checkpoint (some i) w₁ in
      let d₃ : w₃.disk.marker ≡ w₂.disk.marker =
        subst (λ (r : Outcome (Unit {0}) × World). KeptMarker w₂.disk r.1.disk) e₃
          ((restore-Keeps_marker t w₂.disk).at w₂ refl) in
      let d₄ : w₄.disk ≡ w₃.disk =
        ap (λ (r : Outcome (Unit {0}) × World). r.1.disk) (sym e₄) ∙ disk-checkpoint (some i) w₃ in
      let kept : w₄.disk.marker ≡ w.disk.marker =
        ap (λ (d : Disk). d.marker) d₄ ∙ d₃ ∙ ap (λ (d : Disk). d.marker) d₂ ∙ d₁ in
      (
        Matches-of_same t w₃.disk v.disk (nodes ∙ ap (λ (d : Disk). d.nodes) d₄)
            (values ∙ ap (λ (d : Disk). d.sysctls) d₄) (restore_exact host t w₂ w₃ e₃),
        marker ∙ ap (λ m. if required then none else m) kept,
      )

  -- What a rollback has done that reports success: the backup is restored exactly, and no recovery
  -- is required any more.
  abbrev pub WasRolledBack :
      SysctlManifest → ProductionRequest → TransactionResult → Disk → Disk → Type 0
  WasRolledBack manifest request r d d' =
      (i : String) × (t : TransactionSnapshot) × (request.backup_id ≡ some i)
      × (look_backup host i d ≡ ok t)
      × (t.manifest_digest ≡ manifest.digest)
      × (r.module_ids ≡ t.module_ids)
      × Matches host t d'
      × (d'.marker ≡ none)

  module _ (manifest : SysctlManifest) (request : ProductionRequest) (i : String) where
    marked_fails :
        (s : TransactionSnapshot) (b : String) (done marked r : TransactionResult) (w v : World)
        → restore_or_mark host s b done marked w ≡ (ok r, v)
        → done.status ≢ ProductionStatus.succeeded
        → marked.status ≢ ProductionStatus.succeeded
        → r.status ≢ ProductionStatus.succeeded
    marked_fails s b done marked r w v h nd nm e =
        elim (restore_or_mark_inv host s b done marked w v r h) [
          | inl (same, _) ↦ nd (ap (λ (x : TransactionResult). x.status) (sym same) ∙ e)
          | inr (same, _) ↦ nm (ap (λ (x : TransactionResult). x.status) (sym same) ∙ e)
        ]

    usable_fails :
        (u : Bool) (s : TransactionSnapshot) (r : TransactionResult) (w v : World)
        → (if u
              then restore_or_mark host s s.backup_id
                  (failed request "rollback_failed" "Rollback failed and current state was restored"
                    (some i))
                  (failed request "recovery_required" "Rollback recovery is required"
                    (some s.backup_id))
              else pure (
                  failed request "rollback_failed" "Rollback was rejected before mutation"
                    (some i)))
            w
          ≡ (ok r, v)
        → r.status ≢ ProductionStatus.succeeded
    usable_fails true s r w v h e =
        marked_fails s s.backup_id _ _ r w v h (λ e. ground arith) (λ e. ground arith) e
    usable_fails false s r w v h e = ground arith

    handler_fails :
        (x : Exc) (s : TransactionSnapshot) (r : TransactionResult) (w v : World)
        → rollback_handler host request i s x w ≡ (ok r, v)
        → r.status ≢ ProductionStatus.succeeded
    unfolding rollback_handler
    handler_fails (cancelled t o) s r w v h =
        marked_fails s s.backup_id _ _ r w v h (stopped_ne t) (λ e. ground arith)
      where
        stopped_ne : (t : Bool) → (stopped request t (some i)).status ≢ ProductionStatus.succeeded
        stopped_ne t e = ground arith
    handler_fails (failure x) s r w v h =
        let (u, w₁, e₁, h₁) = >>=-eq-ok (eligible host s.backup_id none) _ w h in
        usable_fails u s r w₁ v h₁

    unbound_fails :
        (x : Exc) (r : TransactionResult) (w v : World)
        → rollback_unbound host request i x w ≡ (ok r, v)
        → r.status ≢ ProductionStatus.succeeded
    unfolding rollback_unbound
    unbound_fails (failure x) r w v h e = ground arith
    unbound_fails (cancelled t o) r w v h e = cc

    prepared :
        (w v : World) (t s : TransactionSnapshot)
        → prepare_rollback host manifest request i w ≡ (ok (t, s), v)
        → (look_backup host i w.disk ≡ ok t)
          × (t.manifest_digest ≡ manifest.digest)
          × (v.disk ≡ w.disk)
    unfolding prepare_rollback
    prepared w v t s h =
        let (t', w₁, e₁, h₁) = >>=-eq-ok (load host i) _ w h in
        let (_, w₂, e₂, h₂) =
          >>=-eq-ok (check (str_eq t'.manifest_digest manifest.digest) _) _ w₁ h₁ in
        let (ms, w₃, e₃, h₃) = >>=-eq-ok (of_result (selected manifest t'.module_ids)) _ w₂ h₂ in
        let (s', w₄, e₄, h₄) =
          >>=-eq-ok (take host manifest ("recovery-" <> request.request_id) ms) _ w₃ h₃ in
        let (found, d₁) = load_inv host i w e₁ in
        let (bears, d₂) = check_inv _ _ w₁ e₂ in
        let d₃ : w₃ ≡ w₂ = chosen (selected manifest t'.module_ids) ms w₂ w₃ e₃ in
        let (d₄, _, _, _) =
          take_inv host manifest ("recovery-" <> request.request_id) ms w₃ w₄ s' e₄ in
        let same : t' ≡ t = ground arith in
        let last : w₄ ≡ v = ground arith in
        (
          found ∙ ap ok same,
          ap (λ (x : TransactionSnapshot). x.manifest_digest) (sym same)
              ∙ (eq_iff t'.manifest_digest manifest.digest).0 bears,
          ap (λ (x : World). x.disk) (sym last) ∙ d₄ ∙ ap (λ (x : World). x.disk) (d₃ ∙ d₂) ∙ d₁,
        )
      where
        chosen :
            (o : Results.Result (List SysctlModule)) (ms : List SysctlModule) (w v : World)
            → of_result o w ≡ (ok ms, v)
            → v ≡ w
        chosen (Results.ok a) ms w v h = ground arith
        chosen (Results.err x) ms w v h = cc

    now_success :
        (required : Bool) (w v : World) (r : TransactionResult)
        → rollback_now host manifest request i required w ≡ (ok r, v)
        → r.status ≡ ProductionStatus.succeeded
        → (t : TransactionSnapshot) × (look_backup host i w.disk ≡ ok t)
          × (t.manifest_digest ≡ manifest.digest)
          × (r.module_ids ≡ t.module_ids)
          × Matches host t v.disk
          × (v.disk.marker ≡ (if required then none else w.disk.marker))
    unfolding rollback_now
    now_success required w v r h status = go (prepare_rollback host manifest request i w) refl h
      where
        Result : Type 0
        Result =
            (t : TransactionSnapshot) × (look_backup host i w.disk ≡ ok t)
            × (t.manifest_digest ≡ manifest.digest)
            × (r.module_ids ≡ t.module_ids)
            × Matches host t v.disk
            × (v.disk.marker ≡ (if required then none else w.disk.marker))

        inner :
            (t s : TransactionSnapshot) (u : World)
            → prepare_rollback host manifest request i w ≡ (ok (t, s), u)
            → (o : Outcome (Unit {0}) × World) → rollback_body host required i t s u ≡ o
            → attempt o
                (λ _. pure (success "Exact rollback complete" t.module_ids (some i)))
                (rollback_handler host request i s)
              ≡ (ok r, v)
            → Result
        inner t s u e (ok tt, x) b h =
            let last : x ≡ v = ground arith in
            let result : r ≡ success "Exact rollback complete" t.module_ids (some i) =
              ground arith in
            let (found, bears, start) = prepared w u t s e in
            let (match, marker) = body_ok required i t s u x b in
            (
              t,
              found,
              bears,
              ap (λ (x : TransactionResult). x.module_ids) result,
              subst (λ (y : World). Matches host t y.disk) last match,
              ap (λ (y : World). y.disk.marker) (sym last)
                  ∙ marker
                  ∙ ap (λ (d : Disk). if required then none else d.marker) start,
            )
        inner t s u e (raised x, y) b h = absurd (handler_fails x s r y v h status)

        go :
            (o : Outcome (TransactionSnapshot × TransactionSnapshot) × World)
            → prepare_rollback host manifest request i w ≡ o
            → attempt o
                (λ p w.
                  attempt
                    (rollback_body host required i p.0 p.1 w)
                    (λ _. pure (success "Exact rollback complete" p.0.module_ids (some i)))
                    (rollback_handler host request i p.1))
                (rollback_unbound host request i)
              ≡ (ok r, v)
            → Result
        go (ok (t, s), u) e h = inner t s u e (rollback_body host required i t s u) refl h
        go (raised x, u) e h = absurd (unbound_fails x r u v h status)

    allowed_cases :
        (required : Option String) (w v : World) (r : TransactionResult)
        → Requires host required w.disk
        → (if is_some required && not (opt_eq required (some i))
              then pure (
                  failed request "recovery_required" "A different exact rollback is required"
                    required)
              else rollback_now host manifest request i (is_some required))
            w
          ≡ (ok r, v)
        → r.status ≡ ProductionStatus.succeeded
        → request.backup_id ≡ some i
        → WasRolledBack manifest request r w.disk v.disk
    allowed_cases none w v r q h status named =
        let (t, found, bears, ids, match, marker) = now_success false w v r h status in
        (i, t, named, found, bears, ids, match, marker ∙ q)
    allowed_cases (some j) w v r q h status named = elim (Bool-cases (opt_eq (some j) (some i))) [
      | inl same ↦
          let h' : rollback_now host manifest request i true w ≡ (ok r, v) = ground arith in
          let (t, found, bears, ids, match, marker) = now_success true w v r h' status in
          (i, t, named, found, bears, ids, match, marker)
      | inr other ↦ absurd (ground arith)
    ]

  of_success :
      (manifest : SysctlManifest) (request : ProductionRequest) (i : String) (w v : World)
      (r : TransactionResult)
      → rollback_of host manifest request i w ≡ (ok r, v)
      → r.status ≡ ProductionStatus.succeeded
      → request.backup_id ≡ some i
      → WasRolledBack manifest request r w.disk v.disk
  unfolding rollback_of
  of_success manifest request i w v r h status named =
      let (o, u, e, h₁) = >>=-eq-ok (recovery_backup_id host) _ w h in
      let (required, still) = recovery_inv host w o u e in
      subst (λ d. WasRolledBack manifest request r d v.disk) still
        (allowed_cases manifest request i o u v r (subst (Requires host o) (sym still) required) h₁
          status named)

  -- A rollback that reports success has found the backup that the request names in the store,
  -- usable and taken under this very manifest, has brought every file and every sysctl of it back
  -- exactly (the values up to white space), reports its modules, and leaves no marker, whichever
  -- system calls failed on the way.
  pub rollback_success :
      (manifest : SysctlManifest) (request : ProductionRequest) (w v : World)
      (r : TransactionResult)
      → rollback host manifest request w ≡ (ok r, v)
      → r.status ≡ ProductionStatus.succeeded
      → WasRolledBack manifest request r w.disk v.disk
  unfolding rollback
  rollback_success manifest request w v r h status = go request.backup_id refl h
    where
      chosen : Option String → M TransactionResult
      chosen o = elim o [
        | none ↦ raise (failure "AssertionError")
        | some backup_id ↦ rollback_of host manifest request backup_id
      ]

      go :
          (o : Option String)
          → request.backup_id ≡ o
          → chosen o w ≡ (ok r, v)
          → WasRolledBack manifest request r w.disk v.disk
      go none e h = cc
      go (some i) e h = of_success manifest request i w v r h status e
