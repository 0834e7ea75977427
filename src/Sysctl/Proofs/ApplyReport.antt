-- ===== src/Sysctl/Proofs/ApplyReport.antt =====
-- What a returned result of `_apply` says of the machine.
use lsmf.Base.{
  String, ◌<>◌, ◌≡◌, ◌≢◌, refl, sym, ◌∙◌, ap, Bool, true, false, List, Option, none, some, arith,
  ◌⊎◌, inl, inr, subst, is_some, if◌then◌else◌,
}
use lsmf.Base.Results
use lsmf.Protocol.Models.{ProductionStatus, ProductionRequest}
use lsmf.Sysctl.Manifest.{SysctlModule, SysctlManifest, selected}
use lsmf.Sysctl.World.{
  names, TransactionSnapshot, Disk, Host, World, Exc, failure, cancelled, Outcome, ok, raised, M,
  pure, attempt, ◌>>=◌, checkpoint,
}
use lsmf.Sysctl.Backups.{eligible, look_backup, mark_recovery_required, recovery_backup_id}
use lsmf.Sysctl.Outcomes.{TransactionResult, success, failed, stopped, of_result}
use lsmf.Sysctl.Restore.{restore, restore_or_mark}
use lsmf.Sysctl.Capture.{take}
use lsmf.Sysctl.Apply.{apply_body, apply_handler, apply_unbound, apply_now, apply}
use lsmf.Sysctl.Proofs.Reads.{>>=-eq-ok, disk-checkpoint}
use lsmf.Sysctl.Proofs.Exact.{FilesMatch, ValuesMatch, SameState, restore_exact, take_inv}
use lsmf.Sysctl.Proofs.Frame.{Keeps, Keeps-bind, Keeps-checkpoint, take-Keeps}
use lsmf.Sysctl.Proofs.Store.{HasBackup, eligible_inv, mark_inv, recovery_inv, Requires}
use lsmf.Sysctl.Proofs.Throws.{OfOutcome, IsTagged, Throws-apply_body}
use lsmf.Sysctl.Proofs.Applied.{Untouched, Desired, Backs, body_cases, body_ok}

module _ (host : Host) where
  -- The snapshot matches the disk: a restore to it was verified.
  abbrev pub Matches : TransactionSnapshot → Disk → Type 0
  Matches s d = FilesMatch host s.files d × ValuesMatch host s.sysctls d

  -- A restore that fails leaves the marker, or the whole call raises.
  pub restore_or_mark_inv :
      (s : TransactionSnapshot) (i : String) (done marked : TransactionResult) (w v : World)
      (r : TransactionResult)
      → restore_or_mark host s i done marked w ≡ (ok r, v)
      → (r ≡ done) × Matches s v.disk ⊎ (r ≡ marked) × (v.disk.marker ≡ some (names i))
  unfolding restore_or_mark
  restore_or_mark_inv s i done marked w v r h = go (restore host s w) refl h
    where
      go :
          (o : Outcome (Unit {0}) × World)
          → restore host s w ≡ o
          → attempt o (λ _. pure done) (λ _. mark_recovery_required host i >>= λ _. pure marked)
            ≡ (ok r, v)
          → (r ≡ done) × Matches s v.disk ⊎ (r ≡ marked) × (v.disk.marker ≡ some (names i))
      go (ok tt, u) e h =
          let same : u ≡ v = ground arith in
          let result : r ≡ done = ground arith in
          inl (result, subst (λ (x : World). Matches s x.disk) same (restore_exact host s w u e))
      go (raised x, u) e h =
          let (_, t, e₁, h₁) = >>=-eq-ok (mark_recovery_required host i) _ u h in
          let same : t ≡ v = ground arith in
          let result : r ≡ marked = ground arith in
          inr (
            result,
            subst (λ (x : World). x.disk.marker ≡ some (names i)) same (mark_inv host i u t e₁),
          )

  -- The four ways in which a call of `_apply` that did not succeed can leave the machine.
  abbrev pub FailedSafely :
      ProductionRequest → List SysctlModule → TransactionResult → Disk → Disk → Type 0
  FailedSafely request ms r d d' =
      (r.status ≢ ProductionStatus.succeeded)
      × (Untouched d d'
          ⊎ SameState host ms d d'
          ⊎ (r.error_code ≡ some "recovery_required")
            × (d'.marker ≡ some (names ("backup-" <> request.request_id)))
          ⊎ (r.error_code ≡ some "backup_failed")
            × HasBackup host ("backup-" <> request.request_id) d')

  -- A success: the desired state, with a usable backup of the state before.
  abbrev pub Succeeded :
      ProductionRequest → List SysctlModule → TransactionResult → Disk → Disk → Type 0
  Succeeded request ms r d d' =
      (r
        ≡ success "Sysctl apply complete" request.module_ids
            (some ("backup-" <> request.request_id)))
      × Desired host ms d'
      × (s : TransactionSnapshot) × (look_backup host ("backup-" <> request.request_id) d' ≡ ok s)
      × ((e : Disk) → Matches s e → SameState host ms d e)

  module _ (request : ProductionRequest) (ms : List SysctlModule) (s : TransactionSnapshot)
      (d : Disk) (bears : s.backup_id ≡ "backup-" <> request.request_id)
      (back : (e : Disk) → Matches s e → SameState host ms d e) where
    restored_or_marked :
        (done marked r : TransactionResult) (w v : World)
        → restore_or_mark host s ("backup-" <> request.request_id) done marked w ≡ (ok r, v)
        → done.status ≢ ProductionStatus.succeeded
        → marked.status ≢ ProductionStatus.succeeded
        → marked.error_code ≡ some "recovery_required"
        → FailedSafely request ms r d v.disk
    restored_or_marked done marked r w v h nd nm code =
        elim (restore_or_mark_inv s ("backup-" <> request.request_id) done marked w v r h) [
          | inl (same, match) ↦ (
            λ e. nd (ap (λ (x : TransactionResult). x.status) (sym same) ∙ e),
            inr (inl (back v.disk match)),
          )
          | inr (same, marker) ↦ (
            λ e. nm (ap (λ (x : TransactionResult). x.status) (sym same) ∙ e),
            inr (inr (inl (ap (λ (x : TransactionResult). x.error_code) same ∙ code, marker))),
          )
        ]

    usable_cases :
        (u : Bool) (r : TransactionResult) (w v : World)
        → (Untouched d w.disk ⊎ Backs host s w.disk)
        → (if u
              then restore_or_mark host s
                  ("backup-" <> request.request_id)
                  (failed request "apply_failed" "Apply failed and exact state was restored"
                    (some ("backup-" <> request.request_id)))
                  (failed request "recovery_required" "Apply recovery is required"
                    (some ("backup-" <> request.request_id)))
              else pure
                  (failed request "backup_failed" "Durable backup failed before mutation" none))
            w
          ≡ (ok r, v)
        → FailedSafely request ms r d v.disk
    usable_cases true r w v c h =
        restored_or_marked _ _ r w v h (λ e. ground arith) (λ e. ground arith) refl
    usable_cases false r w v c h =
        let same : w ≡ v = ground arith in
        let code : r.error_code ≡ some "backup_failed" = ground arith in
        (
          λ e. ground arith,
          elim c [
            | inl kept ↦ inl (subst (λ (x : World). Untouched d x.disk) same kept)
            | inr b ↦ inr (
                inr (
                  inr (
                    code,
                    (
                      s,
                      subst (λ i. look_backup host i v.disk ≡ ok s) bears
                          (subst (λ (x : World). Backs host s x.disk) same b),
                    ),
                  )))
          ],
        )

    handler_cases :
        (e : Exc) (r : TransactionResult) (w v : World)
        → IsTagged e
        → (Untouched d w.disk ⊎ Backs host s w.disk)
        → apply_handler host request ("backup-" <> request.request_id) s e w ≡ (ok r, v)
        → FailedSafely request ms r d v.disk
    unfolding apply_handler
    handler_cases (cancelled t none) r w v tag c h = elim tag [ ]
    handler_cases (cancelled t (some i)) r w v tag c h =
        restored_or_marked _ _ r w v h (λ e. stopped_ne t e) (λ e. ground arith) refl
      where
        stopped_ne :
            (t : Bool)
            → (stopped request t (some ("backup-" <> request.request_id))).status
              ≢ ProductionStatus.succeeded
        stopped_ne t e = ground arith
    handler_cases (failure x) r w v tag c h =
        let (u, w₁, e₁, h₁) =
          >>=-eq-ok (eligible host ("backup-" <> request.request_id) none) _ w h in
        let (still, _) = eligible_inv host ("backup-" <> request.request_id) none w e₁ in
        usable_cases u r w₁ v (subst (λ x. Untouched d x ⊎ Backs host s x) (sym still) c) h₁

    body_report :
        (o : Outcome (Unit {0}) × World) (w v : World) (r : TransactionResult)
        → apply_body host s ms w ≡ o
        → w.disk ≡ d
        → attempt o
            (λ _. pure (
              success "Sysctl apply complete" request.module_ids
                (some ("backup-" <> request.request_id))))
            (apply_handler host request ("backup-" <> request.request_id) s)
          ≡ (ok r, v)
        → Succeeded request ms r d v.disk ⊎ FailedSafely request ms r d v.disk
    body_report (ok tt, u) w v r e start h =
        let same : u ≡ v = ground arith in
        let result : r
            ≡ success "Sysctl apply complete" request.module_ids
                (some ("backup-" <> request.request_id)) =
          ground arith in
        let (desired, backs) = body_ok host s ms w u e in
        inl (
          result,
          subst (λ (x : World). Desired host ms x.disk) same desired,
          s,
          subst (λ i. look_backup host i v.disk ≡ ok s) bears
              (subst (λ (x : World). Backs host s x.disk) same backs),
          back,
        )
    body_report (raised x, u) w v r e start h = inr (
        handler_cases x r u v
          (subst (λ (o : Outcome (Unit {0}) × World). OfOutcome IsTagged o.0) e
            ((Throws-apply_body host s ms).at w))
          (subst (λ (o : Outcome (Unit {0}) × World). Untouched d o.1.disk ⊎ Backs host s o.1.disk)
            e
            (subst
              (λ x.
                Untouched x (apply_body host s ms w).1.disk
                ⊎ Backs host s (apply_body host s ms w).1.disk)
              start (body_cases host s ms w)))
          h)

  unbound_report :
      (request : ProductionRequest) (ms : List SysctlModule) (x : Exc) (d : Disk) (u v : World)
      (r : TransactionResult)
      → Untouched d u.disk
      → apply_unbound host request x u ≡ (ok r, v)
      → FailedSafely request ms r d v.disk
  unfolding apply_unbound
  unbound_report request ms (failure x) d u v r kept h =
      let same : u ≡ v = ground arith in
      (λ e. ground arith, inl (subst (λ (x : World). Untouched d x.disk) same kept))
  unbound_report request ms (cancelled t i) d u v r kept h =
      let same : u ≡ v = ground arith in
      (λ e. ground arith, inl (subst (λ (x : World). Untouched d x.disk) same kept))

  prepare-Keeps :
      (P : Disk → Type 0) (manifest : SysctlManifest) (i : String) (ms : List SysctlModule)
      → Keeps P (checkpoint none >>= λ _. take host manifest i ms)
  prepare-Keeps P manifest i ms =
      Keeps-bind P _ _ (Keeps-checkpoint P none) (λ _. take-Keeps P host manifest i ms)

  apply_now_report :
      (manifest : SysctlManifest) (request : ProductionRequest) (ms : List SysctlModule)
      (w v : World) (r : TransactionResult)
      → apply_now host manifest request ms w ≡ (ok r, v)
      → Succeeded request ms r w.disk v.disk ⊎ FailedSafely request ms r w.disk v.disk
  unfolding apply_now
  apply_now_report manifest request ms w v r h = go (prepare w) refl h
    where
      prepare : M TransactionSnapshot
      prepare = checkpoint none >>= λ _. take host manifest ("backup-" <> request.request_id) ms

      go :
          (o : Outcome TransactionSnapshot × World)
          → prepare w ≡ o
          → attempt o
              (λ s w.
                attempt
                  (apply_body host s ms w)
                  (λ _. pure (
                    success "Sysctl apply complete" request.module_ids
                      (some ("backup-" <> request.request_id))))
                  (apply_handler host request ("backup-" <> request.request_id) s))
              (apply_unbound host request)
            ≡ (ok r, v)
          → Succeeded request ms r w.disk v.disk ⊎ FailedSafely request ms r w.disk v.disk
      go (ok s, u) e h =
          let (_, w₁, e₁, h₁) = >>=-eq-ok (checkpoint none) _ w e in
          let (unmoved, bears, _, back) =
            take_inv host manifest ("backup-" <> request.request_id) ms w₁ u s h₁ in
          let start : w₁.disk ≡ w.disk =
            ap (λ (o : Outcome (Unit {0}) × World). o.1.disk) (sym e₁) ∙ disk-checkpoint none w in
          body_report request ms s w.disk bears
            (λ x match. subst (λ d. SameState host ms d x) start (back x match.0 match.1))
            (apply_body host s ms u) u v r refl (unmoved ∙ start) h
      go (raised x, u) e h = inr (
          unbound_report request ms x w.disk u v r
            (subst (λ (o : Outcome TransactionSnapshot × World). Untouched w.disk o.1.disk) e
              ((prepare-Keeps (Untouched w.disk) manifest ("backup-" <> request.request_id) ms).at w
                (refl, refl)))
            h)

  selected_cases :
      (manifest : SysctlManifest) (request : ProductionRequest) (w v : World)
      (r : TransactionResult)
      → (of_result (selected manifest request.module_ids) >>= λ modules.
            apply_now host manifest request modules)
          w
        ≡ (ok r, v)
      → (ms : List SysctlModule) × (selected manifest request.module_ids ≡ Results.ok ms)
        × (Succeeded request ms r w.disk v.disk ⊎ FailedSafely request ms r w.disk v.disk)
  selected_cases manifest request w v r h = go (selected manifest request.module_ids) refl h
    where
      go :
          (o : Results.Result (List SysctlModule))
          → selected manifest request.module_ids ≡ o
          → (of_result o >>= λ modules. apply_now host manifest request modules) w ≡ (ok r, v)
          → (ms : List SysctlModule) × (selected manifest request.module_ids ≡ Results.ok ms)
            × (Succeeded request ms r w.disk v.disk ⊎ FailedSafely request ms r w.disk v.disk)
      go (Results.ok ms) e h = (ms, e, apply_now_report manifest request ms w v r h)
      go (Results.err x) e h = cc

  -- What a returned result of `_apply` says, where it began without a marker and where it did not.
  abbrev Report : SysctlManifest → ProductionRequest → TransactionResult → Disk → Disk → Type 0
  Report manifest request r d d' =
      ((ms : List SysctlModule) × (selected manifest request.module_ids ≡ Results.ok ms)
        × (Succeeded request ms r d d' ⊎ FailedSafely request ms r d d'))
      ⊎ (r.error_code ≡ some "recovery_required")
        × (r.status ≡ ProductionStatus.failed)
        × (d' ≡ d)
        × (i : String) × (d.marker ≡ some (names i))

  required_cases :
      (manifest : SysctlManifest) (request : ProductionRequest) (o : Option String) (d : Disk)
      (w v : World) (r : TransactionResult)
      → Requires host o d
      → w.disk ≡ d
      → (if is_some o
            then pure (failed request "recovery_required" "Exact rollback is required" o)
            else (of_result (selected manifest request.module_ids) >>= λ modules.
                apply_now host manifest request modules))
          w
        ≡ (ok r, v)
      → Report manifest request r d v.disk
  required_cases manifest request none d w v r q start h = inl (
      subst
        (λ x.
          (ms : List SysctlModule) × (selected manifest request.module_ids ≡ Results.ok ms)
          × (Succeeded request ms r x v.disk ⊎ FailedSafely request ms r x v.disk))
        start (selected_cases manifest request w v r h))
  required_cases manifest request (some i) d w v r q start h =
      let same : w ≡ v = ground arith in
      inr (ground arith, ground arith, ap (λ (x : World). x.disk) (sym same) ∙ start, i, q.0)

  apply_report :
      (manifest : SysctlManifest) (request : ProductionRequest) (w v : World)
      (r : TransactionResult)
      → apply host manifest request w ≡ (ok r, v)
      → Report manifest request r w.disk v.disk
  unfolding apply
  apply_report manifest request w v r h =
      let (o, u, e, h₁) = >>=-eq-ok (recovery_backup_id host) _ w h in
      let (required, still) = recovery_inv host w o u e in
      required_cases manifest request o w.disk u v r required still h₁

  -- The desired state, with a usable backup of the state before.
  abbrev pub WasApplied : SysctlManifest → ProductionRequest → Disk → Disk → Type 0
  WasApplied manifest request d d' =
      (ms : List SysctlModule) × (selected manifest request.module_ids ≡ Results.ok ms)
      × Desired host ms d'
      × (s : TransactionSnapshot) × (look_backup host ("backup-" <> request.request_id) d' ≡ ok s)
      × ((e : Disk) → Matches s e → SameState host ms d e)

  -- The state before, or a report by which it can be brought back.
  abbrev pub WasLeftSafe :
      SysctlManifest → ProductionRequest → TransactionResult → Disk → Disk → Type 0
  WasLeftSafe manifest request r d d' =
      Untouched d d'
      ⊎ ((ms : List SysctlModule) × (selected manifest request.module_ids ≡ Results.ok ms)
          × SameState host ms d d')
      ⊎ (r.error_code ≡ some "recovery_required")
        × (d'.marker ≡ some (names ("backup-" <> request.request_id)))
      ⊎ (r.error_code ≡ some "backup_failed") × HasBackup host ("backup-" <> request.request_id) d'

  -- An apply that reports success has left every module's file with exactly its content and every
  -- sysctl at its desired value up to white space, and in the store a usable backup of which every
  -- restore gives back the state before, whichever system calls failed on the way.
  pub apply_success :
      (manifest : SysctlManifest) (request : ProductionRequest) (w v : World)
      (r : TransactionResult)
      → apply host manifest request w ≡ (ok r, v)
      → r.status ≡ ProductionStatus.succeeded
      → WasApplied manifest request w.disk v.disk
  apply_success manifest request w v r h status = elim (apply_report manifest request w v r h) [
    | inl (ms, e, inl (_, desired, s, stored, back)) ↦ (ms, e, desired, s, stored, back)
    | inl (ms, e, inr (bad, _)) ↦ absurd (bad status)
    | inr (_, bad, _, _, _) ↦ absurd (ground arith)
  ]

  -- An apply that reports anything else has left all that is managed untouched, or in the state
  -- before (the file of every module exactly, its sysctls up to white space), or it reports that a
  -- recovery is required and the marker names its backup, or it reports `backup_failed` and its
  -- backup is in the store and usable.
  pub apply_failure :
      (manifest : SysctlManifest) (request : ProductionRequest) (w v : World)
      (r : TransactionResult)
      → apply host manifest request w ≡ (ok r, v)
      → r.status ≢ ProductionStatus.succeeded
      → WasLeftSafe manifest request r w.disk v.disk
  apply_failure manifest request w v r h status = elim (apply_report manifest request w v r h) [
    | inl (ms, e, inl (same, _, _, _, _)) ↦
        absurd (status (ap (λ (x : TransactionResult). x.status) same))
    | inl (ms, e, inr (_, inl kept)) ↦ inl kept
    | inl (ms, e, inr (_, inr (inl restored))) ↦ inr (inl (ms, e, restored))
    | inl (ms, e, inr (_, inr (inr other))) ↦ inr (inr other)
    | inr (_, _, same, _, _) ↦
        inl (ap (λ (d : Disk). d.nodes) same, ap (λ (d : Disk). d.sysctls) same)
  ]
