-- ===== src/Sysctl/Proofs/Blocked.antt =====
-- A required recovery blocks every apply.
use lsmf.Base.{String, ◌≡◌, ◌≢◌, refl, sym, ◌∙◌, ap, Option, none, some, is_some, if◌then◌else◌}
use lsmf.Protocol.Models.{ProductionRequest}
use lsmf.Sysctl.Manifest.{SysctlManifest, selected}
use lsmf.Sysctl.World.{Host, World, Outcome, ok, raised, M, pure, raise, attempt, ◌>>=◌}
use lsmf.Sysctl.Backups.{recovery_backup_id}
use lsmf.Sysctl.Outcomes.{TransactionResult, of_result, failed}
use lsmf.Sysctl.Apply.{apply_now, apply}
use lsmf.Sysctl.Proofs.Store.{recovery_inv, recovery_backup_id-Keeps, same_disk, Requires}

-- While the marker is there, whether it names a usable backup, a broken one or nothing legible, an
-- apply changes nothing on disk, on every outcome.
pub apply_blocked :
    (host : Host) (manifest : SysctlManifest) (request : ProductionRequest) (w : World)
    → w.disk.marker ≢ none
    → (apply host manifest request w).1.disk ≡ w.disk
unfolding apply
apply_blocked host manifest request w present = go (recovery_backup_id host w) refl
  where
    rest : Option String → M TransactionResult
    rest o =
        if is_some o
        then pure (failed request "recovery_required" "Exact rollback is required" o)
        else (of_result (selected manifest request.module_ids) >>= λ modules.
            apply_now host manifest request modules)

    answered : (o : Option String) (u : World) → Requires host o w.disk → (rest o u).1.disk ≡ u.disk
    answered none u q = absurd (present q)
    answered (some i) u q = refl

    go :
        (o : Outcome (Option String) × World)
        → recovery_backup_id host w ≡ o
        → (attempt o rest raise).1.disk ≡ w.disk
    go (ok o, u) e =
        let (required, still) = recovery_inv host w o u e in answered o u required ∙ still
    go (raised x, u) e =
        ap (λ (o : Outcome (Option String) × World). o.1.disk) (sym e)
        ∙ same_disk host (recovery_backup_id host) w (λ P. recovery_backup_id-Keeps host P)
