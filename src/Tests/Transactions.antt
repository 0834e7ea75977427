-- ===== src/Tests/Transactions.antt =====
-- A manifest of one module, a machine without its file, and calls with and without faults.
use lsmf.Base.{String, ◌≡◌, ◌≢◌, refl, true, [], ◌∷◌, none, some, ℤ, str_eq, if◌then◌else◌, arith}
use lsmf.Base.Results
use lsmf.Peer.Identity.{Action, is_request_id, is_digest}
use lsmf.Protocol.Json.{Json}
use lsmf.Protocol.Models.{ProductionStatus, ProductionRequest}
use lsmf.Sysctl.Manifest.{SysctlModule, SysctlManifest, selected}
use lsmf.Sysctl.World.{
  names, absent, TransactionSnapshot, Disk, Host, works, fails_before, World, ok, gets, observe,
  change, check, checkpoint, next, next_with, cancel,
}
use lsmf.Sysctl.Restore.{
  restore_or_mark, restore, restore_files, restore_values, verify_files, verify_values,
}
use lsmf.Sysctl.Files
use lsmf.Sysctl.Values
use lsmf.Sysctl.Backups
use lsmf.Sysctl.Backups.{eligible}
use lsmf.Sysctl.Capture.{take, take_files, take_settings, take_values}
use lsmf.Sysctl.Apply.{
  apply, apply_now, apply_body, apply_handler, apply_modules, apply_settings, check_settings,
  check_modules, content,
}
use lsmf.Sysctl.Rollback.{rollback, rollback_of, rollback_now, rollback_body, prepare_rollback}
use lsmf.Sysctl.Outcomes.{TransactionResult, success, failed}
use lsmf.Sysctl.Proofs.Exact.{FilesMatch, ValuesMatch, restore_exact}
use lsmf.Sysctl.Proofs.ApplyReport.{WasApplied, WasLeftSafe, apply_success, apply_failure}
use lsmf.Sysctl.Proofs.Confined.{apply_confined}
use lsmf.Sysctl.Proofs.Blocked.{apply_blocked}
use lsmf.Sysctl.Proofs.RolledBack.{WasRolledBack, rollback_success}

abbrev host : Host
host = record {
  expected_uid = 0;
  euid = 0;
  egid = 0;
  masked = λ mode. mode;
  parents_safe = λ path. true;
  temporary = λ path. "etc/sysctl.d/.60-lsmf-ptrace.conf.lsmf-4711";
  settles = λ key value. value;
  content_digest = λ bytes. "5d41402abc4b2a76b9719d911017c592";
  payload_digest = λ payload. "7d793037a0760186574b0282f2f435e7";
  envelope_size = λ envelope. 900;
}

abbrev target : String
target = "etc/sysctl.d/60-lsmf-ptrace.conf"

abbrev key : String
key = "kernel.yama.ptrace_scope"

abbrev ptrace : SysctlModule
ptrace = record {
  module_id = "ptrace-scope";
  relative_target = target;
  settings = record { key = key; desired_value = "1" } ∷ [];
}

abbrev manifest : SysctlManifest
manifest = record {
  module_order = "ptrace-scope" ∷ [];
  single_apply = "ptrace-scope" ∷ [];
  multi_apply = [];
  modules = ("ptrace-scope", ptrace) ∷ [];
  digest = "0123456789abcdef0123456789abcdef0123456789abcdef0123456789abcdef";
}

abbrev request_id : String
request_id = "3f2a1c9e-5b7d-4e21-9c3a-0a1b2c3d4e5f"

abbrev backup_id : String
backup_id = "backup-3f2a1c9e-5b7d-4e21-9c3a-0a1b2c3d4e5f"

abbrev apply_request : ProductionRequest
apply_request = record {
  protocol_version = Json.int (ℤ.pos 1);
  request_id = request_id;
  action = Action.apply_module;
  module_ids = "ptrace-scope" ∷ [];
  backup_id = none;
}

abbrev rollback_request : ProductionRequest
rollback_request = record {
  protocol_version = Json.int (ℤ.pos 1);
  request_id = "8c1d2e3f-4a5b-4c6d-8e7f-1a2b3c4d5e6f";
  action = Action.rollback_backup;
  module_ids = [];
  backup_id = some backup_id;
}

abbrev fresh : Disk
fresh = record {
  nodes = λ path. absent;
  sysctls = λ k. if str_eq k key then some "0" else none;
  backups = [];
  marker = none;
}

abbrev quiet : World
quiet = record { disk = fresh; choices = []; token = none }

abbrev applied : World
applied = (apply host manifest apply_request quiet).1

abbrev apply_report : TransactionResult
apply_report = success "Sysctl apply complete" ("ptrace-scope" ∷ []) (some backup_id)

applies : apply host manifest apply_request quiet ≡ (ok apply_report, applied)
unfolding apply apply_now apply_body apply_handler apply_modules apply_settings check_settings
    check_modules content take take_files take_settings take_values selected
    Backups.recovery_backup_id Backups.required_backup_id Backups.create Backups.load
    Backups.look_backup Backups.payload_of Backups.envelope_of Backups.decode_envelope
    Backups.is_backup_id Backups.snapshot_eq Files.snapshot Files.look Files.path_ok
    Files.is_plain_path Files.write Files.replace Files.place Files.give_up Files.file_eq
    Values.read Values.look_value Values.is_sysctl_key Values.write Values.canonical_sysctl_value
    gets observe change check checkpoint next next_with cancel is_request_id is_digest
applies = refl

apply_success_example : WasApplied host manifest apply_request fresh applied.disk
apply_success_example =
    apply_success host manifest apply_request quiet applied apply_report applies refl

rollbacks : rollback host manifest rollback_request applied ≡ (
  ok (success "Exact rollback complete" ("ptrace-scope" ∷ []) (some backup_id)),
  (rollback host manifest rollback_request applied).1,
)
unfolding rollback rollback_of rollback_now rollback_body prepare_rollback restore restore_files
    restore_values verify_files verify_values Files.restore Files.remove Files.unlink apply
    apply_now apply_body apply_handler apply_modules apply_settings check_settings check_modules
    content take take_files take_settings take_values selected Backups.recovery_backup_id
    Backups.required_backup_id Backups.create Backups.load Backups.look_backup Backups.payload_of
    Backups.envelope_of Backups.decode_envelope Backups.is_backup_id Backups.snapshot_eq
    Files.snapshot Files.look Files.path_ok Files.is_plain_path Files.write Files.replace
    Files.file_eq Values.read Values.look_value Values.is_sysctl_key Values.write
    Values.canonical_sysctl_value gets observe change check checkpoint next next_with cancel
    is_request_id is_digest
rollbacks = refl

rollback_success_example :
    WasRolledBack host manifest rollback_request
      (success "Exact rollback complete" ("ptrace-scope" ∷ []) (some backup_id))
      applied.disk
      (rollback host manifest rollback_request applied).1.disk
rollback_success_example =
    rollback_success host manifest rollback_request applied
      (rollback host manifest rollback_request applied).1
      (success "Exact rollback complete" ("ptrace-scope" ∷ []) (some backup_id)) rollbacks refl

-- the write of the sysctl fails, after the file is replaced
abbrev faulty : World
faulty = record {
  disk = fresh;
  choices =
      works ∷ works ∷ works ∷ works ∷ works ∷ works ∷ works ∷ works ∷ works ∷ works ∷ works ∷ works
      ∷ fails_before ∷ [];
  token = none;
}

abbrev restored : World
restored = (apply host manifest apply_request faulty).1

abbrev failed_report : TransactionResult
failed_report =
    failed apply_request "apply_failed" "Apply failed and exact state was restored" (some backup_id)

fails : apply host manifest apply_request faulty ≡ (ok failed_report, restored)
unfolding apply apply_now apply_body apply_handler apply_modules apply_settings check_settings
    check_modules content take take_files take_settings take_values selected
    Backups.recovery_backup_id Backups.required_backup_id Backups.create Backups.load
    Backups.look_backup Backups.payload_of Backups.envelope_of Backups.decode_envelope
    Backups.is_backup_id Backups.snapshot_eq Files.snapshot Files.look Files.path_ok
    Files.is_plain_path Files.write Files.replace Files.place Files.give_up Files.file_eq
    Values.read Values.look_value Values.is_sysctl_key Values.write Values.canonical_sysctl_value
    gets observe change check checkpoint next next_with cancel is_request_id is_digest eligible
    restore_or_mark restore restore_files restore_values verify_files verify_values Files.restore
    Files.remove Files.unlink
fails = refl

did_not_succeed : failed_report.status ≢ ProductionStatus.succeeded
did_not_succeed e = ground arith

apply_failure_example : WasLeftSafe host manifest apply_request failed_report fresh restored.disk
apply_failure_example =
    apply_failure host manifest apply_request faulty restored failed_report fails did_not_succeed

-- the state before the apply
abbrev before_apply : TransactionSnapshot
before_apply = record {
  backup_id = backup_id;
  manifest_digest = manifest.digest;
  module_ids = "ptrace-scope" ∷ [];
  files =
      record {
        relative_path = target;
        existed = true;
        mode = 420;
        uid = 0;
        gid = 0;
        content = b'#' ∷ b'\n' ∷ [];
      }
      ∷ [];
  sysctls = (key, "0") ∷ [];
}

restores : restore host before_apply applied ≡ (ok tt, (restore host before_apply applied).1)
unfolding restore restore_files restore_values verify_files verify_values Files.restore
    Files.change_owner Files.change_mode apply apply_now apply_body apply_handler apply_modules
    apply_settings check_settings check_modules content take take_files take_settings take_values
    selected Backups.recovery_backup_id Backups.required_backup_id Backups.create Backups.load
    Backups.look_backup Backups.payload_of Backups.envelope_of Backups.decode_envelope
    Backups.is_backup_id Backups.snapshot_eq Files.snapshot Files.look Files.path_ok
    Files.is_plain_path Files.write Files.replace Files.place Files.give_up Files.file_eq
    Values.read Values.look_value Values.is_sysctl_key Values.write Values.canonical_sysctl_value
    gets observe change check checkpoint next next_with cancel is_request_id is_digest
restores = refl

restore_exact_example :
    FilesMatch host before_apply.files (restore host before_apply applied).1.disk
    × ValuesMatch host before_apply.sysctls (restore host before_apply applied).1.disk
restore_exact_example =
    restore_exact host before_apply applied (restore host before_apply applied).1 restores

is_selected : selected manifest apply_request.module_ids ≡ Results.ok (ptrace ∷ [])
unfolding selected
is_selected = refl

apply_confined_example :
    (apply host manifest apply_request faulty).1.disk.nodes "etc/passwd" ≡ fresh.nodes "etc/passwd"
apply_confined_example =
    apply_confined host manifest apply_request faulty "etc/passwd" (ptrace ∷ []) is_selected
      ((refl, refl), tt)

-- a machine on which a recovery was left undone
abbrev marked : World
marked = record {
  disk = record fresh { marker = some (names backup_id) };
  choices = [];
  token = none;
}

is_marked : marked.disk.marker ≢ none
is_marked e = ground arith

apply_blocked_example : (apply host manifest apply_request marked).1.disk ≡ marked.disk
apply_blocked_example = apply_blocked host manifest apply_request marked is_marked
