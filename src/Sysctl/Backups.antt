-- ===== src/Sysctl/Backups.antt =====
-- lsmf/sysctl_transaction.py `SysctlBackupStore`, below a root that its constructor accepted.
use lsmf.Base.{
  ℕ, String, Bool, true, false, not, ◌&&◌, ◌||◌, List, [], ◌∷◌, Option, none, some, leb, is_some,
  ◌==◌, any, str_eq, opt_eq, if◌then◌else◌,
}
use lsmf.Base.Text.{Piece, codes, lit, is_hex, matches}
use lsmf.Base.Dict.{lookup, insert, contains, distinct}
use lsmf.Sysctl.Manifest.{ids_eq}
use lsmf.Sysctl.World.{
  ManagedFileSnapshot, TransactionSnapshot, FileRecord, Payload, Envelope, Stored, damaged, intact,
  Marker, unusable, names, Disk, Host, failure, Outcome, ok, raised, M, pure, attempt, ◌>>=◌, ◌>>◌,
  check, gets, observe, change,
}
use lsmf.Sysctl.Files.{file_eq}

abbrev pub max_backup_bytes : ℕ
max_backup_bytes = 1048576

-- the characters of a text, each standing for itself
abbrev lits : List ℕ → List Piece → List Piece
lits [] ps = ps
lits (c ∷ cs) ps = lit c ∷ lits cs ps

-- `_BACKUP_ID.fullmatch`
unfoldable pub is_backup_id : String → Bool
is_backup_id s =
    let rest = (is_hex, 8) ∷ lit b'-' ∷ ((λ c. is_hex c || c == b'-'), 27) ∷ [] in
    matches (lits (codes "backup-") rest) (codes s)
    || matches (lits (codes "recovery-") rest) (codes s)

abbrev pub pair_eq : String × String → String × String → Bool
pair_eq p q = str_eq p.0 q.0 && str_eq p.1 q.1

abbrev pub pairs_eq : List (String × String) → List (String × String) → Bool
pairs_eq [] [] = true
pairs_eq (p ∷ ps) (q ∷ qs) = pair_eq p q && pairs_eq ps qs
pairs_eq _ _ = false

abbrev pub files_eq : List ManagedFileSnapshot → List ManagedFileSnapshot → Bool
files_eq [] [] = true
files_eq (p ∷ ps) (q ∷ qs) = file_eq p q && files_eq ps qs
files_eq _ _ = false

-- `len(set(sysctls)) == len(sysctls)`
abbrev pub distinct_pairs : List (String × String) → Bool
distinct_pairs [] = true
distinct_pairs (p ∷ ps) = not (any (pair_eq p) ps) && distinct_pairs ps

-- `==` of two transaction snapshots
unfoldable pub snapshot_eq : TransactionSnapshot → TransactionSnapshot → Bool
snapshot_eq a b =
    str_eq a.backup_id b.backup_id
    && str_eq a.manifest_digest b.manifest_digest
    && ids_eq a.module_ids b.module_ids
    && files_eq a.files b.files
    && pairs_eq a.sysctls b.sysctls

module _ (host : Host) where
  -- the records of the files, with their digests
  abbrev file_records : List ManagedFileSnapshot → List FileRecord
  file_records [] = []
  file_records (f ∷ fs) =
      record { file = f; sha256 = host.content_digest f.content } ∷ file_records fs

  unfoldable pub payload_of : TransactionSnapshot → Payload
  payload_of s = record {
    version = 1;
    backup_id = s.backup_id;
    manifest_digest = s.manifest_digest;
    module_ids = s.module_ids;
    files = file_records s.files;
    sysctls = s.sysctls;
  }

  unfoldable pub envelope_of : TransactionSnapshot → Envelope
  envelope_of s = record { payload = payload_of s; sha256 = host.payload_digest (payload_of s) }

  -- the loop over `payload["files"]`
  abbrev pub decode_files : List FileRecord → Outcome (List ManagedFileSnapshot)
  decode_files [] = ok []
  decode_files (r ∷ rs) =
      if str_eq (host.content_digest r.file.content) r.sha256
      then elim (decode_files rs) [ ok fs ↦ ok (r.file ∷ fs) | raised e ↦ raised e ]
      else raised (failure "backup file integrity check failed")

  abbrev pub with_files : Payload → Outcome (List ManagedFileSnapshot) → Outcome TransactionSnapshot
  with_files p (raised e) = raised e
  with_files p (ok fs) =
      if not (distinct p.module_ids) || not (distinct_pairs p.sysctls)
      then raised (failure "backup contains duplicate records")
      else ok (record {
        backup_id = p.backup_id;
        manifest_digest = p.manifest_digest;
        module_ids = p.module_ids;
        files = fs;
        sysctls = p.sysctls;
      })

  -- `load` once the file is read
  unfoldable pub decode_envelope : String → Envelope → Outcome TransactionSnapshot
  decode_envelope backup_id e =
      if not (str_eq (host.payload_digest e.payload) e.sha256)
      then raised (failure "backup integrity check failed")
      else if not (e.payload.version == 1) || not (str_eq e.payload.backup_id backup_id)
      then raised (failure "backup payload is invalid")
      else with_files e.payload (decode_files e.payload.files)

  abbrev pub decode_stored : String → Option Stored → Outcome TransactionSnapshot
  decode_stored backup_id (some (intact e)) = decode_envelope backup_id e
  decode_stored backup_id _ = raised (failure "backup snapshot is unavailable")

  -- What `load` sees of a disk when its system calls work.
  unfoldable pub look_backup : String → Disk → Outcome TransactionSnapshot
  look_backup backup_id disk =
      if is_backup_id backup_id
      then decode_stored backup_id (lookup backup_id disk.backups)
      else raised (failure "backup ID is invalid")

  -- `load`
  unfoldable pub load : String → M TransactionSnapshot
  load backup_id = observe (look_backup backup_id)

  -- `eligible`, whose `except Exception` turns every failure into `False`
  unfoldable pub eligible : String → Option String → M Bool
  eligible backup_id manifest_digest w =
      attempt (load backup_id w)
        (λ s. pure (elim manifest_digest [ none ↦ true | some d ↦ str_eq s.manifest_digest d ]))
        (λ _. pure false)

  abbrev pub put_backup : String → Stored → Disk → Disk
  put_backup backup_id stored d = record d { backups = insert backup_id stored d.backups }

  -- `create`: the directory, then its `snapshot.json`, then a read of what was written
  unfoldable pub create : TransactionSnapshot → M (Unit {0})
  create s = do
    check (is_backup_id s.backup_id) "backup ID is invalid"
    present ← gets (λ d. contains s.backup_id d.backups)
    check (not present) "backup ID already exists or cannot be created"
    change (put_backup s.backup_id damaged)
    check (leb (host.envelope_size (envelope_of s)) max_backup_bytes)
        "backup exceeds its size limit"
    change (put_backup s.backup_id (intact (envelope_of s)))
    loaded ← load s.backup_id
    check (snapshot_eq loaded s) "backup validation mismatch"

  abbrev pub named : Option Marker → Outcome String
  named (some (names i)) = ok i
  named _ = raised (failure "recovery marker is malformed")

  -- `recovery_backup_id` where the marker exists
  unfoldable pub required_backup_id : M (Option String)
  unfolding eligible
  required_backup_id = do
    backup_id ← observe (λ d. named d.marker)
    usable ← eligible backup_id none
    check usable "recovery backup is ineligible"
    pure (some backup_id)

  -- `recovery_backup_id`
  unfoldable pub recovery_backup_id : M (Option String)
  recovery_backup_id = do
    present ← gets (λ d. is_some d.marker)
    if present then required_backup_id else pure none

  abbrev pub put_marker : Option Marker → Disk → Disk
  put_marker marker d = record d { marker = marker }

  -- `mark_recovery_required`: the marker's exclusive creation, then its one line
  unfoldable pub mark_recovery_required : String → M (Unit {0})
  mark_recovery_required backup_id = do
    usable ← eligible backup_id none
    check usable "recovery backup is ineligible"
    current ← recovery_backup_id
    check (opt_eq current none || opt_eq current (some backup_id))
        "a different recovery backup is already required"
    if opt_eq current (some backup_id)
        then pure tt
        else (do change (put_marker (some unusable)); change (put_marker (some (names backup_id))))

  -- `clear_recovery_required`
  unfoldable pub clear_recovery_required : String → M (Unit {0})
  clear_recovery_required backup_id = do
    current ← recovery_backup_id
    check (opt_eq current (some backup_id)) "recovery marker does not match exact rollback"
    change (put_marker none)
