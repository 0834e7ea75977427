-- ===== src/Audit/Sink.antt =====
-- lsmf/protected_audit.py: `ProtectedAuditSink` and `ProtectedProductionAuditSink`. What the kernel
-- answers during one call is a record; the bytes of a JSON text are an argument.
pub mod Append
pub mod Guards
use lsmf.Base.{
  ℕ, zero, suc, String, Bool, true, false, not, ◌||◌, List, [], ◌∷◌, ◌++◌, Option, none, some, ltb,
  ◌==◌, ℤ, if◌then◌else◌, length, take, drop,
}
use lsmf.Base.Results.{Result, ok, err, raise_if}
use lsmf.Protocol.Json.{Json, Fields}
use lsmf.Privileged.Helper.{AuditEvent}
use lsmf.Dispatcher.State.{ProductionAuditEvent}

-- `MAX_AUDIT_RECORD_BYTES`
abbrev pub max_audit_record_bytes : ℕ
max_audit_record_bytes = 4096

-- The log file: its bytes, and its bytes when it was last flushed to the disk.
pub record LogFile : Type 0 where
  pub content : List ℕ
  pub flushed : List ℕ

-- what `os.write` answers: how many bytes it took, at most all, or an OSError
pub data Wrote : Type 0 where
  bytes : ℕ → Wrote
  fails : String → Wrote

-- the parent: if it is a directory, its owner, and if its mode lets the group or others in
pub record DirectoryStatus : Type 0 where
  pub is_directory : Bool
  pub uid : ℕ
  pub is_open : Bool

-- the log: if it is a regular file, its owner, if its mode has a bit of 0o177, and its links
pub record FileStatus : Type 0 where
  pub is_regular : Bool
  pub uid : ℕ
  pub is_open : Bool
  pub links : ℕ

-- The kernel's answers to one call, each or an OSError; `write` has one for each round.
pub record Kernel : Type 0 where
  pub parent : Result DirectoryStatus
  pub opens : Result (Unit {0})
  pub fstat : Result FileStatus
  pub write : ℕ → Wrote
  pub fsync : Result (Unit {0})
  pub close : Result (Unit {0})

-- How the loop of `_append` ends. The last is for an end of the fuel, which does not come.
pub data Written : Type 0 where
  done : LogFile → Written
  failed : String → LogFile → Written
  unfinished : Written

-- one round of `while view`
abbrev after_write : Wrote → (ℕ → Written) → LogFile → Written
after_write (bytes zero) rest f = failed "audit write did not make progress" f
after_write (bytes (suc n)) rest f = rest (suc n)
after_write (fails message) rest f = failed message f

abbrev pub extended : List ℕ → LogFile → LogFile
extended written f = record f { content = f.content ++ written }

-- `while view: ...`, in the round of this number
unfoldable pub write_all : ℕ → ℕ → (ℕ → Wrote) → List ℕ → LogFile → Written
write_all fuel round write [] f = done f
write_all zero round write (c ∷ cs) f = unfinished
write_all (suc fuel) round write (c ∷ cs) f =
    after_write (write round)
      (λ n. write_all fuel (suc round) write (drop n (c ∷ cs)) (extended (take n (c ∷ cs)) f)) f

-- `os.fsync(descriptor)`
abbrev pub flush : Result (Unit {0}) → LogFile → Result (Unit {0}) × LogFile
flush (err message) f = (err message, f)
flush (ok _) f = (ok tt, record f { flushed = f.content })

-- What the loop comes to, with the flush behind it; a loop that does not end is no error.
pub data Ended : Type 0 where
  ends : Result (Unit {0}) → LogFile → Ended
  never : Ended

abbrev ended_as : Result (Unit {0}) × LogFile → Ended
ended_as (result, f) = ends result f

abbrev then_flush : Result (Unit {0}) → Written → Ended
then_flush fsync (done f) = ended_as (flush fsync f)
then_flush fsync (failed message f) = ends (err message) f
then_flush fsync unfinished = never

-- the test of the log's metadata
abbrev is_unsafe_file : ℕ → FileStatus → Bool
is_unsafe_file expected_uid m =
    not m.is_regular || not (m.uid == expected_uid) || m.is_open || not (m.links == 1)

-- the block behind `os.open`
abbrev write_checked : ℕ → Kernel → List ℕ → LogFile → Result FileStatus → Ended
write_checked expected_uid k line f (err message) = ends (err message) f
write_checked expected_uid k line f (ok m) =
    if is_unsafe_file expected_uid m
    then ends (err "audit file ownership, mode, or link count is unsafe") f
    else then_flush k.fsync (write_all (length line) 0 k.write line f)

-- `finally: os.close(descriptor)`: what it raises takes the place of what was raised
abbrev then_close : Result (Unit {0}) → Ended → Ended
then_close close never = never
then_close (ok _) (ends result f) = ends result f
then_close (err message) (ends result f) = ends (err message) f

-- the test of the directory's metadata
abbrev is_unsafe_directory : ℕ → DirectoryStatus → Bool
is_unsafe_directory expected_uid m = not m.is_directory || not (m.uid == expected_uid) || m.is_open

abbrev write_opened : ℕ → Kernel → List ℕ → LogFile → Result (Unit {0}) → Ended
write_opened expected_uid k line f (err _) = ends (err "audit file cannot be opened safely") f
write_opened expected_uid k line f (ok _) =
    then_close k.close (write_checked expected_uid k line f k.fstat)

abbrev write_in : ℕ → Kernel → List ℕ → LogFile → Result DirectoryStatus → Ended
write_in expected_uid k line f (err _) = ends (err "audit directory is unavailable") f
write_in expected_uid k line f (ok m) =
    if is_unsafe_directory expected_uid m
    then ends (err "audit directory ownership or mode is unsafe") f
    else if ltb max_audit_record_bytes (length line)
    then ends (err "audit record exceeds its size limit") f
    else write_opened expected_uid k line f k.opens

-- `record` in `_append`: the JSON text and a line's end
abbrev pub line_of : (Json → List ℕ) → Json → List ℕ
line_of dumps value = dumps value ++ b'\n' ∷ []

-- `_append`, which returns True where it returns
unfoldable pub append : (Json → List ℕ) → ℕ → Kernel → Json → LogFile → Ended
unfolding write_all
append dumps expected_uid k value f = write_in expected_uid k (line_of dumps value) f k.parent

abbrev optional : Option String → Json
optional none = Json.null
optional (some s) = Json.str s

abbrev optional_number : Option ℕ → Json
optional_number none = Json.null
optional_number (some n) = Json.int (ℤ.pos n)

-- the dictionary in `ProtectedAuditSink.__call__`
unfoldable pub helper_record : AuditEvent → Json
helper_record event = Json.obj (
    Fields.field "action" (optional event.action) (
      Fields.field "authorization_id" (optional event.authorization_id) (
        Fields.field "detail" (Json.str event.detail) (
          Fields.field "outcome" (Json.str event.outcome)
            (Fields.field "request_id" (optional event.request_id) Fields.end)))))

-- the dictionary in `ProtectedProductionAuditSink.__call__`
unfoldable pub production_record : ProductionAuditEvent → Json
production_record event = Json.obj (
    Fields.field "action" (Json.str event.action) (
      Fields.field "authorization_id" (Json.str event.authorization_id) (
        Fields.field "authorization_outcome" (Json.str event.authorization_outcome) (
          Fields.field "backup_id" (optional event.backup_id) (
            Fields.field "error_code" (optional event.error_code) (
              Fields.field "exit_code" (optional_number event.exit_code) (
                Fields.field "lifecycle" (Json.str event.lifecycle) (
                  Fields.field "parameter_digest" (Json.str event.parameter_digest) (
                    Fields.field "pid" (Json.int (ℤ.pos event.pid)) (
                      Fields.field "request_id" (Json.str event.request_id) (
                        Fields.field "seat_id" (Json.str event.seat_id) (
                          Fields.field "session_id" (Json.str event.session_id) (
                            Fields.field "terminal_status" (optional event.terminal_status) (
                              Fields.field "timestamp" (Json.str event.timestamp) (
                                Fields.field "uid" (Json.int (ℤ.pos event.uid))
                                  Fields.end)))))))))))))))

-- `ProtectedAuditSink.__call__`
unfoldable pub record_helper_event : (Json → List ℕ) → ℕ → Kernel → AuditEvent → LogFile → Ended
record_helper_event dumps expected_uid k event f =
    append dumps expected_uid k (helper_record event) f

-- `ProtectedProductionAuditSink.__call__`
unfoldable pub record_production_event :
    (Json → List ℕ) → ℕ → Kernel → ProductionAuditEvent → LogFile → Ended
record_production_event dumps expected_uid k event f =
    append dumps expected_uid k (production_record event) f
