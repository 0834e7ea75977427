-- ===== src/Tests/Logs.antt =====
-- A helper's event in a log that takes three bytes at a time, and then no more.
use lsmf.Base.{ℕ, ◌≡◌, refl, true, false, List, none, if◌then◌else◌, ◌==◌}
use lsmf.Base.Results.{ok, err}
use lsmf.Base.Text.{codes}
use lsmf.Protocol.Json.{Json}
use lsmf.Privileged.Helper.{AuditEvent}
use lsmf.Audit.Sink.{
  LogFile, bytes, fails, Kernel, ends, append, line_of, helper_record, record_helper_event,
}
use lsmf.Audit.Sink.Append.{IsAppended, append-IsAppended}
use lsmf.Audit.Sink.Guards.{IsGuarded, append-IsGuarded}

abbrev event : AuditEvent
event = record {
  request_id = none;
  action = none;
  authorization_id = none;
  outcome = "rejected";
  detail = "invalid request";
}

-- stands for `json.dumps`
abbrev dumps : Json → List ℕ
dumps value = codes "{\"outcome\":1}"

abbrev log : LogFile
log = record { content = codes "{}"; flushed = codes "{}" }

abbrev slow : Kernel
slow = record {
  parent = ok (record { is_directory = true; uid = 0; is_open = false });
  opens = ok tt;
  fstat = ok (record { is_regular = true; uid = 0; is_open = false; links = 1 });
  write = λ round. bytes 3;
  fsync = ok tt;
  close = ok tt;
}

append-IsAppended_example :
    IsAppended
      (line_of dumps (helper_record event))
      log
      (append dumps 0 slow (helper_record event) log)
append-IsAppended_example = append-IsAppended dumps 0 slow (helper_record event) log

append-IsGuarded_example :
    IsGuarded 0 slow
      (line_of dumps (helper_record event))
      log
      (append dumps 0 slow (helper_record event) log)
append-IsGuarded_example = append-IsGuarded dumps 0 slow (helper_record event) log

recorded :
    record_helper_event dumps 0 slow event log
    ≡ ends
        (ok tt)
        (record { content = codes "{}{\"outcome\":1}\n"; flushed = codes "{}{\"outcome\":1}\n" })
unfolding record_helper_event append helper_record
recorded = refl

-- a full disk
stopped_short :
    append dumps 0
      (record slow { write = λ round. if round == 0 then bytes 3 else fails "full" })
      (helper_record event)
      log
    ≡ ends (err "full") (record { content = codes "{}{\"o"; flushed = codes "{}" })
unfolding append helper_record
stopped_short = refl
