-- ===== src/Tests/Workers.antt =====
-- Workers of the read-only executor.
use lsmf.Base.{false, [], ◌∷◌, none, some, ◌≡◌, refl, ℤ, take, ltb}
use lsmf.Base.Results.{ok}
use lsmf.Base.Text.{codes, is_digit}
use lsmf.Peer.Identity.{Action, is_request_id}
use lsmf.Protocol.Json.{Json}
use lsmf.Protocol.Models.{ProductionRequest, ProductionStatus}
use lsmf.Protocol.Checks.{
  production_result, canonical_request_id, check_module_id, check_module_ids, bounded_text,
  check_result_shape, is_timestamp,
}
use lsmf.ReadOnly.Output.{Reads, chunk, at_end, raised, read_bounded, read_on, read_bounded-cut}
use lsmf.ReadOnly.Results.{
  result_of, cancelled_of, failure_of, Commands, Library, permits, command_of, finding_count_of,
}
use lsmf.ReadOnly.Executor.{
  answered, delivered, exited, timed_out, Stopping, fine, Answers, again, asleep, over, execute,
  started, sent_sigterm, sent_sigkill, reaped, cancelled, other_error, stop, try_block, finish,
}
use lsmf.ReadOnly.Success.{IsHonest, execute-IsHonest}
use lsmf.ReadOnly.Cleanup.{IsEnded, execute-IsEnded}

abbrev two_chunks : Reads
two_chunks = chunk 76 (83 ∷ []) (chunk 77 (70 ∷ []) at_end)

read_bounded-cut_example : read_bounded two_chunks ≡ ok (take 65536 (codes "LSMF"), ltb 65536 4)
read_bounded-cut_example = read_bounded-cut two_chunks

counts_findings : finding_count_of (codes "LSMF_FINDING_COUNT=12\nok") ≡ some (12, codes "ok")
unfolding finding_count_of
counts_findings = refl

six_digits_refused : finding_count_of (codes "LSMF_FINDING_COUNT=123456\n") ≡ none
unfolding finding_count_of
six_digits_refused = refl

abbrev commands : Commands
commands = record {
  audit_command = "/usr/libexec/lsmf/audit" ∷ [];
  verification_commands = ("ssh", "/usr/libexec/lsmf/verify" ∷ "ssh" ∷ []) ∷ [];
}

abbrev library : Library
library = record { is_decimal = is_digit; decode = λ bytes. "output"; now = "2026-01-02T03:04:05Z" }

abbrev verify_ssh : ProductionRequest
verify_ssh = record {
  protocol_version = Json.int (ℤ.pos 1);
  request_id = "00000000-0000-4000-8000-000000000001";
  action = Action.verify_module;
  module_ids = "ssh" ∷ [];
  backup_id = none;
}

-- a worker that only SIGKILL ends
abbrev stubborn : Stopping
stubborn = record {
  at_sigterm = delivered;
  first_wait = timed_out;
  at_sigkill = delivered;
  last_wait = exited (ℤ.negsuc 8);
}

-- the task is cancelled in the second round
abbrev cancelled_task : Answers
cancelled_task = record {
  token = none;
  spawn = λ command. fine;
  rounds = again (asleep none);
  first = stubborn;
  second = stubborn;
  dropped = none;
}

is_killed :
    execute commands library cancelled_task verify_ssh
    ≡ (started ∷ sent_sigterm ∷ sent_sigkill ∷ reaped (ℤ.negsuc 8) ∷ [], cancelled)
unfolding execute permits command_of stop try_block finish
is_killed = refl

execute-IsEnded_example :
    IsEnded cancelled_task (execute commands library cancelled_task verify_ssh)
execute-IsEnded_example = execute-IsEnded commands library cancelled_task verify_ssh

-- A read of the output fails: the handler raises the same exception again, as it drops the output.
abbrev unreadable : Answers
unreadable = record {
  token = none;
  spawn = λ command. fine;
  rounds = over (exited (ℤ.pos 0)) (some (raised "Input/output error"));
  first = stubborn;
  second = stubborn;
  dropped = some (raised "Input/output error");
}

is_not_wrapped :
    execute commands library unreadable verify_ssh
    ≡ (started ∷ reaped (ℤ.pos 0) ∷ [], other_error "Input/output error")
unfolding execute permits command_of stop try_block finish read_bounded read_on
is_not_wrapped = refl

-- The module is verified.
abbrev verified : Answers
verified = record {
  token = none;
  spawn = λ command. fine;
  rounds = again (over (exited (ℤ.pos 0)) (some two_chunks));
  first = stubborn;
  second = stubborn;
  dropped = none;
}

is_answered_with_success : execute commands library verified verify_ssh ≡ (
  started ∷ reaped (ℤ.pos 0) ∷ [],
  answered (record {
    protocol_version = Json.int (ℤ.pos 1);
    request_id = "00000000-0000-4000-8000-000000000001";
    action = Action.verify_module;
    status = ProductionStatus.succeeded;
    started_at = "2026-01-02T03:04:05Z";
    finished_at = "2026-01-02T03:04:05Z";
    exit_code = some 0;
    summary = "Module verification passed";
    output = "output";
    output_truncated = false;
    error = none;
    module_ids = "ssh" ∷ [];
    backup_id = none;
    finding_count = none;
  }),
)
unfolding execute permits command_of stop try_block finish read_bounded read_on result_of
    cancelled_of failure_of production_result canonical_request_id is_request_id check_module_id
    check_module_ids bounded_text check_result_shape is_timestamp
is_answered_with_success = refl

execute-IsHonest_example : IsHonest verify_ssh (execute commands library verified verify_ssh)
execute-IsHonest_example = execute-IsHonest library verify_ssh commands verified
