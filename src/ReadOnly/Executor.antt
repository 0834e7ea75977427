-- ===== src/ReadOnly/Executor.antt =====
-- lsmf/read_only_process.py `execute` and `_stop`: the worker's process from its start to its end.
use lsmf.Base.{
  ℕ, String, Bool, true, false, List, [], ◌∷◌, ◌++◌, Option, none, some, ℤ, if◌then◌else◌,
}
use lsmf.Base.Results.{Result, ok, err}
use lsmf.Protocol.Models.{ProductionRequest, ProductionResult}
use lsmf.ReadOnly.Output.{Reads, read_bounded}
use lsmf.ReadOnly.Results.{Commands, permits, command_of, Library, cancelled_of, result_of}

-- what `killpg` does; without a process, its ProcessLookupError is suppressed
pub data Signalled : Type 0 where
  delivered no_process : Signalled
  refused : String → Signalled

-- what an `await` of the wait for the process ends with
pub data Waited : Type 0 where
  exited : ℤ → Waited
  timed_out interrupted : Waited
  broke : String → Waited

-- what one run of `_stop` meets, in order
pub record Stopping : Type 0 where
  pub at_sigterm : Signalled
  pub first_wait : Waited
  pub at_sigkill : Signalled
  pub last_wait : Waited

-- how a part of the call ends: normally, by the cancellation of the task, or by another exception
pub data Ending : Type 0 where
  fine abandoned : Ending
  failed : String → Ending

pub data Act : Type 0 where
  started sent_sigterm sent_sigkill : Act
  reaped : ℤ → Act

-- what `_stop` did, how it ended, and `wait_task.done()` afterwards
abbrev pub Stopped : Type 0
Stopped = List Act × Ending × Bool

abbrev pub also : Act → Stopped → Stopped
also act (acts, ending, is_done) = (act ∷ acts, ending, is_done)

abbrev pub end_wait : Waited → Stopped
end_wait (exited code) = (reaped code ∷ [], fine, true)
end_wait timed_out = ([], failed "TimeoutError", true)
end_wait interrupted = ([], abandoned, true)
end_wait (broke message) = ([], failed message, true)

-- `_signal_process_group` and what follows
abbrev pub signal_group : Act → Signalled → Stopped → Stopped
signal_group act delivered after = also act after
signal_group act no_process after = after
signal_group act (refused message) after = ([], failed message, false)

-- the wait for the grace, which is shielded, and what follows a time-out
abbrev pub grace : Waited → Stopped → Stopped
grace (exited code) after = (reaped code ∷ [], fine, true)
grace timed_out after = after
grace interrupted after = ([], abandoned, false)
grace (broke message) after = ([], failed message, true)

-- `_stop`, with `wait_task.done()`
unfoldable pub stop : Bool → Stopping → Stopped
stop is_done s =
    if is_done
    then ([], fine, true)
    else signal_group sent_sigterm s.at_sigterm
        (grace s.first_wait (signal_group sent_sigkill s.at_sigkill (end_wait s.last_wait)))

-- The rounds of the loop, up to the one that leaves it: another round, the token is cancelled (with
-- its `timed_out`), the task is cancelled in its sleep (with what the wait has ended with by then, if
-- it has), or the wait has ended (then with the reads of the output, or none where the task is
-- cancelled as it waits for them). A call that waits for ever, for the worker or for an output that
-- does not end, has no such value.
pub data Rounds : Type 0 where
  again : Rounds → Rounds
  asked : Bool → Rounds
  asleep : Option Waited → Rounds
  over : Waited → Option Reads → Rounds

-- What one call meets: the token as the call begins, how the start of a command's process ends, the
-- rounds, both runs of
-- `_stop`, and the reads of the output where it is dropped, if they have ended.
pub record Answers : Type 0 where
  pub token : Option Bool
  pub spawn : List String → Ending
  pub rounds : Rounds
  pub first : Stopping
  pub second : Stopping
  pub dropped : Option Reads

pub data Outcome : Type 0 where
  answered : ProductionResult → Outcome
  read_only_error : String → Outcome
  cancelled : Outcome
  other_error : String → Outcome

-- how the `try` block ends: by `return`, at its end, or by an exception
pub data Body : Type 0 where
  returns : ProductionResult → Body
  ends : ℤ → List ℕ → Bool → Body
  raises_cancelled raises_other : Body

-- `with suppress(CancelledError): await output_task`, after `cancel`
abbrev pub drop_read : Result (List ℕ × Bool) → Ending
drop_read (ok _) = fine
drop_read (err message) = failed message

abbrev pub drop_output : Option Reads → Ending
drop_output none = fine
drop_output (some reads) = drop_read (read_bounded reads)

abbrev pub acts_of : Waited → List Act
acts_of (exited code) = reaped code ∷ []
acts_of _ = []

abbrev pub returned : Result ProductionResult → Body
returned (ok result) = returns result
returned (err message) = raises_other

-- the branch of a cancelled token
abbrev pub after_drop : Ending → Body → Body
after_drop fine body = body
after_drop abandoned body = raises_cancelled
after_drop (failed message) body = raises_other

abbrev pub after_stop : Ending → Body → Body
after_stop fine body = body
after_stop abandoned body = raises_cancelled
after_stop (failed message) body = raises_other

abbrev pub asked_body : Stopped → Body → List Act × Body × Bool
asked_body (acts, ending, is_done) body = (acts, after_stop ending body, is_done)

abbrev pub output_body : ℤ → Result (List ℕ × Bool) → Body
output_body code (ok (output, truncated)) = ends code output truncated
output_body code (err message) = raises_other

abbrev pub over_body : Waited → Option Reads → Body
over_body (exited code) none = raises_cancelled
over_body (exited code) (some reads) = output_body code (read_bounded reads)
over_body interrupted reads = raises_cancelled
over_body timed_out reads = raises_other
over_body (broke message) reads = raises_other

-- the `try` block, and `wait_task.done()` after it
unfoldable pub try_block : (Bool → Body) → Answers → Rounds → List Act × Body × Bool
try_block gives a (again rounds) = try_block gives a rounds
try_block gives a (asked t) =
    asked_body (stop false a.first) (after_drop (drop_output a.dropped) (gives t))
try_block gives a (asleep none) = ([], raises_cancelled, false)
try_block gives a (asleep (some w)) = (acts_of w, raises_cancelled, true)
try_block gives a (over w reads) = (acts_of w, over_body w reads, true)

-- an `except` clause, which runs `_stop` and drops the output
abbrev pub dropped_outcome : Ending → Outcome → Outcome
dropped_outcome fine outcome = outcome
dropped_outcome abandoned outcome = cancelled
dropped_outcome (failed message) outcome = other_error message

abbrev pub handler : Stopped → Ending → Outcome → List Act × Outcome
handler (acts, fine, _) drop outcome = (acts, dropped_outcome drop outcome)
handler (acts, abandoned, _) drop outcome = (acts, cancelled)
handler (acts, failed message, _) drop outcome = (acts, other_error message)

abbrev pub answer : Result ProductionResult → Outcome
answer (ok result) = answered result
answer (err message) = other_error message

abbrev pub onto : List Act → List Act × Outcome → List Act × Outcome
onto acts (more, outcome) = (acts ++ more, outcome)

-- the clauses after the `try` block, and the last `return`
unfoldable pub finish :
    (ℤ → List ℕ → Bool → Result ProductionResult)
    → Answers
    → List Act × Body × Bool
    → List Act × Outcome
finish result a (acts, returns r, is_done) = (acts, answered r)
finish result a (acts, ends code output truncated, is_done) =
    (acts, answer (result code output truncated))
finish result a (acts, raises_cancelled, is_done) =
    onto acts (handler (stop is_done a.second) (drop_output a.dropped) cancelled)
finish result a (acts, raises_other, is_done) = onto acts (
    handler (stop is_done a.second) (drop_output a.dropped)
      (read_only_error "read-only worker failed closed"))

-- the process's start
abbrev pub spawned : Ending → List Act × Outcome → List Act × Outcome
spawned fine (acts, outcome) = (started ∷ acts, outcome)
spawned abandoned rest = ([], cancelled)
spawned (failed message) rest = ([], read_only_error "read-only worker could not be started")

abbrev pub unless_cancelled :
    Option Bool → (Bool → Outcome) → List Act × Outcome → List Act × Outcome
unless_cancelled none early rest = rest
unless_cancelled (some t) early rest = ([], early t)

-- a permitted request has a command: no `KeyError` is left
abbrev pub start :
    Option (List String) → (List String → Ending) → List Act × Outcome → List Act × Outcome
start none spawn rest = ([], other_error "KeyError")
start (some command) spawn rest = spawned (spawn command) rest

-- `execute`
unfoldable pub execute : Commands → Library → Answers → ProductionRequest → List Act × Outcome
execute commands lib a request =
    if permits commands request
    then unless_cancelled a.token (λ t. answer (cancelled_of lib request t))
        (start (command_of commands request) a.spawn (
          finish (result_of lib request) a
            (try_block (λ t. returned (cancelled_of lib request t)) a a.rounds)))
    else ([], read_only_error "action is not in the read-only command allowlist")
