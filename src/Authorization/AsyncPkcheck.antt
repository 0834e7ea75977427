-- ===== src/Authorization/AsyncPkcheck.antt =====
-- lsmf/system_authorization.py `AsyncPkcheckAuthorizer`: the same check over a child process that
-- it waits for, and what it does to the child when the wait ends otherwise.
pub mod Refinement
pub mod Cleanup
use lsmf.Base.{
  ℕ, String, Bool, true, false, List, [], ◌∷◌, ◌++◌, Option, none, some, ℤ, if◌then◌else◌,
}
use lsmf.Base.Results.{Result, ok, err}
use lsmf.Base.Dict.{mem}
use lsmf.Peer.Identity.{RequestBinding}
use lsmf.Authorization.ProcessTime.{process_start_time}
use lsmf.Authorization.Pkcheck.{
  Outcome, verdict, adapter_error, cancelled, other_error, timed, judge, pkcheck_argv,
  polkit_action_ids,
}

-- what an `await` of `process.wait()` ends with: a return code, a time-out, a ProcessLookupError,
-- the cancellation of the task, or another exception
pub data Waited : Type 0 where
  exited : ℤ → Waited
  timed_out no_process interrupted : Waited
  broke : String → Waited

-- what sending a signal to the child comes to: it is sent, a ProcessLookupError, or another exception
pub data Signalled : Type 0 where
  sent missing : Signalled
  refused : String → Signalled

-- A child process as it answers during one call: to the first wait, then if its return code is
-- known, to `terminate`, to the wait for that, to `kill`, and to the last wait.
pub record Child : Type 0 where
  pub waited : Waited
  pub has_returned : Bool
  pub to_terminate : Signalled
  pub waited_again : Waited
  pub to_kill : Signalled
  pub waited_last : Waited

-- What `process_factory` returns or raises: an OSError or SubprocessError, the cancellation of the
-- task, or another exception. Where it raises, none of them has left a child: when its start is
-- cancelled, asyncio itself kills the child and waits for it.
pub data Spawned : Type 0 where
  child : Child → Spawned
  failed abandoned : Spawned
  raised : String → Spawned

pub record Answers : Type 0 where
  pub stat_before : Result (List ℕ)
  pub spawn : List (List ℕ) → Spawned
  pub stat_after : Result (List ℕ)

-- What happens to the child, in order. `gone` is where the code learns, without a return code from
-- its own wait, that the child has ended.
pub data Act : Type 0 where
  started terminated killed gone : Act
  reaped : ℤ → Act

-- What a part of a call did, and the exception that it ended with, if any.
abbrev pub Part : Type 0
Part = List Act × Option Outcome

-- the last wait of `_stop`, after `kill`
abbrev pub last_wait : Waited → Part
last_wait (exited code) = (killed ∷ reaped code ∷ [], none)
last_wait timed_out = (killed ∷ [], some (other_error "TimeoutError"))
last_wait no_process = (killed ∷ gone ∷ [], none)
last_wait interrupted = (killed ∷ [], some cancelled)
last_wait (broke message) = (killed ∷ [], some (other_error message))

-- a signal, and what follows where it is sent
abbrev pub after_signal : Signalled → Part → Part
after_signal sent rest = rest
after_signal missing rest = (gone ∷ [], none)
after_signal (refused message) rest = ([], some (other_error message))

-- `process.kill()` and what follows
abbrev pub kill_child : Child → Part
kill_child c = after_signal c.to_kill (last_wait c.waited_last)

abbrev pub also : Act → Part → Part
also act (acts, error) = (act ∷ acts, error)

-- the wait after `terminate`
abbrev pub second_wait : Waited → Part → Part
second_wait (exited code) otherwise = (terminated ∷ reaped code ∷ [], none)
second_wait timed_out otherwise = also terminated otherwise
second_wait no_process otherwise = also terminated otherwise
second_wait interrupted otherwise = (terminated ∷ [], some cancelled)
second_wait (broke message) otherwise = (terminated ∷ [], some (other_error message))

-- `_stop`
unfoldable pub stop : Child → Part
stop c =
    if c.has_returned
    then (gone ∷ [], none)
    else after_signal c.to_terminate (second_wait c.waited_again (kill_child c))

-- `await self._stop(process)` and then `raise`
abbrev pub then_raise : Part → Outcome → List Act × Outcome
then_raise (acts, none) outcome = (started ∷ acts, outcome)
then_raise (acts, some error) outcome = (started ∷ acts, error)

-- the clauses around `await asyncio.wait_for(process.wait(), ...)`
abbrev pub after_wait : Waited → Part → (ℤ → Outcome) → List Act × Outcome
after_wait (exited code) stopped judged = (started ∷ reaped code ∷ [], judged code)
after_wait timed_out stopped judged =
    then_raise stopped (adapter_error "Polkit authorization timed out")
after_wait interrupted stopped judged = then_raise stopped cancelled
after_wait no_process stopped judged =
    then_raise stopped (adapter_error "Polkit authorization failed closed")
after_wait (broke message) stopped judged =
    then_raise stopped (adapter_error "Polkit authorization failed closed")

abbrev pub after_spawn : Spawned → (ℤ → Outcome) → List Act × Outcome
after_spawn (child c) judged = after_wait c.waited (stop c) judged
after_spawn failed judged = ([], adapter_error "Polkit authorization failed closed")
after_spawn abandoned judged = ([], cancelled)
after_spawn (raised message) judged = ([], other_error message)

abbrev pub timed_acts : Result ℕ → (ℕ → List Act × Outcome) → List Act × Outcome
timed_acts (err message) rest = ([], adapter_error message)
timed_acts (ok start_time) rest = rest start_time

-- `AsyncPkcheckAuthorizer.authorize`
unfoldable pub async_authorize : List ℕ → Answers → String → RequestBinding → List Act × Outcome
unfolding stop judge
async_authorize executable answers authorization_id binding =
    if mem authorization_id polkit_action_ids
    then timed_acts (process_start_time binding.peer.pid answers.stat_before) (λ start_time.
      after_spawn (answers.spawn (pkcheck_argv executable authorization_id binding start_time))
        (λ code. judge code start_time (process_start_time binding.peer.pid answers.stat_after)))
    else ([], adapter_error "authorization ID is not allowlisted")
