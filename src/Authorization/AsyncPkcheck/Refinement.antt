-- ===== src/Authorization/AsyncPkcheck/Refinement.antt =====
-- The two authorizers agree on verdicts.
use lsmf.Base.{ℕ, String, Bool, List, Option, some, none, ◌≡◌, refl, arith, Bool-cases, inl, inr}
use lsmf.Base.Results.{Result, ok, err}
use lsmf.Base.Dict.{mem}
use lsmf.Peer.Identity.{RequestBinding}
use lsmf.Authorization.ProcessTime.{process_start_time}
use lsmf.Authorization.Pkcheck
use lsmf.Authorization.Pkcheck.{
  Outcome, verdict, adapter_error, cancelled, other_error, authorize, judge, pkcheck_argv,
  polkit_action_ids,
}
use lsmf.Authorization.AsyncPkcheck.{
  Waited, exited, timed_out, no_process, interrupted, broke, Child, Spawned, child, failed,
  abandoned, raised, Answers, Part, stop, after_wait, after_spawn, then_raise, timed_acts,
  async_authorize,
}

-- what a caller learns: a verdict, or none
abbrev pub verdict_of : Outcome → Option Bool
verdict_of (verdict b) = some b
verdict_of (adapter_error _) = none
verdict_of cancelled = none
verdict_of (other_error _) = none

-- The run of the other authorizer that a child's first wait stands for.
abbrev pub ran_of_wait : Waited → Pkcheck.Ran
ran_of_wait (exited code) = Pkcheck.exited code
ran_of_wait timed_out = Pkcheck.failed
ran_of_wait no_process = Pkcheck.failed
ran_of_wait interrupted = Pkcheck.failed
ran_of_wait (broke message) = Pkcheck.raised message

abbrev pub ran_of : Spawned → Pkcheck.Ran
ran_of (child c) = ran_of_wait c.waited
ran_of failed = Pkcheck.failed
ran_of abandoned = Pkcheck.failed
ran_of (raised message) = Pkcheck.raised message

abbrev pub as_run : Answers → Pkcheck.Answers
as_run a = record {
  stat_before = a.stat_before;
  run = λ argv. ran_of (a.spawn argv);
  stat_after = a.stat_after;
}

-- an exception is no verdict
abbrev raises_verdict : Option Outcome → Option Bool
raises_verdict none = none
raises_verdict (some outcome) = verdict_of outcome

stop_raises : (c : Child) → raises_verdict (stop c).1 ≡ none
unfolding stop
stop_raises c = ground arith

verdict-then_raise :
    (part : Part) (outcome : Outcome)
    → raises_verdict part.1 ≡ none
    → verdict_of outcome ≡ none
    → verdict_of (then_raise part outcome).1 ≡ none
verdict-then_raise (acts, none) outcome h k = k
verdict-then_raise (acts, some error) outcome h k = h

-- the rest of `authorize` once the program was started
module _ (start_time : ℕ) (again : Result ℕ) where
  after_wait-refines :
      (w : Waited) (part : Part)
      → raises_verdict part.1 ≡ none
      → verdict_of (after_wait w part (λ code. judge code start_time again)).1
        ≡ verdict_of (Pkcheck.judge_run (ran_of_wait w) start_time again)
  after_wait-refines (exited code) part h = refl
  after_wait-refines timed_out part h = verdict-then_raise part _ h refl
  after_wait-refines no_process part h = verdict-then_raise part _ h refl
  after_wait-refines interrupted part h = verdict-then_raise part _ h refl
  after_wait-refines (broke message) part h = verdict-then_raise part _ h refl

  after_spawn-refines :
      (s : Spawned)
      → verdict_of (after_spawn s (λ code. judge code start_time again)).1
        ≡ verdict_of (Pkcheck.judge_run (ran_of s) start_time again)
  after_spawn-refines (child c) = after_wait-refines c.waited (stop c) (stop_raises c)
  after_spawn-refines failed = refl
  after_spawn-refines abandoned = refl
  after_spawn-refines (raised message) = refl

timed-refines :
    (before again : Result ℕ) (spawn : ℕ → Spawned)
    → verdict_of (timed_acts before λ s. after_spawn (spawn s) (λ code. judge code s again)).1
      ≡ verdict_of (Pkcheck.timed before λ s. Pkcheck.judge_run (ran_of (spawn s)) s again)
timed-refines (err message) again spawn = refl
timed-refines (ok s) again spawn = after_spawn-refines s again (spawn s)

-- The asynchronous authorizer gives a verdict exactly where the other does whose run returns the
-- code that the wait for the child returns, and the same verdict. A child that could not be
-- started, was waited for in vain or interrupted stands for a run that failed.
pub async_authorize-refines :
    (executable : List ℕ) (answers : Answers) (authorization_id : String) (binding : RequestBinding)
    → verdict_of (async_authorize executable answers authorization_id binding).1
      ≡ verdict_of (authorize executable (as_run answers) authorization_id binding)
unfolding async_authorize authorize
async_authorize-refines executable answers authorization_id binding =
    elim (Bool-cases (mem authorization_id polkit_action_ids)) [
      | inl listed ↦ rw listed (
          timed-refines (process_start_time binding.peer.pid answers.stat_before)
            (process_start_time binding.peer.pid answers.stat_after)
            (λ s. answers.spawn (pkcheck_argv executable authorization_id binding s)))
      | inr unlisted ↦ rw unlisted
    ]
