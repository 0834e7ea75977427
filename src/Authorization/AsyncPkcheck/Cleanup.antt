-- ===== src/Authorization/AsyncPkcheck/Cleanup.antt =====
-- What becomes of the child process.
use lsmf.Base.{
  ℕ, String, Bool, true, false, ◌||◌, List, [], some, none, ◌≡◌, refl, arith, ℤ, inl, inr, ◌⊎◌, any,
  if_intro,
}
use lsmf.Base.Results.{Result, ok, err}
use lsmf.Base.Dict.{mem}
use lsmf.Peer.Identity.{RequestBinding}
use lsmf.Authorization.ProcessTime.{process_start_time}
use lsmf.Authorization.Pkcheck.{
  Outcome, verdict, adapter_error, cancelled, other_error, judge, pkcheck_argv, polkit_action_ids,
}
use lsmf.Authorization.AsyncPkcheck.{
  Waited, exited, timed_out, no_process, interrupted, broke, Signalled, sent, missing, refused,
  Child, Spawned, child, failed, abandoned, raised, Answers, Act, started, terminated, killed, gone,
  reaped, Part, stop, after_wait, after_spawn, then_raise, timed_acts, async_authorize,
}

-- the child's end
abbrev pub is_end : Act → Bool
is_end started = false
is_end terminated = false
is_end killed = false
is_end gone = true
is_end (reaped _) = true

-- an exception other than the adapter's own
abbrev pub is_foreign : Outcome → Bool
is_foreign (verdict _) = false
is_foreign (adapter_error _) = false
is_foreign cancelled = true
is_foreign (other_error _) = true

-- a wait in `_stop` that another cancellation or an unexpected exception ends
abbrev pub is_cut : Waited → Bool
is_cut (exited _) = false
is_cut timed_out = false
is_cut no_process = false
is_cut interrupted = true
is_cut (broke _) = true

abbrev pub is_timed_out : Waited → Bool
is_timed_out (exited _) = false
is_timed_out timed_out = true
is_timed_out no_process = false
is_timed_out interrupted = false
is_timed_out (broke _) = false

-- an exception of a signal that nothing catches
abbrev pub is_refused : Signalled → Bool
is_refused sent = false
is_refused missing = false
is_refused (refused _) = true

-- The cleanup itself is cut short: a signal is refused or a wait interrupted, or the wait after
-- `kill`, which has no limit, times out.
abbrev pub cuts_cleanup : Child → Bool
cuts_cleanup c =
    is_refused c.to_terminate
    || is_refused c.to_kill
    || is_cut c.waited_again
    || is_cut c.waited_last
    || is_timed_out c.waited_last

abbrev IsCleaned : Child → Part → Type 0
IsCleaned c (acts, none) = any is_end acts ≡ true
IsCleaned c (acts, some error) = (is_foreign error ≡ true) × (cuts_cleanup c ≡ true)

stop-IsCleaned : (c : Child) → IsCleaned c (stop c)
unfolding stop
stop-IsCleaned c = ground arith

-- what is left of the child when the call is over
abbrev pub IsEnded : (List (List ℕ) → Spawned) → List Act × Outcome → Type 0
IsEnded spawn (acts, outcome) =
    (acts ≡ [])
    ⊎ (any is_end acts ≡ true)
    ⊎ ((is_foreign outcome ≡ true)
        × (argv : List (List ℕ)) × (c : Child) × (spawn argv ≡ child c)
        × (cuts_cleanup c ≡ true))

module _ (spawn : List (List ℕ) → Spawned) (argv : List (List ℕ)) (judged : ℤ → Outcome) where
  then_raise-IsEnded :
      (c : Child) (part : Part) (outcome : Outcome)
      → spawn argv ≡ child c
      → IsCleaned c part
      → IsEnded spawn (then_raise part outcome)
  then_raise-IsEnded c (acts, none) outcome here cleaned = inr (inl cleaned)
  then_raise-IsEnded c (acts, some error) outcome here cleaned =
      inr (inr (cleaned.0, argv, c, here, cleaned.1))

  after_wait-IsEnded :
      (c : Child) (w : Waited) → spawn argv ≡ child c → IsEnded spawn (after_wait w (stop c) judged)
  after_wait-IsEnded c (exited code) here = inr (inl refl)
  after_wait-IsEnded c timed_out here = then_raise-IsEnded c (stop c) _ here (stop-IsCleaned c)
  after_wait-IsEnded c no_process here = then_raise-IsEnded c (stop c) _ here (stop-IsCleaned c)
  after_wait-IsEnded c interrupted here = then_raise-IsEnded c (stop c) _ here (stop-IsCleaned c)
  after_wait-IsEnded c (broke message) here =
      then_raise-IsEnded c (stop c) _ here (stop-IsCleaned c)

  after_spawn-IsEnded : (s : Spawned) → spawn argv ≡ s → IsEnded spawn (after_spawn s judged)
  after_spawn-IsEnded (child c) here = after_wait-IsEnded c c.waited here
  after_spawn-IsEnded failed here = inl refl
  after_spawn-IsEnded abandoned here = inl refl
  after_spawn-IsEnded (raised message) here = inl refl

timed-IsEnded :
    (spawn : List (List ℕ) → Spawned) (argv : ℕ → List (List ℕ)) (again : Result ℕ)
    (before : Result ℕ)
    → IsEnded spawn
        (timed_acts before λ s. after_spawn (spawn (argv s)) (λ code. judge code s again))
timed-IsEnded spawn argv again (err message) = inl refl
timed-IsEnded spawn argv again (ok s) =
    after_spawn-IsEnded spawn (argv s) (λ code. judge code s again) (spawn (argv s)) refl

-- Whatever a call of the asynchronous authorizer ends with, no child was started, or the call has
-- seen the child's end, or the call ends by a cancellation or a foreign exception and the cleanup of
-- a child that it started was itself cut short. So a child has ended whenever the call returns a
-- verdict or raises the adapter's own error.
pub async_authorize-IsEnded :
    (executable : List ℕ) (answers : Answers) (authorization_id : String) (binding : RequestBinding)
    → IsEnded answers.spawn (async_authorize executable answers authorization_id binding)
unfolding async_authorize
async_authorize-IsEnded executable answers authorization_id binding =
    if_intro (IsEnded answers.spawn) (mem authorization_id polkit_action_ids)
      (λ listed.
        timed-IsEnded answers.spawn (λ s. pkcheck_argv executable authorization_id binding s)
          (process_start_time binding.peer.pid answers.stat_after)
          (process_start_time binding.peer.pid answers.stat_before))
      (λ unlisted. inl refl)
