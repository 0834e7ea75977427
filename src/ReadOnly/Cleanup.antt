-- ===== src/ReadOnly/Cleanup.antt =====
-- What becomes of the worker's process.
use lsmf.Base.{
  ℕ, String, Bool, true, false, not, ◌&&◌, ◌||◌, List, [], ◌∷◌, ◌++◌, Option, none, some, ◌≡◌, refl,
  arith, ℤ, inl, inr, ◌⊎◌, any, if_intro, subst, Bool-cases,
}
use lsmf.Base.Results.{Result}
use lsmf.Protocol.Models.{ProductionRequest, ProductionResult}
use lsmf.ReadOnly.Output.{Reads}
use lsmf.ReadOnly.Results.{Commands, permits, command_of, Library, cancelled_of, result_of}
use lsmf.ReadOnly.Executor.{
  Signalled, refused, Waited, exited, timed_out, broke, Stopping, Ending, fine, abandoned, failed,
  Act, reaped, Stopped, stop, Rounds, again, asked, asleep, over, Answers, Outcome, answered,
  read_only_error, cancelled, Body, returns, ends, raises_cancelled, raises_other, drop_output,
  handler, finish, after_drop, asked_body, acts_of, over_body, try_block, onto, answer, spawned,
  start, unless_cancelled, execute, returned,
}

abbrev pub is_end : Act → Bool
is_end (reaped _) = true
is_end _ = false

abbrev pub is_answered : Outcome → Bool
is_answered (answered _) = true
is_answered _ = false

abbrev pub is_exited : Waited → Bool
is_exited (exited _) = true
is_exited _ = false

abbrev is_timed_out : Waited → Bool
is_timed_out timed_out = true
is_timed_out _ = false

abbrev is_broken : Waited → Bool
is_broken (broke _) = true
is_broken _ = false

abbrev is_refused : Signalled → Bool
is_refused (refused _) = true
is_refused _ = false

-- The wait for the process, which the loop watches, itself ends without an exit code.
abbrev pub wait_failed : Rounds → Bool
wait_failed (again rounds) = wait_failed rounds
wait_failed (asked _) = false
wait_failed (asleep none) = false
wait_failed (asleep (some w)) = not (is_exited w)
wait_failed (over w _) = not (is_exited w)

-- The same in a run of `_stop`.
abbrev pub breaks_wait : Stopping → Bool
breaks_wait s = is_broken s.first_wait || not (is_exited s.last_wait)

-- A run of `_stop` is cut short: a signal is refused, or a wait is cancelled or raises.
abbrev pub is_cut : Stopping → Bool
is_cut s =
    is_refused s.at_sigterm
    || not (is_exited s.first_wait || is_timed_out s.first_wait)
    || is_refused s.at_sigkill
    || not (is_exited s.last_wait)

abbrev pub escapes : Answers → Bool
escapes a = wait_failed a.rounds || breaks_wait a.first || is_cut a.second

-- no process, one whose end the call has seen, or no answer
abbrev pub IsEnded : Answers → List Act × Outcome → Type 0
IsEnded a (acts, outcome) =
    (acts ≡ []) ⊎ (any is_end acts ≡ true) ⊎ ((is_answered outcome ≡ false) × (escapes a ≡ true))

abbrev is_fine : Ending → Bool
is_fine fine = true
is_fine _ = false

-- A run of `_stop` sees the end, or raises and is cut; after it the wait goes on or was broken.
abbrev IsStopped : Stopping → Stopped → Type 0
IsStopped s (acts, ending, is_done) =
    (any is_end acts || (not (is_fine ending) && is_cut s && (not is_done || breaks_wait s))) ≡ true

stop-IsStopped : (s : Stopping) → IsStopped s (stop false s)
unfolding stop
stop-IsStopped s = ground arith

abbrev is_open : Body → Bool
is_open raises_cancelled = true
is_open raises_other = true
is_open _ = false

-- After the `try` block the end was seen, or it raised and the wait goes on or was broken.
abbrev IsTried : Bool → List Act × Body × Bool → Type 0
IsTried broken (acts, body, is_done) =
    (any is_end acts || (is_open body && (not is_done || broken))) ≡ true

asked-IsTried :
    (s : Stopping) (t : Stopped) (body : Body) (broken : Bool)
    → IsStopped s t
    → IsTried (broken || breaks_wait s) (asked_body t body)
asked-IsTried s (acts, fine, is_done) body broken h = ground arith
asked-IsTried s (acts, abandoned, is_done) body broken h = ground arith
asked-IsTried s (acts, failed message, is_done) body broken h = ground arith

over-IsTried :
    (w : Waited) (reads : Option Reads) (broken : Bool)
    → IsTried (not (is_exited w) || broken) (acts_of w, over_body w reads, true)
over-IsTried w reads broken = ground arith

try_block-IsTried :
    (gives : Bool → Body) (a : Answers) (rounds : Rounds)
    → IsTried (wait_failed rounds || breaks_wait a.first) (try_block gives a rounds)
unfolding try_block
try_block-IsTried gives a (again rounds) = try_block-IsTried gives a rounds
try_block-IsTried gives a (asked t) =
    asked-IsTried a.first (stop false a.first) (after_drop (drop_output a.dropped) (gives t)) false
      (stop-IsStopped a.first)
try_block-IsTried gives a (asleep none) = refl
try_block-IsTried gives a (asleep (some w)) = ground arith
try_block-IsTried gives a (over w reads) = over-IsTried w reads (breaks_wait a.first)

any-append : (xs ys : List Act) → any is_end (xs ++ ys) ≡ (any is_end xs || any is_end ys)
any-append [] ys = refl
any-append (x ∷ xs) ys = ground (arith, any-append xs ys)

abbrev IsOver : Bool → List Act × Outcome → Type 0
IsOver escape (acts, outcome) = (any is_end acts || (not (is_answered outcome) && escape)) ≡ true

handler-IsOver :
    (s : Stopping) (t : Stopped) (drop : Ending) (outcome : Outcome)
    → is_answered outcome ≡ false
    → IsStopped s t
    → IsOver (is_cut s) (handler t drop outcome)
handler-IsOver s (acts, fine, d) drop outcome n h = ground arith
handler-IsOver s (acts, abandoned, d) drop outcome n h = ground arith
handler-IsOver s (acts, failed message, d) drop outcome n h = ground arith

pub handler-unanswered :
    (t : Stopped) (drop : Ending) (outcome : Outcome)
    → is_answered outcome ≡ false
    → is_answered ((handler t drop outcome).1) ≡ false
handler-unanswered (acts, fine, d) fine outcome n = n
handler-unanswered (acts, fine, d) abandoned outcome n = refl
handler-unanswered (acts, fine, d) (failed message) outcome n = refl
handler-unanswered (acts, abandoned, d) drop outcome n = refl
handler-unanswered (acts, failed message, d) drop outcome n = refl

onto-IsOver :
    (a : Answers) (acts : List Act) (is_done : Bool) (broken : Bool) (outcome : Outcome)
    → is_answered outcome ≡ false
    → (any is_end acts || (not is_done || broken)) ≡ true
    → IsOver
        (broken || is_cut a.second)
        (onto acts (handler (stop is_done a.second) (drop_output a.dropped) outcome))
onto-IsOver a acts true broken outcome n h =
    let rest = handler (stop true a.second) (drop_output a.dropped) outcome in
    ground (
      arith,
      any-append acts rest.0,
      handler-unanswered (stop true a.second) (drop_output a.dropped) outcome n,
    )
onto-IsOver a acts false broken outcome n h =
    let rest = handler (stop false a.second) (drop_output a.dropped) outcome in
    let over =
      handler-IsOver a.second (stop false a.second) (drop_output a.dropped) outcome n
        (stop-IsStopped a.second) in
    ground (arith, any-append acts rest.0, over)

finish-IsOver :
    (result : ℤ → List ℕ → Bool → Result ProductionResult) (a : Answers) (broken : Bool)
    (tried : List Act × Body × Bool)
    → IsTried broken tried
    → IsOver (broken || is_cut a.second) (finish result a tried)
unfolding finish
finish-IsOver result a broken (acts, returns r, d) h = ground arith
finish-IsOver result a broken (acts, ends code output truncated, d) h = ground arith
finish-IsOver result a broken (acts, raises_cancelled, d) h =
    onto-IsOver a acts d broken cancelled refl (ground arith)
finish-IsOver result a broken (acts, raises_other, d) h =
    onto-IsOver a acts d broken (read_only_error "read-only worker failed closed") refl
      (ground arith)

over-IsEnded :
    (a : Answers) (r : List Act × Outcome) → IsOver (escapes a) r → IsEnded a (spawned fine r)
over-IsEnded a (acts, outcome) h = elim (Bool-cases (any is_end acts)) [
  | inl seen ↦ inr (inl seen)
  | inr unseen ↦ inr (inr (ground (arith, unseen), ground (arith, unseen)))
]

spawned-IsEnded :
    (a : Answers) (e : Ending) (r : List Act × Outcome)
    → IsOver (escapes a) r
    → IsEnded a (spawned e r)
spawned-IsEnded a fine r h = over-IsEnded a r h
spawned-IsEnded a abandoned r h = inl refl
spawned-IsEnded a (failed message) r h = inl refl

start-IsEnded :
    (a : Answers) (command : Option (List String)) (r : List Act × Outcome)
    → IsOver (escapes a) r
    → IsEnded a (start command a.spawn r)
start-IsEnded a none r h = inl refl
start-IsEnded a (some command) r h = spawned-IsEnded a (a.spawn command) r h

unless-IsEnded :
    (a : Answers) (token : Option Bool) (early : Bool → Outcome) (r : List Act × Outcome)
    → IsEnded a r
    → IsEnded a (unless_cancelled token early r)
unless-IsEnded a none early r h = h
unless-IsEnded a (some t) early r h = inl refl

-- However a call of `execute` ends, it started no process, or it has seen the process's end, or it
-- ends without an answer, and the wait for the process failed, or the last run of `_stop` was itself
-- cut short: a signal was refused, or a wait was cancelled or raised. So a call that answers a
-- request leaves no process behind.
pub execute-IsEnded :
    (commands : Commands) (lib : Library) (a : Answers) (request : ProductionRequest)
    → IsEnded a (execute commands lib a request)
unfolding execute
execute-IsEnded commands lib a request =
    let gives : Bool → Body = λ t. returned (cancelled_of lib request t) in
    let tried = try_block gives a a.rounds in
    if_intro (IsEnded a) (permits commands request)
      (λ permitted.
        unless-IsEnded a a.token (λ t. answer (cancelled_of lib request t)) _
          (start-IsEnded a (command_of commands request) (finish (result_of lib request) a tried) (
            subst (λ escape. IsOver escape (finish (result_of lib request) a tried))
              {x = (wait_failed a.rounds || breaks_wait a.first) || is_cut a.second} (ground arith)
              (finish-IsOver (result_of lib request) a (wait_failed a.rounds || breaks_wait a.first)
                tried (try_block-IsTried gives a a.rounds)))))
      (λ refused. inl refl)
