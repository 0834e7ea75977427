-- ===== src/ReadOnly/Success.antt =====
-- An answer of success comes from a worker that succeeded.
use lsmf.Base.{
  ℕ, String, Bool, true, false, not, ◌||◌, List, [], ◌∷◌, Option, none, some, ◌≡◌, refl, arith, ℤ,
  any, if_intro,
}
use lsmf.Base.Results.{Result, ok, err}
use lsmf.Protocol.Models.{ProductionRequest, ProductionResult}
use lsmf.ReadOnly.Output.{Reads, read_bounded}
use lsmf.ReadOnly.Results.{Commands, permits, command_of, Library, cancelled_of, result_of, is_zero}
use lsmf.ReadOnly.Executor.{
  Waited, exited, timed_out, interrupted, broke, Ending, fine, abandoned, failed, Act, reaped,
  Stopped, stop, Rounds, again, asked, asleep, over, Answers, Outcome, answered, read_only_error,
  cancelled, other_error, Body, returns, ends, raises_cancelled, raises_other, drop_output, handler,
  finish, after_drop, asked_body, acts_of, over_body, output_body, try_block, onto, answer, spawned,
  start, unless_cancelled, execute, returned,
}
use lsmf.ReadOnly.Cleanup.{is_answered, handler-unanswered}
use lsmf.ReadOnly.Answers.{IsFor, cancelled_of-IsFor, result_of-IsFor}

-- the worker's exit with the code 0
abbrev pub is_success : Act → Bool
is_success (reaped code) = is_zero code
is_success _ = false

-- what an outcome says, if it is an answer
abbrev pub IsHonest : ProductionRequest → List Act × Outcome → Type 0
IsHonest request (acts, answered r) = IsFor request (any is_success acts) r
IsHonest request (acts, _) = Unit

-- what the end of the `try` block says
abbrev IsBody : ProductionRequest → List Act × Body × Bool → Type 0
IsBody request (acts, returns r, _) = IsFor request false r
IsBody request (acts, ends code _ _, _) = (not (is_zero code) || any is_success acts) ≡ true
IsBody request (acts, _, _) = Unit

module _ (lib : Library) (request : ProductionRequest) where
  asked-IsBody :
      (s : Stopped) (drop : Ending) (t : Bool) (made : Result ProductionResult)
      → cancelled_of lib request t ≡ made
      → IsBody request (asked_body s (after_drop drop (returned made)))
  asked-IsBody (acts, fine, d) fine t (ok r) e = cancelled_of-IsFor lib request false t r e
  asked-IsBody (acts, fine, d) fine t (err message) e = tt
  asked-IsBody (acts, fine, d) abandoned t made e = tt
  asked-IsBody (acts, fine, d) (failed message) t made e = tt
  asked-IsBody (acts, abandoned, d) drop t made e = tt
  asked-IsBody (acts, failed message, d) drop t made e = tt

  output-IsBody :
      (code : ℤ) (read : Result (List ℕ × Bool))
      → IsBody request (reaped code ∷ [], output_body code read, true)
  output-IsBody code (ok (output, truncated)) = ground arith
  output-IsBody code (err message) = tt

  over-IsBody :
      (w : Waited) (reads : Option Reads) → IsBody request (acts_of w, over_body w reads, true)
  over-IsBody (exited code) none = tt
  over-IsBody (exited code) (some reads) = output-IsBody code (read_bounded reads)
  over-IsBody timed_out reads = tt
  over-IsBody interrupted reads = tt
  over-IsBody (broke message) reads = tt

  try_block-IsBody :
      (a : Answers) (rounds : Rounds)
      → IsBody request (try_block (λ t. returned (cancelled_of lib request t)) a rounds)
  unfolding try_block
  try_block-IsBody a (again rounds) = try_block-IsBody a rounds
  try_block-IsBody a (asked t) =
      asked-IsBody (stop false a.first) (drop_output a.dropped) t (cancelled_of lib request t) refl
  try_block-IsBody a (asleep none) = tt
  try_block-IsBody a (asleep (some w)) = tt
  try_block-IsBody a (over w reads) = over-IsBody w reads

  unanswered-IsHonest : (r : List Act × Outcome) → is_answered r.1 ≡ false → IsHonest request r
  unanswered-IsHonest (acts, answered r) h = cc
  unanswered-IsHonest (acts, read_only_error message) h = tt
  unanswered-IsHonest (acts, cancelled) h = tt
  unanswered-IsHonest (acts, other_error message) h = tt

  answer-IsHonest :
      (acts : List Act) (code : ℤ) (raw : List ℕ) (truncated : Bool)
      (made : Result ProductionResult)
      → (not (is_zero code) || any is_success acts) ≡ true
      → result_of lib request code raw truncated ≡ made
      → IsHonest request (acts, answer made)
  answer-IsHonest acts code raw truncated (ok r) h e =
      result_of-IsFor lib request (any is_success acts) code raw truncated r h e
  answer-IsHonest acts code raw truncated (err message) h e = tt

  finish-IsHonest :
      (a : Answers) (tried : List Act × Body × Bool)
      → IsBody request tried
      → IsHonest request (finish (result_of lib request) a tried)
  unfolding finish
  finish-IsHonest a (acts, returns r, d) h = (h.0, ground (arith, h.1))
  finish-IsHonest a (acts, ends code output truncated, d) h =
      answer-IsHonest acts code output truncated (result_of lib request code output truncated) h
        refl
  finish-IsHonest a (acts, raises_cancelled, d) h =
      unanswered-IsHonest (onto acts (handler (stop d a.second) (drop_output a.dropped) cancelled))
        (handler-unanswered (stop d a.second) (drop_output a.dropped) cancelled refl)
  finish-IsHonest a (acts, raises_other, d) h =
      unanswered-IsHonest
        (onto acts (
          handler (stop d a.second) (drop_output a.dropped)
            (read_only_error "read-only worker failed closed")))
        (handler-unanswered (stop d a.second) (drop_output a.dropped)
          (read_only_error "read-only worker failed closed") refl)

  spawned-IsHonest :
      (e : Ending) (r : List Act × Outcome) → IsHonest request r → IsHonest request (spawned e r)
  spawned-IsHonest fine (acts, answered r) h = h
  spawned-IsHonest fine (acts, read_only_error message) h = tt
  spawned-IsHonest fine (acts, cancelled) h = tt
  spawned-IsHonest fine (acts, other_error message) h = tt
  spawned-IsHonest abandoned r h = tt
  spawned-IsHonest (failed message) r h = tt

  start-IsHonest :
      (command : Option (List String)) (spawn : List String → Ending) (r : List Act × Outcome)
      → IsHonest request r
      → IsHonest request (start command spawn r)
  start-IsHonest none spawn r h = tt
  start-IsHonest (some command) spawn r h = spawned-IsHonest (spawn command) r h

  early-IsHonest :
      (t : Bool) (made : Result ProductionResult)
      → cancelled_of lib request t ≡ made
      → IsHonest request ([], answer made)
  early-IsHonest t (ok r) e = cancelled_of-IsFor lib request false t r e
  early-IsHonest t (err message) e = tt

  unless-IsHonest :
      (token : Option Bool) (r : List Act × Outcome)
      → IsHonest request r
      → IsHonest request (unless_cancelled token (λ t. answer (cancelled_of lib request t)) r)
  unless-IsHonest none r h = h
  unless-IsHonest (some t) r h = early-IsHonest t (cancelled_of lib request t) refl

  -- Every answer of `execute` bears the request's ID, and one that reports success comes after the
  -- worker that it started has exited with the code 0.
  pub execute-IsHonest :
      (commands : Commands) (a : Answers) → IsHonest request (execute commands lib a request)
  unfolding execute
  execute-IsHonest commands a =
      let tried = try_block (λ t. returned (cancelled_of lib request t)) a a.rounds in
      if_intro (IsHonest request) (permits commands request)
        (λ _. unless-IsHonest a.token _ (
          start-IsHonest (command_of commands request) a.spawn
            (finish (result_of lib request) a tried)
            (finish-IsHonest a tried (try_block-IsBody a a.rounds))))
        (λ _. tt)
