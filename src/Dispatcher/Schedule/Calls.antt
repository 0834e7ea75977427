-- ===== src/Dispatcher/Schedule/Calls.antt =====
-- Every call of `submit` is answered once.
use lsmf.Base.{
  ℕ, String, ◌≡◌, refl, ap, ◌∙◌, ◌+◌, Bool, true, false, List, [], ◌∷◌, Option, none, some, arith,
  if_intro, eq_iff,
}
use lsmf.Base.Results.{Result, ok, err}
use lsmf.Base.Dict.{Dict, lookup, contains, lookup-insert}
use lsmf.Dispatcher.Weights.{one_for, total, total-append, total-erase, total-insert}
use lsmf.Peer.Identity.{RequestBinding, binding_eq}
use lsmf.Protocol.Json.{Json}
use lsmf.Protocol.Models.{ProductionRequest, ProductionResult}
use lsmf.Dispatcher.State.{
  Env, Phase, waiting, authorizing, running, Operation, Dispatcher, record_audit,
}
use lsmf.Dispatcher.Submit.{
  Authorization, said, raised, interrupted, cancelled_error, Execution, stopped_task, returned,
  executor_error, other_error, leave, conclude, stop, abandon, submit, is_allowed, is_mismatched,
  entering, enter, refuse, admit, checkpoint, acquire, launch, begin, authorized, executed, report,
  cancelled_operation, update, cancel_if, cancel_request, disconnected, without,
}
use lsmf.Dispatcher.Submit.Exclusion.{IsSerial, Keyed, Keyed-lookup, cancel_request-IsExclusive}
use lsmf.Dispatcher.Schedule.{
  Event, submitted, acquires, answers, times_out, ends, lost, cancels, disconnects, acquire_at,
  authorized_at, time_out_at, lost_at, waiter, with_operation, step, run, idle,
}
use lsmf.Dispatcher.Schedule.Exclusion.{step-IsExclusive, idle-IsExclusive}

abbrev IsLive : Operation → Dispatcher → Type 0
IsLive op d = contains op.binding.request_id d.operations ≡ true

-- what stands under its ID is live
lookup-IsLive :
    (id : String) (op : Operation) (d : Dispatcher)
    → Keyed d.operations
    → lookup id d.operations ≡ some op
    → IsLive op d
lookup-IsLive id op d v e = ground (arith, e, Keyed-lookup id op d.operations v e)

waiter-IsLive :
    (n : ℕ) (op : Operation) (ops : Dict Operation)
    → Keyed ops
    → waiter n ops ≡ some op
    → contains op.binding.request_id ops ≡ true
waiter-IsLive n op [] v e = cc
waiter-IsLive n op ((k, c) ∷ ops) v e =
    ground (arith, v.0, e, waiter-IsLive n op ops v.1, eq_iff k op.binding.request_id)

module _ (weight : String → ℕ) where
  -- the weights of the IDs that are answered, and of those under way
  abbrev pub calls : Dispatcher → ℕ
  calls d = total weight d.answers + total weight d.operations

  leave-calls :
      (id : String) (a : Result Json) (d : Dispatcher)
      → contains id d.operations ≡ true
      → calls (leave id a d) ≡ calls d
  unfolding leave
  leave-calls id a d h =
      omega
        (arith, total-append weight d.answers ((id, a) ∷ []), total-erase weight id d.operations h)

  conclude-calls :
      (env : Env) (op : Operation) (lifecycle outcome : String) (r : Result ProductionResult)
      (d : Dispatcher)
      → IsLive op d
      → calls (conclude env op lifecycle outcome r d) ≡ calls d
  unfolding conclude record_audit
  conclude-calls env op lifecycle outcome (err x) d h = leave-calls _ _ d h
  conclude-calls env op lifecycle outcome (ok r) d h =
      leave-calls _ _ (record d { audit_events = _ }) h

  report-calls :
      (env : Env) (op : Operation) (r : Result ProductionResult) (d : Dispatcher)
      → IsLive op d
      → calls (report env op r d) ≡ calls d
  unfolding report record_audit
  report-calls env op (err x) d h = leave-calls _ _ d h
  report-calls env op (ok r) d h = leave-calls _ _ (record d { audit_events = _ }) h

  update-calls : (op : Operation) (d : Dispatcher) → IsLive op d → calls (update op d) ≡ calls d
  update-calls op d h = ground (arith, h, total-insert weight op.binding.request_id op d.operations)

  checkpoint-calls :
      (env : Env) (op : Operation) (next : Dispatcher → Dispatcher) (token : Option Bool)
      (d : Dispatcher)
      → IsLive op d
      → calls (next d) ≡ calls d
      → calls (checkpoint env op next token d) ≡ calls d
  unfolding checkpoint stop
  checkpoint-calls env op next none d l h = h
  checkpoint-calls env op next (some t) d l h = conclude-calls env op _ _ _ d l

  launch-calls :
      (op : Operation) (recorded : Bool) (d : Dispatcher)
      → IsLive op d
      → calls (launch op (recorded, d)) ≡ calls d
  unfolding launch
  launch-calls op false d h = leave-calls _ _ d h
  launch-calls op true d h = update-calls (record op { phase = running d.next_task }) d h

  authorized-calls :
      (env : Env) (a : Authorization) (op : Operation) (d : Dispatcher)
      → IsLive op d
      → calls (authorized env a op d) ≡ calls d
  unfolding authorized begin record_audit abandon stop
  authorized-calls env (said true) op d h =
      checkpoint-calls env op _ op.token d h (launch-calls op _ (record d { audit_events = _ }) h)
  authorized-calls env (said false) op d h = conclude-calls env op _ _ _ d h
  authorized-calls env (interrupted t) op d h = conclude-calls env op _ _ _ d h
  authorized-calls env raised op d h = conclude-calls env op _ _ _ d h
  authorized-calls env cancelled_error op d h =
      checkpoint-calls env op (abandon op) op.token d h (leave-calls _ _ d h)

  executed-calls :
      (env : Env) (x : Execution) (op : Operation) (d : Dispatcher)
      → IsLive op d
      → calls (executed env x op d) ≡ calls d
  unfolding executed abandon
  executed-calls env stopped_task op d h = leave-calls _ _ d h
  executed-calls env (returned r) op d h = report-calls env op _ d h
  executed-calls env (executor_error b) op d h = report-calls env op _ d h
  executed-calls env other_error op d h = report-calls env op _ d h

  acquire_at-calls :
      (env : Env) (op : Operation) (p : Phase) (l : Option String) (d : Dispatcher)
      → IsLive op d
      → calls (acquire_at env op p l d) ≡ calls d
  unfolding acquire_at acquire
  acquire_at-calls env op waiting none d h =
      checkpoint-calls env op _ op.token d h (update-calls (record op { phase = authorizing }) d h)
  acquire_at-calls env op waiting (some k) d h = refl
  acquire_at-calls env op authorizing l d h = refl
  acquire_at-calls env op (running n) l d h = refl

  authorized_at-calls :
      (env : Env) (a : Authorization) (op : Operation) (p : Phase) (d : Dispatcher)
      → IsLive op d
      → calls (authorized_at env a op p d) ≡ calls d
  unfolding authorized_at
  authorized_at-calls env a op waiting d h = refl
  authorized_at-calls env a op authorizing d h = authorized-calls env a op d h
  authorized_at-calls env a op (running n) d h = refl

  time_out_at-calls :
      (op : Operation) (p : Phase) (d : Dispatcher)
      → IsLive op d
      → calls (time_out_at op p d) ≡ calls d
  unfolding time_out_at
  time_out_at-calls op waiting d h = refl
  time_out_at-calls op authorizing d h = refl
  time_out_at-calls op (running n) d h = update-calls (cancelled_operation true op) d h

  lost_at-calls :
      (env : Env) (op : Operation) (p : Phase) (d : Dispatcher)
      → IsLive op d
      → calls (lost_at env op p d) ≡ calls d
  unfolding lost_at abandon
  lost_at-calls env op waiting d h = leave-calls _ _ d h
  lost_at-calls env op authorizing d h = authorized-calls env cancelled_error op d h
  lost_at-calls env op (running n) d h = leave-calls _ _ d h

  with_operation-calls :
      (f : Operation → Dispatcher → Dispatcher) (o : Option Operation) (d : Dispatcher)
      → ((op : Operation) → o ≡ some op → calls (f op d) ≡ calls d)
      → calls (with_operation f o d) ≡ calls d
  with_operation-calls f none d h = refl
  with_operation-calls f (some op) d h = h op refl

  cancel_if-calls :
      (b : RequestBinding) (k : String) (o : Option Operation) (d : Dispatcher)
      → Keyed d.operations
      → lookup k d.operations ≡ o
      → calls (cancel_if b o d).1 ≡ calls d
  unfolding cancel_if
  cancel_if-calls b k none d v e = refl
  cancel_if-calls b k (some op) d v e =
      if_intro (λ (x : Bool × Dispatcher). calls x.1 ≡ calls d) (binding_eq op.binding b)
        {x = (true, update (cancelled_operation false op) d)} {y = (false, d)}
        (λ h. update-calls (cancelled_operation false op) d (lookup-IsLive k op d v e)) (λ h. refl)

  cancel_request-calls :
      (b : RequestBinding) (d : Dispatcher)
      → Keyed d.operations
      → calls (cancel_request b d).1 ≡ calls d
  unfolding cancel_request
  cancel_request-calls b d v =
      cancel_if-calls b b.request_id (lookup b.request_id d.operations) d v refl

  disconnected-calls :
      (bs : List RequestBinding) (d : Dispatcher) → IsSerial d → calls (disconnected bs d) ≡ calls d
  unfolding disconnected
  disconnected-calls [] d v = refl
  disconnected-calls (b ∷ bs) d v =
      disconnected-calls bs (cancel_request b d).1 (cancel_request-IsExclusive b d v)
      ∙ cancel_request-calls b d v.keyed

  admit-calls :
      (env : Env) (op : Operation) (valid : Bool) (d : Dispatcher)
      → IsLive op d
      → calls (admit env op valid d) ≡ calls d
  unfolding admit
  admit-calls env op true d h = refl
  admit-calls env op false d h = conclude-calls env op _ _ _ d h

  submit-calls :
      (env : Env) (request : ProductionRequest) (b : RequestBinding) (d : Dispatcher)
      → calls (submit env request b d) ≡ weight request.request_id + calls d
  unfolding submit
  submit-calls env request b d =
      if_intro (λ x. calls x ≡ weight request.request_id + calls d) (is_mismatched env request b d)
        {x = refuse request d} {y = admit env (entering request b) _ (enter request b d)} refused
        entered
    where
      refused :
          is_mismatched env request b d ≡ true
          → calls (refuse request d) ≡ weight request.request_id + calls d
      refused h = omega (
        arith,
        total-append weight d.answers
            ((request.request_id, err "request does not match its live binding") ∷ []),
      )

      entered :
          is_mismatched env request b d ≡ false
          → calls (
              admit env
                (entering request b)
                (is_allowed (env.validate request))
                (enter request b d))
            ≡ weight request.request_id + calls d
      entered h =
          let same : request.request_id ≡ b.request_id =
            ground (arith, h, eq_iff request.request_id b.request_id) in
          let more = total-insert weight request.request_id (entering request b) d.operations in
          let there =
            lookup-insert b.request_id request.request_id (entering request b) d.operations in
          let here : IsLive (entering request b) (enter request b d) =
            ground (arith, there, same, eq_iff request.request_id b.request_id) in
          admit-calls env (entering request b) _ (enter request b d) here ∙ ground (arith, h, more)

  -- the weight of its ID more for a call of `submit`
  abbrev pub submissions_in : Event → ℕ → ℕ
  submissions_in (submitted request _) n = weight request.request_id + n
  submissions_in _ n = n

  step-calls :
      (env : Env) (e : Event) (d : Dispatcher)
      → IsSerial d
      → calls (step env e d) ≡ submissions_in e (calls d)
  unfolding step
  step-calls env (submitted request b) d v = submit-calls env request b d
  step-calls env (acquires id) d v =
      with_operation-calls (λ op. acquire_at env op op.phase d.locked) (lookup id d.operations) d
        (λ op e. acquire_at-calls env op op.phase d.locked d (lookup-IsLive id op d v.keyed e))
  step-calls env (answers id a) d v =
      with_operation-calls (λ op. authorized_at env a op op.phase) (lookup id d.operations) d
        (λ op e. authorized_at-calls env a op op.phase d (lookup-IsLive id op d v.keyed e))
  step-calls env (times_out id) d v =
      with_operation-calls (λ op. time_out_at op op.phase) (lookup id d.operations) d
        (λ op e. time_out_at-calls op op.phase d (lookup-IsLive id op d v.keyed e))
  step-calls env (ends n x) d v =
      with_operation-calls (executed env x) (waiter n d.operations)
        (record d { tasks = without n d.tasks })
        (λ op e.
          executed-calls env x op (record d { tasks = without n d.tasks })
            (waiter-IsLive n op d.operations v.keyed e))
  step-calls env (lost id) d v =
      with_operation-calls (λ op. lost_at env op op.phase) (lookup id d.operations) d
        (λ op e. lost_at-calls env op op.phase d (lookup-IsLive id op d v.keyed e))
  step-calls env (cancels b) d v = cancel_request-calls b d v.keyed
  step-calls env (disconnects bs) d v = disconnected-calls bs d v

  -- the weights of the IDs with which `submit` is called in a trace
  abbrev pub submissions : List (Env × Event) → ℕ
  submissions [] = 0
  submissions ((env, e) ∷ es) = submissions_in e (submissions es)

  submissions_in-swap : (e : Event) (m n : ℕ) → m + submissions_in e n ≡ submissions_in e m + n
  submissions_in-swap (submitted request _) m n = omega arith
  submissions_in-swap (acquires _) m n = refl
  submissions_in-swap (answers _ _) m n = refl
  submissions_in-swap (times_out _) m n = refl
  submissions_in-swap (ends _ _) m n = refl
  submissions_in-swap (lost _) m n = refl
  submissions_in-swap (cancels _) m n = refl
  submissions_in-swap (disconnects _) m n = refl

  run-calls_from :
      (es : List (Env × Event)) (d : Dispatcher)
      → IsSerial d
      → calls (run es d) ≡ submissions es + calls d
  unfolding run
  run-calls_from [] d v = omega arith
  run-calls_from ((env, e) ∷ es) d v =
      run-calls_from es (step env e d) (step-IsExclusive env e d v)
      ∙ ap (λ n. submissions es + n) (step-calls env e d v)
      ∙ submissions_in-swap e (submissions es) (calls d)

-- However the calls of a dispatcher interleave from its start, each call of `submit` has returned or
-- raised once under its request's ID, or is the live operation of that ID: for every ID, the answers
-- and the live operations under it are together as many as the calls with it.
pub run-calls :
    (es : List (Env × Event)) (id : String)
    → calls (one_for id) (run es idle) ≡ submissions (one_for id) es
run-calls es id = omega (arith, run-calls_from (one_for id) es idle idle-IsExclusive)
