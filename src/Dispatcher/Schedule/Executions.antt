-- ===== src/Dispatcher/Schedule/Executions.antt =====
-- When the executor is called.
use lsmf.Base.{
  String, ◌≡◌, refl, ap, Bool, true, false, List, [], ◌∷◌, ◌++◌, Option, none, some, ◌⊎◌, ◌∙◌, inl,
  inr, if_intro,
}
use lsmf.Base.Results.{Result, ok, err}
use lsmf.Base.Dict.{lookup}
use lsmf.Peer.Identity.{RequestBinding, binding_eq}
use lsmf.Protocol.Models.{ProductionRequest, ProductionResult}
use lsmf.Dispatcher.State.{
  Env, Phase, waiting, authorizing, running, Operation, Dispatcher, ProductionAuditEvent,
  authorization_id_of, audit_event, is_recorded, record_audit,
}
use lsmf.Dispatcher.Submit.{
  is_mismatched, entering, enter, refuse, admit, Authorization, said, raised, interrupted,
  cancelled_error, Execution, stopped_task, returned, executor_error, other_error, leave, conclude,
  stop, abandon, submit, checkpoint, acquire, launch, begin, authorized, executed, report,
  cancelled_operation, update, cancel_if, cancel_request, disconnected, without,
}
use lsmf.Dispatcher.Schedule.{
  Event, submitted, acquires, answers, times_out, ends, lost, cancels, disconnects, acquire_at,
  authorized_at, time_out_at, lost_at, waiter, with_operation, step,
}

-- the same executor calls
abbrev pub Quiet : Dispatcher → Dispatcher → Type 0
Quiet d' d = d'.executions ≡ d.executions

conclude-Quiet :
    (env : Env) (op : Operation) (lifecycle outcome : String) (r : Result ProductionResult)
    (d : Dispatcher)
    → Quiet (conclude env op lifecycle outcome r d) d
unfolding conclude record_audit leave
conclude-Quiet env op lifecycle outcome (err x) d = refl
conclude-Quiet env op lifecycle outcome (ok r) d = refl

report-Quiet :
    (env : Env) (op : Operation) (r : Result ProductionResult) (d : Dispatcher)
    → Quiet (report env op r d) d
unfolding report record_audit leave
report-Quiet env op (err x) d = refl
report-Quiet env op (ok r) d = refl

checkpoint-Quiet :
    (env : Env) (op : Operation) (next : Dispatcher → Dispatcher) (token : Option Bool)
    (d : Dispatcher)
    → Quiet (next d) d
    → Quiet (checkpoint env op next token d) d
unfolding checkpoint stop
checkpoint-Quiet env op next none d h = h
checkpoint-Quiet env op next (some t) d h = conclude-Quiet env op _ _ _ d

admit-Quiet :
    (env : Env) (op : Operation) (valid : Bool) (d : Dispatcher) → Quiet (admit env op valid d) d
unfolding admit
admit-Quiet env op true d = refl
admit-Quiet env op false d = conclude-Quiet env op _ _ _ d

submit-Quiet :
    (env : Env) (request : ProductionRequest) (b : RequestBinding) (d : Dispatcher)
    → Quiet (submit env request b d) d
unfolding submit
submit-Quiet env request b d =
    if_intro (λ x. Quiet x d) (is_mismatched env request b d) {x = refuse request d}
      {y = admit env _ _ _} (λ h. refl)
      (λ h. admit-Quiet env (entering request b) _ (enter request b d))

acquire_at-Quiet :
    (env : Env) (op : Operation) (p : Phase) (l : Option String) (d : Dispatcher)
    → Quiet (acquire_at env op p l d) d
unfolding acquire_at acquire
acquire_at-Quiet env op waiting none d = checkpoint-Quiet env op _ op.token d refl
acquire_at-Quiet env op waiting (some k) d = refl
acquire_at-Quiet env op authorizing l d = refl
acquire_at-Quiet env op (running n) l d = refl

time_out_at-Quiet : (op : Operation) (p : Phase) (d : Dispatcher) → Quiet (time_out_at op p d) d
unfolding time_out_at
time_out_at-Quiet op waiting d = refl
time_out_at-Quiet op authorizing d = refl
time_out_at-Quiet op (running n) d = refl

lost_at-Quiet :
    (env : Env) (op : Operation) (p : Phase) (d : Dispatcher) → Quiet (lost_at env op p d) d
unfolding lost_at authorized abandon leave
lost_at-Quiet env op waiting d = refl
lost_at-Quiet env op authorizing d = checkpoint-Quiet env op (abandon op) op.token d refl
lost_at-Quiet env op (running n) d = refl

executed-Quiet :
    (env : Env) (x : Execution) (op : Operation) (d : Dispatcher) → Quiet (executed env x op d) d
unfolding executed abandon leave
executed-Quiet env stopped_task op d = refl
executed-Quiet env (returned r) op d = report-Quiet env op _ d
executed-Quiet env (executor_error b) op d = report-Quiet env op _ d
executed-Quiet env other_error op d = report-Quiet env op _ d

cancel_if-Quiet :
    (b : RequestBinding) (o : Option Operation) (d : Dispatcher) → Quiet (cancel_if b o d).1 d
unfolding cancel_if
cancel_if-Quiet b none d = refl
cancel_if-Quiet b (some op) d =
    if_intro (λ (x : Bool × Dispatcher). Quiet x.1 d) (binding_eq op.binding b)
      {x = (true, update (cancelled_operation false op) d)} {y = (false, d)} (λ h. refl) (λ h. refl)

cancel_request-Quiet : (b : RequestBinding) (d : Dispatcher) → Quiet (cancel_request b d).1 d
unfolding cancel_request
cancel_request-Quiet b d = cancel_if-Quiet b (lookup b.request_id d.operations) d

disconnected-Quiet : (bs : List RequestBinding) (d : Dispatcher) → Quiet (disconnected bs d) d
unfolding disconnected
disconnected-Quiet [] d = refl
disconnected-Quiet (b ∷ bs) d =
    disconnected-Quiet bs (cancel_request b d).1 ∙ cancel_request-Quiet b d

with_operation-Quiet :
    (f : Operation → Dispatcher → Dispatcher) (o : Option Operation) (d : Dispatcher)
    → ((op : Operation) → Quiet (f op d) d)
    → Quiet (with_operation f o d) d
with_operation-Quiet f none d h = refl
with_operation-Quiet f (some op) d h = h op

-- The `started` event of an operation.
abbrev pub started_event : Env → Operation → ProductionAuditEvent
started_event env op =
    audit_event env op.binding (authorization_id_of op.request.action) "started" "authorized" none

-- The event is the authorizer's consent to a live operation, whose token is not set, and whose
-- `started` event was recorded; its request alone goes to the executor.
pub record IsAuthorizedStart (env : Env) (e : Event) (d : Dispatcher) : Type 0 where
  pub id : String
  pub op : Operation
  pub consent : e ≡ answers id (said true)
  pub live : lookup id d.operations ≡ some op
  pub asked : op.phase ≡ authorizing
  pub uncancelled : op.token ≡ none
  pub recorded : is_recorded (env.audit_sink (started_event env op)) ≡ true
  pub executes : (step env e d).executions ≡ d.executions ++ op.request ∷ []

abbrev pub IsGuarded : Env → Event → Dispatcher → Type 0
IsGuarded env e d = Quiet (step env e d) d ⊎ IsAuthorizedStart env e d

started-executions :
    (env : Env) (op : Operation) (d : Dispatcher) (t : Option Bool) (r : Bool)
    → is_recorded (env.audit_sink (started_event env op)) ≡ r
    → Quiet (checkpoint env op (λ d. launch op (record_audit env (started_event env op) d)) t d) d
      ⊎ ((t ≡ none)
          × (r ≡ true)
          × ((checkpoint env op
                (λ d. launch op (record_audit env (started_event env op) d))
                t
                d).executions
              ≡ d.executions ++ op.request ∷ []))
unfolding checkpoint launch record_audit leave stop
started-executions env op d (some b) r h = inl (conclude-Quiet env op _ _ _ d)
started-executions env op d none true h = inr (
  refl,
  refl,
  ap
      (λ r.
        (launch op
          (r, record d { audit_events = d.audit_events ++ started_event env op ∷ [] })).executions)
      h,
)
started-executions env op d none false h = inl (
    ap
      (λ r.
        (launch op
          (r, record d { audit_events = d.audit_events ++ started_event env op ∷ [] })).executions)
      h)

consent-IsGuarded :
    (env : Env) (id : String) (op : Operation) (d : Dispatcher) (p : Phase)
    → lookup id d.operations ≡ some op
    → op.phase ≡ p
    → ((step env (answers id (said true)) d).executions
        ≡ (authorized_at env (said true) op p d).executions)
    → IsGuarded env (answers id (said true)) d
unfolding authorized_at authorized begin
consent-IsGuarded env id op d waiting l p s = inl s
consent-IsGuarded env id op d (running n) l p s = inl s
consent-IsGuarded env id op d authorizing l p s =
    elim (started-executions env op d op.token _ refl) [
      | inl q ↦ inl (s ∙ q)
      | inr (t, r, x) ↦ inr (record {
        id = id;
        op = op;
        consent = refl;
        live = l;
        asked = p;
        uncancelled = t;
        recorded = r;
        executes = s ∙ x;
      })
    ]

abbrev is_consent : Authorization → Bool
is_consent (said b) = b
is_consent _ = false

refusal-Quiet :
    (env : Env) (a : Authorization) (op : Operation) (p : Phase) (d : Dispatcher)
    → is_consent a ≡ false
    → Quiet (authorized_at env a op p d) d
unfolding authorized_at authorized abandon leave stop
refusal-Quiet env a op waiting d h = refl
refusal-Quiet env a op (running n) d h = refl
refusal-Quiet env (said true) op authorizing d h = cc
refusal-Quiet env (said false) op authorizing d h = conclude-Quiet env op _ _ _ d
refusal-Quiet env (interrupted t) op authorizing d h = conclude-Quiet env op _ _ _ d
refusal-Quiet env raised op authorizing d h = conclude-Quiet env op _ _ _ d
refusal-Quiet env cancelled_error op authorizing d h =
    checkpoint-Quiet env op (abandon op) op.token d refl

refused-IsGuarded :
    (env : Env) (id : String) (a : Authorization) (d : Dispatcher)
    → is_consent a ≡ false
    → IsGuarded env (answers id a) d
unfolding step
refused-IsGuarded env id a d h =
    inl (
      with_operation-Quiet _ (lookup id d.operations) d (λ op. refusal-Quiet env a op op.phase d h))

consented-IsGuarded :
    (env : Env) (id : String) (o : Option Operation) (d : Dispatcher)
    → lookup id d.operations ≡ o
    → IsGuarded env (answers id (said true)) d
unfolding step
consented-IsGuarded env id o d l =
    let s =
      ap (λ o. (with_operation (λ op. authorized_at env (said true) op op.phase) o d).executions)
        l in
    found o l s
  where
    found :
        (o : Option Operation)
        → lookup id d.operations ≡ o
        → (step env (answers id (said true)) d).executions
          ≡ (with_operation (λ op. authorized_at env (said true) op op.phase) o d).executions
        → IsGuarded env (answers id (said true)) d
    found none l s = inl s
    found (some op) l s = consent-IsGuarded env id op d op.phase l refl s

-- In every state of the dispatcher, an event either leaves the calls of the executor as they are, or
-- is the authorizer's consent to an operation that waits for it under the event's ID, that is not
-- cancelled, and whose `started` event the audit sink recorded; then its request is executed, once.
pub step-IsGuarded : (env : Env) (e : Event) (d : Dispatcher) → IsGuarded env e d
unfolding step
step-IsGuarded env (submitted request b) d = inl (submit-Quiet env request b d)
step-IsGuarded env (acquires id) d = inl (
    with_operation-Quiet _ (lookup id d.operations) d
      (λ op. acquire_at-Quiet env op op.phase d.locked d))
step-IsGuarded env (answers id (said true)) d = consented-IsGuarded env id _ d refl
step-IsGuarded env (answers id (said false)) d = refused-IsGuarded env id (said false) d refl
step-IsGuarded env (answers id (interrupted t)) d = refused-IsGuarded env id (interrupted t) d refl
step-IsGuarded env (answers id raised) d = refused-IsGuarded env id raised d refl
step-IsGuarded env (answers id cancelled_error) d = refused-IsGuarded env id cancelled_error d refl
step-IsGuarded env (times_out id) d =
    inl (with_operation-Quiet _ (lookup id d.operations) d (λ op. time_out_at-Quiet op op.phase d))
step-IsGuarded env (ends n x) d = inl (
    with_operation-Quiet (executed env x) (waiter n d.operations)
      (record d { tasks = without n d.tasks })
      (λ op. executed-Quiet env x op (record d { tasks = without n d.tasks })))
step-IsGuarded env (lost id) d =
    inl (with_operation-Quiet _ (lookup id d.operations) d (λ op. lost_at-Quiet env op op.phase d))
step-IsGuarded env (cancels b) d = inl (cancel_request-Quiet b d)
step-IsGuarded env (disconnects bs) d = inl (disconnected-Quiet bs d)
