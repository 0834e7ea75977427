-- ===== src/Dispatcher/Schedule/Exclusion.antt =====
-- The lock: at most one request is past it, under every interleaving.
use lsmf.Base.{
  String, ◌≡◌, refl, sym, ◌∙◌, ap, true, List, [], ◌∷◌, Option, none, some, arith, opt_eq, eq_iff,
}
use lsmf.Base.Dict.{lookup}
use lsmf.Dispatcher.State.{Env, Phase, waiting, authorizing, running, Operation, Dispatcher}
use lsmf.Dispatcher.Submit.{executed, without, Authorization, cancelled_error}
use lsmf.Dispatcher.Schedule.{
  waiter, Event, submitted, acquires, answers, times_out, ends, lost, cancels, disconnects,
  acquire_at, authorized_at, time_out_at, lost_at, with_operation, step, run, idle,
}
use lsmf.Dispatcher.Submit.Exclusion.{
  IsSerial, is_active, active_of, abandon-IsExclusive, acquire-IsExclusive, authorized-IsExclusive,
  executed-IsExclusive, lookup-active, cancelled-IsExclusive, cancel_request-IsExclusive,
  disconnected-IsExclusive, submit-IsExclusive,
}

with_operation-IsExclusive :
    (f : Operation → Dispatcher → Dispatcher) (o : Option Operation) (d : Dispatcher)
    → IsSerial d
    → ((op : Operation) → o ≡ some op → IsSerial (f op d))
    → IsSerial (with_operation f o d)
with_operation-IsExclusive f none d v h = v
with_operation-IsExclusive f (some op) d v h = h op refl

acquire_at-IsExclusive :
    (env : Env) (op : Operation) (p : Phase) (l : Option String) (d : Dispatcher)
    → d.locked ≡ l
    → IsSerial d
    → IsSerial (acquire_at env op p l d)
unfolding acquire_at
acquire_at-IsExclusive env op waiting none d e v = acquire-IsExclusive env op d e v
acquire_at-IsExclusive env op waiting (some k) d e v = v
acquire_at-IsExclusive env op authorizing l d e v = v
acquire_at-IsExclusive env op (running n) l d e v = v

authorized_at-IsExclusive :
    (env : Env) (a : Authorization) (id : String) (op : Operation) (p : Phase) (d : Dispatcher)
    → op.phase ≡ p
    → lookup id d.operations ≡ some op
    → IsSerial d
    → IsSerial (authorized_at env a op p d)
unfolding authorized_at
authorized_at-IsExclusive env a id op waiting d q e v = v
authorized_at-IsExclusive env a id op authorizing d q e v =
    authorized-IsExclusive env a op d (lookup-active id op d e v ∙ ap is_active q) v
authorized_at-IsExclusive env a id op (running n) d q e v = v

time_out_at-IsExclusive :
    (id : String) (op : Operation) (p : Phase) (d : Dispatcher)
    → lookup id d.operations ≡ some op
    → IsSerial d
    → IsSerial (time_out_at op p d)
unfolding time_out_at
time_out_at-IsExclusive id op waiting d e v = v
time_out_at-IsExclusive id op authorizing d e v = v
time_out_at-IsExclusive id op (running n) d e v = cancelled-IsExclusive id true op d e v

lost_at-IsExclusive :
    (env : Env) (id : String) (op : Operation) (p : Phase) (d : Dispatcher)
    → op.phase ≡ p
    → lookup id d.operations ≡ some op
    → IsSerial d
    → IsSerial (lost_at env op p d)
unfolding lost_at
lost_at-IsExclusive env id op waiting d q e v = abandon-IsExclusive op d v
lost_at-IsExclusive env id op authorizing d q e v =
    authorized-IsExclusive env cancelled_error op d (lookup-active id op d e v ∙ ap is_active q) v
lost_at-IsExclusive env id op (running n) d q e v = abandon-IsExclusive op d v

pub step-IsExclusive :
    (env : Env) (e : Event) (d : Dispatcher) → IsSerial d → IsSerial (step env e d)
unfolding step
step-IsExclusive env (submitted request b) d v = submit-IsExclusive env request b d v
step-IsExclusive env (acquires id) d v =
    with_operation-IsExclusive (λ op. acquire_at env op op.phase d.locked) (lookup id d.operations)
      d v (λ op e. acquire_at-IsExclusive env op op.phase d.locked d refl v)
step-IsExclusive env (answers id a) d v =
    with_operation-IsExclusive (λ op. authorized_at env a op op.phase) (lookup id d.operations) d v
      (λ op e. authorized_at-IsExclusive env a id op op.phase d refl e v)
step-IsExclusive env (times_out id) d v =
    with_operation-IsExclusive (λ op. time_out_at op op.phase) (lookup id d.operations) d v
      (λ op e. time_out_at-IsExclusive id op op.phase d e v)
step-IsExclusive env (ends n x) d v =
    with_operation-IsExclusive (executed env x) (waiter n d.operations)
      (record d { tasks = without n d.tasks }) v
      (λ op e. executed-IsExclusive env x op (record d { tasks = without n d.tasks }) v)
step-IsExclusive env (lost id) d v =
    with_operation-IsExclusive (λ op. lost_at env op op.phase) (lookup id d.operations) d v
      (λ op e. lost_at-IsExclusive env id op op.phase d refl e v)
step-IsExclusive env (cancels b) d v = cancel_request-IsExclusive b d v
step-IsExclusive env (disconnects bs) d v = disconnected-IsExclusive bs d v

pub run-IsExclusive : (es : List (Env × Event)) (d : Dispatcher) → IsSerial d → IsSerial (run es d)
unfolding run
run-IsExclusive [] d v = v
run-IsExclusive ((env, e) ∷ es) d v = run-IsExclusive es _ (step-IsExclusive env e d v)

pub idle-IsExclusive : IsSerial idle
idle-IsExclusive = record { ids_distinct = refl; keyed = tt; exclusive = λ k. refl }

-- However the calls of a dispatcher interleave from its start, with whatever the validator, the audit
-- sink, the authorizer and the executor answer, two live operations that are past the lock have the
-- same request ID, and the lock is held in that ID's name.
pub run-IsMutuallyExclusive :
    (es : List (Env × Event)) (j k : String)
    → active_of (lookup j (run es idle).operations) ≡ true
    → active_of (lookup k (run es idle).operations) ≡ true
    → (j ≡ k) × ((run es idle).locked ≡ some k)
run-IsMutuallyExclusive es j k a b =
    holders (run es idle).locked (sym ((run-IsExclusive es idle idle-IsExclusive).exclusive j) ∙ a)
      (sym ((run-IsExclusive es idle idle-IsExclusive).exclusive k) ∙ b)
  where
    holders :
        (l : Option String)
        → opt_eq l (some j) ≡ true
        → opt_eq l (some k) ≡ true
        → (j ≡ k) × (l ≡ some k)
    holders none x y = cc
    holders (some i) x y = ground (arith, x, y, eq_iff i j, eq_iff i k)
