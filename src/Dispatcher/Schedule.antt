-- ===== src/Dispatcher/Schedule.antt =====
-- The interleavings of a dispatcher's calls: what happens next, and what it does. An event that cannot
-- happen in a state leaves it as it is.
pub mod Exclusion
pub mod Executions
pub mod Calls
use lsmf.Base.{
  ℕ, String, Bool, true, false, List, [], ◌∷◌, Option, none, some, is_none, opt_eq, ◌==◌,
  if◌then◌else◌,
}
use lsmf.Base.Dict.{Dict, lookup}
use lsmf.Peer.Identity.{RequestBinding}
use lsmf.Protocol.Models.{ProductionRequest}
use lsmf.Dispatcher.State.{Env, Phase, waiting, authorizing, running, Operation, Dispatcher}
use lsmf.Dispatcher.Submit.{
  Authorization, cancelled_error, Execution, submit, acquire, authorized, executed, abandon,
  cancelled_operation, update, without, cancel_request, disconnected,
}

-- `lost` is the cancellation of the task that runs a `submit`. A request is named by its ID.
pub data Event : Type 0 where
  submitted : ProductionRequest → RequestBinding → Event
  acquires : String → Event
  answers : String → Authorization → Event
  times_out : String → Event
  ends : ℕ → Execution → Event
  lost : String → Event
  cancels : RequestBinding → Event
  disconnects : List RequestBinding → Event

unfoldable pub acquire_at : Env → Operation → Phase → Option String → Dispatcher → Dispatcher
acquire_at env op waiting none d = acquire env op d
acquire_at env op _ _ d = d

unfoldable pub authorized_at : Env → Authorization → Operation → Phase → Dispatcher → Dispatcher
authorized_at env a op authorizing d = authorized env a op d
authorized_at env a op _ d = d

-- `except TimeoutError`: the token is set, and the wait goes on
unfoldable pub time_out_at : Operation → Phase → Dispatcher → Dispatcher
time_out_at op (running n) d = update (cancelled_operation true op) d
time_out_at op _ d = d

unfoldable pub lost_at : Env → Operation → Phase → Dispatcher → Dispatcher
lost_at env op authorizing d = authorized env cancelled_error op d
lost_at env op _ d = abandon op d

-- the `submit` that waits for a task
abbrev waits_for : ℕ → Phase → Bool
waits_for n (running m) = m == n
waits_for n _ = false

abbrev pub waiter : ℕ → Dict Operation → Option Operation
waiter n [] = none
waiter n ((k, op) ∷ d) = if waits_for n op.phase then some op else waiter n d

abbrev pub with_operation :
    (Operation → Dispatcher → Dispatcher) → Option Operation → Dispatcher → Dispatcher
with_operation f none d = d
with_operation f (some op) d = f op d

unfoldable pub step : Env → Event → Dispatcher → Dispatcher
step env (submitted request binding) d = submit env request binding d
step env (acquires id) d =
    with_operation (λ op. acquire_at env op op.phase d.locked) (lookup id d.operations) d
step env (answers id a) d =
    with_operation (λ op. authorized_at env a op op.phase) (lookup id d.operations) d
step env (times_out id) d =
    with_operation (λ op. time_out_at op op.phase) (lookup id d.operations) d
step env (ends n x) d =
    with_operation (executed env x) (waiter n d.operations) (record d { tasks = without n d.tasks })
step env (lost id) d = with_operation (λ op. lost_at env op op.phase) (lookup id d.operations) d
step env (cancels binding) d = (cancel_request binding d).1
step env (disconnects bindings) d = disconnected bindings d

unfoldable pub run : List (Env × Event) → Dispatcher → Dispatcher
run [] d = d
run ((env, e) ∷ es) d = run es (step env e d)

-- `__init__`
abbrev pub idle : Dispatcher
idle = record {
  operations = [];
  locked = none;
  tasks = [];
  next_task = 0;
  executions = [];
  audit_events = [];
  answers = [];
}
