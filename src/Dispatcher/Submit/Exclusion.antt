-- ===== src/Dispatcher/Submit/Exclusion.antt =====
-- The lock in the parts of `submit`, `cancel` and `disconnected`.
use lsmf.Base.{
  String, ◌≡◌, refl, sym, ◌∙◌, ap, subst, Bool, true, false, List, [], ◌∷◌, Option, none, some,
  arith, str_eq, opt_eq, eq_iff, if_intro, if◌then◌else◌,
}
use lsmf.Base.Results.{Result, ok, err}
use lsmf.Base.Dict.{
  Dict, lookup, insert, erase, contains, distinct, keys, lookup-erase, lookup-insert,
  erase-distinct, insert-distinct,
}
use lsmf.Protocol.Json.{Json}
use lsmf.Protocol.Models.{ProductionRequest, ProductionResult}
use lsmf.Peer.Identity.{RequestBinding, binding_eq}
use lsmf.Dispatcher.State.{
  Env, Phase, waiting, authorizing, running, Operation, Dispatcher, record_audit,
}
use lsmf.Dispatcher.Submit.{
  is_mismatched, entering, enter, refuse, admit, Authorization, said, raised, interrupted,
  cancelled_error, Execution, stopped_task, returned, executor_error, other_error, leave, conclude,
  stop, abandon, submit, checkpoint, acquire, launch, begin, authorized, executed, report,
  cancelled_operation, update, cancel_if, cancel_request, disconnected,
}

-- past the lock
abbrev pub is_active : Phase → Bool
is_active waiting = false
is_active authorizing = true
is_active (running n) = true

abbrev pub active_of : Option Operation → Bool
active_of none = false
active_of (some op) = is_active op.phase

-- Every operation stands under the ID of its binding.
abbrev pub Keyed : Dict Operation → Type 0
Keyed [] = Unit
Keyed ((k, op) ∷ d) = (op.binding.request_id ≡ k) × Keyed d

-- The one operation past the lock is the one that holds it.
pub record IsExclusive (ops : Dict Operation) (locked : Option String) : Type 0 where
  pub ids_distinct : distinct (keys ops) ≡ true
  pub keyed : Keyed ops
  pub exclusive : (k : String) → active_of (lookup k ops) ≡ opt_eq locked (some k)

abbrev pub IsSerial : Dispatcher → Type 0
IsSerial d = IsExclusive d.operations d.locked

Keyed-insert :
    (op : Operation) (d : Dict Operation) → Keyed d → Keyed (insert op.binding.request_id op d)
Keyed-insert op [] h = (refl, tt)
Keyed-insert op ((k, c) ∷ d) h =
    ground (arith, Keyed-insert op d h.1, eq_iff k op.binding.request_id)

Keyed-erase : (k : String) (d : Dict Operation) → Keyed d → Keyed (erase k d)
Keyed-erase k [] h = tt
Keyed-erase k ((j, c) ∷ d) h = ground (arith, Keyed-erase k d h.1)

pub Keyed-lookup :
    (k : String) (op : Operation) (d : Dict Operation)
    → Keyed d
    → lookup k d ≡ some op
    → op.binding.request_id ≡ k
Keyed-lookup k op [] h e = cc
Keyed-lookup k op ((j, c) ∷ d) h e = ground (arith, Keyed-lookup k op d h.1, eq_iff j k)

pub leave-IsExclusive :
    (id : String) (a : Result Json) (d : Dispatcher) → IsSerial d → IsSerial (leave id a d)
unfolding leave
leave-IsExclusive id a d v = record {
  ids_distinct = erase-distinct id d.operations v.ids_distinct;
  keyed = Keyed-erase id d.operations v.keyed;
  exclusive = λ k. released k d.locked (v.exclusive k) (v.exclusive id);
}
  where
    released :
        (k : String) (l : Option String)
        → active_of (lookup k d.operations) ≡ opt_eq l (some k)
        → active_of (lookup id d.operations) ≡ opt_eq l (some id)
        → active_of (lookup k (erase id d.operations))
          ≡ opt_eq (if opt_eq l (some id) then none else l) (some k)
    released k none h g =
        ground (arith, h, g, lookup-erase k id d.operations v.ids_distinct, eq_iff id k)
    released k (some j) h g = ground (
      arith,
      h,
      g,
      lookup-erase k id d.operations v.ids_distinct,
      eq_iff id k,
      eq_iff j id,
      eq_iff j k,
    )

pub conclude-IsExclusive :
    (env : Env) (op : Operation) (lifecycle outcome : String) (r : Result ProductionResult)
    (d : Dispatcher)
    → IsSerial d
    → IsSerial (conclude env op lifecycle outcome r d)
unfolding conclude record_audit
conclude-IsExclusive env op lifecycle outcome (err x) d v = leave-IsExclusive _ _ d v
conclude-IsExclusive env op lifecycle outcome (ok r) d v = leave-IsExclusive _ _ _ v

pub report-IsExclusive :
    (env : Env) (op : Operation) (r : Result ProductionResult) (d : Dispatcher)
    → IsSerial d
    → IsSerial (report env op r d)
unfolding report record_audit
report-IsExclusive env op (err x) d v = leave-IsExclusive _ _ d v
report-IsExclusive env op (ok r) d v = leave-IsExclusive _ _ _ v

-- An operation is put in the place of that with its ID.
pub update-IsExclusive :
    (op : Operation) (d : Dispatcher) (l : Option String)
    → IsSerial d
    → ((k : String)
        → (if str_eq op.binding.request_id k
            then is_active op.phase
            else active_of (lookup k d.operations))
          ≡ opt_eq l (some k))
    → IsExclusive (update op d).operations l
update-IsExclusive op d l v h = record {
  ids_distinct = insert-distinct op.binding.request_id op d.operations v.ids_distinct;
  keyed = Keyed-insert op d.operations v.keyed;
  exclusive = λ k. ground (arith, h k, lookup-insert k op.binding.request_id op d.operations);
}

pub stop-IsExclusive :
    (env : Env) (op : Operation) (timed_out : Bool) (d : Dispatcher)
    → IsSerial d
    → IsSerial (stop env op timed_out d)
unfolding stop
stop-IsExclusive env op timed_out d = conclude-IsExclusive env op _ _ _ d

pub abandon-IsExclusive : (op : Operation) (d : Dispatcher) → IsSerial d → IsSerial (abandon op d)
unfolding abandon
abandon-IsExclusive op d = leave-IsExclusive _ _ d

-- a new operation, which waits, under an ID that no other has
pub enter-IsExclusive :
    (op : Operation) (d : Dispatcher)
    → op.phase ≡ waiting
    → contains op.binding.request_id d.operations ≡ false
    → IsSerial d
    → IsExclusive (update op d).operations d.locked
enter-IsExclusive op d p c v =
    update-IsExclusive op d d.locked v
      (λ k. ground (arith, p, c, v.exclusive k, eq_iff op.binding.request_id k))

pub checkpoint-IsExclusive :
    (env : Env) (op : Operation) (next : Dispatcher → Dispatcher) (token : Option Bool)
    (d : Dispatcher)
    → IsSerial d
    → IsSerial (next d)
    → IsSerial (checkpoint env op next token d)
unfolding checkpoint
checkpoint-IsExclusive env op next none d v h = h
checkpoint-IsExclusive env op next (some t) d v h = stop-IsExclusive env op t d v

pub acquire-IsExclusive :
    (env : Env) (op : Operation) (d : Dispatcher)
    → d.locked ≡ none
    → IsSerial d
    → IsSerial (acquire env op d)
unfolding acquire
acquire-IsExclusive env op d l v = checkpoint-IsExclusive env op _ op.token d v (
    update-IsExclusive (record op { phase = authorizing }) d (some op.binding.request_id) v
      (λ k. ground (arith, l, v.exclusive k, eq_iff op.binding.request_id k)))

-- what is put under an ID that has the lock already
pub replace-IsExclusive :
    (op : Operation) (d : Dispatcher)
    → active_of (lookup op.binding.request_id d.operations) ≡ is_active op.phase
    → IsSerial d
    → IsSerial (update op d)
replace-IsExclusive op d p v =
    update-IsExclusive op d d.locked v
      (λ k. ground (arith, p, v.exclusive k, eq_iff op.binding.request_id k))

pub launch-IsExclusive :
    (op : Operation) (recorded : Bool) (d : Dispatcher)
    → active_of (lookup op.binding.request_id d.operations) ≡ true
    → IsSerial d
    → IsSerial (launch op (recorded, d))
unfolding launch
launch-IsExclusive op false d p v = leave-IsExclusive _ _ d v
launch-IsExclusive op true d p v =
    replace-IsExclusive (record op { phase = running d.next_task }) d p v

pub begin-IsExclusive :
    (env : Env) (op : Operation) (d : Dispatcher)
    → active_of (lookup op.binding.request_id d.operations) ≡ true
    → IsSerial d
    → IsSerial (begin env op d)
unfolding begin record_audit
begin-IsExclusive env op d p v =
    checkpoint-IsExclusive env op _ op.token d v
      (launch-IsExclusive op _ (record d { audit_events = _ }) p v)

pub authorized-IsExclusive :
    (env : Env) (a : Authorization) (op : Operation) (d : Dispatcher)
    → active_of (lookup op.binding.request_id d.operations) ≡ true
    → IsSerial d
    → IsSerial (authorized env a op d)
unfolding authorized
authorized-IsExclusive env (said true) op d p v = begin-IsExclusive env op d p v
authorized-IsExclusive env (said false) op d p v = conclude-IsExclusive env op _ _ _ d v
authorized-IsExclusive env (interrupted t) op d p v = stop-IsExclusive env op t d v
authorized-IsExclusive env raised op d p v = conclude-IsExclusive env op _ _ _ d v
authorized-IsExclusive env cancelled_error op d p v =
    checkpoint-IsExclusive env op (abandon op) op.token d v (abandon-IsExclusive op d v)

pub executed-IsExclusive :
    (env : Env) (x : Execution) (op : Operation) (d : Dispatcher)
    → IsSerial d
    → IsSerial (executed env x op d)
unfolding executed
executed-IsExclusive env stopped_task op d v = abandon-IsExclusive op d v
executed-IsExclusive env (returned r) op d v = report-IsExclusive env op _ d v
executed-IsExclusive env (executor_error b) op d v = report-IsExclusive env op _ d v
executed-IsExclusive env other_error op d v = report-IsExclusive env op _ d v

-- the operation under an ID has that ID, and is past the lock if its phase is
pub lookup-active :
    (id : String) (op : Operation) (d : Dispatcher)
    → lookup id d.operations ≡ some op
    → IsSerial d
    → active_of (lookup op.binding.request_id d.operations) ≡ is_active op.phase
lookup-active id op d e v =
    ap (λ x. active_of (lookup x d.operations)) (Keyed-lookup id op d.operations v.keyed e)
    ∙ ap active_of e

pub cancelled-IsExclusive :
    (k : String) (timed_out : Bool) (op : Operation) (d : Dispatcher)
    → lookup k d.operations ≡ some op
    → IsSerial d
    → IsSerial (update (cancelled_operation timed_out op) d)
cancelled-IsExclusive k timed_out op d e v =
    replace-IsExclusive (cancelled_operation timed_out op) d (lookup-active k op d e v) v

pub cancel_if-IsExclusive :
    (b : RequestBinding) (k : String) (o : Option Operation) (d : Dispatcher)
    → lookup k d.operations ≡ o
    → IsSerial d
    → IsSerial (cancel_if b o d).1
unfolding cancel_if
cancel_if-IsExclusive b k none d e v = v
cancel_if-IsExclusive b k (some op) d e v =
    if_intro (λ (x : Bool × Dispatcher). IsSerial x.1) (binding_eq op.binding b)
      (λ h. cancelled-IsExclusive k false op d e v) (λ h. v)

pub cancel_request-IsExclusive :
    (b : RequestBinding) (d : Dispatcher) → IsSerial d → IsSerial (cancel_request b d).1
unfolding cancel_request
cancel_request-IsExclusive b d v = cancel_if-IsExclusive b b.request_id _ d refl v

pub disconnected-IsExclusive :
    (bs : List RequestBinding) (d : Dispatcher) → IsSerial d → IsSerial (disconnected bs d)
unfolding disconnected
disconnected-IsExclusive [] d v = v
disconnected-IsExclusive (b ∷ bs) d v =
    disconnected-IsExclusive bs _ (cancel_request-IsExclusive b d v)

admit-IsExclusive :
    (env : Env) (op : Operation) (valid : Bool) (d : Dispatcher)
    → IsSerial d
    → IsSerial (admit env op valid d)
unfolding admit
admit-IsExclusive env op true d v = v
admit-IsExclusive env op false d v = conclude-IsExclusive env op _ _ _ d v

pub submit-IsExclusive :
    (env : Env) (request : ProductionRequest) (b : RequestBinding) (d : Dispatcher)
    → IsSerial d
    → IsSerial (submit env request b d)
unfolding submit
submit-IsExclusive env request b d v =
    if_intro IsSerial (is_mismatched env request b d) {x = refuse request d} (λ h. v)
      (λ h. admit-IsExclusive env (entering request b) _ (enter request b d) (entered h))
  where
    entered : is_mismatched env request b d ≡ false → IsSerial (enter request b d)
    entered h =
        let same : request.request_id ≡ b.request_id =
          ground (arith, h, eq_iff request.request_id b.request_id) in
        let free : contains request.request_id d.operations ≡ false = ground (arith, h) in
        subst (λ x. IsSerial (record d { operations = insert x (entering request b) d.operations }))
          (sym same)
          (enter-IsExclusive (entering request b) d refl
            (subst (λ x. contains x d.operations ≡ false) same free) v)
