-- ===== src/Privileged/Helper/Execution.antt =====
-- When `handle` runs the executor, and that it runs it once for a request ID.
use lsmf.Base.{
  String, ◌≡◌, refl, ◌∙◌, ap, subst, Bool, true, false, not, List, [], ◌∷◌, ◌++◌, Option, none,
  some, ◌⊎◌, inl, inr,
}
use lsmf.Base.Results.{Result, ok, err, ◌>>=◌}
use lsmf.Privileged.Models.{ResultStatus, status_value, PrivilegedRequest, PrivilegedResult}
use lsmf.Privileged.Helper.{
  authorization_of, AuditEvent, HelperOutcome, Boundaries, Call, recorded, executed, Helper, event,
  error_result, append_event, is_recorded, ask, record_event, ending, finish, refuse,
  execute_request, start, check_executor, check_authorizer, validated_result,
}

-- The requests that were executed, in order.
abbrev pub executions : List Call → List PrivilegedRequest
executions [] = []
executions (recorded e ∷ cs) = executions cs
executions (executed r ∷ cs) = r ∷ executions cs

executions-recorded :
    (cs : List Call) (e : AuditEvent) → executions (cs ++ recorded e ∷ []) ≡ executions cs
executions-recorded [] e = refl
executions-recorded (recorded f ∷ cs) e = executions-recorded cs e
executions-recorded (executed r ∷ cs) e = ap (λ xs. r ∷ xs) (executions-recorded cs e)

executions-executed :
    (cs : List Call) (r : PrivilegedRequest)
    → executions (cs ++ executed r ∷ []) ≡ executions cs ++ r ∷ []
executions-executed [] r = refl
executions-executed (recorded f ∷ cs) r = executions-executed cs r
executions-executed (executed q ∷ cs) r = ap (λ xs. q ∷ xs) (executions-executed cs r)

-- Nothing more was executed, and no more IDs were seen.
abbrev pub Same : Helper → Helper → Type 0
Same h h' = (executions h'.calls ≡ executions h.calls) × (h'.seen ≡ h.seen)

Same-record_event :
    (b : Boundaries) (require : Bool) (e : AuditEvent) (h : Helper)
    → Same h (record_event b require e h).1
unfolding record_event
Same-record_event b require e h = go b.audit_sink
  where
    go :
        (sink : Option (AuditEvent → Result (Option Bool)))
        → Same h
            (elim sink as (λ _. Bool × Helper) [
              | none ↦ (not require, append_event e h)
              | some sink ↦ (is_recorded (sink e), ask (recorded e) (append_event e h))
            ]).1
    go none = (refl, refl)
    go (some sink) = (executions-recorded h.calls e, refl)

Same-ending :
    (result : Option PrivilegedResult) (q : Option PrivilegedRequest) (e : AuditEvent)
    (o : Bool × Helper)
    → Same o.1 (ending result q e o).1
Same-ending result q e (true, h) = (refl, refl)
Same-ending result none e (false, h) = (refl, refl)
Same-ending result (some r) e (false, h) = (refl, refl)

pub Same-finish :
    (b : Boundaries) (result : Option PrivilegedResult) (q : Option PrivilegedRequest)
    (outcome detail : String) (h : Helper)
    → Same h (finish b result q outcome detail h).1
unfolding finish
Same-finish b result q outcome detail h =
    let o : Bool × Helper = record_event b false (event q outcome detail) h in
    let first = Same-record_event b false (event q outcome detail) h in
    let last = Same-ending result q (event q outcome detail) o in
    (last.0 ∙ first.0, last.1 ∙ first.1)

pub Same-refuse :
    (b : Boundaries) (r : PrivilegedRequest) (status : ResultStatus)
    (message outcome detail : String) (h : Helper)
    → Same h (refuse b r status message outcome detail h).1
unfolding refuse
Same-refuse b r status message outcome detail h = Same-finish b _ (some r) outcome detail h

-- The request was executed, and no more IDs were seen.
abbrev pub Ran : PrivilegedRequest → Helper → Helper → Type 0
Ran r h h' = (executions h'.calls ≡ executions h.calls ++ r ∷ []) × (h'.seen ≡ h.seen)

Ran-execute_request :
    (b : Boundaries) (r : PrivilegedRequest) (f : PrivilegedRequest → Result PrivilegedResult)
    (h : Helper)
    → Ran r h (execute_request b r f h).1
unfolding execute_request
Ran-execute_request b r f h = go (f r >>= validated_result r)
  where
    asked : Helper
    asked = ask (executed r) h

    then_same : (h' : Helper) → Same asked h' → Ran r h h'
    then_same h' s = (s.0 ∙ executions-executed h.calls r, s.1)

    go :
        (o : Result PrivilegedResult)
        → Ran r h
            (elim o as (λ _. HelperOutcome × Helper) [
              | err _ ↦
                  refuse b r ResultStatus.error "Execution failed" "error" "executor error"
                    (ask (executed r) h)
              | ok result ↦
                  finish b
                    (some result)
                    (some r)
                    (status_value result.status)
                    "request completed"
                    (ask (executed r) h)
            ]).1
    go (err x) =
        then_same
          (refuse b r ResultStatus.error "Execution failed" "error" "executor error" asked).1
          (Same-refuse b r ResultStatus.error "Execution failed" "error" "executor error" asked)
    go (ok result) =
        then_same
          (finish b (some result) (some r) (status_value result.status) "request completed" asked).1
          (Same-finish b (some result) (some r) (status_value result.status) "request completed"
            asked)

-- The event that announces the execution was recorded.
abbrev pub IsAnnounced : Boundaries → PrivilegedRequest → Type 0
IsAnnounced b r =
    (sink : AuditEvent → Result (Option Bool)) × (b.audit_sink ≡ some sink)
    × (is_recorded (sink (event (some r) "started" "executor starting")) ≡ true)

announced :
    (b : Boundaries) (e : AuditEvent) (h h' : Helper)
    → record_event b true e h ≡ (true, h')
    → (sink : AuditEvent → Result (Option Bool)) × (b.audit_sink ≡ some sink)
      × (is_recorded (sink e) ≡ true)
unfolding record_event
announced b e h h' same = go b.audit_sink refl same
  where
    go :
        (o : Option (AuditEvent → Result (Option Bool)))
        → b.audit_sink ≡ o
        → (elim o as (λ _. Bool × Helper) [
          | none ↦ (false, append_event e h)
          | some sink ↦ (is_recorded (sink e), ask (recorded e) (append_event e h))
        ])
          ≡ (true, h')
        → (sink : AuditEvent → Result (Option Bool)) × (b.audit_sink ≡ some sink)
          × (is_recorded (sink e) ≡ true)
    go none has same = cc
    go (some sink) has same = (sink, has, ap (λ (o : Bool × Helper). o.0) same)

start_cases :
    (b : Boundaries) (r : PrivilegedRequest) (f : PrivilegedRequest → Result PrivilegedResult)
    (h : Helper)
    → Same h (start b r f h).1 ⊎ IsAnnounced b r × Ran r h (start b r f h).1
unfolding start
start_cases b r f h = go (record_event b true (event (some r) "started" "executor starting") h) refl
  where
    started : AuditEvent
    started = event (some r) "started" "executor starting"

    begin : Bool × Helper → HelperOutcome × Helper
    begin (true, h) = execute_request b r f h
    begin (false, h) =
        let lost = event (some r) "error" "start audit recording failed" in
        (
          record {
            result = some (error_result r ResultStatus.error "Audit recording failed");
            audit_event = lost;
          },
          append_event lost h,
        )

    go :
        (o : Bool × Helper)
        → record_event b true started h ≡ o
        → Same h (begin o).1 ⊎ IsAnnounced b r × Ran r h (begin o).1
    go (true, k) e =
        let same : Same h k =
          subst (λ (o : Bool × Helper). Same h o.1) e (Same-record_event b true started h) in
        let ran = Ran-execute_request b r f k in
        inr (announced b started h k e, (ran.0 ∙ ap (λ xs. xs ++ r ∷ []) same.0, ran.1 ∙ same.1))
    go (false, k) e =
        inl (subst (λ (o : Bool × Helper). Same h o.1) e (Same-record_event b true started h))

-- What must hold before a request is executed.
abbrev pub IsPermitted : Boundaries → PrivilegedRequest → Type 0
IsPermitted b r =
    ((validate : PrivilegedRequest → Result Bool) × (b.policy ≡ some validate)
      × (validate r ≡ ok true))
    × ((i : String) × (authorize : String → PrivilegedRequest → Result Bool) × (authorization_of
            r.action
          ≡ some i)
        × (b.authorizer ≡ some authorize)
        × (authorize i r ≡ ok true))
    × IsAnnounced b r

executor_cases :
    (b : Boundaries) (r : PrivilegedRequest) (h : Helper)
    → Same h (check_executor b r h).1 ⊎ IsAnnounced b r × Ran r h (check_executor b r h).1
unfolding check_executor
executor_cases b r h = go b.executor b.audit_sink
  where
    go :
        (f : Option (PrivilegedRequest → Result PrivilegedResult))
        (s : Option (AuditEvent → Result (Option Bool)))
        → let h' =
            (elim f as (λ _. HelperOutcome × Helper) [
              | none ↦
                  refuse b r ResultStatus.denied "Execution is unavailable" "denied"
                    "executor unavailable" h
              | some executor ↦ elim s as (λ _. HelperOutcome × Helper) [
                | none ↦
                    refuse b r ResultStatus.error "Audit recording is unavailable" "error"
                      "audit sink unavailable before execution" h
                | some _ ↦ start b r executor h
              ]
            ]).1 in
          Same h h' ⊎ IsAnnounced b r × Ran r h h'
    go none s = inl (Same-refuse b r _ _ _ _ h)
    go (some f) none = inl (Same-refuse b r _ _ _ _ h)
    go (some f) (some s) = start_cases b r f h

pub authorizer_cases :
    (b : Boundaries) (r : PrivilegedRequest) (i : String) (h : Helper)
    → Same h (check_authorizer b r i h).1
      ⊎ ((authorize : String → PrivilegedRequest → Result Bool) × (b.authorizer ≡ some authorize)
          × (authorize i r ≡ ok true))
        × IsAnnounced b r
        × Ran r h (check_authorizer b r i h).1
unfolding check_authorizer
authorizer_cases b r i h = go b.authorizer refl
  where
    answer : Result Bool → HelperOutcome × Helper
    answer o = elim o [
      | err _ ↦ refuse b r ResultStatus.denied "Authorization failed" "denied" "authorizer error" h
      | ok false ↦
          refuse b r ResultStatus.denied "Authorization denied" "denied" "authorization denied" h
      | ok true ↦ check_executor b r h
    ]

    Cases : Helper → Type 0
    Cases h' =
        Same h h'
        ⊎ ((authorize : String → PrivilegedRequest → Result Bool) × (b.authorizer ≡ some authorize)
            × (authorize i r ≡ ok true))
          × IsAnnounced b r
          × Ran r h h'

    answered :
        (f : String → PrivilegedRequest → Result Bool)
        → b.authorizer ≡ some f
        → (o : Result Bool) → f i r ≡ o
        → Cases (answer o).1
    answered f has (err x) e = inl (Same-refuse b r _ _ _ _ h)
    answered f has (ok false) e = inl (Same-refuse b r _ _ _ _ h)
    answered f has (ok true) e = elim (executor_cases b r h) [
      | inl same ↦ inl same
      | inr (told, ran) ↦ inr ((f, has, e), told, ran)
    ]

    go :
        (o : Option (String → PrivilegedRequest → Result Bool))
        → b.authorizer ≡ o
        → Cases
            (elim o as (λ _. HelperOutcome × Helper) [
              | none ↦
                  refuse b r ResultStatus.denied "Authorization is unavailable" "denied"
                    "authorizer unavailable" h
              | some authorize ↦ answer (authorize i r)
            ]).1
    go none has = inl (Same-refuse b r _ _ _ _ h)
    go (some f) has = answered f has (f i r) refl
