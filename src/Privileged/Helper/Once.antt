-- ===== src/Privileged/Helper/Once.antt =====
-- What one call of `handle` executes, and that a history of calls executes a request ID once.
use lsmf.Base.{
  String, ◌≡◌, refl, sym, ◌∙◌, ap, subst, Bool, true, false, List, [], ◌∷◌, ◌++◌, Option, none,
  some, arith, ◌⊎◌, inl, inr, if◌then◌else◌,
}
use lsmf.Base.Results.{Result, ok, err}
use lsmf.Base.Dict.{mem, distinct, mem-append_last, distinct-append_last}
use lsmf.Privileged.Models.{ResultStatus, PrivilegedRequest}
use lsmf.Privileged.Helper.{
  authorization_of, HelperOutcome, Boundaries, Helper, refuse, check_authorizer, is_allowed,
  check_policy, handle,
}
use lsmf.Privileged.Helper.Execution.{
  executions, Same, Ran, IsPermitted, Same-finish, Same-refuse, authorizer_cases,
}

policy_cases :
    (b : Boundaries) (r : PrivilegedRequest) (h : Helper)
    → Same h (check_policy b r h).1 ⊎ IsPermitted b r × Ran r h (check_policy b r h).1
unfolding check_policy
policy_cases b r h = go (authorization_of r.action) refl b.policy refl
  where
    Cases : Helper → Type 0
    Cases h' = Same h h' ⊎ IsPermitted b r × Ran r h h'

    answer : String → Bool → HelperOutcome × Helper
    answer i o = elim o [
      | false ↦
          refuse b r ResultStatus.denied "Request is not eligible" "rejected"
            "trusted request policy rejected request" h
      | true ↦ check_authorizer b r i h
    ]

    allowed : (o : Result Bool) → is_allowed o ≡ true → o ≡ ok true
    allowed (ok x) e = ap ok e
    allowed (err x) e = cc

    answered :
        (i : String)
        → authorization_of r.action ≡ some i
        → (f : PrivilegedRequest → Result Bool) → b.policy ≡ some f
        → (o : Bool) → is_allowed (f r) ≡ o
        → Cases (answer i o).1
    answered i named f has false e = inl (Same-refuse b r _ _ _ _ h)
    answered i named f has true e = elim (authorizer_cases b r i h) [
      | inl same ↦ inl same
      | inr ((authorize, given, agreed), told, ran) ↦
          inr (((f, has, allowed (f r) e), (i, authorize, named, given, agreed), told), ran)
    ]

    chosen : Option String → Option (PrivilegedRequest → Result Bool) → HelperOutcome × Helper
    chosen o p = elim o [
      | none ↦
          refuse b r ResultStatus.denied "Action is not allowed" "denied"
            "action has no authorization policy" h
      | some i ↦ elim p [
        | none ↦
            refuse b r ResultStatus.denied "Request policy is unavailable" "rejected"
              "request policy unavailable" h
        | some validate ↦ answer i (is_allowed (validate r))
      ]
    ]

    go :
        (o : Option String)
        → authorization_of r.action ≡ o
        → (p : Option (PrivilegedRequest → Result Bool)) → b.policy ≡ p
        → Cases (chosen o p).1
    go none named p has = inl (Same-refuse b r _ _ _ _ h)
    go (some i) named none has = inl (Same-refuse b r _ _ _ _ h)
    go (some i) named (some f) has = answered i named f has (is_allowed (f r)) refl

-- A call of `handle` executes nothing, or it executes the one request that was decoded, once: then
-- the request's ID had not been seen and is seen now, the policy and the authorizer of its action
-- were given and said yes to this very request, and the event that announces it was recorded.
pub handle_guarded :
    (b : Boundaries) (d : Result PrivilegedRequest) (h : Helper)
    → (executions (handle b d h).1.calls ≡ executions h.calls)
      ⊎ ((r : PrivilegedRequest) × (d ≡ ok r)
          × (mem r.request_id h.seen ≡ false)
          × ((handle b d h).1.seen ≡ r.request_id ∷ h.seen)
          × IsPermitted b r
          × (executions (handle b d h).1.calls ≡ executions h.calls ++ r ∷ []))
unfolding handle
handle_guarded b (err x) h = inl (Same-finish b none none _ _ h).0
handle_guarded b (ok r) h = go (mem r.request_id h.seen) refl
  where
    noted : Helper
    noted = record h { seen = r.request_id ∷ h.seen }

    go :
        (o : Bool)
        → mem r.request_id h.seen ≡ o
        → let h' =
            (if o
              then refuse b r ResultStatus.denied "Request ID was already used" "rejected"
                  "request ID replay rejected" h
              else check_policy b r noted).1 in
          (executions h'.calls ≡ executions h.calls)
          ⊎ ((q : PrivilegedRequest) × (ok r ≡ ok q)
              × (mem q.request_id h.seen ≡ false)
              × (h'.seen ≡ q.request_id ∷ h.seen)
              × IsPermitted b q
              × (executions h'.calls ≡ executions h.calls ++ q ∷ []))
    go true e = inl (Same-refuse b r _ _ _ _ h).0
    go false e = elim (policy_cases b r noted) [
      | inl same ↦ inl same.0
      | inr (permitted, ran) ↦ inr (r, refl, e, ran.1, permitted, ran.0)
    ]

-- `handle` on a history of payloads, each with what the boundaries answer then
unfoldable pub run : List (Boundaries × Result PrivilegedRequest) → Helper → Helper
run [] h = h
run ((b, d) ∷ rest) h = run rest (handle b d h).1

abbrev pub ids : List PrivilegedRequest → List String
ids [] = []
ids (r ∷ rs) = r.request_id ∷ ids rs

ids-append :
    (rs : List PrivilegedRequest) (r : PrivilegedRequest)
    → ids (rs ++ r ∷ []) ≡ ids rs ++ r.request_id ∷ []
ids-append [] r = refl
ids-append (q ∷ rs) r = ap (λ xs. q.request_id ∷ xs) (ids-append rs r)

-- Every executed ID was seen, and none twice.
pub record IsOnce (h : Helper) : Type 0 where
  pub once : distinct (ids (executions h.calls)) ≡ true
  pub noted : (k : String) → mem k (ids (executions h.calls)) ≡ true → mem k h.seen ≡ true

-- No call forgets an ID.
seen_stays :
    (b : Boundaries) (d : Result PrivilegedRequest) (h : Helper) (k : String)
    → mem k h.seen ≡ true
    → mem k (handle b d h).1.seen ≡ true
unfolding handle
seen_stays b (err x) h k m = subst (λ s. mem k s ≡ true) (sym (Same-finish b none none _ _ h).1) m
seen_stays b (ok r) h k m = go (mem r.request_id h.seen)
  where
    noted : Helper
    noted = record h { seen = r.request_id ∷ h.seen }

    longer : mem k (r.request_id ∷ h.seen) ≡ true
    longer = ground (arith, m)

    go :
        (o : Bool)
        → mem k
            (if o
              then refuse b r ResultStatus.denied "Request ID was already used" "rejected"
                  "request ID replay rejected" h
              else check_policy b r noted).1.seen
          ≡ true
    go true = subst (λ s. mem k s ≡ true) (sym (Same-refuse b r _ _ _ _ h).1) m
    go false = elim (policy_cases b r noted) [
      | inl same ↦ subst (λ s. mem k s ≡ true) (sym same.1) longer
      | inr (_, ran) ↦ subst (λ s. mem k s ≡ true) (sym ran.1) longer
    ]

handle-IsOnce :
    (b : Boundaries) (d : Result PrivilegedRequest) (h : Helper)
    → IsOnce h
    → IsOnce (handle b d h).1
handle-IsOnce b d h v = elim (handle_guarded b d h) [
  | inl same ↦ record {
    once = subst (λ xs. distinct (ids xs) ≡ true) (sym same) v.once;
    noted = λ k m. seen_stays b d h k (v.noted k (subst (λ xs. mem k (ids xs) ≡ true) same m));
  }
  | inr (r, _, fresh, seen, _, ran) ↦
      let all_ids : ids (executions (handle b d h).1.calls)
          ≡ ids (executions h.calls) ++ r.request_id ∷ [] =
        ap ids ran ∙ ids-append (executions h.calls) r in
      record {
        once =
            subst (λ xs. distinct xs ≡ true) (sym all_ids)
              (distinct-append_last r.request_id (ids (executions h.calls)) v.once
                (ground (arith, v.noted r.request_id, fresh)));
        noted = λ k m. ground (
          arith,
          seen,
          v.noted k,
          mem-append_last k r.request_id (ids (executions h.calls)),
          subst (λ xs. mem k xs ≡ true) all_ids m,
        );
      }
]

run-IsOnce :
    (history : List (Boundaries × Result PrivilegedRequest)) (h : Helper)
    → IsOnce h
    → IsOnce (run history h)
unfolding run
run-IsOnce [] h v = v
run-IsOnce ((b, d) ∷ rest) h v = run-IsOnce rest (handle b d h).1 (handle-IsOnce b d h v)

-- `__init__`
abbrev pub idle : Helper
idle = record { audit_events = []; seen = []; calls = [] }

-- Whatever payloads a new helper is given, and whatever its boundaries answer at each, it executes
-- no request ID twice.
pub executes_once :
    (history : List (Boundaries × Result PrivilegedRequest))
    → distinct (ids (executions (run history idle).calls)) ≡ true
executes_once history = (run-IsOnce history idle (record { once = refl; noted = λ k m. cc })).once
