-- ===== src/Bus/Service/Consistency.antt =====
-- The service's own table of bindings and the registry's table of live requests.
use lsmf.Base.{
  ℕ, String, Bool, List, [], ◌∷◌, ◌≡◌, refl, ap, arith, subst, str_eq, Bool-cases, inl, inr, ◌∙◌,
}
use lsmf.Base.Results.{Result, ok, err, ◌>>=◌}
use lsmf.Base.Dict.{Dict, insert, erase}
use lsmf.Protocol.Models.{ProductionRequest}
use lsmf.Peer.Identity.{RequestBinding, is_safe_detail, safe}
use lsmf.Registry
use lsmf.Registry.{
  Registry, create, register, retire, ids_where, invalidate, invalidate_owner, trim_recent,
}
use lsmf.Registry.Invariant.{
  IsValid, create-IsValid, register-IsValid, complete-IsValid, invalidate-IsValid, register_inv,
  complete_inv, retired,
}
use lsmf.Bus.Caller.{Call, Error, boundary_error, other_error}
use lsmf.Bus.Service
use lsmf.Bus.Service.{
  Boundary, Started, refused, dispatched, Response, text, not_text, raised, start_submit,
  identified, then_register, registered, complete_if_live, finish_submit, completed, pop_all,
  disconnected, invalidated, or_keep,
}

-- What happens next: a message for `Submit` is registered or refused, the dispatcher answers a
-- `submit`, or a name vanishes from the bus. The registration follows the awaited lookups of the
-- sender's credentials, so it may come after the sender has vanished. `cancel` changes nothing here.
pub data Event : Type 0 where
  registers : Call → String → Event
  answers : RequestBinding → Response → Event
  vanishes : String → Event

unfoldable pub step : Event → Boundary → Boundary
step (registers call sender) s = (start_submit call sender s).1
step (answers binding response) s = (finish_submit binding response s).1
step (vanishes unique_owner) s = (disconnected unique_owner s).2

unfoldable pub run : List Event → Boundary → Boundary
run [] s = s
run (event ∷ events) s = run events (step event s)

-- a new service, where the registry could be made
abbrev pub starting : Registry → Boundary
starting registry = record { registry = registry; bindings = [] }

-- The registry is valid, and the two tables have the same entries in the same order.
pub record IsConsistent (s : Boundary) : Type 0 where
  pub valid : IsValid s.registry
  pub same : s.bindings ≡ s.registry.live

ok_inj {ℓ} : {A : Type ℓ} {a b : A} → ok a ≡ ok b → a ≡ b
ok_inj h = cc

create-live :
    (max_live max_recent : ℕ) (r : Registry) → create max_live max_recent ≡ ok r → [] ≡ r.live
unfolding create
create-live max_live max_recent r h = ground arith

registered-IsConsistent :
    (request : ProductionRequest) (binding : RequestBinding) (s : Boundary) (r : Result Registry)
    → register binding s.registry ≡ r
    → IsConsistent s
    → IsConsistent (registered request binding s r).1
registered-IsConsistent request binding s (err message) h c = c
registered-IsConsistent request binding s (ok registry) h c = record {
  valid = register-IsValid binding s.registry registry c.valid h;
  same =
      ap (insert binding.request_id binding) c.same
      ∙ ap (λ (t : Registry). t.live) (register_inv binding s.registry registry h).3;
}

then_register-IsConsistent :
    (started : Started (ProductionRequest × RequestBinding)) (s : Boundary)
    → IsConsistent s
    → IsConsistent (then_register started s).1
then_register-IsConsistent (refused error) s c = c
then_register-IsConsistent (dispatched (request, binding)) s c =
    registered-IsConsistent request binding s (register binding s.registry) refl c

-- `complete`, where it returns
complete-IsConsistent :
    (binding : RequestBinding) (s t : Boundary)
    → Service.complete binding s ≡ ok t
    → IsConsistent s
    → IsConsistent t
unfolding Service.complete
complete-IsConsistent binding s t h c = go (Registry.complete binding s.registry) refl h
  where
    go :
        (r : Result Registry)
        → Registry.complete binding s.registry ≡ r
        → (r >>= λ registry.
            ok (record { registry = registry; bindings = erase binding.request_id s.bindings }))
          ≡ ok t
        → IsConsistent t
    go (err message) e k = cc
    go (ok registry) e k = subst IsConsistent (ok_inj k) (record {
      valid = complete-IsValid binding s.registry registry c.valid e;
      same =
          ap (erase binding.request_id) c.same
          ∙ ap (λ (u : Registry). u.live) (complete_inv binding s.registry registry e).1;
    })

or_keep-IsConsistent :
    (r : Result Boundary) (s : Boundary)
    → ((t : Boundary) → r ≡ ok t → IsConsistent t)
    → IsConsistent s
    → IsConsistent (or_keep r s)
or_keep-IsConsistent (ok t) s h c = h t refl
or_keep-IsConsistent (err message) s h c = c

module _ (binding : RequestBinding) (s : Boundary) (c : IsConsistent s) where
  complete_if_live-IsConsistent : IsConsistent (complete_if_live binding s)
  unfolding complete_if_live
  complete_if_live-IsConsistent =
      or_keep-IsConsistent (Service.complete binding s) s
        (λ t h. complete-IsConsistent binding s t h c) c

  completed-IsConsistent :
      (response : String) (r : Result Boundary)
      → Service.complete binding s ≡ r
      → IsConsistent (completed binding response s r).1
  completed-IsConsistent response (ok t) h = complete-IsConsistent binding s t h c
  completed-IsConsistent response (err message) h = complete_if_live-IsConsistent

  pub finish_submit-IsConsistent :
      (response : Response) → IsConsistent (finish_submit binding response s).1
  unfolding finish_submit
  finish_submit-IsConsistent (text response) =
      completed-IsConsistent response (Service.complete binding s) refl
  finish_submit-IsConsistent not_text = complete_if_live-IsConsistent
  finish_submit-IsConsistent (raised Error.cancelled) = c
  finish_submit-IsConsistent (raised (boundary_error code message)) = complete_if_live-IsConsistent
  finish_submit-IsConsistent (raised (other_error message)) = complete_if_live-IsConsistent

-- Both tables lose the same keys.
pub pop_all-retire :
    (ks : List String) (d : Dict RequestBinding) (r : Registry)
    → d ≡ r.live
    → (pop_all ks d).1 ≡ (retire ks r).live
unfolding pop_all retire
pop_all-retire [] d r h = h
pop_all-retire (k ∷ ks) d r h = pop_all-retire ks (erase k d) (retired k r) (ap (erase k) h)

invalidate-IsConsistent :
    (test : RequestBinding → Bool) (s : Boundary)
    → IsConsistent s
    → IsConsistent (invalidated (ok (invalidate test s.registry)) s).2
invalidate-IsConsistent test s c = record {
  valid = invalidate-IsValid test s.registry c.valid;
  same =
      unfold invalidate in
      pop_all-retire (ids_where test s.registry.live) s.bindings s.registry c.same;
}

disconnected-IsConsistent :
    (unique_owner : String) (s : Boundary)
    → IsConsistent s
    → IsConsistent (disconnected unique_owner s).2
unfolding disconnected invalidate_owner safe
disconnected-IsConsistent unique_owner s c = elim (Bool-cases (is_safe_detail unique_owner)) [
  | inl named ↦
      rw named (invalidate-IsConsistent (λ b. str_eq b.peer.unique_owner unique_owner) s c)
  | inr unnamed ↦ rw unnamed c
]

step-IsConsistent : (event : Event) (s : Boundary) → IsConsistent s → IsConsistent (step event s)
unfolding step start_submit
step-IsConsistent (registers call sender) s c =
    then_register-IsConsistent (identified call sender) s c
step-IsConsistent (answers binding response) s c = finish_submit-IsConsistent binding s c response
step-IsConsistent (vanishes unique_owner) s c = disconnected-IsConsistent unique_owner s c

keeps-IsConsistent :
    (events : List Event) (s : Boundary) → IsConsistent s → IsConsistent (run events s)
unfolding run
keeps-IsConsistent [] s c = c
keeps-IsConsistent (event ∷ events) s c =
    keeps-IsConsistent events (step event s) (step-IsConsistent event s c)

-- However the registrations, the dispatcher's answers and the disconnections of a new service follow one
-- another, the registry keeps its invariant (its bounds, no ID twice, no ID both live and recent,
-- each under its own key), and the service holds the bindings of exactly the live requests.
pub run-IsConsistent :
    (max_live max_recent : ℕ) (registry : Registry) (events : List Event)
    → create max_live max_recent ≡ ok registry
    → IsConsistent (run events (starting registry))
run-IsConsistent max_live max_recent registry events h =
    keeps-IsConsistent events (starting registry) (record {
      valid = create-IsValid max_live max_recent registry h;
      same = create-live max_live max_recent registry h;
    })
