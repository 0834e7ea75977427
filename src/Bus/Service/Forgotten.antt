-- ===== src/Bus/Service/Forgotten.antt =====
-- What is left in the service of a request that was replied to.
use lsmf.Base.{String, ◌≡◌, refl, sym, ◌∙◌, ap, Option, none, some, arith, subst}
use lsmf.Base.Results.{Result, ok, err, ◌>>=◌, ok-injectivity}
use lsmf.Base.Dict.{lookup, erase}
use lsmf.Peer.Identity.{RequestBinding, binding_eq_iff}
use lsmf.Registry
use lsmf.Registry.{Registry, require_live, register}
use lsmf.Registry.Behaviour.{register-complete}
use lsmf.Bus.Caller.{Error, boundary_error, other_error}
use lsmf.Bus.Service
use lsmf.Bus.Service.{
  Boundary, Response, text, not_text, raised, complete_if_live, finish_submit, completed, or_keep,
}
use lsmf.Bus.Service.Consistency.{IsConsistent, finish_submit-IsConsistent}
use lsmf.Bus.Router.{Sent, reply_to}

-- The request is not live.
abbrev IsDropped : RequestBinding → Boundary → Type 0
IsDropped binding s = ¬ (lookup binding.request_id s.registry.live ≡ some binding)

nothing-found :
    (binding : RequestBinding) (o : Option RequestBinding) → o ≡ none → ¬ (o ≡ some binding)
nothing-found binding o gone found = cc

-- A live request can be completed.
complete-live :
    (binding : RequestBinding) (r : Registry) (message : String)
    → Registry.complete binding r ≡ err message
    → ¬ (lookup binding.request_id r.live ≡ some binding)
unfolding Registry.complete require_live
complete-live binding r message h live =
    absurd (ground (arith, h, live, binding_eq_iff binding binding))

module _ (binding : RequestBinding) (s : Boundary) (c : IsConsistent s) where
  -- the service with what the registry has become
  abbrev after : Registry → Boundary
  after registry = record { registry = registry; bindings = erase binding.request_id s.bindings }

  registry-IsDropped :
      (r : Result Registry) (t : Boundary)
      → Registry.complete binding s.registry ≡ r
      → (r >>= λ registry. ok (after registry)) ≡ ok t
      → IsDropped binding t
  registry-IsDropped (err message) t e k = absurd (ground (arith, k))
  registry-IsDropped (ok registry) t e k =
      let (gone, _) = register-complete binding binding s.registry registry c.valid e refl in
      subst (IsDropped binding) {x = after registry} (ok-injectivity k)
        (nothing-found binding (lookup binding.request_id registry.live) gone)

  refused-IsDropped :
      (r : Result Registry) (message : String)
      → Registry.complete binding s.registry ≡ r
      → (r >>= λ registry. ok (after registry)) ≡ err message
      → IsDropped binding s
  refused-IsDropped (err other) message e k = complete-live binding s.registry other e
  refused-IsDropped (ok registry) message e k = absurd (ground (arith, k))

  or_keep-IsDropped :
      (r : Result Boundary) → Service.complete binding s ≡ r → IsDropped binding (or_keep r s)
  unfolding Service.complete
  or_keep-IsDropped (ok t) e = registry-IsDropped (Registry.complete binding s.registry) t refl e
  or_keep-IsDropped (err message) e =
      refused-IsDropped (Registry.complete binding s.registry) message refl e

  complete_if_live-IsDropped : IsDropped binding (complete_if_live binding s)
  unfolding complete_if_live
  complete_if_live-IsDropped = or_keep-IsDropped (Service.complete binding s) refl

  completed-IsDropped :
      (response : String) (r : Result Boundary)
      → Service.complete binding s ≡ r
      → IsDropped binding (completed binding response s r).1
  completed-IsDropped response (ok t) e = or_keep-IsDropped (ok t) e
  completed-IsDropped response (err message) e = complete_if_live-IsDropped

  replied-IsDropped :
      (response : Response) (reply : Sent)
      → reply_to (finish_submit binding response s).0 ≡ some reply
      → IsDropped binding (finish_submit binding response s).1
  unfolding finish_submit reply_to
  replied-IsDropped (text response) reply h =
      completed-IsDropped response (Service.complete binding s) refl
  replied-IsDropped not_text reply h = complete_if_live-IsDropped
  replied-IsDropped (raised Error.cancelled) reply h = λ live. absurd (ground (arith, h))
  replied-IsDropped (raised (boundary_error code message)) reply h = complete_if_live-IsDropped
  replied-IsDropped (raised (other_error message)) reply h = complete_if_live-IsDropped

-- When a reply to a dispatched `Submit` is sent, whatever the dispatcher answered, the request is
-- live no more, neither in the registry nor in the service's own table.
pub replied-forgotten :
    (binding : RequestBinding) (response : Response) (s : Boundary) (reply : Sent)
    → IsConsistent s
    → reply_to (finish_submit binding response s).0 ≡ some reply
    → (¬ (
        lookup binding.request_id (finish_submit binding response s).1.registry.live
        ≡ some binding))
      × (¬ (lookup binding.request_id (finish_submit binding response s).1.bindings ≡ some binding))
replied-forgotten binding response s reply c h =
    let gone = replied-IsDropped binding s c response reply h in
    let same = (finish_submit-IsConsistent binding s c response).same in
    (gone, λ found. gone (sym (ap (lookup binding.request_id) same) ∙ found))
