-- ===== src/Bus/Service/Vanished.antt =====
-- A caller that has left the bus is not answered.
use lsmf.Base.{
  ◌&&◌, Bool, String, true, false, List, [], ◌∷◌, some, ◌≡◌, ◌≢◌, refl, ap, sym, subst, arith,
  eq_iff, str_eq, Bool-cases, Option-cases, inl, inr, All, ◌∙◌,
}
use lsmf.Base.Results.{Result, ok, err, ◌>>=◌}
use lsmf.Base.Dict.{Dict, lookup, insert, erase}
use lsmf.Protocol.Models.{ProductionRequest}
use lsmf.Protocol.Wire.{decode_production_request}
use lsmf.Peer.Identity.{RequestBinding, binding_eq_iff, is_safe_detail, safe}
use lsmf.Registry
use lsmf.Registry.{Registry, require_live, retire, ids_where, invalidate, invalidate_owner}
use lsmf.Registry.Invariant.{retired, complete_inv}
use lsmf.Bus.Caller.{Call, Error, boundary_error, other_error}
use lsmf.Bus.Service
use lsmf.Bus.Service.{
  Boundary, Answer, raises, Started, refused, dispatched, Response, text, not_text, raised,
  start_submit, finish_submit, completed, complete_if_live, or_keep, disconnected, invalidated,
}
use lsmf.Bus.Service.Consistency.{Event, registers, answers, vanishes, step, run, IsConsistent}
use lsmf.Bus.Service.Disconnection.{values, without, owned_by, disconnected_lem}
use lsmf.Bus.Service.Admission.{IsAdmission, start_submit-IsAdmission}

module _ (gone : RequestBinding) where
  -- a request of the same name under the same ID
  abbrev is_same : RequestBinding → Bool
  is_same b = owned_by gone.peer.unique_owner b && str_eq b.request_id gone.request_id

  -- No live request is such a one.
  Lacks : Dict RequestBinding → Type 0
  Lacks d = All (λ b. is_same b ≡ false) (values d)

  without-Lacks : (d : Dict RequestBinding) → Lacks (without (owned_by gone.peer.unique_owner) d)
  unfolding Lacks
  without-Lacks [] = tt
  without-Lacks ((k, b) ∷ d) = elim (Bool-cases (owned_by gone.peer.unique_owner b)) [
    | inl mine ↦ rw mine (without-Lacks d)
    | inr other ↦ rw other (ground (arith, other), without-Lacks d)
  ]

  insert-Lacks :
      (k : String) (b : RequestBinding) (d : Dict RequestBinding)
      → is_same b ≡ false
      → Lacks d
      → Lacks (insert k b d)
  unfolding Lacks
  insert-Lacks k b [] h l = (h, tt)
  insert-Lacks k b ((j, a) ∷ d) h l = elim (Bool-cases (str_eq j k)) [
    | inl same ↦ rw same (h, l.1)
    | inr other ↦ rw other (l.0, insert-Lacks k b d h l.1)
  ]

  erase-Lacks : (k : String) (d : Dict RequestBinding) → Lacks d → Lacks (erase k d)
  unfolding Lacks
  erase-Lacks k [] l = tt
  erase-Lacks k ((j, a) ∷ d) l = elim (Bool-cases (str_eq j k)) [
    | inl same ↦ rw same l.1
    | inr other ↦ rw other (l.0, erase-Lacks k d l.1)
  ]

  retire-Lacks : (ks : List String) (r : Registry) → Lacks r.live → Lacks (retire ks r).live
  unfolding retire
  retire-Lacks [] r l = l
  retire-Lacks (k ∷ ks) r l = retire-Lacks ks (retired k r) (erase-Lacks k r.live l)

  lookup-Lacks :
      (k : String) (b : RequestBinding) (d : Dict RequestBinding)
      → Lacks d
      → lookup k d ≡ some b
      → is_same b ≡ false
  unfolding Lacks
  lookup-Lacks k b [] l h = cc
  lookup-Lacks k b ((j, a) ∷ d) l h = ground (arith, lookup-Lacks k b d l.1)

  abbrev IsQuiet : Boundary → Type 0
  IsQuiet s = Lacks s.registry.live

  complete-IsQuiet :
      (b : RequestBinding) (s t : Boundary) → IsQuiet s → Service.complete b s ≡ ok t → IsQuiet t
  unfolding Service.complete
  complete-IsQuiet b s t l h = go (Registry.complete b s.registry) refl h
    where
      go :
          (r : Result Registry)
          → Registry.complete b s.registry ≡ r
          → (r >>= λ registry.
              ok (record { registry = registry; bindings = erase b.request_id s.bindings }))
            ≡ ok t
          → IsQuiet t
      go (err message) e k = cc
      go (ok registry) e k =
          let same = ap (λ (u : Registry). u.live) (complete_inv b s.registry registry e).1 in
          let live : registry.live ≡ t.registry.live = ground (arith, k) in
          subst Lacks (same ∙ live) (erase-Lacks b.request_id s.registry.live l)

  complete_if_live-IsQuiet :
      (b : RequestBinding) (s : Boundary) → IsQuiet s → IsQuiet (complete_if_live b s)
  unfolding complete_if_live
  complete_if_live-IsQuiet b s l = go (Service.complete b s) refl
    where
      go : (r : Result Boundary) → Service.complete b s ≡ r → IsQuiet (or_keep r s)
      go (ok t) h = complete-IsQuiet b s t l h
      go (err message) h = l

  finish_submit-IsQuiet :
      (b : RequestBinding) (response : Response) (s : Boundary)
      → IsQuiet s
      → IsQuiet (finish_submit b response s).1
  unfolding finish_submit
  finish_submit-IsQuiet b (text response) s l = go (Service.complete b s) refl
    where
      go : (r : Result Boundary) → Service.complete b s ≡ r → IsQuiet (completed b response s r).1
      go (ok t) h = complete-IsQuiet b s t l h
      go (err message) h = complete_if_live-IsQuiet b s l
  finish_submit-IsQuiet b not_text s l = complete_if_live-IsQuiet b s l
  finish_submit-IsQuiet b (raised Error.cancelled) s l = l
  finish_submit-IsQuiet b (raised (boundary_error code message)) s l =
      complete_if_live-IsQuiet b s l
  finish_submit-IsQuiet b (raised (other_error message)) s l = complete_if_live-IsQuiet b s l

  disconnected-IsQuiet :
      (other : String) (s : Boundary) → IsQuiet s → IsQuiet (disconnected other s).2
  unfolding disconnected invalidate_owner safe invalidate
  disconnected-IsQuiet other s l = elim (Bool-cases (is_safe_detail other)) [
    | inl named ↦ rw named (
        retire-Lacks (ids_where (λ b. str_eq b.peer.unique_owner other) s.registry.live) s.registry
          l)
    | inr unnamed ↦ rw unnamed l
  ]

  -- No request of the name is registered under the ID again. A request that the name sent before it
  -- vanished may still be registered after, under another ID.
  abbrev pub Avoids : Event → Type 0
  Avoids (registers call sender) =
      (request : ProductionRequest)
      → decode_production_request call.size call.payload ≡ ok request
      → request.request_id ≡ gone.request_id
      → sender ≢ gone.peer.unique_owner
  Avoids (answers b response) = Unit
  Avoids (vanishes other) = Unit

  admitted-IsQuiet :
      (call : Call) (sender : String) (s : Boundary)
      (r : Started (ProductionRequest × RequestBinding) × Boundary)
      → IsAdmission call sender s r
      → Avoids (registers call sender)
      → IsQuiet s
      → IsQuiet r.1
  admitted-IsQuiet call sender s (refused error, t) a avoids l = subst IsQuiet (sym a) l
  admitted-IsQuiet call sender s (dispatched (request, binding), t) a avoids l =
      let (identified, _, _, live, _) = a in
      let (decoded, same_id, _, _, caller) = identified in
      let (_, _, _, from, _, _, _) = caller in
      let foreign : is_same binding ≡ false =
        elim (Bool-cases (str_eq binding.request_id gone.request_id)) [
          | inl again ↦ ground (
            arith,
            from,
            avoids request decoded
                (sym same_id ∙ (eq_iff binding.request_id gone.request_id).0 again),
            eq_iff binding.peer.unique_owner gone.peer.unique_owner,
          )
          | inr new ↦ ground (arith, new)
        ] in
      subst Lacks (sym live) (insert-Lacks binding.request_id binding s.registry.live foreign l)

  step-IsQuiet : (event : Event) (s : Boundary) → Avoids event → IsQuiet s → IsQuiet (step event s)
  unfolding step
  step-IsQuiet (registers call sender) s avoids l =
      admitted-IsQuiet call sender s (start_submit call sender s)
        (start_submit-IsAdmission call sender s) avoids l
  step-IsQuiet (answers b response) s avoids l = finish_submit-IsQuiet b response s l
  step-IsQuiet (vanishes other) s avoids l = disconnected-IsQuiet other s l

  run-IsQuiet :
      (events : List Event) (s : Boundary) → All Avoids events → IsQuiet s → IsQuiet (run events s)
  unfolding run
  run-IsQuiet [] s avoids l = l
  run-IsQuiet (event ∷ events) s avoids l =
      run-IsQuiet events (step event s) avoids.1 (step-IsQuiet event s avoids.0 l)

  complete-absent :
      (s : Boundary)
      → IsQuiet s
      → Service.complete gone s ≡ err "request owner or identity binding changed"
  unfolding Service.complete Registry.complete require_live
  complete-absent s l = elim (Option-cases (lookup gone.request_id s.registry.live)) [
    | inl absent ↦ rw absent
    | inr (a, e) ↦ ground (
      arith,
      e,
      lookup-Lacks gone.request_id a s.registry.live l e,
      binding_eq_iff a gone,
      eq_iff a.request_id gone.request_id,
      eq_iff a.peer.unique_owner gone.peer.unique_owner,
    )
  ]

-- What a `submit` raises that is not answered: that the request was invalidated, in place of a text,
-- and else the error that it would raise anyway.
abbrev pub lost_error : Response → Error
lost_error (text response) = boundary_error "request_invalidated" "Request identity was invalidated"
lost_error not_text = other_error "dispatcher response is not text"
lost_error (raised error) = error

finish_submit-absent :
    (binding : RequestBinding) (response : Response) (s : Boundary)
    → Service.complete binding s ≡ err "request owner or identity binding changed"
    → (finish_submit binding response s).0 ≡ raises (lost_error response)
unfolding finish_submit
finish_submit-absent binding (text response) s h = rw h
finish_submit-absent binding not_text s h = refl
finish_submit-absent binding (raised Error.cancelled) s h = refl
finish_submit-absent binding (raised (boundary_error code message)) s h = refl
finish_submit-absent binding (raised (other_error message)) s h = refl

-- Once a name has vanished from the bus, no answer of the dispatcher to a request of that name is
-- returned: the `submit` that waits for it raises that the request was invalidated, where the answer
-- is a text, and else its own error. Other registrations, answers and disconnections may come
-- between, a late registration of the name under another request ID too; but none of the name under
-- the same ID. The name is one that a peer can have, and the service was consistent.
pub vanished-unanswered :
    (s : Boundary) (events : List Event) (binding : RequestBinding) (response : Response)
    → is_safe_detail binding.peer.unique_owner ≡ true
    → IsConsistent s
    → All (Avoids binding) events
    → (finish_submit binding response (run events (step (vanishes binding.peer.unique_owner) s))).0
      ≡ raises (lost_error response)
unfolding step
vanished-unanswered s events binding response named c avoids =
    let owner = binding.peer.unique_owner in
    let (_, _, _, live) = disconnected_lem owner s named c in
    let quiet : IsQuiet binding (disconnected owner s).2 =
      subst (Lacks binding) (sym live) (without-Lacks binding s.registry.live) in
    finish_submit-absent binding response (run events (disconnected owner s).2) (
      complete-absent binding (run events (disconnected owner s).2)
        (run-IsQuiet binding events (disconnected owner s).2 avoids quiet))
