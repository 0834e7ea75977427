-- ===== src/Bus/Service.antt =====
-- lsmf/system_bus_service.py `SystemBusServiceBoundary`, cut at the awaits of its dispatcher. What
-- stands between two awaits runs with no other call between. The credentials are awaited before
-- anything of the service is read, so the part before the dispatcher is one function.
pub mod Consistency
pub mod Disconnection
pub mod Admission
pub mod Vanished
pub mod Forgotten
use lsmf.Base.{ℕ, String, Bool, true, false, List, [], ◌∷◌, ◌++◌, Option, none, some, if◌then◌else◌}
use lsmf.Base.Results.{Result, ok, err, ◌>>=◌}
use lsmf.Base.Dict.{Dict, lookup, insert, erase}
use lsmf.Protocol.Models.{ProductionRequest, ProductionCancel}
use lsmf.Protocol.Wire.{decode_production_request, decode_cancel}
use lsmf.Peer.Identity.{PeerIdentity, RequestBinding, request_binding}
use lsmf.Registry.{Registry, register, require_owner, invalidate_owner}
use lsmf.Registry
use lsmf.Bus.Caller.{Call, Error, boundary_error, other_error, caller_peer}

-- `registry` and `_bindings`
pub record Boundary : Type 0 where
  pub registry : Registry
  pub bindings : Dict RequestBinding

-- What the first part of `submit` or `cancel` comes to: an exception, or the await of the
-- dispatcher, which is given this.
pub data Started (A : Type 0) : Type 0 where
  refused : Error → Started A
  dispatched : A → Started A

-- `except Exception as error: raise ServiceBoundaryError(code, message) from error`
abbrev or_refuse : {A B : Type 0} → Result A → Error → (A → Started B) → Started B
or_refuse (ok value) error rest = rest value
or_refuse (err message) error rest = refused error

-- an exception that nothing catches
abbrev or_raise : {A B : Type 0} → Result A → (A → Started B) → Started B
or_raise (ok value) rest = rest value
or_raise (err message) rest = refused (other_error message)

-- the registration, in `submit`
abbrev registered :
    ProductionRequest
    → RequestBinding
    → Boundary
    → Result Registry
    → Started (ProductionRequest × RequestBinding) × Boundary
registered request binding s (err message) =
    (refused (boundary_error "request_rejected" "Request registration failed"), s)
registered request binding s (ok registry) = (
  dispatched (request, binding),
  record { registry = registry; bindings = insert binding.request_id binding s.bindings },
)

-- what `submit` makes of a message before the registration
unfoldable pub identified : Call → String → Started (ProductionRequest × RequestBinding)
identified call sender =
    or_refuse (decode_production_request call.size call.payload)
      (boundary_error "invalid_request" "Request validation failed")
      λ request.
        or_refuse (caller_peer call sender)
          (boundary_error "identity_unavailable" "Caller identity is unavailable")
          λ peer.
            or_raise (request_binding request.request_id request.action (call.digest request) peer)
              λ binding. dispatched (request, binding)

abbrev then_register :
    Started (ProductionRequest × RequestBinding)
    → Boundary
    → Started (ProductionRequest × RequestBinding) × Boundary
then_register (refused error) s = (refused error, s)
then_register (dispatched (request, binding)) s =
    registered request binding s (register binding s.registry)

-- `submit` up to the await of the dispatcher
unfoldable pub start_submit :
    Call → String → Boundary → Started (ProductionRequest × RequestBinding) × Boundary
start_submit call sender s = then_register (identified call sender) s

-- `complete`
unfoldable pub complete : RequestBinding → Boundary → Result Boundary
complete binding s = do
  registry ← Registry.complete binding s.registry
  ok (record { registry = registry; bindings = erase binding.request_id s.bindings })

abbrev or_keep : Result Boundary → Boundary → Boundary
or_keep (ok t) s = t
or_keep (err message) s = s

-- `_complete_if_live`
unfoldable pub complete_if_live : RequestBinding → Boundary → Boundary
complete_if_live binding s = or_keep (complete binding s) s

-- what the dispatcher's `submit` or `cancel` comes to
pub data Response : Type 0 where
  text : String → Response
  not_text : Response
  raised : Error → Response

-- What a call comes to.
pub data Answer : Type 0 where
  returned : String → Answer
  raises : Error → Answer

abbrev completed : RequestBinding → String → Boundary → Result Boundary → Answer × Boundary
completed binding response s (ok t) = (returned response, t)
completed binding response s (err message) = (
  raises (boundary_error "request_invalidated" "Request identity was invalidated"),
  complete_if_live binding s,
)

-- `submit` from the dispatcher's answer on. A cancellation is no `Exception`, and passes by.
unfoldable pub finish_submit : RequestBinding → Response → Boundary → Answer × Boundary
unfolding complete_if_live
finish_submit binding (text response) s = completed binding response s (complete binding s)
finish_submit binding not_text s =
    (raises (other_error "dispatcher response is not text"), complete_if_live binding s)
finish_submit binding (raised Error.cancelled) s = (raises Error.cancelled, s)
finish_submit binding (raised (boundary_error code message)) s =
    (raises (boundary_error code message), complete_if_live binding s)
finish_submit binding (raised (other_error message)) s =
    (raises (other_error message), complete_if_live binding s)

-- `cancel` up to the await of the dispatcher
unfoldable pub start_cancel : Call → String → Boundary → Started RequestBinding
start_cancel call sender s =
    or_refuse (decode_cancel call.size call.payload)
      (boundary_error "invalid_cancel" "Cancellation validation failed")
      λ c.
        or_refuse (caller_peer call sender)
          (boundary_error "identity_unavailable" "Caller identity is unavailable")
          λ peer.
            or_refuse (require_owner c.request_id peer s.registry)
              (boundary_error "cancel_rejected" "Cancellation rejected")
              λ binding. dispatched binding

-- `cancel` from the dispatcher's answer on
unfoldable pub finish_cancel : Response → Answer
finish_cancel (text response) = returned response
finish_cancel not_text = raises (boundary_error "cancel_rejected" "Cancellation rejected")
finish_cancel (raised (boundary_error code message)) = raises (boundary_error code message)
finish_cancel (raised Error.cancelled) = raises Error.cancelled
finish_cancel (raised (other_error message)) =
    raises (boundary_error "cancel_rejected" "Cancellation rejected")

abbrev found : Option RequestBinding → List RequestBinding → List RequestBinding
found none rest = rest
found (some binding) rest = binding ∷ rest

-- `self._bindings.pop(request_id, None)` for each ID: what is found, and what is left
unfoldable pub pop_all :
    List String → Dict RequestBinding → List RequestBinding × Dict RequestBinding
pop_all [] d = ([], d)
pop_all (k ∷ ks) d = let (rest, left) = pop_all ks (erase k d) in (found (lookup k d) rest, left)

abbrev invalidated :
    Result (List String × Registry) → Boundary → List String × List RequestBinding × Boundary
invalidated (err message) s = ([], [], s)
invalidated (ok (request_ids, registry)) s =
    let (popped, left) = pop_all request_ids s.bindings in
    (request_ids, popped, record { registry = registry; bindings = left })

-- `disconnected`: what it returns, and what it gives the dispatcher, whose exceptions it drops
unfoldable pub disconnected : String → Boundary → List String × List RequestBinding × Boundary
unfolding pop_all
disconnected unique_owner s = invalidated (invalidate_owner unique_owner s.registry) s
