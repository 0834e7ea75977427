-- ===== src/Tests/Services.antt =====
-- A desktop program asks for an audit and leaves the bus before it is answered.
use lsmf.Base.{String, ◌≡◌, refl, true, false, [], ◌∷◌, none, some, ℤ, arith, keep, List, eq_iff}
use lsmf.Base.Results.{ok}
use lsmf.Peer.Identity.{
  safe, Action, RequestBinding, binding_eq, peer_eq, is_safe_detail, action_value, is_request_id,
  transport_credentials, session_identity, is_digest, peer_identity, request_binding,
}
use lsmf.Peer.Derive.{
  LoginBackend, resolve_peer, resolve_with, adapter_session, derive_peer, is_match, of_matches,
}
use lsmf.Protocol.Objects.{action_of}
use lsmf.Protocol.Checks.{
  production_request, canonical_request_id, check_module_ids, check_parameters,
}
use lsmf.Protocol.Json.{Json}
use lsmf.Protocol.Models.{ProductionRequest}
use lsmf.Protocol.Wire.{
  encode_production_request, decode_production_request, parse, parameters_of, exact,
  decode_parameters,
}
use lsmf.Authorization.Pkcheck.{credentials}
use lsmf.Registry.{Registry, create, register, ids_where}
use lsmf.Registry.Invariant.{create-IsValid, register-IsValid}
use lsmf.Bus.Caller.{Call, caller_peer, dbus_credentials, looked_up, boundary_error}
use lsmf.Bus.Service.{
  Boundary, text, raises, start_submit, identified, dispatched, finish_submit, disconnected,
}
use lsmf.Bus.Service.Consistency.{
  Event, registers, answers, vanishes, step, run, starting, IsConsistent, run-IsConsistent,
}
use lsmf.Bus.Service.Disconnection.{values, without, owned_by, disconnected_lem}
use lsmf.Bus.Service.Admission.{IsAdmission, start_submit-IsAdmission}
use lsmf.Bus.Service.Vanished.{vanished-unanswered, lost_error}
use lsmf.Bus.Service.Forgotten.{replied-forgotten}
use lsmf.Bus.Router.{
  Message, MessageType, Sent, method_return, reply_to, handle, task, asked, submits, rejected,
}
use lsmf.Base.Dict.{lookup}
use lsmf.Bus.Service
use lsmf.Registry

abbrev audit_request : ProductionRequest
audit_request = record {
  protocol_version = Json.int (ℤ.pos 1);
  request_id = "0f8fad5b-d9cb-469f-a165-70867728950e";
  action = Action.audit;
  module_ids = [];
  backup_id = none;
}

abbrev logins : LoginBackend
logins = record {
  session_for_pid = λ pid. ok "c2";
  sessions_for_uid = λ uid. ok ("c2" ∷ []);
  session_uid = λ i. ok (ℤ.pos 1000);
  session_seat = λ i. ok "seat0";
  session_active = λ i. ok true;
  session_remote = λ i. ok false;
  session_type = λ i. ok "wayland";
}

abbrev zeros : String
zeros = "0000000000000000000000000000000000000000000000000000000000000000"

abbrev call : Call
call = record {
  size = 120;
  payload = encode_production_request audit_request;
  pid_reply = ok (record { is_return = true; body = some (ℤ.pos 4711 ∷ []) });
  uid_reply = ok (record { is_return = true; body = some (ℤ.pos 1000 ∷ []) });
  backend = logins;
  digest = λ request. zeros;
}

abbrev binding : RequestBinding
binding = record {
  request_id = "0f8fad5b-d9cb-469f-a165-70867728950e";
  action = Action.audit;
  parameter_digest = zeros;
  peer = record {
    pid = 4711;
    uid = 1000;
    unique_owner = ":1.42";
    session_id = "c2";
    seat_id = "seat0";
  };
}

abbrev empty : Registry
empty = record { max_live = 2; max_recent = 1; live = []; recent = [] }

abbrev waiting : Boundary
waiting = record {
  registry = record empty { live = (binding.request_id, binding) ∷ [] };
  bindings = (binding.request_id, binding) ∷ [];
}

created : create 2 1 ≡ ok empty
unfolding create
created = refl

registered : register binding empty ≡ ok waiting.registry
unfolding register
registered = refl

admitted :
    start_submit call ":1.42" (starting empty) ≡ (dispatched (audit_request, binding), waiting)
unfolding start_submit identified caller_peer dbus_credentials credentials register
    decode_production_request encode_production_request parse parameters_of exact action_of
    action_value decode_parameters production_request canonical_request_id is_request_id
    check_module_ids check_parameters transport_credentials is_safe_detail resolve_peer resolve_with
    adapter_session session_identity looked_up derive_peer is_match of_matches is_digest
    peer_identity request_binding
admitted = refl

start_submit-IsAdmission_example :
    IsAdmission call ":1.42" (starting empty) (start_submit call ":1.42" (starting empty))
start_submit-IsAdmission_example = start_submit-IsAdmission call ":1.42" (starting empty)

abbrev events : List Event
events = registers call ":1.42" ∷ answers binding (text "{}") ∷ vanishes ":1.42" ∷ []

run-IsConsistent_example : IsConsistent (run events (starting empty))
run-IsConsistent_example = run-IsConsistent 2 1 empty events created

waiting-IsConsistent : IsConsistent waiting
waiting-IsConsistent = record {
  valid =
      register-IsValid binding empty waiting.registry (create-IsValid 2 1 empty created) registered;
  same = refl;
}

named : is_safe_detail ":1.42" ≡ true
unfolding is_safe_detail
named = refl

disconnected_lem_example :
    ((disconnected ":1.42" waiting).1 ≡ keep (owned_by ":1.42") (values waiting.registry.live))
    × ((disconnected ":1.42" waiting).0 ≡ ids_where (owned_by ":1.42") waiting.registry.live)
    × ((disconnected ":1.42" waiting).2.bindings ≡ without (owned_by ":1.42") waiting.registry.live)
    × ((disconnected ":1.42" waiting).2.registry.live
        ≡ without (owned_by ":1.42") waiting.registry.live)
disconnected_lem_example = disconnected_lem ":1.42" waiting named waiting-IsConsistent

-- another program asks for something in the meantime
vanished-unanswered_example :
    (finish_submit binding
      (text "{}")
      (run (registers call ":1.77" ∷ []) (step (vanishes ":1.42") waiting))).0
    ≡ raises (lost_error (text "{}"))
vanished-unanswered_example =
    vanished-unanswered waiting (registers call ":1.77" ∷ []) binding (text "{}") named
      waiting-IsConsistent ((λ request decoded same. ground (arith, eq_iff ":1.77" ":1.42")), tt)

-- A request that was sent before its sender vanished is registered after, and answered then.
late_is_answered :
    (finish_submit binding
      (text "{}")
      (run (vanishes ":1.42" ∷ registers call ":1.42" ∷ []) (starting empty))).0
    ≡ Service.returned "{}"
unfolding run step Service.disconnected Registry.invalidate_owner Registry.invalidate
    Registry.retire safe Service.pop_all Registry.ids_where finish_submit Service.complete
    Registry.complete Registry.require_live binding_eq peer_eq start_submit identified caller_peer
    dbus_credentials credentials register decode_production_request encode_production_request parse
    parameters_of exact action_of action_value decode_parameters production_request
    canonical_request_id is_request_id check_module_ids check_parameters transport_credentials
    is_safe_detail resolve_peer resolve_with adapter_session session_identity looked_up derive_peer
    is_match of_matches is_digest peer_identity request_binding Registry.remember
    Registry.trim_recent
late_is_answered = refl

-- The audit is answered.
abbrev audit_answered : Sent
audit_answered = method_return "{}"

audit_is_answered : reply_to (finish_submit binding (text "{}") waiting).0 ≡ some audit_answered
unfolding reply_to finish_submit Service.complete Registry.complete Registry.require_live binding_eq
    peer_eq
audit_is_answered = refl

replied-forgotten_example :
    (¬ (
      lookup binding.request_id (finish_submit binding (text "{}") waiting).1.registry.live
      ≡ some binding))
    × (¬ (
        lookup binding.request_id (finish_submit binding (text "{}") waiting).1.bindings
        ≡ some binding))
replied-forgotten_example =
    replied-forgotten binding (text "{}") waiting audit_answered waiting-IsConsistent
      audit_is_answered

abbrev submission : Message
submission = record {
  message_type = MessageType.method_call;
  path = some "/org/lsmf/Helper1";
  interface = some "org.lsmf.Helper1";
  sender = some ":1.42";
  member = some "Submit";
  signature = some "s";
  body = some (some "{}" ∷ []);
}

is_dispatched : (handle submission ≡ task) × (asked submission ≡ submits ":1.42" "{}")
unfolding handle asked
is_dispatched = (refl, refl)

-- A well-known name is no sender.
refuses_well_known :
    asked (record submission { sender = some "org.example" })
    ≡ rejected (boundary_error "invalid_call" "Method call is invalid")
unfolding asked
refuses_well_known = refl
