-- ===== src/Bus/Service/Admission.antt =====
-- Which messages reach the dispatcher, and in whose name.
use lsmf.Base.{String, false, [], ◌∷◌, ◌≡◌, ◌≢◌, refl, ap, subst, arith, ℤ, ◌∙◌, sym}
use lsmf.Base.Results.{Result, ok, err, >>=-eq-ok}
use lsmf.Base.Dict.{mem, contains, insert}
use lsmf.Protocol.Models.{ProductionRequest}
use lsmf.Protocol.Wire.{decode_production_request}
use lsmf.Peer.Identity.{
  Action, TransportCredentials, PeerIdentity, RequestBinding, request_binding,
  transport_credentials,
}
use lsmf.Peer.Derive.{LoginBackend, resolve_peer, resolve_with, adapter_session, readable_sessions}
use lsmf.Peer.Derive.Laws.{derive_peer_sound}
use lsmf.Peer.Derive.Backend.{IsLiveSession, resolve_peer_sound}
use lsmf.Authorization.Pkcheck.{credentials}
use lsmf.Registry.{Registry, register}
use lsmf.Registry.Invariant.{register_inv}
use lsmf.Bus.Caller.{Call, Error, other_error, looked_up, dbus_credentials, caller_peer}
use lsmf.Bus.Service.{
  Boundary, Started, refused, dispatched, start_submit, identified, then_register, registered,
  or_refuse, or_raise,
}

credentials_sound :
    (pid uid : ℤ) (owner : String) (c : TransportCredentials)
    → credentials (ok pid) (ok uid) owner ≡ ok c
    → (pid ≡ ℤ.pos c.pid) × (uid ≡ ℤ.pos c.uid) × (c.unique_owner ≡ owner)
unfolding credentials transport_credentials
credentials_sound (ℤ.pos pid) (ℤ.pos uid) owner c h = ground arith
credentials_sound (ℤ.pos pid) (ℤ.negsuc uid) owner c h = ground arith
credentials_sound (ℤ.negsuc pid) uid owner c h = ground arith

dbus_credentials_sound :
    (call : Call) (owner : String) (c : TransportCredentials)
    → dbus_credentials call owner ≡ ok c
    → (looked_up call.pid_reply ≡ ok (ℤ.pos c.pid))
      × (looked_up call.uid_reply ≡ ok (ℤ.pos c.uid))
      × (c.unique_owner ≡ owner)
unfolding dbus_credentials
dbus_credentials_sound call owner c h =
    let (_, _, h₁) = >>=-eq-ok (credentials (ok (ℤ.pos 1)) (ok (ℤ.pos 1)) owner) _ h in
    let (pid, ep, h₂) = >>=-eq-ok (looked_up call.pid_reply) _ h₁ in
    let (uid, eu, h₃) = >>=-eq-ok (looked_up call.uid_reply) _ h₂ in
    let (p, u, o) = credentials_sound pid uid owner c h₃ in (ep ∙ ap ok p, eu ∙ ap ok u, o)

resolve_with-unique_owner :
    (b : LoginBackend) (c : TransportCredentials) (p : PeerIdentity) (r : Result String)
    → resolve_with b c r ≡ ok p
    → p.unique_owner ≡ c.unique_owner
unfolding resolve_with
resolve_with-unique_owner b c p (ok i) h =
    let (s, e, h₁) = >>=-eq-ok (adapter_session b i c) _ h in
    let (_, _, _, _, bound) = derive_peer_sound c (s ∷ []) p h₁ in bound.2
resolve_with-unique_owner b c p (err m) h =
    let (is, e, h₁) = >>=-eq-ok (b.sessions_for_uid c.uid) _ h in
    let (_, _, _, _, bound) = derive_peer_sound c (readable_sessions b c is) p h₁ in bound.2

-- Whom the bus and the login service make of the sender.
abbrev pub IsCaller : Call → String → PeerIdentity → Type 0
IsCaller call sender p =
    (looked_up call.pid_reply ≡ ok (ℤ.pos p.pid))
    × (looked_up call.uid_reply ≡ ok (ℤ.pos p.uid))
    × (p.uid ≢ 0)
    × (p.unique_owner ≡ sender)
    × (c : TransportCredentials) × (c.uid ≡ p.uid)
    × IsLiveSession call.backend c p

caller_peer-IsCaller :
    (call : Call) (sender : String) (p : PeerIdentity)
    → caller_peer call sender ≡ ok p
    → IsCaller call sender p
unfolding caller_peer
caller_peer-IsCaller call sender p h =
    let (c, ec, h₁) = >>=-eq-ok (dbus_credentials call sender) _ h in
    let (pid, uid, owner) = dbus_credentials_sound call sender c ec in
    let (nonroot, same_pid, same_uid, live, _) = resolve_peer_sound call.backend c p h₁ in
    let own : p.unique_owner ≡ c.unique_owner =
      unfold resolve_peer in
      resolve_with-unique_owner call.backend c p (call.backend.session_for_pid c.pid) h₁ in
    (
      pid ∙ ap (λ n. ok (ℤ.pos n)) (sym same_pid),
      uid ∙ ap (λ n. ok (ℤ.pos n)) (sym same_uid),
      (λ e. nonroot (sym same_uid ∙ e)),
      own ∙ owner,
      c,
      sym same_uid,
      live,
    )

-- What a message is when it is given on: the request that it decodes to, bound to its own ID,
-- action and parameters and to the caller.
abbrev IsIdentified : Call → String → Started (ProductionRequest × RequestBinding) → Type 0
IsIdentified call sender (refused error) = Unit
IsIdentified call sender (dispatched (request, binding)) =
    (decode_production_request call.size call.payload ≡ ok request)
    × (binding.request_id ≡ request.request_id)
    × (binding.action ≡ request.action)
    × (binding.parameter_digest ≡ call.digest request)
    × IsCaller call sender binding.peer

module _ {A B : Type 0} (P : Started B → Type 0) (rest : A → Started B) where
  or_refuse_intro :
      (r : Result A) (error : Error)
      → P (refused error)
      → ((a : A) → r ≡ ok a → P (rest a))
      → P (or_refuse r error rest)
  or_refuse_intro (ok a) error h k = k a refl
  or_refuse_intro (err message) error h k = h

  or_raise_intro :
      (r : Result A)
      → ((error : Error) → P (refused error))
      → ((a : A) → r ≡ ok a → P (rest a))
      → P (or_raise r rest)
  or_raise_intro (ok a) h k = k a refl
  or_raise_intro (err message) h k = h (other_error message)

request_binding-fields :
    (request_id : String) (action : Action) (digest : String) (p : PeerIdentity)
    (b : RequestBinding)
    → request_binding request_id action digest p ≡ ok b
    → (b.request_id ≡ request_id)
      × (b.action ≡ action)
      × (b.parameter_digest ≡ digest)
      × (p ≡ b.peer)
unfolding request_binding
request_binding-fields request_id action digest p b h = ground arith

identified-IsIdentified :
    (call : Call) (sender : String) → IsIdentified call sender (identified call sender)
unfolding identified
identified-IsIdentified call sender =
    or_refuse_intro (IsIdentified call sender) _ (decode_production_request call.size call.payload)
      _ tt
      (λ request decoded.
        or_refuse_intro (IsIdentified call sender) _ (caller_peer call sender) _ tt (λ peer known.
          or_raise_intro (IsIdentified call sender) _
            (request_binding request.request_id request.action (call.digest request) peer)
            (λ error. tt)
            (λ binding bound.
              let (id, action, digest, same) =
                request_binding-fields request.request_id request.action (call.digest request) peer
                  binding bound in
              (
                decoded,
                id,
                action,
                digest,
                subst (IsCaller call sender) same (caller_peer-IsCaller call sender peer known),
              ))))

-- What `submit` has done before the dispatcher's answer.
abbrev pub IsAdmission :
    Call → String → Boundary → Started (ProductionRequest × RequestBinding) × Boundary → Type 0
IsAdmission call sender s (refused error, t) = t ≡ s
IsAdmission call sender s (dispatched (request, binding), t) =
    IsIdentified call sender (dispatched (request, binding))
    × (contains binding.request_id s.registry.live ≡ false)
    × (mem binding.request_id s.registry.recent ≡ false)
    × (t.registry.live ≡ insert binding.request_id binding s.registry.live)
    × (t.bindings ≡ insert binding.request_id binding s.bindings)

registered-IsAdmission :
    (call : Call) (sender : String) (s : Boundary) (request : ProductionRequest)
    (binding : RequestBinding) (r : Result Registry)
    → IsIdentified call sender (dispatched (request, binding))
    → register binding s.registry ≡ r
    → IsAdmission call sender s (registered request binding s r)
registered-IsAdmission call sender s request binding (err message) known h = refl
registered-IsAdmission call sender s request binding (ok registry) known h =
    let (fresh, unseen, room, same) = register_inv binding s.registry registry h in
    (known, fresh, unseen, ap (λ (t : Registry). t.live) (sym same), refl)

then_register-IsAdmission :
    (call : Call) (sender : String) (s : Boundary)
    (started : Started (ProductionRequest × RequestBinding))
    → IsIdentified call sender started
    → IsAdmission call sender s (then_register started s)
then_register-IsAdmission call sender s (refused error) known = refl
then_register-IsAdmission call sender s (dispatched (request, binding)) known =
    registered-IsAdmission call sender s request binding (register binding s.registry) known refl

-- A message for `Submit` is either refused, and nothing is changed, or it is given to the
-- dispatcher as the request that it decodes to, with a binding that has the request's ID and action
-- and the digest of its parameters, and the sender as its peer: with the PID and the UID that the
-- bus daemon names, not root, and with a session that the login service reports as this user's,
-- active, local and graphical. Its ID was neither live nor recent, and it is live now, with all
-- others as they were.
pub start_submit-IsAdmission :
    (call : Call) (sender : String) (s : Boundary)
    → IsAdmission call sender s (start_submit call sender s)
unfolding start_submit
start_submit-IsAdmission call sender s =
    then_register-IsAdmission call sender s (identified call sender)
      (identified-IsIdentified call sender)
