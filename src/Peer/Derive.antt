-- ===== src/Peer/Derive.antt =====
-- lsmf/ipc_security.py `derive_peer`; lsmf/system_session.py
-- `SystemdLoginSessionAdapter`, over a login backend that is an argument.
pub mod Laws
pub mod Backend
use lsmf.Base.{
  ℕ, String, Bool, true, false, not, ◌&&◌, ◌||◌, List, [], ◌∷◌, ◌==◌, ◌≡◌, keep, is_empty, str_eq,
  ℤ, if◌then◌else◌,
}
use lsmf.Base.Results.{Result, ok, err, ◌>>=◌, ◌>>◌, raise_if}
use lsmf.Base.Dict.{Dict}
use lsmf.Peer.Identity.{
  TransportCredentials, SessionIdentity, PeerIdentity, peer_identity, session_identity,
}

-- the test of the comprehension `matches`
unfoldable pub is_match : TransportCredentials → SessionIdentity → Bool
is_match credentials session =
    session.uid == credentials.uid
    && session.transport_pid == credentials.pid
    && session.active
    && session.is_local
    && session.graphical

-- what is done with `matches`: exactly one is needed
unfoldable pub of_matches : TransportCredentials → List SessionIdentity → Result PeerIdentity
of_matches credentials (session ∷ []) =
    peer_identity (ℤ.pos credentials.pid) (ℤ.pos credentials.uid) credentials.unique_owner
      session.session_id session.seat_id
of_matches credentials _ = err "caller must have one active local graphical session"

unfoldable pub derive_peer : TransportCredentials → List SessionIdentity → Result PeerIdentity
derive_peer credentials sessions = do
  raise_if (credentials.uid == 0) "root desktop callers are unsupported"
  raise_if (is_empty sessions) "trusted session records are missing or malformed"
  of_matches credentials (keep (is_match credentials) sessions)

-- system_session.py: `class LoginBackend`, the calls of sd-login, which may raise.
pub record LoginBackend : Type 0 where
  pub session_for_pid : ℕ → Result String
  pub sessions_for_uid : ℕ → Result (List String)
  pub session_uid : String → Result ℤ
  pub session_seat : String → Result String
  pub session_active : String → Result Bool
  pub session_remote : String → Result Bool
  pub session_type : String → Result String

-- `SystemdLoginSessionAdapter._session`; the messages of the errors that it wraps are kept.
unfoldable pub adapter_session :
    LoginBackend → String → TransportCredentials → Result SessionIdentity
adapter_session backend session_id credentials = do
  uid ← backend.session_uid session_id
  seat ← backend.session_seat session_id
  active ← backend.session_active session_id
  remote ← backend.session_remote session_id
  session_type ← backend.session_type session_id
  identity ←
      session_identity session_id uid (ℤ.pos credentials.pid) seat active (not remote)
        (str_eq session_type "x11" || str_eq session_type "wayland")
  raise_if (not (identity.uid == credentials.uid)) "session UID differs from bus credentials"
  ok identity

-- the loop over `session_ids`: a session that cannot be read is left out
unfoldable pub readable_sessions :
    LoginBackend → TransportCredentials → List String → List SessionIdentity
readable_sessions backend credentials [] = []
readable_sessions backend credentials (item ∷ items) =
    let rest = readable_sessions backend credentials items in
    elim (adapter_session backend item credentials) [ ok session ↦ session ∷ rest | err _ ↦ rest ]

-- `SystemdLoginSessionAdapter.session`
unfoldable pub session : LoginBackend → TransportCredentials → Result SessionIdentity
session backend credentials = do
  session_id ← backend.session_for_pid credentials.pid
  adapter_session backend session_id credentials

-- `SystemdLoginSessionAdapter.resolve_peer` once `session_for_pid` has answered: by that
-- session, or, where the PID has none, by all sessions of the user
unfoldable pub resolve_with :
    LoginBackend → TransportCredentials → Result String → Result PeerIdentity
resolve_with backend credentials (ok session_id) = do
  session ← adapter_session backend session_id credentials
  derive_peer credentials (session ∷ [])
resolve_with backend credentials (err _) = do
  session_ids ← backend.sessions_for_uid credentials.uid
  derive_peer credentials (readable_sessions backend credentials session_ids)

unfoldable pub resolve_peer : LoginBackend → TransportCredentials → Result PeerIdentity
resolve_peer backend credentials =
    resolve_with backend credentials (backend.session_for_pid credentials.pid)
