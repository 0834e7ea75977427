-- ===== src/Bus/Caller.antt =====
-- lsmf/system_bus_service.py: who sent a message, `DbusNextCredentialResolver` and `_resolve_peer`,
-- and the errors of the service.
use lsmf.Base.{ℕ, String, Bool, not, List, [], ◌∷◌, Option, some, ℤ}
use lsmf.Base.Results.{Result, ok, err, ◌>>=◌, ◌>>◌, raise_if}
use lsmf.Protocol.Json.{Json}
use lsmf.Protocol.Models.{ProductionRequest}
use lsmf.Peer.Identity.{TransportCredentials, PeerIdentity}
use lsmf.Peer.Derive.{LoginBackend, resolve_peer}
use lsmf.Authorization.Pkcheck.{credentials}

-- A reply of the bus daemon: if it is a METHOD_RETURN, and its body where that is a list.
pub record Reply : Type 0 where
  pub is_return : Bool
  pub body : Option (List ℤ)

-- What is given with a message, and what is asked while it is handled: the text, as the tree that
-- its JSON stands for and its size, the daemon's replies, the login service and the SHA-256 of
-- parameters. A call of the daemon that raises has no reply.
pub record Call : Type 0 where
  pub size : ℕ
  pub payload : Json
  pub pid_reply : Result Reply
  pub uid_reply : Result Reply
  pub backend : LoginBackend
  pub digest : ProductionRequest → String

abbrev only_item : Option (List ℤ) → Result ℤ
only_item (some (number ∷ [])) = ok number
only_item _ = err "Bus credential lookup failed"

-- `lookup`, which checks a reply
unfoldable pub looked_up : Result Reply → Result ℤ
looked_up reply = do
  r ← reply
  raise_if (not r.is_return) "Bus credential lookup failed"
  only_item r.body

-- `DbusNextCredentialResolver.credentials`: the name is checked before the daemon is asked.
unfoldable pub dbus_credentials : Call → String → Result TransportCredentials
unfolding looked_up
dbus_credentials call unique_owner = do
  credentials (ok (ℤ.pos 1)) (ok (ℤ.pos 1)) unique_owner
  pid ← looked_up call.pid_reply
  uid ← looked_up call.uid_reply
  credentials (ok pid) (ok uid) unique_owner

-- `_resolve_peer` up to its `except` clause
unfoldable pub caller_peer : Call → String → Result PeerIdentity
caller_peer call sender = do c ← dbus_credentials call sender; resolve_peer call.backend c

-- What a call of the service raises: a ServiceBoundaryError with its code and message, another
-- exception, or the cancellation of its task.
pub data Error : Type 0 where
  boundary_error : String → String → Error
  other_error : String → Error
  cancelled : Error
