-- ===== src/Peer/Identity.antt =====
-- lsmf/ipc_security.py: credentials, session records, peers and request bindings, with the checks
-- that their constructors make. The type annotations are the types of the arguments here.
use lsmf.Base.Decimal.{decimal}
use lsmf.Base.{
  List, [], ◌∷◌, ℕ, String, Bool, true, false, not, ◌&&◌, ◌||◌, [], ◌∷◌, leb, ◌==◌, all, length,
  str_eq, ℤ, if◌then◌else◌, ◌<>◌, ◌≡◌, ◌↔◌, arith, eq_iff,
}
use lsmf.Base.Results.{Result, ok, err, ◌>>=◌, ◌>>◌, raise_if}
use lsmf.Base.Text.{codes, is_lower, is_upper, is_digit, is_hex, matches, lit}

-- privileged_protocol.py: `class Action`
pub data Action : Type 0 where
  audit verify_module apply_module apply_modules rollback_backup : Action

-- `is` on two actions
abbrev pub action_eq : Action → Action → Bool
action_eq Action.audit Action.audit = true
action_eq Action.verify_module Action.verify_module = true
action_eq Action.apply_module Action.apply_module = true
action_eq Action.apply_modules Action.apply_modules = true
action_eq Action.rollback_backup Action.rollback_backup = true
action_eq _ _ = false

-- `Action.value`
unfoldable pub action_value : Action → String
action_value Action.audit = "audit"
action_value Action.verify_module = "verify_module"
action_value Action.apply_module = "apply_module"
action_value Action.apply_modules = "apply_modules"
action_value Action.rollback_backup = "rollback_backup"

abbrev pub max_kernel_id : ℕ
max_kernel_id = 4294967295

-- `_REQUEST_ID.fullmatch`
unfoldable pub is_request_id : String → Bool
is_request_id s =
    matches
      ((is_hex, 8)
        ∷ lit b'-'
        ∷ (is_hex, 4)
        ∷ lit b'-'
        ∷ ((λ c. leb b'1' c && leb c b'5'), 1)
        ∷ (is_hex, 3)
        ∷ lit b'-'
        ∷ ((λ c. c == b'8' || c == b'9' || c == b'a' || c == b'b'), 1)
        ∷ (is_hex, 3)
        ∷ lit b'-'
        ∷ (is_hex, 12)
        ∷ [])
      (codes s)

-- `_DIGEST.fullmatch`
unfoldable pub is_digest : String → Bool
is_digest s = matches ((is_hex, 64) ∷ []) (codes s)

-- one character of `_SAFE_DETAIL`
abbrev pub is_safe_char : ℕ → Bool
is_safe_char c =
    is_upper c
    || is_lower c
    || is_digit c
    || c == b'_'
    || c == b'.'
    || c == b':'
    || c == b'@'
    || c == b'+'
    || c == b'-'

-- `_SAFE_DETAIL.fullmatch`
unfoldable pub is_safe_detail : String → Bool
is_safe_detail s =
    let cs = codes s in all is_safe_char cs && leb 1 (length cs) && leb (length cs) 128

-- `_safe`
unfoldable pub safe : String → String → Result String
safe value label =
    if is_safe_detail value then ok value else err (label <> " is missing or not display-safe")

-- `low <= value <= MAX_KERNEL_ID` on a Python int
unfoldable pub kernel_id : ℕ → ℤ → String → Result ℕ
kernel_id low (ℤ.pos n) message = if leb low n && leb n max_kernel_id then ok n else err message
kernel_id low (ℤ.negsuc n) message = err message

pub record TransportCredentials : Type 0 where
  pub pid : ℕ
  pub uid : ℕ
  pub unique_owner : String
  pub is_local : Bool

unfoldable pub transport_credentials : ℤ → ℤ → String → Bool → Result TransportCredentials
unfolding kernel_id safe
transport_credentials pid uid unique_owner is_local = do
  p ← kernel_id 1 pid "transport PID must be a positive integer"
  u ← kernel_id 0 uid "transport UID must be a non-negative integer"
  raise_if (not is_local) "remote transports are unsupported"
  safe unique_owner "unique owner"
  ok (record { pid = p; uid = u; unique_owner = unique_owner; is_local = is_local })

pub record SessionIdentity : Type 0 where
  pub session_id : String
  pub uid : ℕ
  pub transport_pid : ℕ
  pub seat_id : String
  pub active : Bool
  pub is_local : Bool
  pub graphical : Bool

unfoldable pub session_identity :
    String → ℤ → ℤ → String → Bool → Bool → Bool → Result SessionIdentity
unfolding kernel_id safe
session_identity session_id uid transport_pid seat_id active is_local graphical = do
  safe session_id "session ID"
  safe seat_id "seat ID"
  u ← kernel_id 0 uid "session UID must be a non-negative integer"
  p ← kernel_id 1 transport_pid "session transport PID must be a positive integer"
  ok (record {
    session_id = session_id;
    uid = u;
    transport_pid = p;
    seat_id = seat_id;
    active = active;
    is_local = is_local;
    graphical = graphical;
  })

pub record PeerIdentity : Type 0 where
  pub pid : ℕ
  pub uid : ℕ
  pub unique_owner : String
  pub session_id : String
  pub seat_id : String

unfoldable pub peer_identity : ℤ → ℤ → String → String → String → Result PeerIdentity
unfolding kernel_id safe
peer_identity pid uid unique_owner session_id seat_id = do
  p ← kernel_id 1 pid "peer PID must be a positive integer"
  u ← kernel_id 1 uid "peer UID must be a positive non-root integer"
  safe unique_owner "unique owner"
  safe session_id "session ID"
  safe seat_id "seat ID"
  ok (record {
    pid = p;
    uid = u;
    unique_owner = unique_owner;
    session_id = session_id;
    seat_id = seat_id;
  })

-- the dataclass's `==`
unfoldable pub peer_eq : PeerIdentity → PeerIdentity → Bool
peer_eq a b =
    a.pid == b.pid
    && a.uid == b.uid
    && str_eq a.unique_owner b.unique_owner
    && str_eq a.session_id b.session_id
    && str_eq a.seat_id b.seat_id

pub record RequestBinding : Type 0 where
  pub request_id : String
  pub action : Action
  pub parameter_digest : String
  pub peer : PeerIdentity

unfoldable pub request_binding : String → Action → String → PeerIdentity → Result RequestBinding
request_binding request_id action parameter_digest peer = do
  raise_if (not (is_request_id request_id)) "request ID must be a canonical lowercase UUID"
  raise_if (not (is_digest parameter_digest)) "parameter digest must be lowercase SHA-256 hex"
  ok (record {
    request_id = request_id;
    action = action;
    parameter_digest = parameter_digest;
    peer = peer;
  })

-- the dataclass's `==`
unfoldable pub binding_eq : RequestBinding → RequestBinding → Bool
binding_eq a b =
    str_eq a.request_id b.request_id
    && action_eq a.action b.action
    && str_eq a.parameter_digest b.parameter_digest
    && peer_eq a.peer b.peer

-- `polkit_details`, over code points
unfoldable pub polkit_details : RequestBinding → Result (List (String × List ℕ))
polkit_details binding = do
  session_id ← safe binding.peer.session_id "session ID"
  seat_id ← safe binding.peer.seat_id "seat ID"
  ok (
      ("request_id", codes binding.request_id)
      ∷ ("action", codes (action_value binding.action))
      ∷ ("parameter_digest", codes binding.parameter_digest)
      ∷ ("caller_uid", decimal binding.peer.uid)
      ∷ ("caller_pid", decimal binding.peer.pid)
      ∷ ("session_id", codes session_id)
      ∷ ("seat_id", codes seat_id)
      ∷ [])

pub action_eq_iff : (a b : Action) → (action_eq a b ≡ true) ↔ (a ≡ b)
action_eq_iff a b = ground arith

pub peer_eq_iff : (a b : PeerIdentity) → (peer_eq a b ≡ true) ↔ (a ≡ b)
unfolding peer_eq
peer_eq_iff a b = ground (
  arith,
  eq_iff a.unique_owner b.unique_owner,
  eq_iff a.session_id b.session_id,
  eq_iff a.seat_id b.seat_id,
)

pub binding_eq_iff : (a b : RequestBinding) → (binding_eq a b ≡ true) ↔ (a ≡ b)
unfolding binding_eq
binding_eq_iff a b = ground (
  arith,
  eq_iff a.request_id b.request_id,
  eq_iff a.parameter_digest b.parameter_digest,
  action_eq_iff a.action b.action,
  peer_eq_iff a.peer b.peer,
)
