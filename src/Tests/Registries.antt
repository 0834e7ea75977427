-- ===== src/Tests/Registries.antt =====
-- A registry of two places, and a request of one caller.
use lsmf.Base.{String, ◌≡◌, ◌↔◌, refl, true, [], ◌∷◌, some}
use lsmf.Base.Results.{ok}
use lsmf.Base.Dict.{lookup}
use lsmf.Peer.Identity.{Action, PeerIdentity, RequestBinding, is_request_id, peer_eq, binding_eq}
use lsmf.Registry.{Registry, create, register, complete, require_live, require_owner}
use lsmf.Registry.Invariant.{IsValid, create-IsValid, register-IsValid}
use lsmf.Registry.Behaviour.{require_owner_iff}

abbrev desktop : PeerIdentity
desktop = record {
  pid = 4711;
  uid = 1000;
  unique_owner = ":1.42";
  session_id = "c2";
  seat_id = "seat0";
}

abbrev audit_id : String
audit_id = "3f2a1c9e-5b7d-4e21-9c3a-0a1b2c3d4e5f"

abbrev binding : RequestBinding
binding = record {
  request_id = audit_id;
  action = Action.audit;
  parameter_digest = "0123456789abcdef0123456789abcdef0123456789abcdef0123456789abcdef";
  peer = desktop;
}

abbrev empty : Registry
empty = record { max_live = 2; max_recent = 1; live = []; recent = [] }

abbrev busy : Registry
busy = record { max_live = 2; max_recent = 1; live = (audit_id, binding) ∷ []; recent = [] }

abbrev done : Registry
done = record { max_live = 2; max_recent = 1; live = []; recent = audit_id ∷ [] }

created : create 2 1 ≡ ok empty
unfolding create
created = refl

registered : register binding empty ≡ ok busy
unfolding register
registered = refl

completed : complete binding busy ≡ ok done
unfolding complete require_live binding_eq peer_eq
completed = refl

busy-IsValid : IsValid busy
busy-IsValid = register-IsValid binding empty busy (create-IsValid 2 1 empty created) registered

audit_id_canonical : is_request_id audit_id ≡ true
unfolding is_request_id
audit_id_canonical = refl

require_owner_iff_example : (require_owner audit_id desktop busy ≡ ok binding) ↔ (
    (lookup audit_id busy.live ≡ some binding)
    × (binding.request_id ≡ audit_id)
    × (binding.peer ≡ desktop))
require_owner_iff_example =
    require_owner_iff audit_id desktop binding busy busy-IsValid audit_id_canonical
