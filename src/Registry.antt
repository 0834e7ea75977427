-- ===== src/Registry.antt =====
-- lsmf/ipc_security.py `LiveRequestRegistry`: which requests are live, and which were recently.
-- A method that raises leaves the registry as it was, so it returns a result alone.
pub mod Invariant
pub mod Behaviour
use lsmf.Base.{
  ℕ, String, Bool, true, false, not, ◌&&◌, ◌||◌, List, [], ◌∷◌, ◌++◌, Option, none, some, ltb, leb,
  length, str_eq, if◌then◌else◌,
}
use lsmf.Base.Results.{Result, ok, err, ◌>>=◌, ◌>>◌, raise_if}
use lsmf.Base.Dict.{Dict, lookup, insert, erase, contains, mem}
use lsmf.Peer.Identity.{PeerIdentity, RequestBinding, peer_eq, binding_eq, is_request_id, safe}

pub record Registry : Type 0 where
  pub max_live : ℕ
  pub max_recent : ℕ
  pub live : Dict RequestBinding  -- `_live`
  pub recent : List String  -- the keys of `_recent`, oldest first

-- `__init__`
unfoldable pub create : ℕ → ℕ → Result Registry
create max_live max_recent = do
  raise_if (ltb max_live 1) "max_live must be positive"
  raise_if (ltb max_recent 1) "max_recent must be positive"
  ok (record { max_live = max_live; max_recent = max_recent; live = []; recent = [] })

unfoldable pub register : RequestBinding → Registry → Result Registry
register binding r = do
  raise_if (contains binding.request_id r.live || mem binding.request_id r.recent)
      "request ID reuse is forbidden"
  raise_if (leb r.max_live (length r.live)) "live request limit reached"
  ok (record r { live = insert binding.request_id binding r.live })

-- the branch on `self._live.get(...)`
abbrev current_if : (RequestBinding → Bool) → Option RequestBinding → Result RequestBinding
current_if same none = err "request owner or identity binding changed"
current_if same (some current) =
    if same current then ok current else err "request owner or identity binding changed"

unfoldable pub require_live : RequestBinding → Registry → Result RequestBinding
require_live binding r =
    current_if (λ current. binding_eq current binding) (lookup binding.request_id r.live)

unfoldable pub require_owner : String → PeerIdentity → Registry → Result RequestBinding
require_owner request_id peer r = do
  raise_if (not (is_request_id request_id)) "request ID must be a canonical lowercase UUID"
  current_if (λ current. peer_eq current.peer peer) (lookup request_id r.live)

-- `while len(self._recent) > self._max_recent: del self._recent[next(iter(self._recent))]`
unfoldable pub trim_recent : ℕ → List String → List String
trim_recent most [] = []
trim_recent most (x ∷ xs) = if ltb most (length (x ∷ xs)) then trim_recent most xs else x ∷ xs

-- `self._recent[request_id] = None`: a key that is there keeps its place
unfoldable pub remember : String → List String → List String
remember k xs = if mem k xs then xs else xs ++ k ∷ []

unfoldable pub complete : RequestBinding → Registry → Result Registry
unfolding trim_recent remember
complete binding r = do
  require_live binding r
  ok (record r {
    live = erase binding.request_id r.live;
    recent = trim_recent r.max_recent (remember binding.request_id r.recent);
  })

-- the comprehension over `self._live.items()`
unfoldable pub ids_where : (RequestBinding → Bool) → Dict RequestBinding → List String
ids_where test [] = []
ids_where test ((k, binding) ∷ d) =
    let rest = ids_where test d in if test binding then k ∷ rest else rest

-- the loop over `removed`
unfoldable pub retire : List String → Registry → Registry
unfolding remember
retire [] r = r
retire (k ∷ ks) r = retire ks (record r { live = erase k r.live; recent = remember k r.recent })

-- the shared body of the two `invalidate_...` methods
unfoldable pub invalidate : (RequestBinding → Bool) → Registry → List String × Registry
unfolding retire trim_recent ids_where
invalidate test r =
    let removed = ids_where test r.live in
    let s = retire removed r in (removed, record s { recent = trim_recent s.max_recent s.recent })

unfoldable pub invalidate_owner : String → Registry → Result (List String × Registry)
unfolding safe
invalidate_owner unique_owner r = do
  safe unique_owner "unique owner"
  ok (invalidate (λ binding. str_eq binding.peer.unique_owner unique_owner) r)

unfoldable pub invalidate_identity : PeerIdentity → Registry → List String × Registry
invalidate_identity peer r = invalidate (λ binding. peer_eq binding.peer peer) r

-- `live_count`
abbrev pub live_count : Registry → ℕ
live_count r = length r.live
