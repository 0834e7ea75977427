-- ===== src/Registry/Behaviour.antt =====
-- What the registry's methods do to a request.
use lsmf.Base.{
  ℕ, ◌≤◌, ◌<◌, String, ◌≡◌, ◌≢◌, refl, Bool, true, false, List, [], ◌∷◌, ◌++◌, Option, none, some,
  arith, length, eq_iff, Option-cases, inl, inr, ap, ◌↔◌, if◌then◌else◌,
}
use lsmf.Base.Results.{ok, err}
use lsmf.Base.Dict.{
  Dict, lookup, insert, erase, contains, mem, distinct, keys, contains-eq-mem, lookup-erase,
  lookup-insert, mem-append_last, erase-distinct,
}
use lsmf.Peer.Identity.{RequestBinding, PeerIdentity, peer_eq_iff, binding_eq_iff, is_request_id}
use lsmf.Registry.{
  Registry, register, require_live, require_owner, complete, invalidate, trim_recent, remember,
  retire, ids_where,
}
use lsmf.Registry.Invariant.{IsValid, Keyed-lookup, register_inv, complete_inv, retired}

mem-trim_last :
    (k : String) (n : ℕ) (xs : List String) → 1 ≤ n → mem k (trim_recent n (xs ++ k ∷ [])) ≡ true
unfolding trim_recent
mem-trim_last k n [] h = ground (arith, eq_iff k k)
mem-trim_last k n (x ∷ xs) h =
    ground
      (arith, mem-trim_last k n xs h, mem-append_last k x xs, mem-append_last k k xs, eq_iff k k)

mem-trim-remember :
    (k : String) {b : RequestBinding} (r : Registry)
    → lookup k r.live ≡ some b
    → IsValid r
    → mem k (trim_recent r.max_recent (remember k r.recent)) ≡ true
unfolding remember
mem-trim-remember k r e v = ground (
  arith,
  contains-eq-mem k r.live,
  v.disjoint k,
  mem-trim_last k r.max_recent r.recent v.some_recent,
)

-- A request that is registered was in neither table and there was room; afterwards it is the live
-- request of its ID, and every other live request and the recent ones are as they were.
pub register_lem :
    (b : RequestBinding) (r s : Registry)
    → register b r ≡ ok s
    → (contains b.request_id r.live ≡ false)
      × (mem b.request_id r.recent ≡ false)
      × (length r.live < r.max_live)
      × (require_live b s ≡ ok b)
      × ((k : String) → k ≢ b.request_id → lookup k s.live ≡ lookup k r.live)
      × (s.recent ≡ r.recent)
unfolding require_live
register_lem b r s h =
    let (fresh, unseen, room, same) = register_inv b r s h in
    let live_eq : insert b.request_id b r.live ≡ s.live = ap (λ (t : Registry). t.live) same in
    (
      fresh,
      unseen,
      room,
      ground (
        arith,
        live_eq,
        lookup-insert b.request_id b.request_id b r.live,
        eq_iff b.request_id b.request_id,
        binding_eq_iff b b,
      ),
      λ k ne. ground (arith, live_eq, lookup-insert k b.request_id b r.live, eq_iff b.request_id k),
      ground (arith, same),
    )

-- A completed request is no longer live, and no request with its ID can be registered next.
pub register-complete :
    (b c : RequestBinding) (r s : Registry)
    → IsValid r
    → complete b r ≡ ok s
    → c.request_id ≡ b.request_id
    → (lookup b.request_id s.live ≡ none) × (register c s ≡ err "request ID reuse is forbidden")
register-complete b c r s v h e =
    let (found, same) = complete_inv b r s h in
    let live_eq : erase b.request_id r.live ≡ s.live = ap (λ (t : Registry). t.live) same in
    let recent_eq : trim_recent r.max_recent (remember b.request_id r.recent) ≡ s.recent =
      ap (λ (t : Registry). t.recent) same in
    let gone : lookup b.request_id s.live ≡ none = ground (
      arith,
      live_eq,
      lookup-erase b.request_id b.request_id r.live v.live_distinct,
      eq_iff b.request_id b.request_id,
    ) in
    let seen : mem b.request_id s.recent ≡ true =
      ground (arith, recent_eq, mem-trim-remember b.request_id r found v) in
    (gone, unfold register in ground (arith, gone, seen, e))

-- The owner check succeeds exactly for the live request of that ID when every field of its peer is
-- the caller's, and returns that request.
pub require_owner_iff :
    (k : String) (p : PeerIdentity) (b : RequestBinding) (r : Registry)
    → IsValid r
    → is_request_id k ≡ true
    → (require_owner k p r ≡ ok b)
      ↔ ((lookup k r.live ≡ some b) × (b.request_id ≡ k) × (b.peer ≡ p))
unfolding require_owner
require_owner_iff k p b r v c = elim (Option-cases (lookup k r.live)) [
  | inl e ↦ ground (arith, e, c)
  | inr (a, e) ↦ ground (arith, e, c, peer_eq_iff a.peer p, Keyed-lookup k b r.live v.keyed)
]

-- What is left of a table once the requests that pass the test are removed.
abbrev pub dropping : (RequestBinding → Bool) → Option RequestBinding → Option RequestBinding
dropping test none = none
dropping test (some b) = if test b then none else some b

mem-ids_where :
    (test : RequestBinding → Bool) (k : String) (d : Dict RequestBinding)
    → distinct (keys d) ≡ true
    → mem k (ids_where test d) ≡ elim (lookup k d) [ none ↦ false | some b ↦ test b ]
unfolding ids_where
mem-ids_where test k [] h = refl
mem-ids_where test k ((j, b) ∷ d) h =
    ground (arith, mem-ids_where test k d, contains-eq-mem k d, eq_iff j k)

live-retire :
    (k : String) (ks : List String) (r : Registry)
    → distinct (keys r.live) ≡ true
    → lookup k (retire ks r).live ≡ (if mem k ks then none else lookup k r.live)
unfolding retire
live-retire k [] r h = refl
live-retire k (j ∷ ks) r h =
    ground
      (arith, live-retire k ks (retired j r) (erase-distinct j r.live h), lookup-erase k j r.live h)

-- Invalidation removes from the live requests exactly those that pass the test, returns their IDs
-- and no others, and leaves every other live request as it was.
pub invalidate_lem :
    (test : RequestBinding → Bool) (k : String) (r : Registry)
    → IsValid r
    → (lookup k (invalidate test r).1.live ≡ dropping test (lookup k r.live))
      × ((mem k (invalidate test r).0 ≡ true)
          ↔ ((b : RequestBinding) × (lookup k r.live ≡ some b) × (test b ≡ true)))
unfolding invalidate
invalidate_lem test k r v = elim (Option-cases (lookup k r.live)) [
  | inl e ↦ ground (
    arith,
    e,
    live-retire k (ids_where test r.live) r v.live_distinct,
    mem-ids_where test k r.live v.live_distinct,
  )
  | inr (a, e) ↦ ground (
    arith,
    e,
    live-retire k (ids_where test r.live) r v.live_distinct,
    mem-ids_where test k r.live v.live_distinct,
  )
]
