-- ===== src/Bus/Service/Disconnection.antt =====
-- What becomes of the requests of a caller whose name vanishes from the bus.
use lsmf.Base.{
  String, Bool, true, false, List, [], ◌∷◌, ◌≡◌, refl, ap, sym, arith, eq_iff, str_eq, Bool-cases,
  inl, inr, if◌then◌else◌, keep, ◌∙◌,
}
use lsmf.Base.Dict.{Dict, erase, mem, keys, distinct}
use lsmf.Peer.Identity.{RequestBinding, is_safe_detail, safe}
use lsmf.Registry.{ids_where, invalidate, invalidate_owner}
use lsmf.Bus.Service.{Boundary, pop_all, disconnected}
use lsmf.Bus.Service.Consistency.{IsConsistent, pop_all-retire}

-- the bindings of a table, in its order
abbrev pub values : Dict RequestBinding → List RequestBinding
values [] = []
values ((_, b) ∷ d) = b ∷ values d

-- a table without the entries that pass the test
abbrev pub without : (RequestBinding → Bool) → Dict RequestBinding → Dict RequestBinding
without test [] = []
without test ((k, b) ∷ d) = if test b then without test d else (k, b) ∷ without test d

mem-ids_where_lacking :
    (test : RequestBinding → Bool) (k : String) (d : Dict RequestBinding)
    → mem k (keys d) ≡ false
    → mem k (ids_where test d) ≡ false
unfolding ids_where
mem-ids_where_lacking test k [] h = refl
mem-ids_where_lacking test k ((j, b) ∷ d) h = ground (arith, mem-ids_where_lacking test k d)

-- An entry that is not asked for stays in front.
pop_all-cons :
    (ks : List String) (k : String) (b : RequestBinding) (d : Dict RequestBinding)
    → mem k ks ≡ false
    → pop_all ks ((k, b) ∷ d) ≡ ((pop_all ks d).0, (k, b) ∷ (pop_all ks d).1)
unfolding pop_all
pop_all-cons [] k b d h = refl
pop_all-cons (j ∷ ks) k b d h =
    let other : str_eq k j ≡ false = ground (arith, eq_iff k j, eq_iff j k) in
    rw (other, pop_all-cons ks k b (erase j d) (ground arith))

pop_all-ids_where :
    (test : RequestBinding → Bool) (d : Dict RequestBinding)
    → distinct (keys d) ≡ true
    → pop_all (ids_where test d) d ≡ (keep test (values d), without test d)
unfolding ids_where pop_all
pop_all-ids_where test [] h = refl
pop_all-ids_where test ((k, b) ∷ d) h = elim (Bool-cases (test b)) [
  | inl t ↦ rw (t, (eq_iff k k).1 refl, pop_all-ids_where test d (ground arith))
  | inr f ↦ rw (
    f,
    pop_all-cons (ids_where test d) k b d (mem-ids_where_lacking test k d (ground arith)),
    pop_all-ids_where test d (ground arith),
  )
]

abbrev pub owned_by : String → RequestBinding → Bool
owned_by unique_owner b = str_eq b.peer.unique_owner unique_owner

-- When a name vanishes from the bus, the dispatcher is told of the bindings of exactly the live
-- requests of that name, in the order in which they were registered, and the service forgets them
-- and no others, if the name is one that a peer can have and the service is consistent.
pub disconnected_lem :
    (unique_owner : String) (s : Boundary)
    → is_safe_detail unique_owner ≡ true
    → IsConsistent s
    → ((disconnected unique_owner s).1 ≡ keep (owned_by unique_owner) (values s.registry.live))
      × ((disconnected unique_owner s).0 ≡ ids_where (owned_by unique_owner) s.registry.live)
      × ((disconnected unique_owner s).2.bindings ≡ without (owned_by unique_owner) s.registry.live)
      × ((disconnected unique_owner s).2.registry.live
          ≡ without (owned_by unique_owner) s.registry.live)
unfolding disconnected invalidate_owner safe invalidate
disconnected_lem unique_owner s named c =
    let test = owned_by unique_owner in
    let popped =
      ap (pop_all (ids_where test s.registry.live)) c.same
      ∙ pop_all-ids_where test s.registry.live c.valid.live_distinct in
    let left = pop_all-retire (ids_where test s.registry.live) s.bindings s.registry c.same in
    let kept = ap (λ (p : List RequestBinding × Dict RequestBinding). p.1) popped in
    rw named (
      ap (λ (p : List RequestBinding × Dict RequestBinding). p.0) popped,
      refl,
      kept,
      sym left ∙ kept,
    )
