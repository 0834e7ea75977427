-- ===== src/Registry/Invariant.antt =====
-- The invariant of the registry, and that every method keeps it.
use lsmf.Base.{
  ℕ, ◌≤◌, ◌<◌, String, ◌≡◌, refl, Bool, true, false, List, [], ◌∷◌, some, arith, length, str_eq,
  eq_iff, inl, inr, ◌||◌, subst, Option-cases,
}
use lsmf.Base.Results.{ok}
use lsmf.Base.Dict.{
  Dict, lookup, insert, erase, contains, mem, distinct, keys, erase-distinct, insert-distinct,
  length-erase, length-insert, mem-erase, distinct-append_last, mem-append_last, mem-keys-insert,
}
use lsmf.Peer.Identity.{RequestBinding, binding_eq_iff}
use lsmf.Registry.{
  Registry, create, register, require_live, complete, invalidate, trim_recent, remember, retire,
  ids_where,
}

-- Every live binding stands under its own request ID.
abbrev pub Keyed : Dict RequestBinding → Type 0
Keyed [] = Unit
Keyed ((k, b) ∷ d) = (b.request_id ≡ k) × Keyed d

pub record IsValid (r : Registry) : Type 0 where
  pub some_recent : 1 ≤ r.max_recent
  pub live_bounded : length r.live ≤ r.max_live
  pub recent_bounded : length r.recent ≤ r.max_recent
  pub live_distinct : distinct (keys r.live) ≡ true
  pub recent_distinct : distinct r.recent ≡ true
  pub keyed : Keyed r.live
  pub disjoint : (k : String) → mem k (keys r.live) ≡ true → mem k r.recent ≡ false

-- What holds while a method is between its steps: the same without the bound on `recent`.
pub record IsNearlyValid (r : Registry) : Type 0 where
  pub some_recent : 1 ≤ r.max_recent
  pub live_bounded : length r.live ≤ r.max_live
  pub live_distinct : distinct (keys r.live) ≡ true
  pub recent_distinct : distinct r.recent ≡ true
  pub keyed : Keyed r.live
  pub disjoint : (k : String) → mem k (keys r.live) ≡ true → mem k r.recent ≡ false

pub nearly : {r : Registry} → IsValid r → IsNearlyValid r
nearly v = record {
  some_recent = v.some_recent;
  live_bounded = v.live_bounded;
  live_distinct = v.live_distinct;
  recent_distinct = v.recent_distinct;
  keyed = v.keyed;
  disjoint = v.disjoint;
}

pub Keyed-insert :
    (b : RequestBinding) (d : Dict RequestBinding) → Keyed d → Keyed (insert b.request_id b d)
Keyed-insert b [] h = (refl, tt)
Keyed-insert b ((k, c) ∷ d) h = ground (arith, Keyed-insert b d h.1, eq_iff k b.request_id)

pub Keyed-erase : (k : String) (d : Dict RequestBinding) → Keyed d → Keyed (erase k d)
Keyed-erase k [] h = tt
Keyed-erase k ((j, c) ∷ d) h = ground (arith, Keyed-erase k d h.1)

-- A kept binding's own ID is the key that it is found under.
pub Keyed-lookup :
    (k : String) (b : RequestBinding) (d : Dict RequestBinding)
    → Keyed d
    → lookup k d ≡ some b
    → b.request_id ≡ k
Keyed-lookup k b [] h e = cc
Keyed-lookup k b ((j, c) ∷ d) h e = ground (arith, Keyed-lookup k b d h.1, eq_iff j k)

pub mem-trim :
    (k : String) (n : ℕ) (xs : List String) → mem k xs ≡ false → mem k (trim_recent n xs) ≡ false
unfolding trim_recent
mem-trim k n [] h = refl
mem-trim k n (x ∷ xs) h = ground (arith, mem-trim k n xs)

pub distinct-trim :
    (n : ℕ) (xs : List String) → distinct xs ≡ true → distinct (trim_recent n xs) ≡ true
unfolding trim_recent
distinct-trim n [] h = refl
distinct-trim n (x ∷ xs) h = ground (arith, distinct-trim n xs)

pub length-trim : (n : ℕ) (xs : List String) → length (trim_recent n xs) ≤ n
unfolding trim_recent
length-trim n [] = omega arith
length-trim n (x ∷ xs) = ground (arith, length-trim n xs)

pub distinct-remember :
    (k : String) (xs : List String) → distinct xs ≡ true → distinct (remember k xs) ≡ true
unfolding remember
distinct-remember k xs h = ground (arith, distinct-append_last k xs)

pub mem-remember :
    (j k : String) (xs : List String) → mem j (remember k xs) ≡ (mem j xs || str_eq k j)
unfolding remember
mem-remember j k xs = ground (arith, mem-append_last j k xs, eq_iff k j)

pub mem-erase_self :
    (k : String) (d : Dict RequestBinding)
    → distinct (keys d) ≡ true
    → mem k (keys (erase k d)) ≡ false
mem-erase_self k [] h = refl
mem-erase_self k ((j, c) ∷ d) h = ground (arith, mem-erase_self k d, eq_iff j k)

pub mem-erase_ne :
    (j k : String) (d : Dict RequestBinding)
    → str_eq k j ≡ false
    → mem j (keys (erase k d)) ≡ mem j (keys d)
mem-erase_ne j k [] h = refl
mem-erase_ne j k ((i, c) ∷ d) h =
    ground (arith, mem-erase_ne j k d h, eq_iff i k, eq_iff i j, eq_iff k j)

-- `del self._live[k]; self._recent[k] = None`
abbrev pub retired : String → Registry → Registry
retired k r = record r { live = erase k r.live; recent = remember k r.recent }

pub retire_one : (k : String) (r : Registry) → IsNearlyValid r → IsNearlyValid (retired k r)
retire_one k r v = record {
  some_recent = v.some_recent;
  live_bounded = omega (arith, length-erase k r.live);
  live_distinct = erase-distinct k r.live v.live_distinct;
  recent_distinct = distinct-remember k r.recent v.recent_distinct;
  keyed = Keyed-erase k r.live v.keyed;
  disjoint = λ j m. ground (
    arith,
    mem-remember j k r.recent,
    v.disjoint j,
    mem-erase j k r.live,
    mem-erase_self k r.live v.live_distinct,
    eq_iff k j,
  );
}

pub retire-IsNearlyValid :
    (ks : List String) (r : Registry) → IsNearlyValid r → IsNearlyValid (retire ks r)
unfolding retire
retire-IsNearlyValid [] r v = v
retire-IsNearlyValid (k ∷ ks) r v = retire-IsNearlyValid ks _ (retire_one k r v)

abbrev pub trimmed : Registry → Registry
trimmed r = record r { recent = trim_recent r.max_recent r.recent }

pub trimmed-IsValid : (r : Registry) → IsNearlyValid r → IsValid (trimmed r)
trimmed-IsValid r v = record {
  some_recent = v.some_recent;
  live_bounded = v.live_bounded;
  recent_bounded = length-trim r.max_recent r.recent;
  live_distinct = v.live_distinct;
  recent_distinct = distinct-trim r.max_recent r.recent v.recent_distinct;
  keyed = v.keyed;
  disjoint = λ k m. mem-trim k r.max_recent r.recent (v.disjoint k m);
}

pub register_inv :
    (b : RequestBinding) (r s : Registry)
    → register b r ≡ ok s
    → (contains b.request_id r.live ≡ false)
      × (mem b.request_id r.recent ≡ false)
      × (length r.live < r.max_live)
      × (record r { live = insert b.request_id b r.live } ≡ s)
unfolding register
register_inv b r s h = ground arith

pub complete_inv :
    (b : RequestBinding) (r s : Registry)
    → complete b r ≡ ok s
    → (lookup b.request_id r.live ≡ some b) × (trimmed (retired b.request_id r) ≡ s)
unfolding complete require_live
complete_inv b r s h = elim (Option-cases (lookup b.request_id r.live)) [
  | inl no_entry ↦ ground arith
  | inr (c, e) ↦ ground (arith, e, binding_eq_iff c b)
]

registered-IsValid :
    (b : RequestBinding) (r : Registry)
    → IsValid r
    → contains b.request_id r.live ≡ false
    → mem b.request_id r.recent ≡ false
    → length r.live < r.max_live
    → IsValid (record r { live = insert b.request_id b r.live })
registered-IsValid b r v fresh unseen room = record {
  some_recent = v.some_recent;
  live_bounded = omega (arith, length-insert b.request_id b r.live);
  recent_bounded = v.recent_bounded;
  live_distinct = insert-distinct b.request_id b r.live v.live_distinct;
  recent_distinct = v.recent_distinct;
  keyed = Keyed-insert b r.live v.keyed;
  disjoint = λ k m.
      ground (arith, mem-keys-insert k b.request_id b r.live, v.disjoint k, eq_iff b.request_id k);
}

pub register-IsValid :
    (b : RequestBinding) (r s : Registry) → IsValid r → register b r ≡ ok s → IsValid s
register-IsValid b r s v h =
    let (fresh, unseen, room, same) = register_inv b r s h in
    subst IsValid same (registered-IsValid b r v fresh unseen room)

pub complete-IsValid :
    (b : RequestBinding) (r s : Registry) → IsValid r → complete b r ≡ ok s → IsValid s
complete-IsValid b r s v h =
    subst IsValid (complete_inv b r s h).1
      (trimmed-IsValid (retired b.request_id r) (retire_one b.request_id r (nearly v)))

pub invalidate-IsValid :
    (test : RequestBinding → Bool) (r : Registry) → IsValid r → IsValid (invalidate test r).1
unfolding invalidate
invalidate-IsValid test r v =
    trimmed-IsValid (retire (ids_where test r.live) r)
      (retire-IsNearlyValid (ids_where test r.live) r (nearly v))

abbrev empty : ℕ → ℕ → Registry
empty n m = record { max_live = n; max_recent = m; live = []; recent = [] }

pub create-IsValid : (n m : ℕ) (r : Registry) → create n m ≡ ok r → IsValid r
unfolding create
create-IsValid n m r h =
    let some_room : 1 ≤ m = ground arith in
    let same : empty n m ≡ r = ground arith in
    subst IsValid same (record {
      some_recent = some_room;
      live_bounded = omega arith;
      recent_bounded = omega arith;
      live_distinct = refl;
      recent_distinct = refl;
      keyed = tt;
      disjoint = λ k e. refl;
    })
