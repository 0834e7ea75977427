-- ===== src/Dispatcher/Weights.antt =====
-- Entries counted by a weight of their keys.
use lsmf.Base.{
  String, ℕ, ◌+◌, ◌≡◌, refl, ap, sym, arith, true, List, [], ◌∷◌, ◌++◌, if◌then◌else◌, str_eq,
  eq_iff, Bool-cases, inl, inr,
}
use lsmf.Base.Dict.{Dict, contains, erase, insert}

-- A weight of request IDs: for one ID, 1 for it and 0 for every other counts what is under it.
module _ (weight : String → ℕ) where
  abbrev pub total {ℓ} : {A : Type ℓ} → List (String × A) → ℕ
  total [] = 0
  total ((k, a) ∷ entries) = weight k + total entries

  pub total-append {ℓ} :
      {A : Type ℓ} (xs ys : List (String × A)) → total (xs ++ ys) ≡ total xs + total ys
  total-append [] ys = omega arith
  total-append ((k, a) ∷ xs) ys = omega (arith, total-append xs ys)

  -- the weight of the key less where it was there
  pub total-erase {ℓ} :
      {V : Type ℓ} (k : String) (d : Dict V)
      → contains k d ≡ true
      → weight k + total (erase k d) ≡ total d
  total-erase k [] h = cc
  total-erase k ((j, v) ∷ d) h = elim (Bool-cases (str_eq j k)) [
    | inl here ↦
        let same : j ≡ k = ground (arith, here, eq_iff j k) in
        rw here (ap (λ i. weight i + total d) (sym same))
    | inr other ↦
        let there : contains k d ≡ true = ground (arith, h, other) in
        rw other (omega (arith, total-erase k d there))
  ]

  -- more where it was not, and as much where it was
  pub total-insert {ℓ} :
      {V : Type ℓ} (k : String) (v : V) (d : Dict V)
      → total (insert k v d) ≡ (if contains k d then total d else weight k + total d)
  total-insert k v [] = refl
  total-insert k v ((j, w) ∷ d) = ground (arith, total-insert k v d)

-- 1 for an ID, and 0 for every other
abbrev pub one_for : String → String → ℕ
one_for id k = if str_eq k id then 1 else 0
