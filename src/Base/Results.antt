-- ===== src/Base/Results.antt =====
-- What a function returns or raises. An exception is its message: the callers of the modelled
-- code tell exceptions apart only where the model has its own type for them.
use Prim.Native.String.{String}
use mathlib.Core.Path.{◌≡◌, refl}
use mathlib.Core.Bool.{Bool, true, false}

pub data Result {ℓ} (R : Type ℓ) : Type ℓ where
  err : String → Result R
  ok : R → Result R

abbrev pub is_ok {ℓ} : {R : Type ℓ} → Result R → Bool
is_ok (err message) = false
is_ok (ok value) = true

-- `if c: raise Error(message)`
abbrev pub raise_if : Bool → String → Result (Unit {0})
raise_if test message = elim test [ false ↦ ok tt | true ↦ err message ]

module _ {ℓ κ} {R : Type ℓ} {S : Type κ} where
  infixl 5 ◌>>=◌ ◌>>◌
  abbrev pub ◌>>=◌ : Result R → (R → Result S) → Result S
  err message >>= continue = err message
  ok value >>= continue = continue value

  abbrev pub ◌>>◌ : Result R → Result S → Result S
  first >> second = first >>= λ ignored. second

  -- A block that returns has had a first step that returned, and a rest that did.
  pub >>=-eq-ok :
      (first : Result R) (rest : R → Result S) {s : S}
      → (first >>= rest) ≡ ok s
      → (value : R) × (first ≡ ok value) × (rest value ≡ ok s)
  >>=-eq-ok (err message) rest returns = cc
  >>=-eq-ok (ok value) rest returns = (value, refl, returns)

pub ok-injectivity {ℓ} : {A : Type ℓ} {a b : A} → ok a ≡ ok b → a ≡ b
ok-injectivity h = cc
