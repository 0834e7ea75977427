-- ===== src/Base/Dict.antt =====
-- A Python dict keyed by text, in insertion order, and a set of texts in insertion order.
use Prim.Native.Nat.{suc, ◌+◌, ◌≤◌}
use Prim.Native.String.{String}
use mathlib.Core.Path.{◌≡◌, refl}
use mathlib.Core.Bool.{Bool, true, false, ◌||◌, ◌&&◌, not}
use mathlib.Core.Option.{Option, none, some}
use mathlib.Core.List.{List, [], ◌∷◌, ◌++◌}
use native.Mathlib.Omega.{arith}
use text.Mathlib.TextEquality.{eq_iff}
use lsmf.Base.Tests.{if◌then◌else◌, str_eq, is_some}
use lsmf.Base.Lists.{length}

-- `k in xs`
abbrev pub mem : String → List String → Bool
mem k [] = false
mem k (x ∷ xs) = str_eq x k || mem k xs

-- `len(set(xs)) == len(xs)`: no item twice
abbrev pub distinct : List String → Bool
distinct [] = true
distinct (x ∷ xs) = not (mem x xs) && distinct xs

pub mem-append_last :
    (k x : String) (xs : List String) → mem k (xs ++ x ∷ []) ≡ (mem k xs || str_eq x k)
mem-append_last k x [] = ground arith
mem-append_last k x (y ∷ xs) = ground (arith, mem-append_last k x xs)

pub distinct-append_last :
    (x : String) (xs : List String)
    → distinct xs ≡ true
    → mem x xs ≡ false
    → distinct (xs ++ x ∷ []) ≡ true
distinct-append_last x [] d n = refl
distinct-append_last x (y ∷ xs) d n =
    ground (arith, distinct-append_last x xs, mem-append_last y x xs, eq_iff x y, eq_iff y x)

abbrev pub Dict {ℓ} : Type ℓ → Type ℓ
Dict V = List (String × V)

module _ {ℓ} {V : Type ℓ} where
  abbrev pub lookup : String → Dict V → Option V
  lookup k [] = none
  lookup k ((j, v) ∷ d) = if str_eq j k then some v else lookup k d

  -- `d[k] = v`
  abbrev pub insert : String → V → Dict V → Dict V
  insert k v [] = (k, v) ∷ []
  insert k v ((j, w) ∷ d) = if str_eq j k then (j, v) ∷ d else (j, w) ∷ insert k v d

  -- `del d[k]`
  abbrev pub erase : String → Dict V → Dict V
  erase k [] = []
  erase k ((j, w) ∷ d) = if str_eq j k then d else (j, w) ∷ erase k d

  abbrev pub keys : Dict V → List String
  keys [] = []
  keys ((k, _) ∷ d) = k ∷ keys d

  abbrev pub contains : String → Dict V → Bool
  contains k d = is_some (lookup k d)

  pub contains-eq-mem : (k : String) (d : Dict V) → contains k d ≡ mem k (keys d)
  contains-eq-mem k [] = refl
  contains-eq-mem k ((j, v) ∷ d) = ground (arith, contains-eq-mem k d)

  pub lookup-insert :
      (j k : String) (v : V) (d : Dict V)
      → lookup j (insert k v d) ≡ (if str_eq k j then some v else lookup j d)
  lookup-insert j k v [] = refl
  lookup-insert j k v ((i, w) ∷ d) =
      ground (arith, eq_iff k j, eq_iff i k, eq_iff i j, lookup-insert j k v d)

  -- Without a key twice, `del` removes it and leaves the others.
  pub lookup-erase :
      (j k : String) (d : Dict V)
      → distinct (keys d) ≡ true
      → lookup j (erase k d) ≡ (if str_eq k j then none else lookup j d)
  lookup-erase j k [] h = ground arith
  lookup-erase j k ((i, w) ∷ d) h =
      ground (arith, eq_iff k j, eq_iff i k, eq_iff i j, lookup-erase j k d, contains-eq-mem j d)

  pub mem-erase :
      (j k : String) (d : Dict V) → mem j (keys d) ≡ false → mem j (keys (erase k d)) ≡ false
  mem-erase j k [] h = refl
  mem-erase j k ((i, w) ∷ d) h = ground (arith, mem-erase j k d)

  pub erase-distinct :
      (k : String) (d : Dict V) → distinct (keys d) ≡ true → distinct (keys (erase k d)) ≡ true
  erase-distinct k [] h = refl
  erase-distinct k ((i, w) ∷ d) h = ground (arith, erase-distinct k d, mem-erase i k d)

  pub length-erase : (k : String) (d : Dict V) → length (erase k d) ≤ length d
  length-erase k [] = omega arith
  length-erase k ((i, w) ∷ d) = ground (arith, length-erase k d)

  pub length-insert : (k : String) (v : V) (d : Dict V) → length (insert k v d) ≤ length d + 1
  length-insert k v [] = omega arith
  length-insert k v ((i, w) ∷ d) = ground (arith, length-insert k v d)

  -- one entry less where the key was there
  pub erase-shorter :
      (k : String) (d : Dict V) → contains k d ≡ true → suc (length (erase k d)) ≡ length d
  erase-shorter k [] h = cc
  erase-shorter k ((i, w) ∷ d) h = ground (arith, h, erase-shorter k d)

  -- one more where it was not, and as many where it was
  pub insert-longer :
      (k : String) (v : V) (d : Dict V)
      → length (insert k v d) ≡ (if contains k d then length d else suc (length d))
  insert-longer k v [] = refl
  insert-longer k v ((i, w) ∷ d) = ground (arith, insert-longer k v d)

  pub mem-keys-insert :
      (j k : String) (v : V) (d : Dict V)
      → mem j (keys (insert k v d)) ≡ (str_eq k j || mem j (keys d))
  mem-keys-insert j k v [] = ground arith
  mem-keys-insert j k v ((i, w) ∷ d) =
      ground (arith, mem-keys-insert j k v d, eq_iff i k, eq_iff k j, eq_iff i j)

  pub insert-distinct :
      (k : String) (v : V) (d : Dict V)
      → distinct (keys d) ≡ true
      → distinct (keys (insert k v d)) ≡ true
  insert-distinct k v [] h = refl
  insert-distinct k v ((i, w) ∷ d) h =
      ground (arith, insert-distinct k v d, mem-keys-insert i k v d, eq_iff k i, eq_iff i k)
