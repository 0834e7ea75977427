-- ===== src/Base/Decimal.antt =====
-- Numbers as Python writes and reads them: `str(n)`, and `int(text, 10)` of a text of ASCII.
use Prim.Native.Nat.{ℕ, zero, suc, ◌+◌, ◌-◌, ◌*◌, ◌/◌, ◌%◌, ◌<◌}
use mathlib.Core.Path.{◌≡◌, refl, ◌∙◌}
use mathlib.Core.Bool.{Bool, true, false, ◌&&◌, ◌||◌}
use mathlib.Core.Option.{Option, none, some}
use mathlib.Core.Logic.{inl, inr}
use mathlib.Core.List.{List, [], ◌∷◌}
use native.Mathlib.Omega.{arith}
use lsmf.Base.Tests.{ltb, ◌==◌, if◌then◌else◌, ℤ, Bool-cases, if_intro}
use lsmf.Base.Lists.{All}
use lsmf.Base.Text.{is_digit}

-- the last digit first, in front of those that are written; fewer rounds than `n` are enough
decimal_on : ℕ → ℕ → List ℕ → List ℕ
decimal_on zero n out = out
decimal_on (suc fuel) n out =
    let digits = (b'0' + n % 10) ∷ out in
    let rest = decimal_on fuel (n / 10) digits in if ltb n 10 then digits else rest

-- `str(n)`
unfoldable pub decimal : ℕ → List ℕ
unfolding decimal_on
decimal n = decimal_on (suc n) n []

-- Digits with single underscores between them; `after` says that a digit stands before.
pub int_digits : Bool → ℕ → List ℕ → Option ℕ
int_digits after value [] = if after then some value else none
int_digits after value (c ∷ cs) =
    let rest = int_digits (is_digit c) (if is_digit c then value * 10 + (c - b'0') else value) cs in
    if is_digit c || (after && c == b'_') then rest else none

-- a sign of minus
abbrev negated : Option ℕ → Option ℤ
negated none = none
negated (some zero) = some (ℤ.pos 0)
negated (some (suc n)) = some (ℤ.negsuc n)

abbrev positive : Option ℕ → Option ℤ
positive none = none
positive (some n) = some (ℤ.pos n)

-- `int(text, 10)` of a text without white space; `none` is a ValueError
unfoldable pub int_of : List ℕ → Option ℤ
unfolding int_digits
int_of [] = none
int_of (c ∷ cs) =
    if c == b'-'
    then negated (int_digits false 0 cs)
    else if c == b'+'
    then positive (int_digits false 0 cs)
    else positive (int_digits false 0 (c ∷ cs))

is_digit-add : (d : ℕ) → d < 10 → is_digit (b'0' + d) ≡ true
is_digit-add d h = ground arith

int_digits-digit :
    (after : Bool) (n d : ℕ) (out : List ℕ)
    → d < 10
    → int_digits after n ((b'0' + d) ∷ out) ≡ int_digits true (n * 10 + d) out
unfolding int_digits
int_digits-digit after n d out h =
    let same : b'0' + d - b'0' ≡ d = omega arith in rw (is_digit-add d h, same)

int_digits-decimal :
    (fuel n : ℕ) (after : Bool) (out : List ℕ)
    → n < fuel
    → int_digits after 0 (decimal_on fuel n out) ≡ int_digits true n out
unfolding decimal_on
int_digits-decimal zero n after out h = absurd (omega arith)
int_digits-decimal (suc fuel) n after out h = elim (Bool-cases (ltb n 10)) [
  | inl small ↦
      let same : 0 * 10 + n % 10 ≡ n = ground arith in
      rw (small, int_digits-digit after 0 (n % 10) out (omega arith), same)
  | inr large ↦
      let same : n / 10 * 10 + n % 10 ≡ n = omega arith in
      rw (
        large,
        int_digits-decimal fuel (n / 10) after ((b'0' + n % 10) ∷ out) (ground arith),
        int_digits-digit true (n / 10) (n % 10) out (omega arith),
        same,
      )
]

-- What is written is made of digits, and of at least one.
pub AreDigits : List ℕ → Type 0
AreDigits = All (λ c. is_digit c ≡ true)

decimal_on-AreDigits :
    (fuel n : ℕ) (out : List ℕ) → AreDigits out → AreDigits (decimal_on fuel n out)
unfolding decimal_on AreDigits
decimal_on-AreDigits zero n out h = h
decimal_on-AreDigits (suc fuel) n out h =
    let first = is_digit-add (n % 10) (omega arith) in
    if_intro AreDigits (ltb n 10) (λ _. (first, h))
      λ _. decimal_on-AreDigits fuel (n / 10) ((b'0' + n % 10) ∷ out) (first, h)

pub decimal-AreDigits : (n : ℕ) → AreDigits (decimal n)
unfolding decimal AreDigits
decimal-AreDigits n = decimal_on-AreDigits (suc n) n [] tt

int_of-digits : (cs : List ℕ) → AreDigits cs → int_of cs ≡ positive (int_digits false 0 cs)
unfolding int_of AreDigits
int_of-digits [] h = refl
int_of-digits (c ∷ cs) h = ground arith

-- `int(str(n), 10) == n`
pub int_of-decimal : (n : ℕ) → int_of (decimal n) ≡ some (ℤ.pos n)
unfolding decimal int_digits
int_of-decimal n =
    int_of-digits (decimal n) (decimal-AreDigits n)
    ∙ rw (int_digits-decimal (suc n) n false [] (omega arith))
