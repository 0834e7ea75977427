-- ===== src/Base/Text.antt =====
-- The regular expressions of the source, as recognisers over code points. Each stands for a
-- `fullmatch`, so the whole text must fit.
use Prim.Native.Char.{code}
use Prim.Native.Nat.{ℕ, zero, suc}
use Prim.Native.String.{String}
use mathlib.Core.Bool.{Bool, false, ◌&&◌, ◌||◌}
use mathlib.Core.List.{List, [], ◌∷◌}
use lsmf.Base.Tests.{leb, ◌==◌}
use lsmf.Base.Lists.{length, all, is_empty}

-- The code points of a text. `String` has its own `[]` and `∷`.
abbrev pub codes : String → List ℕ
codes String.[] = []
codes (String.◌∷◌ c s) = code c ∷ codes s

abbrev pub is_lower : ℕ → Bool
is_lower c = leb b'a' c && leb c b'z'

abbrev pub is_upper : ℕ → Bool
is_upper c = leb b'A' c && leb c b'Z'

-- `[0-9]`
abbrev pub is_digit : ℕ → Bool
is_digit c = leb b'0' c && leb c b'9'

-- `[0-9a-f]`
abbrev pub is_hex : ℕ → Bool
is_hex c = is_digit c || (leb b'a' c && leb c b'f')

-- `[a-z0-9_]`
abbrev pub is_word : ℕ → Bool
is_word c = is_lower c || is_digit c || c == b'_'

-- One piece of a pattern: a class of characters, repeated a fixed number of times.
abbrev pub Piece : Type 0
Piece = (ℕ → Bool) × ℕ

-- A character that must stand there.
abbrev pub lit : ℕ → Piece
lit c = (λ x. x == c, 1)

-- `p{n}` at the front of a text; what is left of it goes on to `k`.
abbrev pub run : (ℕ → Bool) → ℕ → (List ℕ → Bool) → List ℕ → Bool
run p zero k cs = k cs
run p (suc n) k [] = false
run p (suc n) k (c ∷ cs) = p c && run p n k cs

-- A sequence of pieces of fixed length, over the whole text.
abbrev pub matches : List Piece → List ℕ → Bool
matches [] cs = is_empty cs
matches ((p, n) ∷ ps) cs = run p n (matches ps) cs

-- `^[head][tail]{0,most}$`
abbrev pub headed : (ℕ → Bool) → (ℕ → Bool) → ℕ → List ℕ → Bool
headed h t most [] = false
headed h t most (c ∷ cs) = h c && all t cs && leb (length cs) most
