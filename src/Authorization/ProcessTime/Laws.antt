-- ===== src/Authorization/ProcessTime/Laws.antt =====
-- The start time is read past any command's name in ASCII.
use lsmf.Base.{
  ℕ, zero, suc, true, false, List, [], ◌∷◌, ◌++◌, none, some, is_empty, get_elem?, All, ◌≡◌, ◌≢◌,
  refl, ◌<◌, append_assoc, append-nil, arith,
}
use lsmf.Base.Results.{ok}
use lsmf.Base.Decimal.{decimal, int_of-decimal}
use lsmf.Authorization.ProcessTime.{
  after_close, is_ascii, is_space, split_words, process_start_time,
}

-- a character of a field behind the command's name
abbrev pub IsPlain : ℕ → Type 0
IsPlain c = (is_space c ≡ false) × (c ≢ b')')

-- A field has a character, no space and no parenthesis that closes.
abbrev pub IsField : List ℕ → Type 0
IsField word = (is_empty word ≡ false) × All IsPlain word

-- the fields as the kernel writes them: a space before each, and a line's end
unfoldable pub spaced : List (List ℕ) → List ℕ
spaced [] = b'\n' ∷ []
spaced (word ∷ words) = b' ' ∷ (word ++ spaced words)

NoClose : List ℕ → Type 0
NoClose = All (λ c. c ≢ b')')

NoClose-append : (word rest : List ℕ) → All IsPlain word → NoClose rest → NoClose (word ++ rest)
unfolding NoClose
NoClose-append [] rest h k = k
NoClose-append (c ∷ word) rest h k = (h.0.1, NoClose-append word rest h.1 k)

spaced-NoClose : (words : List (List ℕ)) → All IsField words → NoClose (spaced words)
unfolding spaced NoClose
spaced-NoClose [] h = (omega arith, tt)
spaced-NoClose (word ∷ words) h =
    (omega arith, NoClose-append word (spaced words) h.0.1 (spaced-NoClose words h.1))

after_close-NoClose : (cs : List ℕ) → NoClose cs → after_close cs ≡ none
unfolding after_close NoClose
after_close-NoClose [] h = refl
after_close-NoClose (c ∷ cs) h = rw (after_close-NoClose cs h.1) (ground arith)

after_close-last : (front cs : List ℕ) → NoClose cs → after_close (front ++ b')' ∷ cs) ≡ some cs
unfolding after_close
after_close-last [] cs h = rw (after_close-NoClose cs h)
after_close-last (c ∷ front) cs h = rw (after_close-last front cs h)

-- A word is read whole.
split_words-append :
    (begun word rest : List ℕ)
    → All IsPlain word
    → split_words begun (word ++ rest) ≡ split_words (begun ++ word) rest
unfolding split_words
split_words-append begun [] rest h = rw append-nil
split_words-append begun (c ∷ word) rest h =
    rw (h.0.0, split_words-append (begun ++ c ∷ []) word rest h.1, append_assoc begun (c ∷ []) word)

split_words-spaced :
    (word : List ℕ) (words : List (List ℕ))
    → is_empty word ≡ false
    → All IsField words
    → split_words word (spaced words) ≡ word ∷ words
unfolding split_words spaced
split_words-spaced word [] h k = rw h
split_words-spaced word (v ∷ words) h k =
    rw (h, split_words-append [] v (spaced words) k.0.1, split_words-spaced v words k.0.0 k.1)

split-spaced : (words : List (List ℕ)) → All IsField words → split_words [] (spaced words) ≡ words
unfolding split_words spaced
split-spaced [] k = refl
split-spaced (v ∷ words) k =
    rw (split_words-append [] v (spaced words) k.0.1, split_words-spaced v words k.0.0 k.1)

-- From what the kernel writes for a process, where all of it is ASCII, the start time is read
-- exactly: behind a text that may hold spaces and parentheses (the PID and the command's name) and
-- a parenthesis that closes stand fields that have neither, and it is the number in decimal at
-- place 22, the twentieth behind the name.
pub process_start_time-spaced :
    (pid start : ℕ) (front : List ℕ) (words : List (List ℕ))
    → 0 < pid
    → 0 < start
    → is_ascii (front ++ b')' ∷ spaced words) ≡ true
    → All IsField words
    → get_elem? words 19 ≡ some (decimal start)
    → process_start_time pid (ok (front ++ b')' ∷ spaced words)) ≡ ok start
unfolding process_start_time
process_start_time-spaced zero start front words h k ascii fields here = absurd (omega arith)
process_start_time-spaced (suc pid) zero front words h k ascii fields here = absurd (omega arith)
process_start_time-spaced (suc pid) (suc n) front words h k ascii fields here = rw (
  ascii,
  after_close-last front (spaced words) (spaced-NoClose words fields),
  split-spaced words fields,
  here,
  int_of-decimal (suc n),
)
