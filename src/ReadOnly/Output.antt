-- ===== src/ReadOnly/Output.antt =====
-- lsmf/read_only_process.py `_read_bounded`: the worker's output, up to a limit.
use lsmf.Base.{
  ℕ, zero, suc, ◌-◌, String, Bool, false, ◌||◌, List, [], ◌∷◌, ◌++◌, ◌≡◌, refl, ap, sym, ◌∙◌, arith,
  ltb, length, length-append, take, append_assoc, append-nil,
}
use lsmf.Base.Results.{Result, ok, err, ◌>>=◌}

-- What the reads of a stream return, one after the other: bytes, none at its end, or a value of
-- another type; or a read raises. A stream without an end has no such value: of that
-- the loop of the source, and this model of it, returns nothing.
pub data Reads : Type 0 where
  chunk : ℕ → List ℕ → Reads → Reads
  at_end wrong_type : Reads
  raised : String → Reads

-- the loop of `_read_bounded`, with `maximum` for MAX_OUTPUT_BYTES; a chunk has a first byte
unfoldable pub read_on : ℕ → List ℕ → Bool → Reads → Result (List ℕ × Bool)
read_on maximum output truncated at_end = ok (output, truncated)
read_on maximum output truncated wrong_type = err "read-only worker output has the wrong type"
read_on maximum output truncated (raised message) = err message
read_on maximum output truncated (chunk b bs reads) =
    let remaining = maximum - length output in
    read_on maximum (output ++ take remaining (b ∷ bs))
      (truncated || ltb remaining (length (b ∷ bs))) reads

unfoldable pub read_bounded : Reads → Result (List ℕ × Bool)
read_bounded reads = read_on 65536 [] false reads

-- everything that the stream holds
abbrev pub content : Reads → Result (List ℕ)
content at_end = ok []
content wrong_type = err "read-only worker output has the wrong type"
content (raised message) = err message
content (chunk b bs reads) = do rest ← content reads; ok ((b ∷ bs) ++ rest)

-- a front of the bytes, and whether it leaves any out
abbrev pub cut : ℕ → List ℕ → Result (List ℕ × Bool)
cut maximum bs = ok (take maximum bs, ltb maximum (length bs))

take-append :
    (n : ℕ) (xs ys : List ℕ) → take n (xs ++ ys) ≡ take n xs ++ take (n - length (take n xs)) ys
take-append zero xs ys = refl
take-append (suc n) [] ys = let all_left : suc n - 0 ≡ suc n = omega arith in rw all_left
take-append (suc n) (x ∷ xs) ys =
    let fewer : suc n - length (take (suc n) (x ∷ xs)) ≡ n - length (take n xs) = omega arith in
    rw (take-append n xs ys, fewer)

length-take : (n : ℕ) (xs : List ℕ) → n - length (take n xs) ≡ n - length xs
length-take zero xs = omega arith
length-take (suc n) [] = refl
length-take (suc n) (x ∷ xs) = omega (arith, length-take n xs)

regroup :
    (maximum : ℕ) (before bs : List ℕ) (r : Result (List ℕ))
    → (r >>= λ rest. cut maximum ((before ++ bs) ++ rest))
      ≡ ((r >>= λ rest. ok (bs ++ rest)) >>= λ rest. cut maximum (before ++ rest))
regroup maximum before bs (ok rest) = ap (cut maximum) (append_assoc before bs rest)
regroup maximum before bs (err message) = refl

read_on_lem :
    (maximum : ℕ) (before : List ℕ) (reads : Reads)
    → read_on maximum (take maximum before) (ltb maximum (length before)) reads
      ≡ (content reads >>= λ rest. cut maximum (before ++ rest))
unfolding read_on
read_on_lem maximum before at_end = rw (append-nil before)
read_on_lem maximum before wrong_type = refl
read_on_lem maximum before (raised message) = refl
read_on_lem maximum before (chunk b bs reads) =
    let shorter : take maximum before ++ take (maximum - length (take maximum before)) (b ∷ bs)
        ≡ take maximum (before ++ b ∷ bs) =
      sym (take-append maximum before (b ∷ bs)) in
    let fuller : (ltb maximum (length before)
          || ltb (maximum - length (take maximum before)) (length (b ∷ bs)))
        ≡ ltb maximum (length (before ++ b ∷ bs)) =
      ground (arith, length-take maximum before, length-append before (b ∷ bs)) in
    ap
      (λ output.
        read_on maximum output
          (ltb maximum (length before)
            || ltb (maximum - length (take maximum before)) (length (b ∷ bs)))
          reads)
      shorter
    ∙ ap (λ truncated. read_on maximum (take maximum (before ++ b ∷ bs)) truncated reads) fuller
    ∙ read_on_lem maximum (before ++ b ∷ bs) reads
    ∙ regroup maximum before (b ∷ bs) (content reads)

-- Of a stream that ends, or whose reading raises, `_read_bounded` returns the first 65536 bytes of all that the stream holds, and whether
-- there are more, or raises what a read raises, after however many bytes.
pub read_bounded-cut : (reads : Reads) → read_bounded reads ≡ (content reads >>= λ bs. cut 65536 bs)
unfolding read_bounded
read_bounded-cut reads = read_on_lem 65536 [] reads
