-- ===== src/Audit/Sink/Append.antt =====
-- What a call leaves in the log.
use lsmf.Base.{
  ℕ, zero, suc, ◌≤◌, List, [], ◌∷◌, ◌++◌, ◌≡◌, refl, ap, sym, subst, ◌∙◌, arith, length, take, drop,
  take-append-drop, length-drop, append_assoc, append-nil, ltb, if_intro,
}
use lsmf.Base.Results.{Result, ok, err}
use lsmf.Protocol.Json.{Json}
use lsmf.Audit.Sink.{
  LogFile, Wrote, bytes, fails, Kernel, Written, done, failed, unfinished, extended, after_write,
  write_all, Ended, ends, never, append, line_of, max_audit_record_bytes, then_flush, write_checked,
  write_opened, write_in, then_close, is_unsafe_directory, is_unsafe_file, FileStatus,
  DirectoryStatus,
}

-- The log has grown by the front of the line, and no more was flushed than it holds.
abbrev pub HasPart : List ℕ → LogFile → LogFile → Type 0
HasPart line f g =
    (front : List ℕ) × (rest : List ℕ) × (line ≡ front ++ rest) × (g.content ≡ f.content ++ front)

abbrev IsProgress : List ℕ → LogFile → Written → Type 0
IsProgress view f (done g) = (g.content ≡ f.content ++ view) × (g.flushed ≡ f.flushed)
IsProgress view f (failed message g) = HasPart view f g
IsProgress view f unfinished = ⊥

further :
    (front rest : List ℕ) (f : LogFile) (w : Written)
    → IsProgress rest (extended front f) w
    → IsProgress (front ++ rest) f w
further front rest f (done g) h = (h.0 ∙ append_assoc f.content front rest, h.1)
further front rest f (failed message g) (part, left, split, grown) = (
  front ++ part,
  left,
  ap (λ (r : List ℕ). front ++ r) split ∙ sym (append_assoc front part left),
  grown ∙ append_assoc f.content front part,
)
further front rest f unfinished h = h

-- The loop ends with as much fuel as there are bytes.
write_all-IsProgress :
    (fuel round : ℕ) (write : ℕ → Wrote) (view : List ℕ) (f : LogFile)
    → length view ≤ fuel
    → IsProgress view f (write_all fuel round write view f)
unfolding write_all
write_all-IsProgress fuel round write [] f h = (sym (append-nil f.content), refl)
write_all-IsProgress zero round write (c ∷ cs) f h = absurd (omega arith)
write_all-IsProgress (suc fuel) round write (c ∷ cs) f h = go (write round) λ n.
    subst
      (λ (l : List ℕ). IsProgress l f (
        write_all fuel (suc round) write (drop (suc n) (c ∷ cs))
          (extended (take (suc n) (c ∷ cs)) f)))
      (take-append-drop (suc n) (c ∷ cs))
      (further (take (suc n) (c ∷ cs)) (drop (suc n) (c ∷ cs)) f _ (
        write_all-IsProgress fuel (suc round) write (drop (suc n) (c ∷ cs))
          (extended (take (suc n) (c ∷ cs)) f) (omega (arith, length-drop {0} n cs))))
  where
    go :
        (w : Wrote)
        → ((n : ℕ)
            → IsProgress (c ∷ cs) f (
                write_all fuel
                  (suc round)
                  write
                  (drop (suc n) (c ∷ cs))
                  (extended (take (suc n) (c ∷ cs)) f)))
        → IsProgress (c ∷ cs) f (
            after_write w
              (λ n.
                write_all fuel (suc round) write (drop n (c ∷ cs)) (extended (take n (c ∷ cs)) f))
              f)
    go (bytes zero) rest = ([], c ∷ cs, refl, sym (append-nil f.content))
    go (bytes (suc n)) rest = rest n
    go (fails message) rest = ([], c ∷ cs, refl, sym (append-nil f.content))

-- What a call has done to the log when it is over: it returned, and the whole line is there, on the
-- disk; or it raised, and a front of the line is there.
abbrev pub IsAppended : List ℕ → LogFile → Ended → Type 0
IsAppended line f (ends (ok _) g) = (g.content ≡ f.content ++ line) × (g.flushed ≡ g.content)
IsAppended line f (ends (err message) g) = HasPart line f g
IsAppended line f never = ⊥

untouched : (line : List ℕ) (f : LogFile) → HasPart line f f
untouched line f = ([], line, refl, sym (append-nil f.content))

whole : (line : List ℕ) (f g : LogFile) → g.content ≡ f.content ++ line → HasPart line f g
whole line f g h = (line, [], sym (append-nil line), h)

then_flush-IsAppended :
    (fsync : Result (Unit {0})) (line : List ℕ) (f : LogFile) (w : Written)
    → IsProgress line f w
    → IsAppended line f (then_flush fsync w)
then_flush-IsAppended (ok _) line f (done g) h = (h.0, refl)
then_flush-IsAppended (err m) line f (done g) h = whole line f g h.0
then_flush-IsAppended fsync line f (failed message g) h = h
then_flush-IsAppended fsync line f unfinished h = h

then_close-IsAppended :
    (close : Result (Unit {0})) (line : List ℕ) (f : LogFile) (e : Ended)
    → IsAppended line f e
    → IsAppended line f (then_close close e)
then_close-IsAppended close line f never h = h
then_close-IsAppended (ok _) line f (ends result g) h = h
then_close-IsAppended (err m) line f (ends (ok _) g) h = whole line f g h.0
then_close-IsAppended (err m) line f (ends (err message) g) h = h

module _ (expected_uid : ℕ) (k : Kernel) (line : List ℕ) (f : LogFile) where
  write_checked-IsAppended :
      (s : Result FileStatus) → IsAppended line f (write_checked expected_uid k line f s)
  write_checked-IsAppended (err message) = untouched line f
  write_checked-IsAppended (ok m) =
      if_intro (IsAppended line f) (is_unsafe_file expected_uid m) (λ _. untouched line f)
        (λ _.
          then_flush-IsAppended k.fsync line f (write_all (length line) 0 k.write line f)
            (write_all-IsProgress (length line) 0 k.write line f (omega arith)))

  write_opened-IsAppended :
      (o : Result (Unit {0})) → IsAppended line f (write_opened expected_uid k line f o)
  write_opened-IsAppended (err message) = untouched line f
  write_opened-IsAppended (ok _) =
      then_close-IsAppended k.close line f (write_checked expected_uid k line f k.fstat)
        (write_checked-IsAppended k.fstat)

  write_in-IsAppended :
      (s : Result DirectoryStatus) → IsAppended line f (write_in expected_uid k line f s)
  write_in-IsAppended (err message) = untouched line f
  write_in-IsAppended (ok m) =
      if_intro (IsAppended line f) (is_unsafe_directory expected_uid m) (λ _. untouched line f)
        (λ _.
          if_intro (IsAppended line f) (ltb max_audit_record_bytes (length line))
            (λ _. untouched line f) (λ _. write_opened-IsAppended k.opens))

-- Every call of `_append` ends, however few bytes each write takes. If it returns, the log has grown
-- by the whole line, the JSON text and a line's end, and all of the log is flushed; if it raises,
-- whatever failed and wherever, the log has grown by a front of the line, maybe an empty one, and
-- nothing that was in it is changed.
pub append-IsAppended :
    (dumps : Json → List ℕ) (expected_uid : ℕ) (k : Kernel) (value : Json) (f : LogFile)
    → IsAppended (line_of dumps value) f (append dumps expected_uid k value f)
unfolding append
append-IsAppended dumps expected_uid k value f =
    write_in-IsAppended expected_uid k (line_of dumps value) f k.parent
