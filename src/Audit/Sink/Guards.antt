-- ===== src/Audit/Sink/Guards.antt =====
-- Where a call writes at all.
use lsmf.Base.{ℕ, ◌≤◌, true, false, List, ◌≡◌, refl, arith, ◌⊎◌, inl, inr, length, ltb, if_intro}
use lsmf.Base.Results.{Result, ok, err}
use lsmf.Protocol.Json.{Json}
use lsmf.Audit.Sink.{
  LogFile, Kernel, Ended, ends, never, append, line_of, max_audit_record_bytes, write_all,
  write_checked, write_opened, write_in, then_close, then_flush, is_unsafe_directory,
  is_unsafe_file, FileStatus, DirectoryStatus,
}

-- what the kernel said of the directory and of the opened file
abbrev pub IsPrivateDirectory : ℕ → DirectoryStatus → Type 0
IsPrivateDirectory uid d = (d.is_directory ≡ true) × (d.uid ≡ uid) × (d.is_open ≡ false)

abbrev pub IsPrivateFile : ℕ → FileStatus → Type 0
IsPrivateFile uid s = (s.is_regular ≡ true) × (s.uid ≡ uid) × (s.is_open ≡ false) × (s.links ≡ 1)

private_directory :
    (uid : ℕ) (d : DirectoryStatus) → is_unsafe_directory uid d ≡ false → IsPrivateDirectory uid d
private_directory uid d h = ground arith

private_file : (uid : ℕ) (s : FileStatus) → is_unsafe_file uid s ≡ false → IsPrivateFile uid s
private_file uid s h = ground arith

module _ (uid : ℕ) (k : Kernel) (line : List ℕ) (f : LogFile) where
  abbrev pub HasGuards : Type 0
  HasGuards =
      (length line ≤ max_audit_record_bytes)
      × (d : DirectoryStatus) × (k.parent ≡ ok d)
      × IsPrivateDirectory uid d
      × (s : FileStatus) × (k.fstat ≡ ok s)
      × IsPrivateFile uid s

  -- The log is as it was, or everything was checked.
  abbrev pub IsGuarded : Ended → Type 0
  IsGuarded (ends result g) = (g ≡ f) ⊎ HasGuards
  IsGuarded never = HasGuards

  guarded : (e : Ended) → HasGuards → IsGuarded e
  guarded (ends result g) h = inr h
  guarded never h = h

  then_close-IsGuarded :
      (c : Result (Unit {0})) (e : Ended) → IsGuarded e → IsGuarded (then_close c e)
  then_close-IsGuarded c never h = h
  then_close-IsGuarded (ok _) (ends result g) h = h
  then_close-IsGuarded (err message) (ends result g) h = h

  write_checked-IsGuarded :
      (d : DirectoryStatus)
      → length line ≤ max_audit_record_bytes
      → k.parent ≡ ok d
      → IsPrivateDirectory uid d
      → (s : Result FileStatus) → k.fstat ≡ s
      → IsGuarded (write_checked uid k line f s)
  write_checked-IsGuarded d short here private (err message) e = inl refl
  write_checked-IsGuarded d short here private (ok s) e =
      if_intro IsGuarded (is_unsafe_file uid s) (λ _. inl refl)
        (λ safe.
          guarded (then_flush k.fsync (write_all (length line) 0 k.write line f))
            (short, d, here, private, s, e, private_file uid s safe))

  write_opened-IsGuarded :
      (d : DirectoryStatus)
      → length line ≤ max_audit_record_bytes
      → k.parent ≡ ok d
      → IsPrivateDirectory uid d
      → (o : Result (Unit {0})) → IsGuarded (write_opened uid k line f o)
  write_opened-IsGuarded d short here private (err message) = inl refl
  write_opened-IsGuarded d short here private (ok _) =
      then_close-IsGuarded k.close (write_checked uid k line f k.fstat)
        (write_checked-IsGuarded d short here private k.fstat refl)

  write_in-IsGuarded :
      (p : Result DirectoryStatus) → k.parent ≡ p → IsGuarded (write_in uid k line f p)
  write_in-IsGuarded (err message) e = inl refl
  write_in-IsGuarded (ok d) e =
      if_intro IsGuarded (is_unsafe_directory uid d) (λ _. inl refl)
        (λ safe.
          if_intro IsGuarded (ltb max_audit_record_bytes (length line)) (λ _. inl refl)
            (λ short.
              write_opened-IsGuarded d (ground arith) e (private_directory uid d safe) k.opens))

-- A call of `_append` leaves the log as it is, unless the line has at most 4096 bytes, the directory
-- is a directory of the expected user that lets no one else in, and the file that was opened is a
-- regular file of this user with one link, which its mode gives to no one else and lets no one
-- execute.
pub append-IsGuarded :
    (dumps : Json → List ℕ) (expected_uid : ℕ) (k : Kernel) (value : Json) (f : LogFile)
    → IsGuarded expected_uid k (line_of dumps value) f (append dumps expected_uid k value f)
unfolding append
append-IsGuarded dumps expected_uid k value f =
    write_in-IsGuarded expected_uid k (line_of dumps value) f k.parent refl
