-- ===== src/Sysctl/Proofs/Throws.antt =====
-- Which exceptions a run can raise. Once a backup exists, every cancellation carries its ID: it is
-- by this that `_apply` knows that there is something to restore.
use lsmf.Base.{
  ℕ, String, refl, Bool, true, false, List, [], ◌∷◌, Option, none, some, arith, if◌then◌else◌, ◌≢◌,
  inl, inr, Option-cases,
}
use lsmf.Base.Dict.{lookup}
use lsmf.Sysctl.Manifest.{SysctlSetting, SysctlModule}
use lsmf.Sysctl.World.{
  TransactionSnapshot, FileRecord, Envelope, damaged, intact, Disk, Host, World, Exc, failure,
  cancelled, Outcome, ok, raised, M, pure, raise, gets, reading, observe, changing, change, attempt,
  ◌>>=◌, check, checkpoint, next, Fault, fine, before, midway, after,
}
use lsmf.Sysctl.Files
use lsmf.Sysctl.Files.{look}
use lsmf.Sysctl.Values
use lsmf.Sysctl.Values.{look_value, is_value}
use lsmf.Sysctl.Backups.{create, load, look_backup, decode_envelope, decode_files}
use lsmf.Sysctl.Apply.{apply_settings, apply_modules, check_settings, check_modules, apply_body}

abbrev pub OfOutcome {ℓ} : {A : Type ℓ} → (Exc → Type 0) → Outcome A → Type 0
OfOutcome Q (ok _) = Unit
OfOutcome Q (raised e) = Q e

-- What `m` raises satisfies `Q`.
pub record Throws {ℓ} {A : Type ℓ} (Q : Exc → Type 0) (m : M A) : Type ℓ where
  pub at : (w : World) → OfOutcome Q (m w).0

-- A cancellation carries the ID of the backup.
abbrev pub IsTagged : Exc → Type 0
IsTagged (failure _) = Unit
IsTagged (cancelled _ none) = ⊥
IsTagged (cancelled _ (some _)) = Unit

bind-Throws {ℓ κ} :
    {A : Type ℓ} {B : Type κ} {Q : Exc → Type 0} (r : Outcome A × World) (f : A → M B)
    → OfOutcome Q r.0
    → ((a : A) → Throws Q (f a))
    → OfOutcome Q (attempt r f raise).0
bind-Throws (ok a, w) f h k = (k a).at w
bind-Throws (raised e, w) f h k = h

Throws-bind {ℓ κ} :
    {A : Type ℓ} {B : Type κ} {Q : Exc → Type 0} (m : M A) (f : A → M B)
    → Throws Q m
    → ((a : A) → Throws Q (f a))
    → Throws Q (m >>= f)
Throws-bind m f h k = record { at = λ w. bind-Throws (m w) f (h.at w) k }

attempt-Throws {ℓ κ} :
    {A : Type ℓ} {B : Type κ} {Q : Exc → Type 0} (r : Outcome A × World) (f : A → M B)
    (g : Exc → M B)
    → ((a : A) → Throws Q (f a))
    → ((e : Exc) → Throws Q (g e))
    → OfOutcome Q (attempt r f g).0
attempt-Throws (ok a, w) f g h k = (h a).at w
attempt-Throws (raised e, w) f g h k = (k e).at w

-- with a handler that catches all that `m` raises
Throws-attempt {ℓ κ} :
    {A : Type ℓ} {B : Type κ} {Q : Exc → Type 0} (m : M A) (f : A → M B) (g : Exc → M B)
    → ((a : A) → Throws Q (f a))
    → ((e : Exc) → Throws Q (g e))
    → Throws Q (λ w. attempt (m w) f g)
Throws-attempt m f g h k = record { at = λ w. attempt-Throws (m w) f g h k }

Throws-raise {ℓ} : {A : Type ℓ} {Q : Exc → Type 0} {e : Exc} → Q e → Throws Q (raise {A = A} e)
Throws-raise h = record { at = λ w. h }

Throws-if {ℓ} :
    {A : Type ℓ} {Q : Exc → Type 0} (c : Bool) (m n : M A)
    → Throws Q m
    → Throws Q n
    → Throws Q (if c then m else n)
Throws-if true m n h k = h
Throws-if false m n h k = k

Throws-pure {ℓ} : {A : Type ℓ} {Q : Exc → Type 0} (a : A) → Throws Q (pure a)
Throws-pure a = record { at = λ w. tt }

Throws-check : (c : Bool) (e : String) → Throws IsTagged (check c e)
unfolding check
Throws-check true e = record { at = λ w. tt }
Throws-check false e = record { at = λ w. tt }

Throws-gets {ℓ} : {A : Type ℓ} (f : Disk → A) → Throws IsTagged (gets f)
unfolding gets
Throws-gets f = record { at = λ w. tt }

Throws-checkpoint : (i : String) → Throws IsTagged (checkpoint (some i))
unfolding checkpoint
Throws-checkpoint i = record { at = λ w. go (next w).1 (next w).1.token }
  where
    go :
        (v : World) (t : Option Bool)
        → OfOutcome IsTagged
            (elim t as (λ _. Outcome (Unit {0}) × World) [
              | none ↦ (ok tt, v)
              | some b ↦ (raised (cancelled b (some i)), v)
            ]).0
    go v none = tt
    go v (some b) = tt

reading_throws {ℓ} :
    {A : Type ℓ} (f : Disk → Outcome A) (r : Fault × World)
    → ((d : Disk) → OfOutcome IsTagged (f d))
    → OfOutcome IsTagged (reading f r).0
reading_throws f (fine, w) h = h w.disk
reading_throws f (before, w) h = tt
reading_throws f (midway, w) h = tt
reading_throws f (after, w) h = tt

Throws-observe {ℓ} :
    {A : Type ℓ} (f : Disk → Outcome A)
    → ((d : Disk) → OfOutcome IsTagged (f d))
    → Throws IsTagged (observe f)
unfolding observe
Throws-observe f h = record { at = λ w. reading_throws f (next w) h }

changing_throws : (f : Disk → Disk) (r : Fault × World) → OfOutcome IsTagged (changing f r).0
changing_throws f (fine, w) = tt
changing_throws f (before, w) = tt
changing_throws f (midway, w) = tt
changing_throws f (after, w) = tt

Throws-change : (f : Disk → Disk) → Throws IsTagged (change f)
unfolding change
Throws-change f = record { at = λ w. changing_throws f (next w) }

-- An outcome that is no bare cancellation.
tagged {ℓ} :
    {A : Type ℓ} (o : Outcome A)
    → ((t : Bool) → o ≢ raised (cancelled t none))
    → OfOutcome IsTagged o
tagged (ok a) h = tt
tagged (raised (failure e)) h = tt
tagged (raised (cancelled t none)) h = h t refl
tagged (raised (cancelled t (some i))) h = tt

look_value_tagged : (k : String) (d : Disk) (t : Bool) → look_value k d ≢ raised (cancelled t none)
unfolding look_value
look_value_tagged k d t = ground arith

Throws-read : (k : String) → Throws IsTagged (Values.read k)
unfolding Values.read
Throws-read k = Throws-observe (look_value k) (λ d. tagged _ (look_value_tagged k d))

Throws-write_value : (host : Host) (k x : String) → Throws IsTagged (Values.write host k x)
unfolding Values.write
Throws-write_value host k x = Throws-bind _ _ (Throws-check _ _) (λ _.
    Throws-bind _ _ (Throws-gets _)
      (λ _. Throws-bind _ _ (Throws-check _ _) (λ _. Throws-change _)))

module _ (host : Host) where
  look_tagged : (p : String) (d : Disk) (t : Bool) → look host p d ≢ raised (cancelled t none)
  unfolding look
  look_tagged p d t = ground arith

  Throws-snapshot : (p : String) → Throws IsTagged (Files.snapshot host p)
  unfolding Files.snapshot
  Throws-snapshot p = Throws-observe (look host p) (λ d. tagged _ (look_tagged p d))

  decode_files_tagged :
      (rs : List FileRecord) (t : Bool) → decode_files host rs ≢ raised (cancelled t none)
  decode_files_tagged [] t = ground arith
  decode_files_tagged (r ∷ rs) t = ground (arith, decode_files_tagged rs t)

  envelope_tagged :
      (i : String) (v : Envelope) (t : Bool) → decode_envelope host i v ≢ raised (cancelled t none)
  unfolding decode_envelope
  envelope_tagged i v t = ground (arith, decode_files_tagged v.payload.files t)

  look_backup_tagged :
      (i : String) (d : Disk) (t : Bool) → look_backup host i d ≢ raised (cancelled t none)
  unfolding look_backup
  look_backup_tagged i d t = elim (Option-cases (lookup i d.backups)) [
    | inl e ↦ ground (arith, e)
    | inr (damaged, e) ↦ ground (arith, e)
    | inr (intact v, e) ↦ ground (arith, e, envelope_tagged i v t)
  ]

  Throws-load : (i : String) → Throws IsTagged (load host i)
  unfolding load
  Throws-load i = Throws-observe (look_backup host i) (λ d. tagged _ (look_backup_tagged i d))

  Throws-place : (p : String) (c : List ℕ) (m : ℕ) → Throws IsTagged (Files.place host p c m)
  unfolding Files.place
  Throws-place p c m = Throws-bind _ _ (Throws-gets _) (λ _.
      Throws-bind _ _ (Throws-check _ _) (λ _. Throws-bind _ _ (Throws-change _) (λ _.
        Throws-bind _ _ (Throws-change _)
          (λ _. Throws-bind _ _ (Throws-change _) (λ _. Throws-observe _ (λ d. tt))))))

  Throws-give_up : (p : String) → Throws IsTagged (Files.give_up host p)
  unfolding Files.give_up
  Throws-give_up p = Throws-attempt _ _ _ (λ _. Throws-raise tt) (λ _. Throws-raise tt)

  Throws-replace : (p : String) (c : List ℕ) (m : ℕ) → Throws IsTagged (Files.replace host p c m)
  unfolding Files.replace
  Throws-replace p c m =
      Throws-attempt (Files.place host p c m) _ _ (λ _. Throws-pure tt) (λ _. Throws-give_up p)

  Throws-write : (p : String) (c : List ℕ) (m : ℕ) → Throws IsTagged (Files.write host p c m)
  unfolding Files.write
  Throws-write p c m = Throws-bind _ _ (Throws-check _ _) (λ _.
      Throws-bind _ _ (Throws-check _ _) (λ _.
        Throws-bind _ _ (Throws-gets _)
          (λ _. Throws-bind _ _ (Throws-check _ _) (λ _. Throws-replace p c m))))

  Throws-create : (s : TransactionSnapshot) → Throws IsTagged (create host s)
  unfolding create
  Throws-create s = Throws-bind _ _ (Throws-check _ _) (λ _. Throws-bind _ _ (Throws-gets _) (λ _.
      Throws-bind _ _ (Throws-check _ _) (λ _. Throws-bind _ _ (Throws-change _) (λ _.
        Throws-bind _ _ (Throws-check _ _) (λ _.
          Throws-bind _ _ (Throws-change _)
            (λ _. Throws-bind _ _ (Throws-load s.backup_id) (λ _. Throws-check _ _)))))))

  Throws-apply_settings :
      (i : String) (ss : List SysctlSetting) → Throws IsTagged (apply_settings host i ss)
  unfolding apply_settings
  Throws-apply_settings i [] = Throws-pure tt
  Throws-apply_settings i (s ∷ ss) = Throws-bind _ _ (Throws-read s.key) (λ now.
      Throws-bind _ _
        (Throws-if (is_value now s.desired_value) _ _ (Throws-pure tt)
          (Throws-write_value host s.key s.desired_value))
        (λ _. Throws-bind _ _ (Throws-checkpoint i) (λ _. Throws-apply_settings i ss)))

  Throws-apply_modules :
      (i : String) (ms : List SysctlModule) → Throws IsTagged (apply_modules host i ms)
  unfolding apply_modules
  Throws-apply_modules i [] = Throws-pure tt
  Throws-apply_modules i (m ∷ ms) =
      Throws-bind _ _ (Throws-write m.relative_target _ 384)
        (λ _. Throws-bind _ _ (Throws-apply_settings i m.settings) (λ _. Throws-apply_modules i ms))

  Throws-check_settings : (ss : List SysctlSetting) → Throws IsTagged (check_settings host ss)
  unfolding check_settings
  Throws-check_settings [] = Throws-pure tt
  Throws-check_settings (s ∷ ss) =
      Throws-bind _ _ (Throws-read s.key)
        (λ now. Throws-bind _ _ (Throws-check _ _) (λ _. Throws-check_settings ss))

  Throws-check_modules : (ms : List SysctlModule) → Throws IsTagged (check_modules host ms)
  unfolding check_modules
  Throws-check_modules [] = Throws-pure tt
  Throws-check_modules (m ∷ ms) = Throws-bind _ _ (Throws-snapshot m.relative_target) (λ now.
      Throws-bind _ _ (Throws-check _ _)
        (λ _. Throws-bind _ _ (Throws-check_settings m.settings) (λ _. Throws-check_modules ms)))

  -- Whatever the `try` block of `_apply` raises once a snapshot is taken, a cancellation in it
  -- carries the backup's ID.
  pub Throws-apply_body :
      (s : TransactionSnapshot) (ms : List SysctlModule) → Throws IsTagged (apply_body host s ms)
  unfolding apply_body
  Throws-apply_body s ms = Throws-bind _ _ (Throws-create s) (λ _.
      Throws-bind _ _ (Throws-checkpoint s.backup_id)
        (λ _. Throws-bind _ _ (Throws-apply_modules s.backup_id ms) (λ _. Throws-check_modules ms)))
