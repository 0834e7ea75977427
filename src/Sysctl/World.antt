-- ===== src/Sysctl/World.antt =====
-- The machine that a transaction works on, and computations over it that may raise.
--
-- What the environment decides comes as a list of choices, one for each system call: the call
-- works, it fails before or after it took effect or halfway, or a cancellation arrives during it.
-- When the list is empty every further call works.
use lsmf.Base.{ℕ, String, Bool, true, false, List, [], ◌∷◌, Option, none, some, ◌≡◌, arith}
use lsmf.Base.Dict.{Dict}

-- What a path of the managed tree holds. A symbolic link says if its target exists.
pub data Node : Type 0 where
  absent : Node
  regular : ℕ → ℕ → ℕ → List ℕ → Node  -- mode, uid, gid, content
  symlink : Bool → Node
  special : Node

pub record ManagedFileSnapshot : Type 0 where
  pub relative_path : String
  pub existed : Bool
  pub mode : ℕ
  pub uid : ℕ
  pub gid : ℕ
  pub content : List ℕ

pub record TransactionSnapshot : Type 0 where
  pub backup_id : String
  pub manifest_digest : String
  pub module_ids : List String
  pub files : List ManagedFileSnapshot
  pub sysctls : List (String × String)

-- The record of one file in `snapshot.json`: the file, and the digest of its content.
pub record FileRecord : Type 0 where
  pub file : ManagedFileSnapshot
  pub sha256 : String

pub record Payload : Type 0 where
  pub version : ℕ
  pub backup_id : String
  pub manifest_digest : String
  pub module_ids : List String
  pub files : List FileRecord
  pub sysctls : List (String × String)

pub record Envelope : Type 0 where
  pub payload : Payload
  pub sha256 : String

-- A backup directory: with a `snapshot.json` of safe ownership and mode that decodes to an
-- envelope, or with anything else.
pub data Stored : Type 0 where
  damaged : Stored
  intact : Envelope → Stored

-- The file `recovery-required`: one line with a backup ID, or anything else.
pub data Marker : Type 0 where
  unusable : Marker
  names : String → Marker

pub record Disk : Type 0 where
  pub nodes : String → Node
  pub sysctls : String → Option String
  pub backups : Dict Stored
  pub marker : Option Marker

-- What does not change during a run: the process's own identity and file mode mask, the parents
-- of the managed paths, the path `.NAME.lsmf-PID` beside a path, what a sysctl reads as after a write, and the digests.
pub record Host : Type 0 where
  pub expected_uid : ℕ
  pub euid : ℕ
  pub egid : ℕ
  pub masked : ℕ → ℕ
  pub parents_safe : String → Bool
  pub temporary : String → String
  pub settles : String → String → String
  pub content_digest : List ℕ → String
  pub payload_digest : Payload → String
  pub envelope_size : Envelope → ℕ

pub data Choice : Type 0 where
  works fails_before fails_midway fails_after : Choice
  signal : Bool → Choice  -- `CancellationToken.cancel(timed_out=...)`, and the call works

pub data Fault : Type 0 where
  fine before midway after : Fault

pub record World : Type 0 where
  pub disk : Disk
  pub choices : List Choice
  pub token : Option Bool  -- set, and whether by a time-out

-- `CancellationToken.cancel`: the first call decides
unfoldable pub cancel : Bool → Option Bool → Option Bool
cancel timed_out none = some timed_out
cancel timed_out (some t) = some t

-- one system call's fate
unfoldable pub next_with : List Choice → World → Fault × World
unfolding cancel
next_with [] w = (fine, w)
next_with (works ∷ cs) w = (fine, record w { choices = cs })
next_with (fails_before ∷ cs) w = (before, record w { choices = cs })
next_with (fails_midway ∷ cs) w = (midway, record w { choices = cs })
next_with (fails_after ∷ cs) w = (after, record w { choices = cs })
next_with (signal t ∷ cs) w = (fine, record w { choices = cs; token = cancel t w.token })

unfoldable pub next : World → Fault × World
unfolding next_with
next w = next_with w.choices w

-- A call changes nothing on disk by itself.
pub disk-next : (w : World) → (next w).1.disk ≡ w.disk
unfolding next
disk-next w = ground arith

pub data Exc : Type 0 where
  failure : String → Exc
  cancelled : Bool → Option String → Exc  -- `SyntheticCancelled(timed_out, backup_id)`

pub data Outcome {ℓ} (A : Type ℓ) : Type ℓ where
  ok : A → Outcome A
  raised : Exc → Outcome A

abbrev pub M {ℓ} : Type ℓ → Type ℓ
M A = World → Outcome A × World

abbrev pub pure {ℓ} : {A : Type ℓ} → A → M A
pure a w = (ok a, w)

abbrev pub raise {ℓ} : {A : Type ℓ} → Exc → M A
raise e w = (raised e, w)

-- `try: m` with what follows it, and `except Exception as e: handle`
abbrev pub attempt {ℓ κ} :
    {A : Type ℓ} {B : Type κ} → Outcome A × World → (A → M B) → (Exc → M B) → Outcome B × World
attempt (ok a, w) f g = f a w
attempt (raised e, w) f g = g e w

infixl 5 ◌>>=◌ ◌>>◌
abbrev pub ◌>>=◌ {ℓ κ} : {A : Type ℓ} {B : Type κ} → M A → (A → M B) → M B
◌>>=◌ m f w = attempt (m w) f raise

abbrev pub ◌>>◌ {ℓ κ} : {A : Type ℓ} {B : Type κ} → M A → M B → M B
m >> n = m >>= λ _. n

-- `if not c: raise`
unfoldable pub check : Bool → String → M (Unit {0})
check true message = pure tt
check false message = raise (failure message)

-- what the code looks at without a call that the model lets fail
unfoldable pub gets {ℓ} : {A : Type ℓ} → (Disk → A) → M A
gets f w = (ok (f w.disk), w)

abbrev pub reading {ℓ} : {A : Type ℓ} → (Disk → Outcome A) → Fault × World → Outcome A × World
reading f (fine, w) = (f w.disk, w)
reading f (_, w) = (raised (failure "OSError"), w)

-- a call that only reads: it may fail, and changes nothing on disk
unfoldable pub observe {ℓ} : {A : Type ℓ} → (Disk → Outcome A) → M A
observe f w = reading f (next w)

abbrev pub changing : (Disk → Disk) → Fault × World → Outcome (Unit {0}) × World
changing f (fine, w) = (ok tt, record w { disk = f w.disk })
changing f (after, w) = (raised (failure "OSError"), record w { disk = f w.disk })
changing f (_, w) = (raised (failure "OSError"), w)

-- a call that changes the disk in one step: not at all, or before it fails
unfoldable pub change : (Disk → Disk) → M (Unit {0})
change f w = changing f (next w)

-- `CancellationToken.checkpoint`: a cancellation may arrive just before it looks
unfoldable pub checkpoint : Option String → M (Unit {0})
unfolding next
checkpoint backup_id w =
    let w' = (next w).1 in
    elim w'.token [ none ↦ (ok tt, w') | some t ↦ (raised (cancelled t backup_id), w') ]
