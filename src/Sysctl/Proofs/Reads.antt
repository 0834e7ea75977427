-- ===== src/Sysctl/Proofs/Reads.antt =====
-- Calls that only look: they leave the disk as it is, and return what stands there.
use lsmf.Base.{String, ◌≡◌, refl, ◌∙◌, ap, Bool, true, false, Option, arith}
use lsmf.Sysctl.World.{
  ManagedFileSnapshot, Disk, Host, World, Outcome, ok, raised, M, raise, attempt, ◌>>=◌, check,
  checkpoint, next, disk-next, reading, observe, change, changing, gets, Fault, fine, before,
  midway, after,
}
use lsmf.Sysctl.Files
use lsmf.Sysctl.Files.{look, file_eq, file_eq_iff}
use lsmf.Sysctl.Values
use lsmf.Sysctl.Values.{look_value, same_value, is_value}

-- Inversion of a sequence that returned.
attempt-eq-ok {ℓ κ} :
    {A : Type ℓ} {B : Type κ} (r : Outcome A × World) (f : A → M B) {b : B} {v : World}
    → attempt r f raise ≡ (ok b, v)
    → (a : A) × (u : World) × (r ≡ (ok a, u)) × (f a u ≡ (ok b, v))
attempt-eq-ok (ok a, u) f h = (a, u, refl, h)
attempt-eq-ok (raised e, u) f h = cc

pub >>=-eq-ok {ℓ κ} :
    {A : Type ℓ} {B : Type κ} (m : M A) (f : A → M B) (w : World) {b : B} {v : World}
    → (m >>= f) w ≡ (ok b, v)
    → (a : A) × (u : World) × (m w ≡ (ok a, u)) × (f a u ≡ (ok b, v))
>>=-eq-ok m f w h = attempt-eq-ok (m w) f h

pub check-eq-ok {ℓ} :
    {B : Type ℓ} (c : Bool) (e : String) (m : M B) (w : World) {b : B} {v : World}
    → (check c e >>= λ _. m) w ≡ (ok b, v)
    → (c ≡ true) × (m w ≡ (ok b, v))
unfolding check
check-eq-ok true e m w h = (refl, h)
check-eq-ok false e m w h = cc

reading_inv {ℓ} :
    {A : Type ℓ} (f : Disk → Outcome A) (r : Fault × World) {a : A} {v : World}
    → reading f r ≡ (ok a, v)
    → (f r.1.disk ≡ ok a) × (v.disk ≡ r.1.disk)
reading_inv f (fine, u) h = ground arith
reading_inv f (before, u) h = cc
reading_inv f (midway, u) h = cc
reading_inv f (after, u) h = cc

disk-reading {ℓ} :
    {A : Type ℓ} (f : Disk → Outcome A) (r : Fault × World) → (reading f r).1.disk ≡ r.1.disk
disk-reading f (fine, u) = refl
disk-reading f (before, u) = refl
disk-reading f (midway, u) = refl
disk-reading f (after, u) = refl

-- What was observed stands on disk, and the disk is as it was.
pub observe_inv {ℓ} :
    {A : Type ℓ} (f : Disk → Outcome A) (w : World) {a : A} {v : World}
    → observe f w ≡ (ok a, v)
    → (f w.disk ≡ ok a) × (v.disk ≡ w.disk)
unfolding observe
observe_inv f w h = ground (arith, reading_inv f (next w) h, disk-next w)

pub disk-observe {ℓ} :
    {A : Type ℓ} (f : Disk → Outcome A) (w : World) → (observe f w).1.disk ≡ w.disk
unfolding observe
disk-observe f w = disk-reading f (next w) ∙ disk-next w

changing_inv :
    (f : Disk → Disk) (r : Fault × World) {u : Unit {0}} {v : World}
    → changing f r ≡ (ok u, v)
    → v.disk ≡ f r.1.disk
changing_inv f (fine, w) h = ground arith
changing_inv f (before, w) h = cc
changing_inv f (midway, w) h = cc
changing_inv f (after, w) h = cc

pub change_inv :
    (f : Disk → Disk) (w : World) {u : Unit {0}} {v : World}
    → change f w ≡ (ok u, v)
    → v.disk ≡ f w.disk
unfolding change
change_inv f w h = changing_inv f (next w) h ∙ ap f (disk-next w)

pub gets_inv {ℓ} :
    {A : Type ℓ} (f : Disk → A) (w : World) {a : A} {v : World}
    → gets f w ≡ (ok a, v)
    → (a ≡ f w.disk) × (v ≡ w)
unfolding gets
gets_inv f w h = ground arith

pub check_inv :
    (c : Bool) (e : String) (w : World) {u : Unit {0}} {v : World}
    → check c e w ≡ (ok u, v)
    → (c ≡ true) × (v ≡ w)
unfolding check
check_inv true e w h = ground arith
check_inv false e w h = cc

pub snapshot_inv :
    (host : Host) (p : String) (w : World) {s : ManagedFileSnapshot} {v : World}
    → Files.snapshot host p w ≡ (ok s, v)
    → (look host p w.disk ≡ ok s) × (v.disk ≡ w.disk)
unfolding Files.snapshot
snapshot_inv host p w h = observe_inv (look host p) w h

pub read_inv :
    (key : String) (w : World) {x : String} {v : World}
    → Values.read key w ≡ (ok x, v)
    → (look_value key w.disk ≡ ok x) × (v.disk ≡ w.disk)
unfolding Values.read
read_inv key w h = observe_inv (look_value key) w h

pub disk-checkpoint : (b : Option String) (w : World) → (checkpoint b w).1.disk ≡ w.disk
unfolding checkpoint
disk-checkpoint b w = ground (arith, disk-next w)

-- A snapshot carries the path that it was taken of.
pub path-look :
    (host : Host) (p : String) (d : Disk) {s : ManagedFileSnapshot}
    → look host p d ≡ ok s
    → s.relative_path ≡ p
unfolding look
path-look host p d h = ground arith
