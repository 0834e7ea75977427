-- ===== src/Sysctl/Proofs/Store.antt =====
-- The backup store: what its methods keep, and what they leave behind when they return.
use lsmf.Base.{
  String, ◌≡◌, ◌↔◌, refl, sym, ◌∙◌, ap, Bool, true, false, List, [], ◌∷◌, Option, none, some, arith,
  subst, str_eq, opt_eq, is_some, if◌then◌else◌, eq_iff,
}
use lsmf.Sysctl.Manifest.{ids_eq}
use lsmf.Sysctl.World.{
  ManagedFileSnapshot, TransactionSnapshot, Stored, damaged, intact, Marker, unusable, names, Disk,
  Host, World, Outcome, ok, raised, M, pure, gets, observe, change, attempt, ◌>>=◌, check,
}
use lsmf.Sysctl.Files.{file_eq_iff}
use lsmf.Sysctl.Backups.{
  load, look_backup, eligible, create, envelope_of, put_backup, required_backup_id,
  recovery_backup_id, put_marker, mark_recovery_required, snapshot_eq, named, pairs_eq, files_eq,
}
use lsmf.Sysctl.Proofs.Reads.{>>=-eq-ok, observe_inv, change_inv, gets_inv, check_inv}
use lsmf.Sysctl.Proofs.Frame.{
  Keeps, Keeps-attempt, Keeps-bind, Keeps-if, Keeps-pure, Keeps-check, Keeps-gets, Keeps-observe,
  Keeps-change,
}

module _ (host : Host) where
  module _ (P : Disk → Type 0) where
    pub load-Keeps : (i : String) → Keeps P (load host i)
    unfolding load
    load-Keeps i = Keeps-observe P (look_backup host i)

    pub eligible-Keeps : (i : String) (m : Option String) → Keeps P (eligible host i m)
    unfolding eligible
    eligible-Keeps i m =
        Keeps-attempt P (load host i) _ _ (load-Keeps i) (λ s. Keeps-pure P _)
          (λ e. Keeps-pure P false)

    pub required_backup_id-Keeps : Keeps P (required_backup_id host)
    unfolding required_backup_id
    required_backup_id-Keeps = Keeps-bind P _ _ (Keeps-observe P _) (λ i.
        Keeps-bind P _ _ (eligible-Keeps i none)
          (λ u. Keeps-bind P _ _ (Keeps-check P u _) (λ _. Keeps-pure P (some i))))

    pub recovery_backup_id-Keeps : Keeps P (recovery_backup_id host)
    unfolding recovery_backup_id
    recovery_backup_id-Keeps =
        Keeps-bind P _ _ (Keeps-gets P _)
          (λ c. Keeps-if P c _ _ required_backup_id-Keeps (Keeps-pure P none))

    -- `P` survives a change of what a backup directory holds, and of the marker.
    abbrev pub BackupClosed : String → Type 0
    BackupClosed i = (b : Stored) (d : Disk) → P d → P (put_backup host i b d)

    abbrev pub MarkerClosed : Type 0
    MarkerClosed = (m : Option Marker) (d : Disk) → P d → P (put_marker host m d)

    pub create-Keeps :
        (s : TransactionSnapshot) → BackupClosed s.backup_id → Keeps P (create host s)
    unfolding create
    create-Keeps s closed = Keeps-bind P _ _ (Keeps-check P _ _) (λ _.
        Keeps-bind P _ _ (Keeps-gets P _) (λ c. Keeps-bind P _ _ (Keeps-check P _ _) (λ _.
          Keeps-bind P _ _ (Keeps-change P _ (closed damaged)) (λ _.
            Keeps-bind P _ _ (Keeps-check P _ _) (λ _.
              Keeps-bind P _ _ (Keeps-change P _ (closed (intact (envelope_of host s))))
                (λ _. Keeps-bind P _ _ (load-Keeps s.backup_id) (λ l. Keeps-check P _ _)))))))

    pub mark-Keeps : (i : String) → MarkerClosed → Keeps P (mark_recovery_required host i)
    unfolding mark_recovery_required
    mark-Keeps i closed = Keeps-bind P _ _ (eligible-Keeps i none) (λ u.
        Keeps-bind P _ _ (Keeps-check P _ _) (λ _. Keeps-bind P _ _ recovery_backup_id-Keeps (λ c.
          Keeps-bind P _ _ (Keeps-check P _ _) (λ _.
            Keeps-if P _ _ _ (Keeps-pure P tt) (
              Keeps-bind P _ _ (Keeps-change P _ (closed _)) (λ _. Keeps-change P _ (closed _)))))))

  -- Without a signal of `P`, a call that keeps every property keeps the disk.
  pub same_disk {ℓ} :
      {A : Type ℓ} (m : M A) (w : World) → ((P : Disk → Type 0) → Keeps P m) → (m w).1.disk ≡ w.disk
  same_disk m w k = (k (λ d. d ≡ w.disk)).at w refl

ids_eq_iff : (xs ys : List String) → (ids_eq xs ys ≡ true) ↔ (xs ≡ ys)
ids_eq_iff [] [] = ground arith
ids_eq_iff [] (y ∷ ys) = ground arith
ids_eq_iff (x ∷ xs) [] = ground arith
ids_eq_iff (x ∷ xs) (y ∷ ys) = ground (arith, eq_iff x y, ids_eq_iff xs ys)

files_eq_iff : (xs ys : List ManagedFileSnapshot) → (files_eq xs ys ≡ true) ↔ (xs ≡ ys)
files_eq_iff [] [] = ground arith
files_eq_iff [] (y ∷ ys) = ground arith
files_eq_iff (x ∷ xs) [] = ground arith
files_eq_iff (x ∷ xs) (y ∷ ys) = ground (arith, file_eq_iff x y, files_eq_iff xs ys)

pairs_eq_iff : (xs ys : List (String × String)) → (pairs_eq xs ys ≡ true) ↔ (xs ≡ ys)
pairs_eq_iff [] [] = ground arith
pairs_eq_iff [] (y ∷ ys) = ground arith
pairs_eq_iff (x ∷ xs) [] = ground arith
pairs_eq_iff (x ∷ xs) (y ∷ ys) = ground (arith, eq_iff x.0 y.0, eq_iff x.1 y.1, pairs_eq_iff xs ys)

pub snapshot_eq_iff : (a b : TransactionSnapshot) → (snapshot_eq a b ≡ true) ↔ (a ≡ b)
unfolding snapshot_eq
snapshot_eq_iff a b = ground (
  arith,
  eq_iff a.backup_id b.backup_id,
  eq_iff a.manifest_digest b.manifest_digest,
  ids_eq_iff a.module_ids b.module_ids,
  files_eq_iff a.files b.files,
  pairs_eq_iff a.sysctls b.sysctls,
)

module _ (host : Host) where
  -- A usable backup stands under its ID.
  abbrev pub HasBackup : String → Disk → Type 0
  HasBackup i d = (s : TransactionSnapshot) × (look_backup host i d ≡ ok s)

  pub load_inv :
      (i : String) (w : World) {s : TransactionSnapshot} {v : World}
      → load host i w ≡ (ok s, v)
      → (look_backup host i w.disk ≡ ok s) × (v.disk ≡ w.disk)
  unfolding load
  load_inv i w h = observe_inv (look_backup host i) w h

  -- `create` returns only where the store then gives back the very snapshot.
  pub create_inv :
      (s : TransactionSnapshot) (w v : World)
      → create host s w ≡ (ok tt, v)
      → look_backup host s.backup_id v.disk ≡ ok s
  unfolding create
  create_inv s w v h =
      let (_, w₁, e₁, h₁) = >>=-eq-ok (check _ _) _ w h in
      let (_, w₂, e₂, h₂) = >>=-eq-ok (gets _) _ w₁ h₁ in
      let (_, w₃, e₃, h₃) = >>=-eq-ok (check _ _) _ w₂ h₂ in
      let (_, w₄, e₄, h₄) = >>=-eq-ok (change _) _ w₃ h₃ in
      let (_, w₅, e₅, h₅) = >>=-eq-ok (check _ _) _ w₄ h₄ in
      let (_, w₆, e₆, h₆) = >>=-eq-ok (change _) _ w₅ h₅ in
      let (l, w₇, e₇, h₇) = >>=-eq-ok (load host s.backup_id) _ w₆ h₆ in
      let (seen, still) = load_inv s.backup_id w₆ e₇ in
      let (same, last) = check_inv (snapshot_eq l s) _ w₇ h₇ in
      let on_disk : look_backup host s.backup_id w₇.disk ≡ ok l =
        subst (λ d. look_backup host s.backup_id d ≡ ok l) (sym still) seen in
      ground (arith, on_disk, last, snapshot_eq_iff l s)

  pub eligible_inv :
      (i : String) (m : Option String) (w : World) {b : Bool} {v : World}
      → eligible host i m w ≡ (ok b, v)
      → (v.disk ≡ w.disk) × (b ≡ true → HasBackup i w.disk)
  eligible_inv i m w {b} {v} h = (
    ap (λ (r : Outcome Bool × World). r.1.disk) (sym h)
        ∙ same_disk host _ w (λ P. eligible-Keeps host P i m),
    λ t. found t,
  )
    where
      go :
          (r : Outcome TransactionSnapshot × World)
          → load host i w ≡ r
          → (attempt r
              (λ s. pure (elim m [ none ↦ true | some d ↦ str_eq s.manifest_digest d ]))
              (λ _. pure false))
            ≡ (ok b, v)
          → b ≡ true
          → HasBackup i w.disk
      go (ok s, u) e h t = (s, (load_inv i w e).0)
      go (raised x, u) e h t = cc

      found : b ≡ true → HasBackup i w.disk
      found t = go (load host i w) refl (unfold eligible in h) t

  -- Where a recovery is required, the marker names a usable backup.
  abbrev pub Requires : Option String → Disk → Type 0
  Requires none d = d.marker ≡ none
  Requires (some i) d = (d.marker ≡ some (names i)) × HasBackup i d

  named_inv : (o : Option Marker) (i : String) → named host o ≡ ok i → o ≡ some (names i)
  named_inv none i h = cc
  named_inv (some unusable) i h = cc
  named_inv (some (names j)) i h = ground arith

  required_inv :
      (w : World) (o : Option String) (v : World)
      → required_backup_id host w ≡ (ok o, v)
      → Requires o w.disk
  unfolding required_backup_id
  required_inv w o v h =
      let (i, w₁, e₁, h₁) = >>=-eq-ok (observe _) _ w h in
      let (u, w₂, e₂, h₂) = >>=-eq-ok (eligible host i none) _ w₁ h₁ in
      let (_, w₃, e₃, h₃) = >>=-eq-ok (check _ _) _ w₂ h₂ in
      let (seen, still) = observe_inv (λ d. named host d.marker) w e₁ in
      let (_, found) = eligible_inv i none w₁ e₂ in
      let good : u ≡ true = (check_inv u _ w₂ e₃).0 in
      let same : some i ≡ o = ground arith in
      subst (λ o. Requires o w.disk) same
        (named_inv w.disk.marker i seen, subst (HasBackup i) still (found good))

  recovery_cases :
      (b : Bool) (w : World) (o : Option String) (v : World)
      → b ≡ is_some w.disk.marker
      → (if b then required_backup_id host else pure none) w ≡ (ok o, v)
      → Requires o w.disk
  recovery_cases true w o v e h = required_inv w o v h
  recovery_cases false w o v e h =
      let none_eq : none ≡ o = ground arith in
      let empty : w.disk.marker ≡ none = ground arith in
      subst (λ o. Requires o w.disk) none_eq empty

  pub recovery_inv :
      (w : World) (o : Option String) (v : World)
      → recovery_backup_id host w ≡ (ok o, v)
      → Requires o w.disk × (v.disk ≡ w.disk)
  unfolding recovery_backup_id
  recovery_inv w o v h =
      let (b, w₁, e₁, h₁) = >>=-eq-ok (gets _) _ w h in
      let (seen, same) = gets_inv (λ d. is_some d.marker) w e₁ in
      (
        recovery_cases b w o v seen
            (subst (λ u. (if b then required_backup_id host else pure none) u ≡ (ok o, v)) same h₁),
        ap (λ (r : Outcome (Option String) × World). r.1.disk) (sym h)
            ∙ same_disk host _ w (λ P. recovery_backup_id-Keeps host P),
      )

  write_marker_inv :
      (i : String) (w v : World)
      → (change (put_marker host (some unusable)) >>= λ _.
            change (put_marker host (some (names i))))
          w
        ≡ (ok tt, v)
      → v.disk.marker ≡ some (names i)
  write_marker_inv i w v h =
      let (_, w₁, e₁, h₁) = >>=-eq-ok (change _) _ w h in
      ap (λ (d : Disk). d.marker) (change_inv (put_marker host (some (names i))) w₁ h₁)

  mark_cases :
      (b : Bool) (i : String) (w v : World)
      → (b ≡ true → w.disk.marker ≡ some (names i))
      → (if b
            then pure tt
            else (change (put_marker host (some unusable)) >>= λ _.
                change (put_marker host (some (names i)))))
          w
        ≡ (ok tt, v)
      → v.disk.marker ≡ some (names i)
  mark_cases true i w v m h = ground (arith, m refl)
  mark_cases false i w v m h = write_marker_inv i w v h

  -- `mark_recovery_required` returns only where the marker then names the backup.
  pub mark_inv :
      (i : String) (w v : World)
      → mark_recovery_required host i w ≡ (ok tt, v)
      → v.disk.marker ≡ some (names i)
  unfolding mark_recovery_required
  mark_inv i w v h =
      let (u, w₁, e₁, h₁) = >>=-eq-ok (eligible host i none) _ w h in
      let (_, w₂, e₂, h₂) = >>=-eq-ok (check _ _) _ w₁ h₁ in
      let (c, w₃, e₃, h₃) = >>=-eq-ok (recovery_backup_id host) _ w₂ h₂ in
      let (_, w₄, e₄, h₄) = >>=-eq-ok (check _ _) _ w₃ h₃ in
      let (required, still) = recovery_inv w₂ c w₃ e₃ in
      let (_, last) = check_inv _ _ w₃ e₄ in
      mark_cases (opt_eq c (some i)) i w₄ v
        (λ t.
          ap (λ (x : World). x.disk.marker) last
          ∙ ap (λ (d : Disk). d.marker) still
          ∙ marker_of c i w₂.disk required t)
        h₄
    where
      marker_of :
          (c : Option String) (i : String) (d : Disk)
          → Requires c d
          → opt_eq c (some i) ≡ true
          → d.marker ≡ some (names i)
      marker_of none i d r t = cc
      marker_of (some j) i d r t = ground (arith, eq_iff j i, r.0)
