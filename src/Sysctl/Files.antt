-- ===== src/Sysctl/Files.antt =====
-- lsmf/sysctl_transaction.py `RootedManagedFiles`, below a root that its constructor accepted.
use lsmf.Base.{
  ℕ, String, Bool, true, false, not, ◌&&◌, List, [], ◌∷◌, ◌≡◌, ◌↔◌, ltb, leb, ◌==◌, length, any,
  str_eq, eq_iff, arith, if◌then◌else◌,
}
use lsmf.Base.Text.{codes}
use lsmf.Sysctl.World.{
  Node, absent, regular, symlink, special, ManagedFileSnapshot, Disk, Host, failure, Outcome, ok,
  raised, M, pure, raise, attempt, check, gets, observe, change, ◌>>=◌, ◌>>◌,
}

abbrev pub max_file_bytes : ℕ
max_file_bytes = 65536

-- the parts of a path, between its slashes
abbrev pub parts_from : List ℕ → List ℕ → List (List ℕ)
parts_from part [] = part ∷ []
parts_from part (c ∷ cs) =
    let rest = parts_from [] cs in
    let longer = parts_from (snoc part c) cs in if c == b'/' then part ∷ rest else longer
  where
    snoc : List ℕ → ℕ → List ℕ
    snoc [] c = c ∷ []
    snoc (x ∷ xs) c = x ∷ snoc xs c

abbrev pub is_dot_dot : List ℕ → Bool
is_dot_dot (x ∷ y ∷ []) = x == b'.' && y == b'.'
is_dot_dot _ = false

abbrev is_absolute : List ℕ → Bool
is_absolute [] = false
is_absolute (c ∷ _) = c == b'/'

-- The test of `_path` on the text. `PurePosixPath` drops empty parts and `.`, so only `..` and a
-- leading slash are left to refuse.
unfoldable pub is_plain_path : String → Bool
is_plain_path relative =
    let cs = codes relative in not (is_absolute cs) && not (any is_dot_dot (parts_from [] cs))

-- `_path`: the text, then that every parent is a directory and no symbolic link
unfoldable pub path_ok : Host → String → Bool
path_ok host relative = is_plain_path relative && host.parents_safe relative

-- `Path.exists`, which follows a symbolic link
abbrev pub exists : Node → Bool
exists absent = false
exists (regular _ _ _ _) = true
exists (symlink target_exists) = target_exists
exists special = true

-- `path.is_symlink() or not path.is_file()`, where the path exists
abbrev pub changed_type : Node → Bool
changed_type (regular _ _ _ _) = false
changed_type _ = true

-- the body of `snapshot` on what the path holds
abbrev snapshot_node : Host → String → Node → Outcome ManagedFileSnapshot
snapshot_node host relative (regular mode uid gid content) =
    if not (uid == host.expected_uid)
    then raised (failure "managed target ownership or type is unsafe")
    else if ltb max_file_bytes (length content)
    then raised (failure "managed target exceeds its size limit")
    else ok (record {
      relative_path = relative;
      existed = true;
      mode = mode;
      uid = uid;
      gid = gid;
      content = content;
    })
snapshot_node host relative special = raised (failure "managed target ownership or type is unsafe")
snapshot_node host relative (symlink true) = raised (failure "managed target symlink is unsafe")
snapshot_node host relative _ = ok (record {
  relative_path = relative;
  existed = false;
  mode = 384;
  uid = host.expected_uid;
  gid = 0;
  content = [];
})

-- What `snapshot` sees of a disk when its system calls work.
unfoldable pub look : Host → String → Disk → Outcome ManagedFileSnapshot
unfolding path_ok
look host relative disk =
    if path_ok host relative
    then snapshot_node host relative (disk.nodes relative)
    else raised (failure "managed path is invalid")

-- `snapshot`
unfoldable pub snapshot : Host → String → M ManagedFileSnapshot
snapshot host relative = observe (look host relative)

abbrev pub put_node : String → Node → Disk → Disk
put_node relative node d = record d { nodes = λ p. if str_eq p relative then node else d.nodes p }

-- whether `os.open` with O_CREAT and O_EXCL may make a file there: a link to nowhere is refused too
abbrev is_free : Node → Bool
is_free absent = true
is_free _ = false

-- the `try` of `write`: the temporary file is made where there is none, written and flushed (one
-- step, all of the content or nothing), renamed to the target, and the directory is flushed
unfoldable pub place : Host → String → List ℕ → ℕ → M (Unit {0})
place host relative content mode = do
  node ← gets (λ d. d.nodes (host.temporary relative))
  check (is_free node) "FileExistsError"
  change (put_node (host.temporary relative) (regular (host.masked mode) host.euid host.egid []))
  change
      (put_node (host.temporary relative) (regular (host.masked mode) host.euid host.egid content))
  change (λ d.
      put_node (host.temporary relative) absent
        (put_node relative (d.nodes (host.temporary relative)) d))
  observe (λ d. ok tt)

-- its `except OSError`: the temporary file is unlinked, whoever made it, unless that fails too
unfoldable pub give_up : Host → String → M (Unit {0})
give_up host relative w =
    attempt (change (put_node (host.temporary relative) absent) w)
      (λ _. raise (failure "managed target write failed"))
      (λ _. raise (failure "managed target write failed"))

-- `write`, from the temporary file on
unfoldable pub replace : Host → String → List ℕ → ℕ → M (Unit {0})
unfolding place give_up
replace host relative content mode w =
    attempt (place host relative content mode w) pure (λ _. give_up host relative)

-- `write`
unfoldable pub write : Host → String → List ℕ → ℕ → M (Unit {0})
unfolding replace path_ok
write host relative content mode = do
  check (leb (length content) max_file_bytes && leb mode 511) "managed write is invalid"
  check (path_ok host relative) "managed path is invalid"
  node ← gets (λ d. d.nodes relative)
  check (not (exists node && changed_type node)) "managed target changed type"
  replace host relative content mode

-- `os.chown` and `os.chmod` on what the path holds
abbrev owned : ℕ → ℕ → Node → Node
owned uid gid (regular mode _ _ content) = regular mode uid gid content
owned uid gid node = node

abbrev moded : ℕ → Node → Node
moded mode (regular _ uid gid content) = regular mode uid gid content
moded mode node = node

unfoldable pub change_owner : String → ℕ → ℕ → M (Unit {0})
change_owner relative uid gid = change (λ d. put_node relative (owned uid gid (d.nodes relative)) d)

unfoldable pub change_mode : String → ℕ → M (Unit {0})
change_mode relative mode = change (λ d. put_node relative (moded mode (d.nodes relative)) d)

unfoldable pub unlink : String → M (Unit {0})
unlink relative = change (put_node relative absent)

-- the branch of `restore` on a target that should be absent
unfoldable pub remove : String → M (Unit {0})
unfolding unlink
remove relative = do
  node ← gets (λ d. d.nodes relative)
  if exists node
      then (do
        check (not (changed_type node)) "managed absent target changed type"
        unlink relative)
      else pure tt

-- `restore`
unfoldable pub restore : Host → ManagedFileSnapshot → M (Unit {0})
unfolding write change_owner change_mode remove
restore host s = do
  check (path_ok host s.relative_path) "managed path is invalid"
  if s.existed
      then (do
        write host s.relative_path s.content s.mode
        change_owner s.relative_path s.uid s.gid
        change_mode s.relative_path s.mode)
      else remove s.relative_path

abbrev pub bytes_eq : List ℕ → List ℕ → Bool
bytes_eq [] [] = true
bytes_eq (a ∷ xs) (b ∷ ys) = a == b && bytes_eq xs ys
bytes_eq _ _ = false

pub bytes_eq_iff : (xs ys : List ℕ) → (bytes_eq xs ys ≡ true) ↔ (xs ≡ ys)
bytes_eq_iff [] [] = ground arith
bytes_eq_iff [] (y ∷ ys) = ground arith
bytes_eq_iff (x ∷ xs) [] = ground arith
bytes_eq_iff (x ∷ xs) (y ∷ ys) = ground (arith, bytes_eq_iff xs ys)

abbrev bool_eq : Bool → Bool → Bool
bool_eq true b = b
bool_eq false b = not b

-- `==` of two snapshots
unfoldable pub file_eq : ManagedFileSnapshot → ManagedFileSnapshot → Bool
file_eq a b =
    str_eq a.relative_path b.relative_path
    && bool_eq a.existed b.existed
    && a.mode == b.mode
    && a.uid == b.uid
    && a.gid == b.gid
    && bytes_eq a.content b.content

pub file_eq_iff : (a b : ManagedFileSnapshot) → (file_eq a b ≡ true) ↔ (a ≡ b)
unfolding file_eq
file_eq_iff a b =
    ground (arith, eq_iff a.relative_path b.relative_path, bytes_eq_iff a.content b.content)
