-- ===== src/Sysctl/Values.antt =====
-- lsmf/sysctl_transaction.py `ProcSysctlValues` and `_canonical_sysctl_value`. A value is the text
-- that a read returns: ASCII, with the white space at its ends gone.
use lsmf.Base.{
  ℕ, String, Bool, true, false, ◌&&◌, ◌||◌, List, [], ◌∷◌, none, some, ltb, leb, ◌==◌, length,
  str_eq, is_some, if◌then◌else◌,
}
use lsmf.Base.Text.{codes, is_lower, is_word}
use lsmf.Sysctl.World.{
  Disk, Host, failure, Outcome, ok, raised, M, check, gets, observe, change, ◌>>=◌, ◌>>◌,
}
use lsmf.Sysctl.Files.{bytes_eq}

-- ASCII white space, as `str.split` has it
abbrev is_space : ℕ → Bool
is_space c = (leb 9 c && leb c 13) || (leb 28 c && leb c 32)

-- The words of a text, joined by single spaces. `started` says if a word stands before the rest,
-- and `gap` if white space followed it.
abbrev join_words : Bool → Bool → List ℕ → List ℕ
join_words started gap [] = []
join_words started gap (c ∷ cs) =
    let rest = join_words started true cs in
    let after_gap = 32 ∷ c ∷ join_words true false cs in
    let plain = c ∷ join_words true false cs in
    if is_space c then rest else if started && gap then after_gap else plain

-- `_canonical_sysctl_value`, as code points
unfoldable pub canonical_sysctl_value : String → List ℕ
canonical_sysctl_value value = join_words false false (codes value)

-- `canonical(a) != canonical(b)`, the other way round
abbrev pub same_value : String → String → Bool
same_value a b = bytes_eq (canonical_sysctl_value a) (canonical_sysctl_value b)

-- `canonical(a) == desired`
abbrev pub is_value : String → String → Bool
is_value a desired = bytes_eq (canonical_sysctl_value a) (codes desired)

-- `[a-z0-9_]+(\.[a-z0-9_]+)*` after a first character; `part` says if the last part is not empty
abbrev key_rest : Bool → Bool → List ℕ → Bool
key_rest dotted part [] = dotted && part
key_rest dotted part (c ∷ cs) =
    let next_part = key_rest true false cs in
    let same_part = key_rest dotted true cs in
    if c == b'.' then part && next_part else is_word c && same_part

-- `[a-z][a-z0-9_]*(?:\.[a-z0-9_]+)+`, over the whole text
unfoldable pub is_sysctl_key : String → Bool
is_sysctl_key key = go (codes key)
  where
    go : List ℕ → Bool
    go [] = false
    go (c ∷ cs) = is_lower c && key_rest false true cs

-- What `read` sees of a disk when its system calls work.
unfoldable pub look_value : String → Disk → Outcome String
look_value key disk =
    if is_sysctl_key key
    then elim (disk.sysctls key) [
      | none ↦ raised (failure "sysctl read failed")
      | some value ↦
          if ltb 1024 (length (codes value))
          then raised (failure "sysctl value exceeds its size limit")
          else ok value
    ]
    else raised (failure "sysctl key is invalid")

-- `read`
unfoldable pub read : String → M String
read key = observe (look_value key)

abbrev pub put_value : String → String → Disk → Disk
put_value key value d = record d { sysctls = λ k. if str_eq k key then some value else d.sysctls k }

-- `write`: the kernel decides what the value reads as afterwards
unfoldable pub write : Host → String → String → M (Unit {0})
write host key value = do
  check (is_sysctl_key key) "sysctl key is invalid"
  current ← gets (λ d. d.sysctls key)
  check (is_some current) "sysctl write failed"
  change (put_value key (host.settles key value))
