-- ===== src/Sysctl/Manifest/Checks.antt =====
-- lsmf/sysctl_manifest.py: the regular expressions, `_module_id`, `_module_sequence`, `_relative_target`
-- and the policy of several modules.
use lsmf.Base.{
  ℕ, suc, String, Bool, true, false, not, ◌&&◌, ◌||◌, List, [], ◌∷◌, Option, some, ltb, leb, ◌==◌,
  if◌then◌else◌, length, is_empty, any,
}
use lsmf.Base.Results.{Result, ok, err, ◌>>=◌, ◌>>◌, raise_if}
use lsmf.Base.Dict.{distinct}
use lsmf.Base.Text.{codes, is_lower, is_word, is_digit, headed}
use lsmf.Privileged.Models.{bytes_of, has_nul}
use lsmf.Protocol.Json.{Json, Items}
use lsmf.Sysctl.Files.{parts_from, is_dot_dot}
use lsmf.Sysctl.Manifest.{ids_eq}

-- `_MODULE_ID.fullmatch`
abbrev pub is_module_id : String → Bool
is_module_id s = headed is_lower is_word 63 (codes s)

-- `_VALUE.fullmatch`
abbrev pub is_value : Bool → List ℕ → Bool
is_value fresh [] = not fresh
is_value fresh (c ∷ cs) =
    let rest = is_value (not (is_digit c)) cs in (is_digit c || (c == b' ' && not fresh)) && rest

abbrev pub non_rollbackable_keys : List String
non_rollbackable_keys = "kernel.kexec_load_disabled" ∷ "kernel.unprivileged_bpf_disabled" ∷ []

abbrev pub count_items : Items → ℕ
count_items Items.nil = 0
count_items (Items.cons _ rest) = suc (count_items rest)

-- a list that is not empty and has no more than `MAX_MODULES` items
abbrev pub is_bounded : Items → Bool
is_bounded items = let n = count_items items in ltb 0 n && leb n 8

-- the IDs of an array, by `_module_id`
abbrev pub module_ids_of : Items → Result (List String)
module_ids_of Items.nil = ok []
module_ids_of (Items.cons (Json.str s) rest) = do
  raise_if (not (is_module_id s)) "module ID is invalid"
  ids ← module_ids_of rest
  ok (s ∷ ids)
module_ids_of (Items.cons _ rest) = err "module ID is invalid"

-- `_module_sequence`
unfoldable pub module_sequence : Bool → Option Json → Result (List String)
module_sequence allow_single (some (Json.arr items)) = do
  raise_if (not (is_bounded items)) "module sequence is invalid"
  ids ← module_ids_of items
  raise_if (not (distinct ids) || (not allow_single && ltb (length ids) 2))
      "module sequence contains duplicates or is too short"
  ok ids
module_sequence allow_single _ = err "module sequence is invalid"

-- the sequences of `multi_apply`
abbrev pub sequences_of : Items → Result (List (List String))
sequences_of Items.nil = ok []
sequences_of (Items.cons v rest) = do
  ids ← module_sequence false (some v)
  others ← sequences_of rest
  ok (ids ∷ others)

-- `len(set(xs)) == len(xs)` of tuples
abbrev pub distinct_ids : List (List String) → Bool
distinct_ids [] = true
distinct_ids (ids ∷ rest) = not (any (ids_eq ids) rest) && distinct_ids rest

unfoldable pub multi_sequences : Option Json → Result (List (List String))
multi_sequences (some (Json.arr items)) = do
  raise_if (not (is_bounded items)) "multi-apply policy is invalid"
  multi ← sequences_of items
  raise_if (not (distinct_ids multi)) "multi-apply policy contains duplicates"
  ok multi
multi_sequences _ = err "multi-apply policy is invalid"

-- `text.startswith(prefix)`
abbrev pub starts_with : List ℕ → List ℕ → Bool
starts_with [] cs = true
starts_with (p ∷ ps) [] = false
starts_with (p ∷ ps) (c ∷ cs) = p == c && starts_with ps cs

abbrev pub is_dot : List ℕ → Bool
is_dot (c ∷ []) = c == b'.'
is_dot _ = false

-- `PurePosixPath(value).parts` of a relative path, which have no empty piece and no single dot
abbrev pub kept_parts : List (List ℕ) → List (List ℕ)
kept_parts [] = []
kept_parts (piece ∷ rest) =
    let others = kept_parts rest in
    if is_empty piece || is_dot piece then others else piece ∷ others

abbrev pub parts : List ℕ → List (List ℕ)
parts cs = kept_parts (parts_from [] cs)

-- `path.suffix == ".conf"` of a name: it ends so, and has something before
abbrev pub is_conf : List ℕ → Bool
is_conf [] = false
is_conf (c ∷ cs) =
    let rest = is_conf cs in (starts_with (codes ".conf") cs && leb (length cs) 5) || rest

abbrev pub last_is_conf : List (List ℕ) → Bool
last_is_conf [] = false
last_is_conf (name ∷ []) = is_conf name
last_is_conf (name ∷ rest) = last_is_conf rest

-- `_relative_target`
unfoldable pub check_target : String → Result String
check_target value = do
  raise_if (is_empty (codes value) || has_nul value) "relative target is invalid"
  raise_if (starts_with (codes "/") (codes value) || any is_dot_dot (parts (codes value)))
      "relative target must be canonical"
  raise_if
      (not (starts_with (codes "etc/sysctl.d/") (codes value))
        || not (last_is_conf (parts (codes value))))
      "sysctl target is outside the fixed drop-in directory"
  raise_if (ltb 256 (bytes_of value)) "relative target exceeds its size limit"
  ok value

abbrev pub target_of : Option Json → Result String
target_of (some (Json.str s)) = check_target s
target_of _ = err "relative target is invalid"
