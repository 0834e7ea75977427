-- ===== src/Config/Legacy.antt =====
-- lsmf/configuration.py `parse_legacy_mixed`, on the text of the file, and the keys that it makes.
pub mod Keys
pub mod Migration
use lsmf.Base.{
  ℕ, ◌-◌, Bool, true, false, not, ◌&&◌, ◌||◌, List, [], ◌∷◌, ◌++◌, Option, none, some, ◌==◌,
  if◌then◌else◌, is_empty, any, drop, length,
}
use lsmf.Base.Results.{Result, ok, err, ◌>>=◌, ◌>>◌, raise_if}
use lsmf.Base.Text.{codes, is_lower, is_upper, is_digit}
use lsmf.Config.Values.{Text, text_eq, starts_with, Digits, validate_value}
use lsmf.Config.Lines.{universal, split_lines, strip}
use lsmf.Config.Parse.{Settings, has, is_comment}

-- one character of `[A-Za-z0-9]`
abbrev pub is_alphanumeric : ℕ → Bool
is_alphanumeric c = is_upper c || is_lower c || is_digit c

-- `re.sub(r"[^A-Za-z0-9]+", "_", value)`; the first argument says if a run is going on
abbrev pub collapse : Bool → Text → Text
collapse inside [] = []
collapse inside (c ∷ cs) =
    let kept = c ∷ collapse false cs in
    let rest = collapse true cs in
    if is_alphanumeric c then kept else if inside then rest else b'_' ∷ rest

-- `text.strip("_")`, which takes away a run at the start and at the end
abbrev pub trim_left : Text → Text
trim_left [] = []
trim_left (c ∷ cs) = let rest = trim_left cs in if c == b'_' then rest else c ∷ cs

abbrev pub trim_right : Text → Text
trim_right [] = []
trim_right (c ∷ cs) =
    let rest = trim_right cs in if is_empty rest && c == b'_' then [] else c ∷ rest

-- `text.upper()` of letters, digits and underscores of ASCII
abbrev pub upper : Text → Text
upper [] = []
upper (c ∷ cs) = (if is_lower c then c - 32 else c) ∷ upper cs

abbrev pub nonempty : Text → Result Text
nonempty [] = err "Configuration identifiers must contain a letter or digit"
nonempty (c ∷ cs) = ok (c ∷ cs)

-- `_identifier`
unfoldable pub identifier : Text → Result Text
identifier value = nonempty (upper (trim_right (trim_left (collapse false value))))

-- `module_key`
unfoldable pub module_key : Text → Result Text
module_key module_id = do
  id ← identifier module_id
  ok (codes "MODULE_" ++ (id ++ codes "_ENABLED"))

-- `feature_key`
unfoldable pub feature_key : Text → Text → Result Text
feature_key module_id feature_id = do
  owner ← identifier module_id
  feature ← identifier feature_id
  ok (codes "FEATURE_" ++ (owner ++ (b'_' ∷ feature)))

-- `text.removeprefix(prefix)`
abbrev pub remove_prefix : Text → Text → Text
remove_prefix prefix text = if starts_with prefix text then drop (length prefix) text else text

-- `text.removesuffix(suffix)`, of a suffix that is not empty
abbrev pub remove_suffix : Text → Text → Text
remove_suffix suffix [] = []
remove_suffix suffix (c ∷ cs) =
    let rest = remove_suffix suffix cs in if text_eq (c ∷ cs) suffix then [] else c ∷ rest

-- the canonical key of a key in a section, or in none
unfoldable pub canonical_key : Option Text → Text → Result Text
canonical_key none key = identifier key
canonical_key (some section) key =
    if text_eq key (codes "module_enabled")
    then module_key (remove_suffix (codes "_hardening") section)
    else if starts_with (codes "feature_") key
    then feature_key (remove_suffix (codes "_hardening") section)
        (remove_prefix (codes "feature_") key)
    else (do named ← identifier section; id ← identifier key; ok (named ++ (b'_' ∷ id)))

-- one character of `[A-Za-z0-9_]`
abbrev pub is_legacy_char : ℕ → Bool
is_legacy_char c = is_alphanumeric c || c == b'_'

-- `=(.*)` to the end of the line, behind a key that does not begin with a digit
abbrev pub legacy_value : Text → Text → Option (Text × Text)
legacy_value [] cs = none
legacy_value (k ∷ ks) [] = none
legacy_value (k ∷ ks) (c ∷ cs) =
    if c == b'=' && not (is_digit k) && not (any (λ d. d == b'\n') cs)
    then some (k ∷ ks, cs)
    else none

-- `LEGACY_ASSIGNMENT_PATTERN.fullmatch(line)`, with the characters of the key that were read
unfoldable pub legacy_assignment : Text → Text → Option (Text × Text)
legacy_assignment key [] = none
legacy_assignment key (c ∷ cs) =
    let rest = legacy_assignment (key ++ c ∷ []) cs in
    if is_legacy_char c then rest else legacy_value key (c ∷ cs)

-- `text[:-1]`
abbrev pub but_last : Text → Text
but_last [] = []
but_last (c ∷ []) = []
but_last (c ∷ cs) = c ∷ but_last cs

-- `text[-1] == c`
abbrev pub ends_with : ℕ → Text → Bool
ends_with c [] = false
ends_with c (d ∷ []) = d == c
ends_with c (d ∷ ds) = ends_with c ds

-- Quotes around a value are taken away.
abbrev pub unquote : Text → Text
unquote [] = []
unquote (c ∷ []) = c ∷ []
unquote (c ∷ cs) = if ends_with c cs && (c == b'"' || c == b'\'') then but_last cs else c ∷ cs

-- a line that opens a section, without its brackets
abbrev pub bracketed : Text → Option Text
bracketed [] = none
bracketed (c ∷ cs) = if c == b'[' && ends_with b']' cs then some (but_last cs) else none

-- the section that is open, and the settings so far
abbrev pub Progress : Type 0
Progress = Option Text × Settings

abbrev pub open_section : Text → Settings → Result Progress
open_section section values = do
  raise_if (is_empty section) "empty section"
  ok (some section, values)

abbrev pub migrate : Digits → Option Text → Settings → Option (Text × Text) → Result Progress
migrate digits section values none = err "invalid legacy line"
migrate digits section values (some (key, raw_value)) = do
  canonical ← canonical_key section key
  raise_if (has canonical values) "duplicate migrated key"
  validate_value digits canonical (unquote (strip raw_value))
  ok (section, values ++ (canonical, unquote (strip raw_value)) ∷ [])

abbrev pub section_or_assignment :
    Digits → Option Text → Settings → Text → Option Text → Result Progress
section_or_assignment digits section values line none =
    migrate digits section values (legacy_assignment [] line)
section_or_assignment digits section values line (some name) = open_section (strip name) values

-- one round of the loop, with the stripped line
unfoldable pub legacy_line : Digits → Progress → Text → Result Progress
legacy_line digits (section, values) line =
    if is_empty line || is_comment line
    then ok (section, values)
    else section_or_assignment digits section values line (bracketed line)

unfoldable pub legacy_lines : Digits → Progress → List Text → Result Progress
legacy_lines digits p [] = ok p
legacy_lines digits p (raw_line ∷ raw_lines) =
    legacy_line digits p (strip raw_line) >>= λ q. legacy_lines digits q raw_lines

-- `parse_legacy_mixed`, given the characters of the file
unfoldable pub parse_legacy_mixed : Digits → Text → Result Settings
parse_legacy_mixed digits content = do
  p ← legacy_lines digits (none, []) (split_lines [] (universal false content))
  ok (p.1)
