-- ===== src/Config/Parse.antt =====
-- lsmf/configuration.py `parse_config`, on the text of the file.
use lsmf.Base.{
  Bool, false, ◌&&◌, ◌||◌, List, [], ◌∷◌, ◌++◌, Option, none, some, ◌==◌, if◌then◌else◌, is_empty,
}
use lsmf.Base.Results.{Result, ok, err, ◌>>=◌, ◌>>◌, raise_if}
use lsmf.Config.Values.{Text, text_eq, is_key_char, is_key, Digits, validate_value}
use lsmf.Config.Lines.{universal, split_lines, strip}

-- a dictionary of settings, in insertion order
abbrev pub Settings : Type 0
Settings = List (Text × Text)

-- `key in values`
abbrev pub has : Text → Settings → Bool
has key [] = false
has key ((k, _) ∷ rest) = text_eq k key || has key rest

-- `[^"\\]*"` to the end of the line
unfoldable pub quoted : Text → Option Text
quoted [] = none
quoted (c ∷ cs) =
    let rest = quoted cs in
    if c == b'"'
    then (if is_empty cs then some [] else none)
    else if c == b'\\'
    then none
    else elim rest [ none ↦ none | some value ↦ some (c ∷ value) ]

-- what stands behind the key
abbrev pub assigned : Text → Option Text
assigned [] = none
assigned (e ∷ []) = none
assigned (e ∷ q ∷ cs) = if e == b'=' && q == b'"' then quoted cs else none

abbrev pub with_key : Text → Option Text → Option (Text × Text)
with_key key none = none
with_key key (some value) = if is_key key then some (key, value) else none

-- `ASSIGNMENT_PATTERN.fullmatch(line)`, with the characters of the key that were read
unfoldable pub assignment : Text → Text → Option (Text × Text)
unfolding quoted is_key
assignment key [] = none
assignment key (c ∷ cs) =
    let rest = assignment (key ++ c ∷ []) cs in
    if is_key_char c then rest else with_key key (assigned (c ∷ cs))

-- `line.startswith("#")`
abbrev pub is_comment : Text → Bool
is_comment [] = false
is_comment (c ∷ _) = c == b'#'

abbrev pub store_assignment : Digits → Settings → Option (Text × Text) → Result Settings
store_assignment digits values none = err "invalid configuration line"
store_assignment digits values (some (key, value)) = do
  raise_if (has key values) "duplicate key"
  validate_value digits key value
  ok (values ++ (key, value) ∷ [])

-- one round of the loop, with the stripped line
unfoldable pub parse_line : Digits → Settings → Text → Result Settings
unfolding assignment
parse_line digits values line =
    if is_empty line || is_comment line
    then ok values
    else store_assignment digits values (assignment [] line)

unfoldable pub parse_lines : Digits → Settings → List Text → Result Settings
unfolding parse_line strip
parse_lines digits values [] = ok values
parse_lines digits values (raw_line ∷ raw_lines) =
    parse_line digits values (strip raw_line) >>= λ v. parse_lines digits v raw_lines

-- `parse_config`, given the characters of the file
unfoldable pub parse_config : Digits → Text → Result Settings
unfolding parse_lines
parse_config digits content = parse_lines digits [] (split_lines [] (universal false content))
