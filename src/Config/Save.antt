-- ===== src/Config/Save.antt =====
-- lsmf/configuration.py `write_config_atomic` and `ConfigStore`. What the kernel answers during one
-- call is a record.
pub mod RoundTrip
pub mod Atomic
use lsmf.Base.{
  ℕ, String, Bool, true, false, not, List, [], ◌∷◌, ◌++◌, Option, none, some, if◌then◌else◌,
}
use lsmf.Base.Results.{Result, ok, err, ◌>>=◌, ◌>>◌, raise_if}
use lsmf.Base.Text.{codes}
use lsmf.Config.Values.{Text, text_eq, is_key, Digits, validate_value}
use lsmf.Config.Parse.{Settings, parse_config}

-- the loop that fills `normalized`, which has the entries of `values`
unfoldable pub check_settings : Digits → Settings → Result (Unit {0})
check_settings digits [] = ok tt
check_settings digits ((key, value) ∷ rest) = do
  raise_if (not (is_key key)) "Invalid configuration key"
  validate_value digits key value
  check_settings digits rest

-- `f'{key}="{value}"\n'`
abbrev pub line_of : Text → Text → Text
line_of key value = key ++ (b'=' ∷ b'"' ∷ (value ++ b'"' ∷ []))

abbrev pub header : Text
header = codes "# LSMF configuration. Parsed as data; never source this file."

unfoldable pub lines_text : Settings → Text
lines_text [] = []
lines_text ((key, value) ∷ rest) = line_of key value ++ (b'\n' ∷ lines_text rest)

-- what is written to the file
unfoldable pub render : Settings → Text
unfolding lines_text
render values = header ++ (b'\n' ∷ lines_text values)

-- The file and the temporary file, where they are there.
pub record Place : Type 0 where
  pub file : Option Text
  pub temporary : Option Text

-- The kernel's answers: to the directories, the old file's mode, the temporary file, the writes up
-- to `fsync` with what of the text is there if they fail, the mode, the replacement, and the
-- removal of the temporary file.
pub record Disk : Type 0 where
  pub mkdir : Result (Unit {0})
  pub old_mode : Result (Unit {0})
  pub mkstemp : Result (Unit {0})
  pub write : Result (Unit {0})
  pub partly : Text
  pub chmod : Result (Unit {0})
  pub replace : Result (Unit {0})
  pub unlink : Result (Unit {0})

-- `except BaseException: temporary_path.unlink(missing_ok=True); raise`
abbrev pub give_up : Disk → String → Place → Result (Unit {0}) × Place
give_up disk message p = elim disk.unlink [
  | ok _ ↦ (err message, record p { temporary = none })
  | err other ↦ (err other, p)
]

-- `os.replace(temporary_path, config_path)`
abbrev pub replaced : Disk → Place → Result (Unit {0}) × Place
replaced disk p = elim disk.replace [
  | ok _ ↦ (ok tt, record { file = p.temporary; temporary = none })
  | err message ↦ give_up disk message p
]

-- the block of `try`
abbrev pub written : Disk → Text → Place → Result (Unit {0}) × Place
written disk text p = elim disk.write [
  | ok _ ↦ elim disk.chmod [
    | ok _ ↦ replaced disk (record p { temporary = some text })
    | err message ↦ give_up disk message (record p { temporary = some text })
  ]
  | err message ↦ give_up disk message (record p { temporary = some disk.partly })
]

-- what is done before the block of `try`
abbrev pub prepared : Disk → Result (Unit {0})
prepared disk = do disk.mkdir; disk.old_mode; disk.mkstemp

abbrev pub or_write : Result (Unit {0}) → Disk → Text → Place → Result (Unit {0}) × Place
or_write (err message) disk text p = (err message, p)
or_write (ok _) disk text p = written disk text p

-- `write_config_atomic`
unfoldable pub write_config_atomic : Digits → Disk → Settings → Place → Result (Unit {0}) × Place
unfolding render
write_config_atomic digits disk values p =
    or_write (check_settings digits values >> prepared disk) disk (render values) p

-- `ConfigStore.load`
unfoldable pub load : Digits → Place → Result Settings
load digits p = elim p.file [ none ↦ ok [] | some content ↦ parse_config digits content ]

-- `ConfigStore.get`
unfoldable pub get : Settings → Text → Option Text
get [] key = none
get ((k, v) ∷ rest) key = if text_eq k key then some v else get rest key

-- `ConfigStore.get_bool`
unfoldable pub get_bool : Settings → Text → Bool → Bool
unfolding get
get_bool values key default = elim (get values key) [
  | none ↦ default
  | some value ↦ text_eq value (codes "true")
]

-- `self.config[key] = text_value`
unfoldable pub put : Settings → Text → Text → Settings
put [] key value = (key, value) ∷ []
put ((k, v) ∷ rest) key value =
    if text_eq k key then (k, value) ∷ rest else (k, v) ∷ put rest key value

-- `ConfigStore.set`, given the text of the value
unfoldable pub set : Digits → Settings → Text → Text → Result Settings
unfolding put
set digits values key value = do
  raise_if (not (is_key key)) "Invalid configuration key"
  validate_value digits key value
  ok (put values key value)
