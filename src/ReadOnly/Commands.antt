-- ===== src/ReadOnly/Commands.antt =====
-- lsmf/read_only_process.py `_command` and `__init__`: the commands that an executor is built with.
-- The checks of the time-outs, which are floats, are left out.
use Prim.Native.Char.{code}
use lsmf.Base.{ℕ, String, Bool, false, not, ◌||◌, List, [], ◌∷◌, ◌==◌, any, is_empty}
use lsmf.Base.Results.{Result, ok, err, ◌>>=◌, ◌>>◌, raise_if}
use lsmf.Base.Dict.{Dict, insert}
use lsmf.Base.Text.{codes}
use lsmf.Privileged.Models.{has_nul}
use lsmf.Sysctl.Manifest.Checks.{is_module_id}
use lsmf.ReadOnly.Results.{Commands}

-- An executable, once its links are followed.
pub record Executable : Type 0 where
  pub path : String
  pub is_regular : Bool
  pub uid : ℕ
  pub written_by_others : Bool
  pub is_executable : Bool

abbrev is_absolute : String → Bool
is_absolute String.[] = false
is_absolute (String.◌∷◌ c s) = code c == b'/'

module _ (resolve : String → Result Executable) (expected_uid : ℕ) where
  abbrev resolved : String → List String → Result (List String)
  resolved name arguments = do
    executable ← resolve name
    raise_if
        (not executable.is_regular
          || not (executable.uid == expected_uid)
          || executable.written_by_others
          || not executable.is_executable)
        "read-only command executable ownership or mode is unsafe"
    ok (executable.path ∷ arguments)

  -- `_command`
  unfoldable pub command : List String → Result (List String)
  command [] = err "read-only command is invalid"
  command (name ∷ arguments) = do
    raise_if
        (any (λ item. is_empty (codes item) || has_nul item) (name ∷ arguments)
          || not (is_absolute name))
        "read-only command is invalid"
    resolved name arguments

  -- the loop over `verification_commands`
  unfoldable pub verifications :
      Dict (List String) → Dict (List String) → Result (Dict (List String))
  verifications commands [] = ok commands
  verifications commands ((module_id, words) ∷ rest) = do
    raise_if (not (is_module_id module_id)) "verification module ID is invalid"
    checked ← command words
    verifications (insert module_id checked commands) rest

  -- `__init__`
  unfoldable pub new_commands : List String → Dict (List String) → Result Commands
  new_commands audit_command verification_commands = do
    commands ← verifications [] verification_commands
    raise_if (is_empty commands) "one or more verification commands are required"
    audit ← command audit_command
    ok (record { audit_command = audit; verification_commands = commands })
