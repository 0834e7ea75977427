-- ===== src/Config/Values.antt =====
-- lsmf/configuration.py: keys and values, `validate_value`. A text is the list of its code points.
use lsmf.Base.{
  ℕ, ◌+◌, Bool, true, false, not, ◌&&◌, ◌||◌, List, [], ◌∷◌, Option, none, some, ltb, ◌==◌,
  if◌then◌else◌, any, all, is_empty,
}
use lsmf.Base.Results.{Result, ok, err, ◌>>◌, raise_if}
use lsmf.Base.Text.{codes, is_upper, is_digit}
use Prim.Native.Nat.{◌*◌, ◌-◌}

abbrev pub Text : Type 0
Text = List ℕ

-- `==` of two texts
abbrev pub text_eq : Text → Text → Bool
text_eq [] [] = true
text_eq [] (d ∷ ds) = false
text_eq (c ∷ cs) [] = false
text_eq (c ∷ cs) (d ∷ ds) = c == d && text_eq cs ds

-- `text in texts`
abbrev pub among : Text → List Text → Bool
among t texts = any (λ u. text_eq u t) texts

-- `text.startswith(prefix)`
abbrev pub starts_with : Text → Text → Bool
starts_with [] text = true
starts_with (p ∷ ps) [] = false
starts_with (p ∷ ps) (c ∷ cs) = p == c && starts_with ps cs

-- one character of `[A-Z0-9_]`
abbrev pub is_key_char : ℕ → Bool
is_key_char c = is_upper c || is_digit c || c == b'_'

-- `KEY_PATTERN.fullmatch`
unfoldable pub is_key : Text → Bool
is_key [] = false
is_key (c ∷ cs) = is_upper c && all is_key_char cs

-- `BOOLEAN_KEYS`
abbrev boolean_keys : List Text
boolean_keys =
    codes "AUTOMATIC_UPDATES"
    ∷ codes "BACKUP_ENABLED"
    ∷ codes "CIS_COMPLIANCE_CHECK"
    ∷ codes "DISABLE_IPV6"
    ∷ codes "DRY_RUN"
    ∷ codes "FIREWALL_ENABLED"
    ∷ codes "INTERACTIVE_MODE"
    ∷ codes "KERNEL_HARDENING"
    ∷ codes "LOGGING_VERBOSE"
    ∷ codes "NETWORK_HARDENING"
    ∷ codes "ROLLBACK_ENABLED"
    ∷ codes "SSH_HARDENING"
    ∷ []

-- `ENUMS.get(key)`
unfoldable pub enum_values : Text → Option (List Text)
enum_values key =
    if text_eq key (codes "LOGGING_LEVEL")
    then some (codes "DEBUG" ∷ codes "INFO" ∷ codes "WARNING" ∷ codes "ERROR" ∷ [])
    else if text_eq key (codes "MAC_SYSTEM")
    then some (codes "auto" ∷ codes "apparmor" ∷ codes "selinux" ∷ codes "none" ∷ [])
    else if text_eq key (codes "SYSTEM_ROLE")
    then some (codes "auto" ∷ codes "desktop" ∷ codes "server" ∷ [])
    else none

-- Unicode's digits beyond ASCII: the characters that `str.isdigit` takes, and the value of those
-- that `int` takes.
pub record Digits : Type 0 where
  pub is_other_digit : ℕ → Bool
  pub other_value : ℕ → Option ℕ

-- the value of a digit, for `int`
abbrev digit_value : Digits → ℕ → Option ℕ
digit_value digits c = if is_digit c then some (c - b'0') else digits.other_value c

abbrev next_value : ℕ → Option ℕ → Option ℕ
next_value value none = none
next_value value (some d) = some (value * 10 + d)

abbrev then_value : Option ℕ → (ℕ → Option ℕ) → Option ℕ
then_value none rest = none
then_value (some value) rest = rest value

-- `int(value)` of a text of digits; `none` is a ValueError
unfoldable pub number_of : Digits → ℕ → Text → Option ℕ
number_of digits value [] = some value
number_of digits value (c ∷ cs) =
    then_value (next_value value (digit_value digits c)) λ v. number_of digits v cs

-- `value.isdigit()`
abbrev pub all_digits : Digits → Text → Bool
all_digits digits value =
    not (is_empty value) && all (λ c. is_digit c || digits.is_other_digit c) value

-- `any(character in value for character in ('"', "\\", "\n", "\r"))`
abbrev pub is_forbidden : ℕ → Bool
is_forbidden c = c == b'"' || c == b'\\' || c == b'\n' || c == b'\r'

abbrev at_least_one : Option ℕ → Result (Unit {0})
at_least_one none = err "invalid literal for int()"
at_least_one (some n) = raise_if (ltb n 1) "BACKUP_RETENTION_DAYS must be a positive integer"

abbrev check_enum : Option (List Text) → Text → Result (Unit {0})
check_enum none value = ok tt
check_enum (some allowed) value =
    raise_if (not (among value allowed)) "value must be one of the allowed"

abbrev check_retention : Digits → Text → Result (Unit {0})
check_retention digits value = do
  raise_if (not (all_digits digits value)) "BACKUP_RETENTION_DAYS must be a positive integer"
  at_least_one (number_of digits 0 value)

-- a key whose value is true or false
abbrev pub is_boolean_key : Text → Bool
is_boolean_key key =
    among key boolean_keys
    || starts_with (codes "MODULE_") key
    || starts_with (codes "FEATURE_") key

-- the chain of `if`s on the key
abbrev check_value : Digits → Text → Text → Result (Unit {0})
check_value digits key value =
    if is_boolean_key key
    then raise_if (not (among value (codes "true" ∷ codes "false" ∷ [])))
        "value must be true or false"
    else if text_eq key (codes "BACKUP_RETENTION_DAYS")
    then check_retention digits value
    else check_enum (enum_values key) value

-- `validate_value`; the messages are kept without the key
unfoldable pub validate_value : Digits → Text → Text → Result (Unit {0})
unfolding number_of enum_values
validate_value digits key value = do
  raise_if (any is_forbidden value) "value contains a forbidden quote, backslash, or newline"
  check_value digits key value
