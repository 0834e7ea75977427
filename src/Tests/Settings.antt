-- ===== src/Tests/Settings.antt =====
-- Two settings, written and read again.
use lsmf.Base.{[], ◌∷◌, none, some, ◌≡◌, refl, ◌==◌}
use lsmf.Base.Results.{ok, err}
use lsmf.Base.Text.{codes}
use lsmf.Config.Values.{Digits, is_key, validate_value}
use lsmf.Config.Lines.{universal, split_lines, strip}
use lsmf.Config.Parse.{Settings, parse_config}
use lsmf.Config.Save.{Place, Disk, check_settings, render, write_config_atomic}
use lsmf.Config.Legacy.{
  parse_legacy_mixed, legacy_lines, legacy_line, legacy_assignment, canonical_key, module_key,
  identifier,
}
use lsmf.Config.Legacy.Migration.{parse_legacy_mixed-migrates}
use lsmf.Config.Save.RoundTrip.{parse_config-render}
use lsmf.Config.Save.Atomic.{IsAtomic, write_config-IsAtomic}

abbrev digits : Digits
digits = record { is_other_digit = λ c. c == 0xb2; other_value = λ c. none }

abbrev settings : Settings
settings =
    (codes "LOGGING_LEVEL", codes "DEBUG")
    ∷ (codes "BACKUP_RETENTION_DAYS", codes "30")
    ∷ (codes "MODULE_SSH_ENABLED", codes "true")
    ∷ []

accepted : check_settings digits settings ≡ ok tt
unfolding check_settings validate_value is_key
accepted = refl

parse_config-render_example : parse_config digits (render settings) ≡ ok settings
parse_config-render_example =
    parse_config-render digits settings accepted (refl, (refl, (refl, tt)))
      (refl, (refl, (refl, tt)))

-- the disk is full after a part of the text
abbrev full : Disk
full = record {
  mkdir = ok tt;
  old_mode = ok tt;
  mkstemp = ok tt;
  write = err "No space left on device";
  partly = codes "# LSMF";
  chmod = ok tt;
  replace = ok tt;
  unlink = ok tt;
}

abbrev saved : Place
saved = record { file = some (codes "DRY_RUN=\"true\"\n"); temporary = none }

write_config-IsAtomic_example :
    IsAtomic (render settings) saved (write_config_atomic digits full settings saved)
write_config-IsAtomic_example = write_config-IsAtomic digits full settings saved

-- A vertical tab is accepted in a value, and the file cannot be read again.
abbrev tabbed : Settings
tabbed = (codes "LABEL", b'a' ∷ 11 ∷ b'b' ∷ []) ∷ []

tab_accepted : check_settings digits tabbed ≡ ok tt
unfolding check_settings validate_value is_key
tab_accepted = refl

tab_unreadable : parse_config digits (render tabbed) ≡ err "invalid configuration line"
unfolding parse_config render universal split_lines
tab_unreadable = refl

-- A superscript two is a digit for `isdigit`, and none for `int`.
superscript :
    validate_value digits (codes "BACKUP_RETENTION_DAYS") (0xb2 ∷ [])
    ≡ err "invalid literal for int()"
unfolding validate_value
superscript = refl

abbrev migrated : Settings
migrated = (codes "DRY_RUN", codes "true") ∷ (codes "MODULE_SSH_ENABLED", codes "true") ∷ []

-- A section's suffix is taken away, and quotes around a value.
legacy_migrates :
    parse_legacy_mixed digits
      (codes "# old\nDRY_RUN=true\n\n[ssh_hardening]\r\n module_enabled='true'\n")
    ≡ ok migrated
unfolding parse_legacy_mixed legacy_lines legacy_line legacy_assignment canonical_key module_key
    identifier universal split_lines strip validate_value
legacy_migrates = refl

-- The key of a section that begins with a digit is none that can be written.
starts_with_digit_unwritten :
    (parse_legacy_mixed digits (codes "[2fa]\nmode=on\n")
      ≡ ok ((codes "2FA_MODE", codes "on") ∷ []))
    × (check_settings digits ((codes "2FA_MODE", codes "on") ∷ [])
        ≡ err "Invalid configuration key")
unfolding parse_legacy_mixed legacy_lines legacy_line legacy_assignment canonical_key module_key
    identifier universal split_lines strip validate_value check_settings is_key
starts_with_digit_unwritten = (refl, refl)

parse_legacy_mixed-migrates_example :
    (check_settings digits migrated ≡ ok tt) × (parse_config digits (render migrated) ≡ ok migrated)
parse_legacy_mixed-migrates_example =
    parse_legacy_mixed-migrates digits
      (codes "# old\nDRY_RUN=true\n\n[ssh_hardening]\r\n module_enabled='true'\n") migrated
      legacy_migrates refl
