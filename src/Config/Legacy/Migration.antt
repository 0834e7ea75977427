-- ===== src/Config/Legacy/Migration.antt =====
-- Migrated settings can be written and read in the new format.
use lsmf.Base.{
  String, ℕ, Bool, true, false, not, ◌&&◌, ◌||◌, List, [], ◌∷◌, ◌++◌, Option, none, some, ◌==◌, ◌≡◌,
  refl, sym, ap, subst, arith, is_empty, any, All, append_assoc, append-nil, Bool-cases, inl, inr,
  if_intro,
}
use lsmf.Base.Results.{Result, ok, raise_if, >>=-eq-ok, ok-injectivity}
use lsmf.Base.Text.{is_digit}
use lsmf.Config.Values.{Text, is_key, Digits, validate_value}
use lsmf.Config.Lines.{universal, split_lines, is_break, strip, strip_left, strip_right}
use lsmf.Config.Parse.{Settings, has, is_comment, parse_config}
use lsmf.Config.Save.{check_settings, render}
use lsmf.Config.Save.RoundTrip.{unbroken, IsFresh, IsDictionary, parse_config-render}
use lsmf.Config.Legacy.{
  canonical_key, legacy_value, is_legacy_char, section_or_assignment, legacy_assignment, but_last,
  unquote, bracketed, Progress, open_section, migrate, legacy_line, legacy_lines,
  parse_legacy_mixed,
}
use lsmf.Config.Legacy.Keys.{is_name, starts_with_digit, canonical_key-name, name-key}

unbroken-append_last :
    (line : Text) (c : ℕ)
    → unbroken line ≡ true
    → is_break c ≡ false
    → unbroken (line ++ c ∷ []) ≡ true
unbroken-append_last [] c h k = ground arith
unbroken-append_last (d ∷ line) c h k = ground (arith, unbroken-append_last line c)

-- Lines have no character at which one would end.
split_lines-unbroken :
    (line text : Text) → unbroken line ≡ true → All (λ l. unbroken l ≡ true) (split_lines line text)
unfolding split_lines
split_lines-unbroken line [] h =
    if_intro (λ (ls : List Text). All (λ l. unbroken l ≡ true) ls) (is_empty line) (λ _. tt)
      (λ _. (h, tt))
split_lines-unbroken line (c ∷ cs) h = elim (Bool-cases (is_break c)) [
  | inl ends ↦ rw ends (h, split_lines-unbroken [] cs refl)
  | inr goes ↦
      rw goes (split_lines-unbroken (line ++ c ∷ []) cs (unbroken-append_last line c h goes))
]

strip_left-unbroken : (text : Text) → unbroken text ≡ true → unbroken (strip_left text) ≡ true
unfolding strip_left
strip_left-unbroken [] h = refl
strip_left-unbroken (c ∷ cs) h = ground (arith, strip_left-unbroken cs)

strip_right-unbroken : (text : Text) → unbroken text ≡ true → unbroken (strip_right text) ≡ true
unfolding strip_right
strip_right-unbroken [] h = refl
strip_right-unbroken (c ∷ cs) h = ground (arith, strip_right-unbroken cs)

strip-unbroken : (text : Text) → unbroken text ≡ true → unbroken (strip text) ≡ true
unfolding strip
strip-unbroken text h = strip_right-unbroken (strip_left text) (strip_left-unbroken text h)

but_last-unbroken : (text : Text) → unbroken text ≡ true → unbroken (but_last text) ≡ true
but_last-unbroken [] h = refl
but_last-unbroken (c ∷ []) h = refl
but_last-unbroken (c ∷ d ∷ cs) h = ground (arith, but_last-unbroken (d ∷ cs))

unquote-unbroken : (text : Text) → unbroken text ≡ true → unbroken (unquote text) ≡ true
unquote-unbroken [] h = refl
unquote-unbroken (c ∷ []) h = h
unquote-unbroken (c ∷ d ∷ cs) h = ground (arith, but_last-unbroken (d ∷ cs))

abbrev value_or_empty : Option (Text × Text) → Text
value_or_empty none = []
value_or_empty (some (key, value)) = value

legacy_value-unbroken :
    (key line k v : Text)
    → unbroken line ≡ true
    → legacy_value key line ≡ some (k, v)
    → unbroken v ≡ true
legacy_value-unbroken [] line k v h = λ e. cc
legacy_value-unbroken (c ∷ key) [] k v h = λ e. cc
legacy_value-unbroken (c ∷ key) (d ∷ cs) k v h =
    if_intro (λ (o : Option (Text × Text)). o ≡ some (k, v) → unbroken v ≡ true)
      (d == b'=' && not (is_digit c) && not (any (λ x. x == b'\n') cs))
      (λ _ e. subst (λ t. unbroken t ≡ true) (ap value_or_empty e) (ground (arith, h))) (λ _ e. cc)

legacy_assignment-unbroken :
    (key line k v : Text)
    → unbroken line ≡ true
    → legacy_assignment key line ≡ some (k, v)
    → unbroken v ≡ true
unfolding legacy_assignment
legacy_assignment-unbroken key [] k v h = λ e. cc
legacy_assignment-unbroken key (c ∷ cs) k v h =
    if_intro (λ (o : Option (Text × Text)). o ≡ some (k, v) → unbroken v ≡ true) (is_legacy_char c)
      (λ _. legacy_assignment-unbroken (key ++ c ∷ []) cs k v (ground (arith, h)))
      (λ _. legacy_value-unbroken key (c ∷ cs) k v h)

-- What the settings are after any number of lines: names that are checked with their values, in
-- which no line ends, and none of them twice.
abbrev IsEntry : Digits → Text × Text → Type 0
IsEntry digits (key, value) =
    (is_name key ≡ true) × (validate_value digits key value ≡ ok tt) × (unbroken value ≡ true)

abbrev IsMigrated : Digits → Settings → Type 0
IsMigrated digits values = All (IsEntry digits) values × IsDictionary values

IsFresh-append_last :
    (before values : Settings) (key value : Text)
    → IsFresh before values
    → has key (before ++ values) ≡ false
    → IsFresh before (values ++ (key, value) ∷ [])
IsFresh-append_last before [] key value h new =
    (subst (λ (b : Settings). has key b ≡ false) (append-nil before) new, tt)
IsFresh-append_last before ((k, v) ∷ rest) key value h new = (
  h.0,
  IsFresh-append_last (before ++ (k, v) ∷ []) rest key value h.1 (
      subst (λ (b : Settings). has key b ≡ false) (sym (append_assoc before ((k, v) ∷ []) rest))
        new),
)

All-append_last :
    (digits : Digits) (values : Settings) (key value : Text)
    → All (IsEntry digits) values
    → IsEntry digits (key, value)
    → All (IsEntry digits) (values ++ (key, value) ∷ [])
All-append_last digits [] key value h e = (e, tt)
All-append_last digits (entry ∷ values) key value h e =
    (h.0, All-append_last digits values key value h.1 e)

raise_if-ok : (test : Bool) (message : String) → raise_if test message ≡ ok tt → test ≡ false
raise_if-ok true message h = cc
raise_if-ok false message h = refl

migrate-IsMigrated :
    (digits : Digits) (section : Option Text) (values : Settings) (line : Text)
    (assigned : Option (Text × Text)) (p : Progress)
    → IsMigrated digits values
    → unbroken line ≡ true
    → legacy_assignment [] line ≡ assigned
    → migrate digits section values assigned ≡ ok p
    → IsMigrated digits p.1
migrate-IsMigrated digits section values line none p h whole e built = cc
migrate-IsMigrated digits section values line (some (key, raw_value)) p h whole e built =
    let (canonical, named, b₁) = >>=-eq-ok (canonical_key section key) _ built in
    let (_, new, b₂) = >>=-eq-ok (raise_if (has canonical values) "duplicate migrated key") _ b₁ in
    let value = unquote (strip raw_value) in
    let (_, valid, b₃) = >>=-eq-ok (validate_value digits canonical value) _ b₂ in
    let clean : unbroken value ≡ true =
      unquote-unbroken (strip raw_value)
        (strip-unbroken raw_value (legacy_assignment-unbroken [] line key raw_value whole e)) in
    subst (λ (q : Progress). IsMigrated digits q.1)
      {x = (section, values ++ (canonical, value) ∷ [])} (ok-injectivity b₃)
      (
        All-append_last digits values canonical value h.0
            (canonical_key-name section key canonical named, valid, clean),
        IsFresh-append_last [] values canonical value h.1 (raise_if-ok _ _ new),
      )

open_section-IsMigrated :
    (digits : Digits) (section : Text) (values : Settings) (p : Progress)
    → IsMigrated digits values
    → open_section section values ≡ ok p
    → IsMigrated digits p.1
open_section-IsMigrated digits section values p h built =
    let (_, _, b) = >>=-eq-ok (raise_if (is_empty section) "empty section") _ built in
    subst (λ (q : Progress). IsMigrated digits q.1) {x = (some section, values)} (ok-injectivity b)
      h

section_or_assignment-IsMigrated :
    (digits : Digits) (section : Option Text) (values : Settings) (line : Text) (name : Option Text)
    (p : Progress)
    → IsMigrated digits values
    → unbroken line ≡ true
    → section_or_assignment digits section values line name ≡ ok p
    → IsMigrated digits p.1
section_or_assignment-IsMigrated digits section values line none p h whole =
    migrate-IsMigrated digits section values line (legacy_assignment [] line) p h whole refl
section_or_assignment-IsMigrated digits section values line (some name) p h whole =
    open_section-IsMigrated digits (strip name) values p h

legacy_line-IsMigrated :
    (digits : Digits) (section : Option Text) (values : Settings) (line : Text) (p : Progress)
    → IsMigrated digits values
    → unbroken line ≡ true
    → legacy_line digits (section, values) line ≡ ok p
    → IsMigrated digits p.1
unfolding legacy_line
legacy_line-IsMigrated digits section values line p h whole =
    if_intro (λ (r : Result Progress). r ≡ ok p → IsMigrated digits p.1)
      (is_empty line || is_comment line)
      (λ _ built.
        subst (λ (q : Progress). IsMigrated digits q.1) {x = (section, values)}
          (ok-injectivity built) h)
      (λ _. section_or_assignment-IsMigrated digits section values line (bracketed line) p h whole)

legacy_lines-IsMigrated :
    (digits : Digits) (p : Progress) (lines : List Text) (q : Progress)
    → IsMigrated digits p.1
    → All (λ l. unbroken l ≡ true) lines
    → legacy_lines digits p lines ≡ ok q
    → IsMigrated digits q.1
unfolding legacy_lines
legacy_lines-IsMigrated digits p [] q h whole built =
    subst (λ (r : Progress). IsMigrated digits r.1) {x = p} (ok-injectivity built) h
legacy_lines-IsMigrated digits (section, values) (line ∷ lines) q h whole built =
    let (r, first, later) = >>=-eq-ok (legacy_line digits (section, values) (strip line)) _ built in
    legacy_lines-IsMigrated digits r lines q
      (legacy_line-IsMigrated digits section values (strip line) r h (strip-unbroken line whole.0)
        first)
      whole.1 later

checked :
    (digits : Digits) (values : Settings)
    → All (IsEntry digits) values
    → any (λ (entry : Text × Text). starts_with_digit entry.0) values ≡ false
    → (check_settings digits values ≡ ok tt)
      × All (λ (entry : Text × Text). unbroken entry.1 ≡ true) values
unfolding check_settings
checked digits [] h d = (refl, tt)
checked digits ((key, value) ∷ values) h d =
    let (rest, clean) = checked digits values h.1 (ground arith) in
    let named : is_key key ≡ true = name-key key h.0.0 (ground arith) in
    (rw (named, h.0.1, rest) refl, (h.0.2, clean))

-- What `parse_legacy_mixed` returns is accepted by `write_config_atomic`, and what that writes is
-- parsed to the same settings in the same order, unless a migrated key begins with a digit.
pub parse_legacy_mixed-migrates :
    (digits : Digits) (content : Text) (values : Settings)
    → parse_legacy_mixed digits content ≡ ok values
    → any (λ (entry : Text × Text). starts_with_digit entry.0) values ≡ false
    → (check_settings digits values ≡ ok tt) × (parse_config digits (render values) ≡ ok values)
unfolding parse_legacy_mixed
parse_legacy_mixed-migrates digits content values h d =
    let lines = split_lines [] (universal false content) in
    let (p, read, same) = >>=-eq-ok (legacy_lines digits (none, []) lines) _ h in
    let (entries, dictionary) = subst (IsMigrated digits) (ok-injectivity same) (
      legacy_lines-IsMigrated digits (none, []) lines p (tt, tt)
        (split_lines-unbroken [] (universal false content) refl) read) in
    let (accepted, clean) = checked digits values entries d in
    (accepted, parse_config-render digits values accepted dictionary clean)
