-- ===== src/Config/Save/RoundTrip.antt =====
-- Settings are read back from what is written of them.
use lsmf.Base.{
  ℕ, String, Bool, true, false, not, [], ◌∷◌, ◌++◌, some, ◌==◌, ◌≡◌, refl, ap, sym, ◌∙◌, is_empty,
  all, any, All, arith, append_assoc, append-nil, Bool-cases, inl, inr,
}
use lsmf.Base.Results.{Result, ok, err, raise_if, >>=-eq-ok}
use lsmf.Config.Values.{Text, is_key, is_key_char, is_forbidden, Digits, validate_value}
use lsmf.Config.Lines.{universal, split_lines, is_break, is_white, strip, strip_left, strip_right}
use lsmf.Config.Parse.{Settings, has, quoted, assignment, parse_line, parse_lines, parse_config}
use lsmf.Config.Save.{check_settings, line_of, header, lines_text, render}

-- a text with no character at which `splitlines` ends a line
abbrev pub unbroken : Text → Bool
unbroken text = all (λ c. not (is_break c)) text

unbroken-append : (a b : Text) → unbroken a ≡ true → unbroken b ≡ true → unbroken (a ++ b) ≡ true
unbroken-append [] b h k = k
unbroken-append (c ∷ a) b h k = ground (arith, unbroken-append a b)

-- A line is read whole.
read-line :
    (begun line rest : Text)
    → unbroken line ≡ true
    → split_lines begun (universal false (line ++ (b'\n' ∷ rest)))
      ≡ (begun ++ line) ∷ split_lines [] (universal false rest)
unfolding universal split_lines
read-line begun [] rest h = rw (append-nil begun)
read-line begun (c ∷ line) rest h =
    let whole : is_break c ≡ false = ground arith in
    let no_return : (c == b'\r') ≡ false = ground arith in
    rw (
      no_return,
      whole,
      read-line (begun ++ c ∷ []) line rest (ground arith),
      append_assoc begun (c ∷ []) line,
    )

is_empty-last : (text : Text) (c : ℕ) → is_empty (text ++ c ∷ []) ≡ false
is_empty-last [] c = refl
is_empty-last (d ∷ text) c = refl

strip_right-last :
    (text : Text) (c : ℕ) → is_white c ≡ false → strip_right (text ++ c ∷ []) ≡ text ++ c ∷ []
unfolding strip_right
strip_right-last [] c h = rw h
strip_right-last (d ∷ text) c h = rw (strip_right-last text c h, is_empty-last text c)

quoted-last :
    (value : Text) → any is_forbidden value ≡ false → quoted (value ++ b'"' ∷ []) ≡ some value
unfolding quoted
quoted-last [] h = refl
quoted-last (c ∷ value) h = rw (quoted-last value (ground arith)) (ground arith)

assignment-key :
    (begun key rest : Text)
    → all is_key_char key ≡ true
    → assignment begun (key ++ rest) ≡ assignment (begun ++ key) rest
unfolding assignment
assignment-key begun [] rest h = rw (append-nil begun)
assignment-key begun (c ∷ key) rest h =
    let first : is_key_char c ≡ true = ground arith in
    rw (
      first,
      assignment-key (begun ++ c ∷ []) key rest (ground arith),
      append_assoc begun (c ∷ []) key,
    )

key-chars : (key : Text) → is_key key ≡ true → all is_key_char key ≡ true
unfolding is_key
key-chars [] h = refl
key-chars (c ∷ key) h = ground arith

assignment-line :
    (key value : Text)
    → is_key key ≡ true
    → any is_forbidden value ≡ false
    → assignment [] (line_of key value) ≡ some (key, value)
assignment-line key value h k =
    assignment-key [] key (b'=' ∷ b'"' ∷ (value ++ b'"' ∷ [])) (key-chars key h)
    ∙ (unfold assignment in rw (quoted-last value k, h))

strip_left-plain : (c : ℕ) (text : Text) → is_white c ≡ false → strip_left (c ∷ text) ≡ c ∷ text
unfolding strip_left
strip_left-plain c text h = rw h

line-last : (key value : Text) → line_of key value ≡ (key ++ (b'=' ∷ b'"' ∷ value)) ++ b'"' ∷ []
line-last key value = sym (append_assoc key (b'=' ∷ b'"' ∷ value) (b'"' ∷ []))

strip-line : (key value : Text) → is_key key ≡ true → strip (line_of key value) ≡ line_of key value
unfolding strip is_key
strip-line [] value h = cc
strip-line (c ∷ key) value h =
    let black : is_white c ≡ false = ground arith in
    rw (strip_left-plain c (key ++ (b'=' ∷ b'"' ∷ (value ++ b'"' ∷ []))) black) (
      ap strip_right (line-last (c ∷ key) value)
      ∙ strip_right-last ((c ∷ key) ++ (b'=' ∷ b'"' ∷ value)) b'"' refl
      ∙ sym (line-last (c ∷ key) value))

unbroken-key : (key : Text) → all is_key_char key ≡ true → unbroken key ≡ true
unbroken-key [] h = refl
unbroken-key (c ∷ key) h =
    let whole : is_break c ≡ false = ground arith in rw whole (unbroken-key key (ground arith))

unbroken-line :
    (key value : Text)
    → is_key key ≡ true
    → unbroken value ≡ true
    → unbroken (line_of key value) ≡ true
unbroken-line key value h k =
    unbroken-append key (b'=' ∷ b'"' ∷ (value ++ b'"' ∷ [])) (unbroken-key key (key-chars key h))
      (unbroken-append value (b'"' ∷ []) k refl)

-- A line that was written is an assignment that is checked and stored.
parse_line-line :
    (digits : Digits) (values : Settings) (key value : Text)
    → is_key key ≡ true
    → validate_value digits key value ≡ ok tt
    → has key values ≡ false
    → any is_forbidden value ≡ false
    → parse_line digits values (line_of key value) ≡ ok (values ++ (key, value) ∷ [])
unfolding parse_line is_key
parse_line-line digits values [] value h valid fresh clean = cc
parse_line-line digits values (c ∷ key) value h valid fresh clean =
    let no_comment : (c == b'#') ≡ false = ground arith in
    rw (no_comment, assignment-line (c ∷ key) value h clean, fresh, valid)

err-ne-ok : (message : String) (r : Result (Unit {0})) → r ≡ err message → r ≡ ok tt → ⊥
err-ne-ok message r h k = cc

-- No key stands twice, in the settings or in those that were read before.
abbrev pub IsFresh : Settings → Settings → Type 0
IsFresh before [] = Unit
IsFresh before ((key, value) ∷ rest) =
    (has key before ≡ false) × IsFresh (before ++ (key, value) ∷ []) rest

-- a dictionary
abbrev pub IsDictionary : Settings → Type 0
IsDictionary values = IsFresh [] values

valid-clean :
    (digits : Digits) (key value : Text)
    → validate_value digits key value ≡ ok tt
    → any is_forbidden value ≡ false
unfolding validate_value
valid-clean digits key value h = elim (Bool-cases (any is_forbidden value)) [
  | inl dirty ↦ absurd (
      err-ne-ok "value contains a forbidden quote, backslash, or newline"
        (validate_value digits key value) (rw dirty) h)
  | inr clean ↦ clean
]

check-cons :
    (digits : Digits) (key value : Text) (rest : Settings)
    → check_settings digits ((key, value) ∷ rest) ≡ ok tt
    → (is_key key ≡ true)
      × (validate_value digits key value ≡ ok tt)
      × (check_settings digits rest ≡ ok tt)
unfolding check_settings
check-cons digits key value rest h =
    let (_, named, h₁) = >>=-eq-ok (raise_if (not (is_key key)) "Invalid configuration key") _ h in
    let (_, valid, h₂) = >>=-eq-ok (validate_value digits key value) _ h₁ in
    (ground arith, ground arith, h₂)

parse_lines-render :
    (digits : Digits) (before values : Settings)
    → check_settings digits values ≡ ok tt
    → IsFresh before values
    → All (λ (entry : Text × Text). unbroken entry.1 ≡ true) values
    → parse_lines digits before (split_lines [] (universal false (lines_text values)))
      ≡ ok (before ++ values)
unfolding parse_lines lines_text
parse_lines-render digits before [] h fresh whole =
    unfold universal split_lines in rw (append-nil before)
parse_lines-render digits before ((key, value) ∷ rest) h fresh whole =
    let (named, valid, checked) = check-cons digits key value rest h in
    rw (
      read-line [] (line_of key value) (lines_text rest) (unbroken-line key value named whole.0),
      strip-line key value named,
      parse_line-line digits before key value named valid fresh.0
          (valid-clean digits key value valid),
      parse_lines-render digits (before ++ (key, value) ∷ []) rest checked fresh.1 whole.1,
      append_assoc before ((key, value) ∷ []) rest,
    )

-- What `write_config_atomic` writes is parsed to the same settings in the same order, if it accepts
-- them, no key stands twice, as in a dictionary, and no value has a character at which `splitlines`
-- ends a line, besides the two that it refuses itself.
pub parse_config-render :
    (digits : Digits) (values : Settings)
    → check_settings digits values ≡ ok tt
    → IsDictionary values
    → All (λ (entry : Text × Text). unbroken entry.1 ≡ true) values
    → parse_config digits (render values) ≡ ok values
unfolding parse_config render
parse_config-render digits values h fresh whole =
    rw (read-line [] header (lines_text values) refl)
      (parse_lines-render digits [] values h fresh whole)
