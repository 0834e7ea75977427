-- ===== src/Config/Legacy/Keys.antt =====
-- The keys that a migration makes: upper-case letters, digits and underscores, with no underscore in
-- front.
use lsmf.Base.{
  ℕ, Bool, true, false, not, ◌&&◌, ◌||◌, [], ◌∷◌, ◌++◌, Option, none, some, ◌==◌, ◌≡◌, refl, subst,
  arith, is_empty, all, if_intro,
}
use lsmf.Base.Results.{Result, ok, >>=-eq-ok, ok-injectivity}
use lsmf.Base.Text.{codes, is_digit}
use lsmf.Config.Values.{Text, is_key, is_key_char, text_eq, starts_with}
use lsmf.Config.Legacy.{
  is_alphanumeric, collapse, trim_left, trim_right, upper, nonempty, identifier, module_key,
  feature_key, remove_prefix, remove_suffix, canonical_key,
}

abbrev starts_plain : Text → Bool
starts_plain [] = true
starts_plain (c ∷ _) = not (c == b'_')

abbrev pub is_name : Text → Bool
is_name key = not (is_empty key) && starts_plain key && all is_key_char key

abbrev pub starts_with_digit : Text → Bool
starts_with_digit [] = false
starts_with_digit (c ∷ _) = is_digit c

-- a character of an identifier before `upper`
abbrev is_part : ℕ → Bool
is_part c = is_alphanumeric c || c == b'_'

abbrev is_plain : Text → Bool
is_plain text = starts_plain text && all is_part text

collapse-parts : (inside : Bool) (value : Text) → all is_part (collapse inside value) ≡ true
collapse-parts inside [] = refl
collapse-parts inside (c ∷ cs) = ground (arith, collapse-parts false cs, collapse-parts true cs)

trim_left-plain : (text : Text) → all is_part text ≡ true → is_plain (trim_left text) ≡ true
trim_left-plain [] h = refl
trim_left-plain (c ∷ cs) h = ground (arith, trim_left-plain cs)

trim_right-parts : (text : Text) → all is_part text ≡ true → all is_part (trim_right text) ≡ true
trim_right-parts [] h = refl
trim_right-parts (c ∷ cs) h = ground (arith, trim_right-parts cs)

trim_right-plain : (text : Text) → is_plain text ≡ true → is_plain (trim_right text) ≡ true
trim_right-plain [] h = refl
trim_right-plain (c ∷ cs) h = ground (arith, trim_right-parts cs)

upper-chars : (text : Text) → all is_part text ≡ true → all is_key_char (upper text) ≡ true
upper-chars [] h = refl
upper-chars (c ∷ cs) h = ground (arith, upper-chars cs)

upper-name :
    (text key : Text) → is_plain text ≡ true → nonempty (upper text) ≡ ok key → is_name key ≡ true
upper-name [] key h e = cc
upper-name (c ∷ cs) key h e =
    subst (λ k. is_name k ≡ true) (ok-injectivity e) (ground (arith, upper-chars cs))

identifier-name : (value key : Text) → identifier value ≡ ok key → is_name key ≡ true
unfolding identifier
identifier-name value key =
    let parts = collapse false value in
    upper-name (trim_right (trim_left parts)) key
      (trim_right-plain (trim_left parts) (trim_left-plain parts (collapse-parts false value)))

all-append :
    (a b : Text)
    → all is_key_char a ≡ true
    → all is_key_char b ≡ true
    → all is_key_char (a ++ b) ≡ true
all-append [] b h k = k
all-append (c ∷ a) b h k = ground (arith, all-append a b)

name-append : (a b : Text) → is_name a ≡ true → all is_key_char b ≡ true → is_name (a ++ b) ≡ true
name-append [] b h k = cc
name-append (c ∷ a) b h k = ground (arith, all-append a b)

name-chars : (a : Text) → is_name a ≡ true → all is_key_char a ≡ true
name-chars a h = ground arith

module_key-name : (id key : Text) → module_key id ≡ ok key → is_name key ≡ true
unfolding module_key
module_key-name id key h =
    let (name, e, built) = >>=-eq-ok (identifier id) _ h in
    subst (λ k. is_name k ≡ true) (ok-injectivity built)
      (name-append (codes "MODULE_") (name ++ codes "_ENABLED") refl
        (all-append name (codes "_ENABLED") (name-chars name (identifier-name id name e)) refl))

feature_key-name : (id feature key : Text) → feature_key id feature ≡ ok key → is_name key ≡ true
unfolding feature_key
feature_key-name id feature key h =
    let (name, e, h₁) = >>=-eq-ok (identifier id) _ h in
    let (part, f, built) = >>=-eq-ok (identifier feature) _ h₁ in
    subst (λ k. is_name k ≡ true) (ok-injectivity built)
      (name-append (codes "FEATURE_") (name ++ (b'_' ∷ part)) refl (
        all-append name (b'_' ∷ part) (name-chars name (identifier-name id name e))
          (name-chars part (identifier-name feature part f))))

pub canonical_key-name :
    (section : Option Text) (key canonical : Text)
    → canonical_key section key ≡ ok canonical
    → is_name canonical ≡ true
unfolding canonical_key
canonical_key-name none key canonical = identifier-name key canonical
canonical_key-name (some section) key canonical =
    if_intro (λ (r : Result Text). r ≡ ok canonical → is_name canonical ≡ true)
      (text_eq key (codes "module_enabled"))
      (λ _. module_key-name (remove_suffix (codes "_hardening") section) canonical)
      (λ _.
        if_intro (λ (r : Result Text). r ≡ ok canonical → is_name canonical ≡ true)
          (starts_with (codes "feature_") key)
          (λ _.
            feature_key-name (remove_suffix (codes "_hardening") section)
              (remove_prefix (codes "feature_") key) canonical)
          (λ _ h.
            let (name, e, h₁) = >>=-eq-ok (identifier section) _ h in
            let (part, f, built) = >>=-eq-ok (identifier key) _ h₁ in
            subst (λ k. is_name k ≡ true) (ok-injectivity built)
              (name-append name (b'_' ∷ part) (identifier-name section name e)
                (name-chars part (identifier-name key part f)))))

-- A name that does not begin with a digit is a key.
pub name-key : (key : Text) → is_name key ≡ true → starts_with_digit key ≡ false → is_key key ≡ true
unfolding is_key
name-key [] h d = cc
name-key (c ∷ cs) h d = ground arith
