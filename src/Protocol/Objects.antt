-- ===== src/Protocol/Objects.antt =====
-- What the decoders and encoders of the protocols share: objects of JSON, and their fields.
use lsmf.Base.{
  String, ◌≡◌, refl, Bool, true, not, ◌&&◌, List, [], ◌∷◌, Option, none, some, ℤ, all, str_eq,
  if◌then◌else◌,
}
use lsmf.Base.Results.{Result, ok, err, ◌>>=◌}
use lsmf.Base.Dict.{mem}
use lsmf.Peer.Identity.{Action, action_value}
use lsmf.Protocol.Json.{Json, Items, Fields}

-- the keys of an object, as the text has them
abbrev pub field_names : Fields → List String
field_names Fields.end = []
field_names (Fields.field k v fs) = k ∷ field_names fs

-- `value.get(key)`
abbrev pub get : String → Fields → Option Json
get k Fields.end = none
get k (Fields.field j v fs) = if str_eq j k then some v else get k fs

-- no key twice, in this object or in one below it
abbrev mutual
  pub is_unique : Json → Bool
  is_unique (Json.arr items) = are_unique items
  is_unique (Json.obj fields) = is_unique_object fields
  is_unique _ = true

  pub are_unique : Items → Bool
  are_unique Items.nil = true
  are_unique (Items.cons v vs) = is_unique v && are_unique vs

  pub is_unique_object : Fields → Bool
  is_unique_object Fields.end = true
  is_unique_object (Fields.field k v fs) =
      not (mem k (field_names fs)) && is_unique v && is_unique_object fs

-- `set(value) == expected`
abbrev pub same_names : List String → List String → Bool
same_names xs ys = all (λ x. mem x ys) xs && all (λ y. mem y xs) ys

-- `Action(value)`
unfoldable pub action_of : Option Json → Result Action
action_of (some (Json.str s)) =
    if str_eq s "audit"
    then ok Action.audit
    else if str_eq s "verify_module"
    then ok Action.verify_module
    else if str_eq s "apply_module"
    then ok Action.apply_module
    else if str_eq s "apply_modules"
    then ok Action.apply_modules
    else if str_eq s "rollback_backup"
    then ok Action.rollback_backup
    else err "unknown action"
action_of _ = err "unknown action"

pub action_of-value : (a : Action) → action_of (some (Json.str (action_value a))) ≡ ok a
unfolding action_of action_value
action_of-value Action.audit = refl
action_of-value Action.verify_module = refl
action_of-value Action.apply_module = refl
action_of-value Action.apply_modules = refl
action_of-value Action.rollback_backup = refl

-- a field that must be an `int` and no `bool`
abbrev pub int_of : Option Json → Result ℤ
int_of (some (Json.int n)) = ok n
int_of _ = err "version must be an integer"

-- a field that some check refuses unless it is a text
abbrev pub text_of : String → Option Json → Result String
text_of message (some (Json.str s)) = ok s
text_of message _ = err message

-- the items of an array of texts
abbrev pub texts_of : Items → Result (List String)
texts_of Items.nil = ok []
texts_of (Items.cons (Json.str s) vs) = texts_of vs >>= λ ss. ok (s ∷ ss)
texts_of (Items.cons _ vs) = err "module IDs must be lowercase allowlisted identifiers"

abbrev pub array_of : Option Json → Result (List String)
array_of (some (Json.arr items)) = texts_of items
array_of _ = err "module_ids must be an array"

abbrev pub items_of : List String → Items
items_of [] = Items.nil
items_of (s ∷ ss) = Items.cons (Json.str s) (items_of ss)

pub texts-items : (ss : List String) → texts_of (items_of ss) ≡ ok ss
texts-items [] = refl
texts-items (s ∷ ss) = rw (texts-items ss)

pub unique-items : (ss : List String) → are_unique (items_of ss) ≡ true
unique-items [] = refl
unique-items (s ∷ ss) = unique-items ss
