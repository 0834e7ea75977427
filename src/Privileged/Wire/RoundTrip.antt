-- ===== src/Privileged/Wire/RoundTrip.antt =====
-- A request that is encoded is decoded to itself.
use Prim.Native.Nat.{◌≤◌}
use lsmf.Base.{
  ℕ, String, ◌≡◌, refl, sym, ◌∙◌, ap, false, not, List, [], ◌∷◌, Option, none, some, ltb, ℤ, arith,
}
use lsmf.Base.Results.{Result, ok, err, ◌>>=◌, raise_if, >>=-eq-ok}
use lsmf.Peer.Identity.{Action, action_value, is_request_id}
use lsmf.Base.Dict.{distinct}
use lsmf.Protocol.Json.{Json, Fields}
use lsmf.Privileged.Models.{
  PrivilegedRequest, privileged_request, is_version, check_arguments, validate_module_id,
  validate_module_ids, validate_backup_id,
}
use lsmf.Protocol.Objects.{action_of, texts-items, unique-items}
use lsmf.Privileged.Wire.{
  decode, decode_request, decode_arguments, encode_request, exact_fields, arguments_of,
}

-- The checks of the constructor pass on the request.
abbrev pub IsChecked : PrivilegedRequest → Type 0
IsChecked r = privileged_request r.version r.request_id r.action r.module_ids r.backup_id ≡ ok r

abbrev object : PrivilegedRequest → Json
object r =
    Json.obj (Fields.field "action" (Json.str (action_value r.action)) (arguments_of r.action r))

small : (n : ℕ) → n ≤ 16384 → ltb 16384 n ≡ false
small n h = ground (arith, h)

same_ids : (ms xs : List String) → validate_module_ids ms ≡ ok xs → xs ≡ ms
unfolding validate_module_ids
same_ids [] xs h = ground (arith, h)
same_ids (m ∷ ms) xs h =
    let (_, first, h₁) = >>=-eq-ok (validate_module_id m) _ h in
    let (rest, e, h₂) = >>=-eq-ok (validate_module_ids ms) _ h₁ in
    let same : m ∷ rest ≡ xs = ground (arith, h₂) in
    sym same ∙ ap (λ ys. m ∷ ys) (same_ids ms rest e)

checked :
    (v : ℤ) (i : String) (a : Action) (ms : List String) (b : Option String) (r : PrivilegedRequest)
    → privileged_request v i a ms b ≡ ok r
    → (check_arguments a ms b ≡ ok tt) × (validate_module_ids ms ≡ ok ms)
unfolding privileged_request
checked v i a ms b r h = go (validate_module_ids ms) refl (check_arguments a ms b) refl h
  where
    go :
        (o : Result (List String))
        → validate_module_ids ms ≡ o
        → (p : Result (Unit {0})) → check_arguments a ms b ≡ p
        → (raise_if (not (is_version v)) "unsupported protocol version" >>= λ _.
            raise_if (not (is_request_id i)) "request_id must be a canonical lowercase UUID"
            >>= λ _. o >>= λ modules.
                raise_if (not (distinct modules)) "duplicate module IDs are not allowed" >>= λ _.
                check_arguments a modules b >>= λ _. ok (record {
                  version = v;
                  request_id = i;
                  action = a;
                  module_ids = ms;
                  backup_id = b;
                }))
          ≡ ok r
        → (check_arguments a ms b ≡ ok tt) × (validate_module_ids ms ≡ ok ms)
    go (ok xs) e (ok u) c h = (c, e ∙ ap ok (same_ids ms xs e))
    go (ok xs) e (err x) c h =
        let same : xs ≡ ms = same_ids ms xs e in
        let bad : check_arguments a xs b ≡ err x = ap (λ ys. check_arguments a ys b) same ∙ c in
        absurd (ground (arith, h, bad))
    go (err x) e p c h = absurd (ground (arith, h))

same_backup : (i j : String) → validate_backup_id i ≡ ok j → j ≡ i
unfolding validate_backup_id
same_backup i j h = ground (arith, h)

backup_checked :
    (i : String)
    → check_arguments Action.rollback_backup [] (some i) ≡ ok tt
    → validate_backup_id i ≡ ok i
unfolding check_arguments
backup_checked i h = go (validate_backup_id i) refl h
  where
    go :
        (o : Result String)
        → validate_backup_id i ≡ o
        → (raise_if false "" >>= λ _. o >>= λ _. raise_if false "") ≡ raise_if false ""
        → validate_backup_id i ≡ ok i
    go (ok j) e h = e ∙ ap ok (same_backup i j e)
    go (err x) e h = absurd (ground (arith, h))

-- What the branches on the action leave of the other arguments.
Shape : Action → List String → Option String → Type 0
Shape Action.audit ms b = (ms ≡ []) × (b ≡ none)
Shape Action.verify_module ms b = (m : String) × (ms ≡ m ∷ []) × (b ≡ none)
Shape Action.apply_module ms b = (m : String) × (ms ≡ m ∷ []) × (b ≡ none)
Shape Action.apply_modules ms b = b ≡ none
Shape Action.rollback_backup ms b =
    (i : String) × (ms ≡ []) × (b ≡ some i) × (validate_backup_id i ≡ ok i)

shaped :
    (a : Action) (ms : List String) (b : Option String)
    → check_arguments a ms b ≡ ok tt
    → Shape a ms b
unfolding check_arguments Shape
shaped Action.audit [] none h = (refl, refl)
shaped Action.audit [] (some i) h = cc
shaped Action.audit (m ∷ ms) b h = cc
shaped Action.verify_module [] b h = cc
shaped Action.verify_module (m ∷ []) none h = (m, refl, refl)
shaped Action.verify_module (m ∷ []) (some i) h = cc
shaped Action.verify_module (m ∷ k ∷ ms) b h = ground (arith, h)
shaped Action.apply_module [] b h = cc
shaped Action.apply_module (m ∷ []) none h = (m, refl, refl)
shaped Action.apply_module (m ∷ []) (some i) h = cc
shaped Action.apply_module (m ∷ k ∷ ms) b h = ground (arith, h)
shaped Action.apply_modules ms none h = refl
shaped Action.apply_modules ms (some i) h = ground (arith, h)
shaped Action.rollback_backup ms none h = cc
shaped Action.rollback_backup [] (some i) h = (i, refl, refl, backup_checked i h)
shaped Action.rollback_backup (m ∷ ms) (some i) h = cc

module_checked :
    (m : String) → validate_module_ids (m ∷ []) ≡ ok (m ∷ []) → validate_module_id m ≡ ok m
unfolding validate_module_ids validate_module_id
module_checked m h = ground (arith, h)

object_lem :
    (n : ℕ)
    → n ≤ 16384
    → (v : ℤ) (i : String) (a : Action) (ms : List String) (b : Option String) → Shape a ms b
    → validate_module_ids ms ≡ ok ms
    → let r : PrivilegedRequest = record {
      version = v;
      request_id = i;
      action = a;
      module_ids = ms;
      backup_id = b;
    } in
      IsChecked r → decode_request n (object r) ≡ ok r
unfolding decode_request decode decode_arguments exact_fields action_of action_value Shape
object_lem n fits v i Action.audit [] none s ids h = rw (small n fits) h
object_lem n fits v i Action.audit [] (some b) s ids h = cc
object_lem n fits v i Action.audit (m ∷ ms) b s ids h = cc
object_lem n fits v i Action.verify_module [] b s ids h = cc
object_lem n fits v i Action.verify_module (m ∷ []) none s ids h =
    rw (small n fits, module_checked m ids) h
object_lem n fits v i Action.verify_module (m ∷ []) (some j) s ids h = cc
object_lem n fits v i Action.verify_module (m ∷ k ∷ ms) b s ids h = cc
object_lem n fits v i Action.apply_module [] b s ids h = cc
object_lem n fits v i Action.apply_module (m ∷ []) none s ids h =
    rw (small n fits, module_checked m ids) h
object_lem n fits v i Action.apply_module (m ∷ []) (some j) s ids h = cc
object_lem n fits v i Action.apply_module (m ∷ k ∷ ms) b s ids h = cc
object_lem n fits v i Action.apply_modules ms none s ids h =
    rw (small n fits, unique-items ms, texts-items ms) h
object_lem n fits v i Action.apply_modules ms (some j) s ids h = cc
object_lem n fits v i Action.rollback_backup [] none s ids h = cc
object_lem n fits v i Action.rollback_backup [] (some j) s ids h =
    let valid : validate_backup_id j ≡ ok j = ground (arith, s.2, s.3) in rw (small n fits, valid) h
object_lem n fits v i Action.rollback_backup (m ∷ ms) b s ids h = cc

-- A request that passed its constructor's checks is encoded, and what it is encoded to is decoded
-- to the same request, if its text is within the size limit.
pub decode_request-encode_request :
    (r : PrivilegedRequest)
    → IsChecked r
    → (size : ℕ) → size ≤ 16384
    → (j : Json) × (encode_request r ≡ ok j) × (decode_request size j ≡ ok r)
unfolding encode_request
decode_request-encode_request r h size fits =
    let (args, ids) = checked r.version r.request_id r.action r.module_ids r.backup_id r h in
    let encoded : encode_request r ≡ ok (object r) = rw h refl in
    (
      object r,
      encoded,
      object_lem size fits r.version r.request_id r.action r.module_ids r.backup_id
          (shaped r.action r.module_ids r.backup_id args) ids h,
    )
