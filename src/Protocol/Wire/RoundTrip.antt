-- ===== src/Protocol/Wire/RoundTrip.antt =====
-- What is encoded is decoded to itself: requests, cancellations and their responses.
use Prim.Native.Nat.{◌≤◌}
use lsmf.Base.{
  ℕ, String, ◌≡◌, refl, sym, subst, true, false, List, [], ◌∷◌, Option, none, some, ltb, ℤ, arith,
}
use lsmf.Base.Results.{ok}
use lsmf.Peer.Identity.{Action, action_value}
use lsmf.Protocol.Json.{Json}
use lsmf.Protocol.Objects.{is_unique, action_of, texts-items, unique-items}
use lsmf.Protocol.Models.{ProductionRequest, ProductionCancel, ProductionCancelResponse}
use lsmf.Protocol.Checks.{
  is_one, check_module_id, check_module_ids, check_backup_id, check_parameters, production_request,
  production_cancel, production_cancel_response,
}
use lsmf.Protocol.Wire.{
  parse, exact, decode_parameters, decode_production_request, parameters_of,
  encode_production_request, decode_cancel, encode_cancel, decode_cancel_response,
  encode_cancel_response,
}

-- The checks of the constructor pass on the request.
abbrev pub IsChecked : ProductionRequest → Type 0
IsChecked r =
    production_request r.protocol_version r.request_id r.action r.module_ids r.backup_id ≡ ok r

pub in_bounds : (most n : ℕ) → n ≤ most → ltb most n ≡ false
in_bounds most n h = ground (arith, h)

pub unique_version : (v : Json) → is_one v ≡ true → is_unique v ≡ true
unique_version Json.null h = refl
unique_version (Json.bool b) h = refl
unique_version (Json.int n) h = refl
unique_version (Json.real n) h = refl
unique_version (Json.str s) h = refl
unique_version (Json.arr items) h = cc
unique_version (Json.obj fields) h = cc

parameters_checked :
    (v : Json) (i : String) (a : Action) (ms : List String) (b : Option String)
    (r : ProductionRequest)
    → production_request v i a ms b ≡ ok r
    → check_parameters a ms b ≡ ok tt
unfolding production_request
parameters_checked v i a ms b r h = ground (arith, h)

ids_checked :
    (v : Json) (i : String) (a : Action) (ms : List String) (b : Option String)
    (r : ProductionRequest)
    → production_request v i a ms b ≡ ok r
    → check_module_ids ms ≡ ok tt
unfolding production_request
ids_checked v i a ms b r h = ground (arith, h)

module_checked : (m : String) → check_module_ids (m ∷ []) ≡ ok tt → check_module_id m ≡ ok m
unfolding check_module_ids check_module_id
module_checked m h = ground (arith, h)

backup_checked :
    (i : String)
    → check_parameters Action.rollback_backup [] (some i) ≡ ok tt
    → check_backup_id i ≡ ok i
unfolding check_parameters check_backup_id
backup_checked i h = ground (arith, h)

object_lem :
    (n : ℕ)
    → n ≤ 16384
    → (v : ℤ) (i : String) (a : Action) (ms : List String) (b : Option String)
    → let r : ProductionRequest = record {
      protocol_version = Json.int v;
      request_id = i;
      action = a;
      module_ids = ms;
      backup_id = b;
    } in
      check_parameters a ms b ≡ ok tt
      → check_module_ids ms ≡ ok tt
      → IsChecked r
      → decode_production_request n (encode_production_request r) ≡ ok r
unfolding decode_production_request encode_production_request parse exact decode_parameters
    parameters_of action_of action_value check_parameters
object_lem n fits v i Action.audit [] none args ids h = rw (in_bounds 16384 n fits) h
object_lem n fits v i Action.audit [] (some b) args ids h = cc
object_lem n fits v i Action.audit (m ∷ ms) b args ids h = cc
object_lem n fits v i Action.verify_module [] b args ids h = cc
object_lem n fits v i Action.verify_module (m ∷ []) none args ids h =
    rw (in_bounds 16384 n fits, module_checked m ids) h
object_lem n fits v i Action.verify_module (m ∷ []) (some j) args ids h = cc
object_lem n fits v i Action.verify_module (m ∷ k ∷ ms) b args ids h = absurd (ground (arith, args))
object_lem n fits v i Action.apply_module [] b args ids h = cc
object_lem n fits v i Action.apply_module (m ∷ []) none args ids h =
    rw (in_bounds 16384 n fits, module_checked m ids) h
object_lem n fits v i Action.apply_module (m ∷ []) (some j) args ids h = cc
object_lem n fits v i Action.apply_module (m ∷ k ∷ ms) b args ids h = absurd (ground (arith, args))
object_lem n fits v i Action.apply_modules ms none args ids h =
    rw (in_bounds 16384 n fits, unique-items ms, texts-items ms) h
object_lem n fits v i Action.apply_modules ms (some j) args ids h = absurd (ground (arith, args))
object_lem n fits v i Action.rollback_backup ms none args ids h = cc
object_lem n fits v i Action.rollback_backup [] (some j) args ids h =
    rw (in_bounds 16384 n fits, backup_checked j args) h
object_lem n fits v i Action.rollback_backup (m ∷ ms) (some j) args ids h = cc

-- A request that passed its constructor's checks, and whose version is an integer, is decoded from
-- its own encoding, if the text is within the size limit.
pub decode_production_request-encode :
    (v : ℤ) (r : ProductionRequest)
    → r.protocol_version ≡ Json.int v
    → IsChecked r
    → (size : ℕ) → size ≤ 16384
    → decode_production_request size (encode_production_request r) ≡ ok r
decode_production_request-encode v r e h size fits =
    let q : ProductionRequest = record {
      protocol_version = Json.int v;
      request_id = r.request_id;
      action = r.action;
      module_ids = r.module_ids;
      backup_id = r.backup_id;
    } in
    let same : r ≡ q = ground (arith, e) in
    let checked : IsChecked q = subst IsChecked same h in
    subst (λ p. decode_production_request size (encode_production_request p) ≡ ok p) (sym same)
      (object_lem size fits v r.request_id r.action r.module_ids r.backup_id
        (parameters_checked (Json.int v) r.request_id r.action r.module_ids r.backup_id q checked)
        (ids_checked (Json.int v) r.request_id r.action r.module_ids r.backup_id q checked) checked)

cancel_lem :
    (n : ℕ)
    → n ≤ 16384
    → (c : ProductionCancel) → production_cancel c.protocol_version c.request_id ≡ ok c
    → decode_cancel n (encode_cancel c) ≡ ok c
unfolding decode_cancel encode_cancel parse exact
cancel_lem n fits c h =
    let one : is_one c.protocol_version ≡ true = unfold production_cancel in ground (arith, h) in
    rw (in_bounds 16384 n fits, unique_version c.protocol_version one) h

response_lem :
    (n : ℕ)
    → n ≤ 16384
    → (c : ProductionCancelResponse)
    → production_cancel_response c.protocol_version c.request_id c.accepted ≡ ok c
    → decode_cancel_response n (encode_cancel_response c) ≡ ok c
unfolding decode_cancel_response encode_cancel_response parse exact
response_lem n fits c h =
    let one : is_one c.protocol_version ≡ true =
      unfold production_cancel_response in ground (arith, h) in
    rw (in_bounds 16384 n fits, unique_version c.protocol_version one) h

-- A cancellation, and a response to one, that passed its constructor's checks is decoded from its own
-- encoding, if the text is within the size limit.
pub decode_cancel-encode :
    (c : ProductionCancel) (r : ProductionCancelResponse)
    → production_cancel c.protocol_version c.request_id ≡ ok c
    → production_cancel_response r.protocol_version r.request_id r.accepted ≡ ok r
    → (size : ℕ) → size ≤ 16384
    → (decode_cancel size (encode_cancel c) ≡ ok c)
      × (decode_cancel_response size (encode_cancel_response r) ≡ ok r)
decode_cancel-encode c r hc hr size fits = (cancel_lem size fits c hc, response_lem size fits r hr)
