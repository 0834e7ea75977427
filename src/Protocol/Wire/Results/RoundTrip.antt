-- ===== src/Protocol/Wire/Results/RoundTrip.antt =====
-- A result that is encoded is decoded to itself.
use Prim.Native.Nat.{◌≤◌}
use lsmf.Base.{ℕ, String, ◌≡◌, refl, true, Bool, List, [], ◌∷◌, Option, none, some, ℤ, arith}
use lsmf.Base.Results.{ok}
use lsmf.Peer.Identity.{Action}
use lsmf.Protocol.Json.{Json}
use lsmf.Protocol.Objects.{is_unique, action_of-value, texts-items, unique-items}
use lsmf.Protocol.Models.{ProductionStatus, ErrorDetail, ProductionResult}
use lsmf.Protocol.Checks.{is_one, error_detail, check_result_shape, production_result}
use lsmf.Protocol.Wire.{parse, exact, optional_text}
use lsmf.Protocol.Wire.RoundTrip.{in_bounds, unique_version}
use lsmf.Protocol.Wire.Results.{
  production_status_value, status_of, optional_int_of, optional_text_of, decode_error,
  decode_result_object, decode_result, optional_int, error_object, result_object, encode_result,
}

-- An optional number as the integer that it is.
abbrev pub as_int : Option ℕ → Option ℤ
as_int none = none
as_int (some n) = some (ℤ.pos n)

-- The checks of an error's constructor pass on it.
abbrev pub IsCheckedError : Option ErrorDetail → Type 0
IsCheckedError none = Unit
IsCheckedError (some e) = error_detail e.code e.message ≡ ok e

module _ (is_decimal : ℕ → Bool) where
  -- The checks of the constructors pass on the result and on its error.
  abbrev pub IsCheckedResult : ProductionResult → Type 0
  IsCheckedResult r =
      (production_result is_decimal r.protocol_version r.request_id r.action r.status r.started_at
          r.finished_at (as_int r.exit_code) r.summary r.output r.output_truncated r.error
          r.module_ids r.backup_id (as_int r.finding_count)
        ≡ ok r)
      × IsCheckedError r.error

  int-optional :
      (m : String) (o : Option ℕ) → optional_int_of m (some (optional_int o)) ≡ ok (as_int o)
  int-optional m none = refl
  int-optional m (some n) = refl

  text-optional :
      (m : String) (o : Option String) → optional_text_of m (some (optional_text o)) ≡ ok o
  text-optional m none = refl
  text-optional m (some s) = refl

  unique-int : (o : Option ℕ) → is_unique (optional_int o) ≡ true
  unique-int none = refl
  unique-int (some n) = refl

  unique-text : (o : Option String) → is_unique (optional_text o) ≡ true
  unique-text none = refl
  unique-text (some s) = refl

  unique-error : (e : Option ErrorDetail) → is_unique (error_object e) ≡ true
  unique-error none = refl
  unique-error (some e) = refl

  error-object :
      (e : Option ErrorDetail) → IsCheckedError e → decode_error (some (error_object e)) ≡ ok e
  unfolding decode_error exact
  error-object none h = refl
  error-object (some e) h = rw h refl

  status-value :
      (s : ProductionStatus) → status_of (some (Json.str (production_status_value s))) ≡ ok s
  unfolding status_of production_status_value
  status-value ProductionStatus.succeeded = refl
  status-value ProductionStatus.failed = refl
  status-value ProductionStatus.denied = refl
  status-value ProductionStatus.cancelled = refl
  status-value ProductionStatus.timed_out = refl
  status-value ProductionStatus.rejected = refl

  -- What the encoding of the action's own part leaves of the other fields.
  abbrev Shape : Action → List String → Option String → Option ℕ → Type 0
  Shape Action.audit ms b n = (ms ≡ []) × (b ≡ none)
  Shape _ ms b n = n ≡ none

  check_result_shape-Shape :
      (a : Action) (s : ProductionStatus) (ms : List String) (b : Option String) (n : Option ℕ)
      → check_result_shape a s ms b n ≡ ok tt
      → Shape a ms b n
  unfolding check_result_shape
  check_result_shape-Shape Action.audit s [] none (some n) h = (refl, refl)
  check_result_shape-Shape Action.audit s [] (some b) (some n) h = cc
  check_result_shape-Shape Action.audit s (m ∷ ms) b (some n) h = cc
  check_result_shape-Shape Action.audit s ms b none h = cc
  check_result_shape-Shape Action.verify_module s ms b none h = refl
  check_result_shape-Shape Action.verify_module s ms b (some n) h = absurd (ground (arith, h))
  check_result_shape-Shape Action.apply_module s ms b none h = refl
  check_result_shape-Shape Action.apply_module s ms b (some n) h = absurd (ground (arith, h))
  check_result_shape-Shape Action.apply_modules s ms b none h = refl
  check_result_shape-Shape Action.apply_modules s ms b (some n) h = absurd (ground (arith, h))
  check_result_shape-Shape Action.rollback_backup s ms b none h = refl
  check_result_shape-Shape Action.rollback_backup s ms (some b) (some n) h = cc
  check_result_shape-Shape Action.rollback_backup s ms none (some n) h = cc

  parts-object :
      (a : Action) (ms : List String) (b : Option String) (n : Option ℕ)
      → Shape a ms b n
      → decode_result_object a (result_object a ms b n) ≡ ok (ms, b, as_int n)
  unfolding decode_result_object result_object exact
  parts-object Action.audit ms b none h = ground (arith, h)
  parts-object Action.audit ms b (some n) h = ground (arith, h)
  parts-object Action.verify_module ms none n h = rw (texts-items ms, h)
  parts-object Action.verify_module ms (some b) n h = rw (texts-items ms, h)
  parts-object Action.apply_module ms none n h = rw (texts-items ms, h)
  parts-object Action.apply_module ms (some b) n h = rw (texts-items ms, h)
  parts-object Action.apply_modules ms none n h = rw (texts-items ms, h)
  parts-object Action.apply_modules ms (some b) n h = rw (texts-items ms, h)
  parts-object Action.rollback_backup ms none n h = rw (texts-items ms, h)
  parts-object Action.rollback_backup ms (some b) n h = rw (texts-items ms, h)

  unique-object :
      (a : Action) (ms : List String) (b : Option String) (n : Option ℕ)
      → is_unique (Json.obj (result_object a ms b n)) ≡ true
  unfolding result_object
  unique-object Action.audit ms b n = rw (unique-int n)
  unique-object Action.verify_module ms b n = rw (unique-items ms, unique-text b)
  unique-object Action.apply_module ms b n = rw (unique-items ms, unique-text b)
  unique-object Action.apply_modules ms b n = rw (unique-items ms, unique-text b)
  unique-object Action.rollback_backup ms b n = rw (unique-items ms, unique-text b)

  version_checked : (r : ProductionResult) → IsCheckedResult r → is_one r.protocol_version ≡ true
  unfolding production_result
  version_checked r h = ground (arith, h.0)

  shape_of_checked :
      (r : ProductionResult)
      → IsCheckedResult r
      → check_result_shape r.action r.status r.module_ids r.backup_id r.finding_count ≡ ok tt
  unfolding production_result
  shape_of_checked r h = ground (arith, h.0)

  -- A result that passed its constructors' checks is decoded from its own encoding, if the text is
  -- within the size limit.
  pub decode_result-encode :
      (r : ProductionResult)
      → IsCheckedResult r
      → (size : ℕ) → size ≤ 131072
      → decode_result is_decimal size (encode_result r) ≡ ok r
  unfolding decode_result encode_result parse exact
  decode_result-encode r h size fits =
      rw
        (
          in_bounds 131072 size fits,
          unique-error r.error,
          unique-int r.exit_code,
          unique_version r.protocol_version (version_checked r h),
          unique-object r.action r.module_ids r.backup_id r.finding_count,
          action_of-value r.action,
          status-value r.status,
          error-object r.error h.1,
          parts-object r.action r.module_ids r.backup_id r.finding_count (
              check_result_shape-Shape r.action r.status r.module_ids r.backup_id r.finding_count
                (shape_of_checked r h)),
          int-optional "exit_code is invalid" r.exit_code,
        )
        (h.0)
