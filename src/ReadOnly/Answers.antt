-- ===== src/ReadOnly/Answers.antt =====
-- What the executor's results say of the request and of the worker's exit.
use lsmf.Base.{
  ℕ, String, Bool, true, false, not, ◌||◌, List, Option, none, some, ◌≡◌, refl, arith, ℤ, ap, sym,
  ltb, length, if_intro, subst, if◌then◌else◌,
}
use lsmf.Base.Results.{Result, ok, ok-injectivity, err, ◌>>=◌, >>=-eq-ok, raise_if}
use lsmf.Base.Dict.{distinct}
use lsmf.Peer.Identity.{Action}
use lsmf.Protocol.Json.{Json}
use lsmf.Protocol.Models.{ProductionRequest, ProductionResult, ProductionStatus, ErrorDetail}
use lsmf.Protocol.Checks.{
  production_result, is_succeeded, check_version, canonical_request_id, bounded_int, bounded_text,
  check_module_ids, check_result_shape, is_timestamp, error_detail,
}
use lsmf.ReadOnly.Results.{
  Library, cancelled_of, failure_of, result_of, result_with, audited, is_zero, detail_of, is_audit,
  finding_count_of,
}

-- A result has the request's ID, and no success where there may be none.
abbrev pub IsFor : ProductionRequest → Bool → ProductionResult → Type 0
IsFor request may r =
    (r.request_id ≡ request.request_id) × ((not (is_succeeded r.status) || may) ≡ true)

-- A block that returns went past its first statement.
after {ℓ κ} :
    {A : Type ℓ} {S : Type κ} (first : Result A) (rest : Result S) {v : S}
    → (first >>= λ ignored. rest) ≡ ok v
    → rest ≡ ok v
after (ok a) rest h = h
after (err message) rest h = cc

module _ (is_decimal : ℕ → Bool) where
  production_result-fields :
      (version : Json) (id : String) (action : Action) (status : ProductionStatus)
      (started_at finished_at : String) (code : Option ℤ) (summary output : String)
      (truncated : Bool) (error : Option ErrorDetail) (modules : List String)
      (backup_id : Option String) (findings : Option ℤ) (r : ProductionResult)
      → production_result is_decimal version id action status started_at finished_at code summary
          output truncated error modules backup_id findings
        ≡ ok r
      → (r.request_id ≡ id) × (r.status ≡ status)
  unfolding production_result
  production_result-fields version id action status started_at finished_at code summary output
        truncated error modules backup_id findings r h =
      let h₁ = after (check_version version) _ h in
      let h₂ = after (canonical_request_id id) _ h₁ in
      let h₃ = after (raise_if (not (is_timestamp is_decimal started_at)) _) _ h₂ in
      let h₄ = after (raise_if (not (is_timestamp is_decimal finished_at)) _) _ h₃ in
      let (_, _, h₅) = >>=-eq-ok (bounded_int 255 "exit_code is invalid" code) _ h₄ in
      let h₆ = after (bounded_text summary "summary" 512) _ h₅ in
      let h₇ = after (bounded_text output "output" 65536) _ h₆ in
      let h₈ = after (check_module_ids modules) _ h₇ in
      let h₉ = after (raise_if (ltb 32 (length modules) || not (distinct modules)) _) _ h₈ in
      let (n, _, h₁₀) =
        >>=-eq-ok (bounded_int 10000 "audit result shape is invalid" findings) _ h₉ in
      let h₁₁ = after (check_result_shape action status modules backup_id n) _ h₁₀ in
      let same = ok-injectivity h₁₁ in
      (
        sym (ap (λ (t : ProductionResult). t.request_id) same),
        sym (ap (λ (t : ProductionResult). t.status) same),
      )

module _ (lib : Library) (request : ProductionRequest) (may : Bool) where
  -- a result with a status that is allowed
  fits :
      (r : ProductionResult) (status : ProductionStatus)
      → (r.request_id ≡ request.request_id) × (r.status ≡ status)
      → (not (is_succeeded status) || may) ≡ true
      → IsFor request may r
  fits r status (id, same) h =
      (id, subst (λ s. (not (is_succeeded s) || may) ≡ true) {x = status} (sym same) h)

  failure_of-IsFor :
      (code : String) (raw : List ℕ) (truncated : Bool) (r : ProductionResult)
      → failure_of lib request code raw truncated ≡ ok r
      → IsFor request may r
  unfolding failure_of
  failure_of-IsFor code raw truncated r h =
      let (detail, _, built) =
        >>=-eq-ok (error_detail code "Audit worker did not provide a typed finding count") _ h in
      fits r ProductionStatus.failed
        (production_result-fields lib.is_decimal _ _ _ _ _ _ _ _ _ _ _ _ _ _ r built) refl

  pub cancelled_of-IsFor :
      (timed_out : Bool) (r : ProductionResult)
      → cancelled_of lib request timed_out ≡ ok r
      → IsFor request may r
  unfolding cancelled_of
  cancelled_of-IsFor true r h =
      let (detail, _, built) =
        >>=-eq-ok (error_detail "timed_out" "Read-only command was stopped") _ h in
      fits r ProductionStatus.timed_out
        (production_result-fields lib.is_decimal _ _ _ _ _ _ _ _ _ _ _ _ _ _ r built) refl
  cancelled_of-IsFor false r h =
      let (detail, _, built) =
        >>=-eq-ok (error_detail "cancelled" "Read-only command was stopped") _ h in
      fits r ProductionStatus.cancelled
        (production_result-fields lib.is_decimal _ _ _ _ _ _ _ _ _ _ _ _ _ _ r built) refl

  result_with-IsFor :
      (code : ℤ) (raw : List ℕ) (truncated : Bool) (findings : Option ℤ) (r : ProductionResult)
      → (not (is_zero code) || may) ≡ true
      → result_with lib request code raw truncated findings ≡ ok r
      → IsFor request may r
  result_with-IsFor code raw truncated findings r allowed h =
      let (detail, _, built) = >>=-eq-ok (detail_of lib request (is_zero code)) _ h in
      fits r (if is_zero code then ProductionStatus.succeeded else ProductionStatus.failed)
        (production_result-fields lib.is_decimal _ _ _ _ _ _ _ _ _ _ _ _ _ _ r built)
        (ground (arith, allowed))

  audited-IsFor :
      (code : ℤ) (raw : List ℕ) (truncated : Bool) (found : Option (ℕ × List ℕ))
      (r : ProductionResult)
      → (not (is_zero code) || may) ≡ true
      → audited lib request code raw truncated found ≡ ok r
      → IsFor request may r
  audited-IsFor code raw truncated none r allowed h =
      failure_of-IsFor "invalid_audit_output" raw truncated r h
  audited-IsFor code raw truncated (some (n, rest)) r allowed h =
      result_with-IsFor code rest truncated (some (ℤ.pos n)) r allowed h

  pub result_of-IsFor :
      (code : ℤ) (raw : List ℕ) (truncated : Bool) (r : ProductionResult)
      → (not (is_zero code) || may) ≡ true
      → result_of lib request code raw truncated ≡ ok r
      → IsFor request may r
  unfolding result_of
  result_of-IsFor code raw truncated r allowed =
      if_intro (λ (t : Result ProductionResult). t ≡ ok r → IsFor request may r)
        (is_audit request.action)
        (λ _. audited-IsFor code raw truncated (finding_count_of raw) r allowed)
        (λ _. result_with-IsFor code raw truncated none r allowed)
