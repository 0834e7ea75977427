-- ===== src/Protocol/Agreement.antt =====
-- The two protocols, lsmf/production_protocol.py and lsmf/privileged_protocol.py, accept the same
-- requests.
use lsmf.Base.{String, ◌≡◌, refl, false, List, [], ◌∷◌, Option, none, some, ℤ, arith, ◌⊎◌, inl}
use lsmf.Base.Results.{ok, is_ok}
use lsmf.Peer.Identity.{Action}
use lsmf.Protocol.Json.{Json}
use lsmf.Protocol.Checks.{
  canonical_request_id, check_module_id, check_module_ids, check_backup_id, check_parameters,
  production_request,
}
use lsmf.Privileged.Models.{
  validate_module_id, validate_module_ids, validate_backup_id, check_arguments, privileged_request,
}

module_id_agrees :
    (i : String)
    → (check_module_id i ≡ ok i) × (validate_module_id i ≡ ok i)
      ⊎ (is_ok (check_module_id i) ≡ false) × (is_ok (validate_module_id i) ≡ false)
unfolding check_module_id validate_module_id
module_id_agrees i = ground arith

backup_id_agrees :
    (i : String)
    → (check_backup_id i ≡ ok i) × (validate_backup_id i ≡ ok i)
      ⊎ (is_ok (check_backup_id i) ≡ false) × (is_ok (validate_backup_id i) ≡ false)
unfolding check_backup_id validate_backup_id
backup_id_agrees i = ground arith

module_ids_agree :
    (ms : List String)
    → (check_module_ids ms ≡ ok tt) × (validate_module_ids ms ≡ ok ms)
      ⊎ (is_ok (check_module_ids ms) ≡ false) × (is_ok (validate_module_ids ms) ≡ false)
unfolding check_module_ids validate_module_ids
module_ids_agree [] = inl (refl, refl)
module_ids_agree (m ∷ ms) = ground (arith, module_id_agrees m, module_ids_agree ms)

arguments_agree :
    (a : Action) (ms : List String) (b : Option String)
    → is_ok (check_parameters a ms b) ≡ is_ok (check_arguments a ms b)
unfolding check_parameters check_arguments
arguments_agree Action.audit ms b = ground arith
arguments_agree Action.verify_module ms b = ground arith
arguments_agree Action.apply_module ms b = ground arith
arguments_agree Action.apply_modules ms b = ground arith
arguments_agree Action.rollback_backup ms none = refl
arguments_agree Action.rollback_backup ms (some i) = ground (arith, backup_id_agrees i)

-- A request with an integer as its version is accepted by the constructor of the one protocol exactly
-- where it is by that of the other.
pub production_request-privileged_request :
    (v : ℤ) (i : String) (a : Action) (ms : List String) (b : Option String)
    → is_ok (production_request (Json.int v) i a ms b) ≡ is_ok (privileged_request v i a ms b)
unfolding production_request privileged_request canonical_request_id
production_request-privileged_request v i a ms b =
    ground (arith, module_ids_agree ms, arguments_agree a ms b)
