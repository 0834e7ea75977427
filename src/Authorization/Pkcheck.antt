-- ===== src/Authorization/Pkcheck.antt =====
-- lsmf/system_authorization.py: `SystemBusCredentialAdapter`, `_trusted_executable`, `_pkcheck_argv`
-- and `PkcheckAuthorizer`. What the kernel and the program that is run answer during one call is a
-- record. Texts that are passed to a program are lists of code points.
pub mod Laws
use lsmf.Base.{
  ℕ, String, Bool, true, false, not, ◌&&◌, ◌||◌, List, [], ◌∷◌, ◌++◌, Option, none, some, ◌==◌, ℤ,
  if◌then◌else◌,
}
use lsmf.Base.Results.{Result, ok, err, ◌>>=◌, ◌>>◌, raise_if}
use lsmf.Base.Decimal.{decimal}
use lsmf.Base.Dict.{mem}
use lsmf.Base.Text.{codes}
use lsmf.Peer.Identity.{action_value, TransportCredentials, RequestBinding, transport_credentials}
use lsmf.Authorization.ProcessTime.{process_start_time}

-- `unique_owner.startswith(":")`
abbrev starts_unique : List ℕ → Bool
starts_unique [] = false
starts_unique (c ∷ _) = c == b':'

-- what is raised in `credentials` and caught there: every error that the model has
abbrev unavailable {ℓ} : {A : Type ℓ} → Result A → Result A
unavailable (ok a) = ok a
unavailable (err _) = err "bus credentials are unavailable or invalid"

-- `SystemBusCredentialAdapter.credentials`, given what the bus daemon's two lookups answer
unfoldable pub credentials : Result ℤ → Result ℤ → String → Result TransportCredentials
credentials unix_pid unix_uid unique_owner = do
  raise_if (not (starts_unique (codes unique_owner))) "a system-bus unique owner is required"
  unavailable (do pid ← unix_pid; uid ← unix_uid; transport_credentials pid uid unique_owner true)

-- what `path.stat(follow_symlinks=False)` tells of the executable: if it is a regular file, its
-- owner, if the group or others may write it, and if anyone may execute it
pub record Metadata : Type 0 where
  pub is_regular : Bool
  pub uid : ℕ
  pub written_by_others : Bool
  pub executable : Bool

-- `_trusted_executable`, which the constructors of both authorizers call
unfoldable pub trusted_executable : Result Metadata → ℕ → Result (Unit {0})
trusted_executable (err _) expected_uid = err "pkcheck executable is unavailable"
trusted_executable (ok m) expected_uid =
    raise_if
      (not m.is_regular || not (m.uid == expected_uid) || m.written_by_others || not m.executable)
      "pkcheck executable ownership or mode is unsafe"

-- `POLKIT_ACTION_IDS`
abbrev pub polkit_action_ids : List String
polkit_action_ids =
    "org.lsmf.helper.audit" ∷ "org.lsmf.helper.verify-module" ∷ "org.lsmf.helper.apply-module"
    ∷ "org.lsmf.helper.apply-modules" ∷ "org.lsmf.helper.rollback-backup" ∷ []

-- `polkit_details`, in the order of `sorted`; the two `_safe` checks are those that the peer's
-- constructor has made
unfoldable pub sorted_details : RequestBinding → List (String × List ℕ)
sorted_details binding =
    ("action", codes (action_value binding.action))
    ∷ ("caller_pid", decimal binding.peer.pid)
    ∷ ("caller_uid", decimal binding.peer.uid)
    ∷ ("parameter_digest", codes binding.parameter_digest)
    ∷ ("request_id", codes binding.request_id)
    ∷ ("seat_id", codes binding.peer.seat_id)
    ∷ ("session_id", codes binding.peer.session_id)
    ∷ []

abbrev detail_arguments : List (String × List ℕ) → List (List ℕ)
detail_arguments [] = []
detail_arguments ((key, value) ∷ rest) =
    codes "--detail" ∷ codes key ∷ value ∷ detail_arguments rest

-- `subject` in `_pkcheck_argv`
unfoldable pub subject : RequestBinding → ℕ → List ℕ
subject binding start_time =
    decimal binding.peer.pid ++ (b',' ∷ (decimal start_time ++ (b',' ∷ decimal binding.peer.uid)))

-- `_pkcheck_argv`
unfoldable pub pkcheck_argv : List ℕ → String → RequestBinding → ℕ → List (List ℕ)
unfolding subject sorted_details
pkcheck_argv executable authorization_id binding start_time =
    executable
    ∷ codes "--action-id"
    ∷ codes authorization_id
    ∷ codes "--process"
    ∷ subject binding start_time
    ∷ codes "--allow-user-interaction"
    ∷ detail_arguments (sorted_details binding)

-- What a call of `authorize` ends with.
pub data Outcome : Type 0 where
  verdict : Bool → Outcome
  adapter_error : String → Outcome  -- AuthorizationAdapterError
  cancelled : Outcome  -- asyncio.CancelledError
  other_error : String → Outcome

-- what `runner` returns or raises: a return code, an OSError or SubprocessError (a time-out too),
-- or anything else
pub data Ran : Type 0 where
  exited : ℤ → Ran
  failed : Ran
  raised : String → Ran

-- What is answered during one call: the text of `/proc/PID/stat` before the program runs, the run,
-- and the same text after.
pub record Answers : Type 0 where
  pub stat_before : Result (List ℕ)
  pub run : List (List ℕ) → Ran
  pub stat_after : Result (List ℕ)

abbrev pub timed : Result ℕ → (ℕ → Outcome) → Outcome
timed (err message) rest = adapter_error message
timed (ok start_time) rest = rest start_time

-- what both authorizers make of a return code
unfoldable pub judge : ℤ → ℕ → Result ℕ → Outcome
judge (ℤ.pos code) start_time again =
    if code == 0
    then timed again (λ now.
      if now == start_time
      then verdict true
      else adapter_error "authorized process identity changed")
    else if code == 1
    then verdict false
    else adapter_error "Polkit returned an indeterminate result"
judge (ℤ.negsuc code) start_time again = adapter_error "Polkit returned an indeterminate result"

abbrev pub judge_run : Ran → ℕ → Result ℕ → Outcome
judge_run (exited code) start_time again = judge code start_time again
judge_run failed start_time again = adapter_error "Polkit authorization failed closed"
judge_run (raised message) start_time again = other_error message

-- `PkcheckAuthorizer.authorize`
unfoldable pub authorize : List ℕ → Answers → String → RequestBinding → Outcome
unfolding judge
authorize executable answers authorization_id binding =
    if mem authorization_id polkit_action_ids
    then timed (process_start_time binding.peer.pid answers.stat_before) (λ start_time.
      judge_run (answers.run (pkcheck_argv executable authorization_id binding start_time))
        start_time (process_start_time binding.peer.pid answers.stat_after))
    else adapter_error "authorization ID is not allowlisted"
