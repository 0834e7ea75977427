-- ===== src/Authorization/Pkcheck/Laws.antt =====
-- When the authorizer gives a verdict.
use lsmf.Base.{
  ℕ, zero, suc, String, Bool, true, false, List, [], ◌∷◌, ◌++◌, ◌≡◌, refl, ◌↔◌, arith, ℤ,
  Bool-cases, inl, inr, ap, sym, ◌∙◌,
}
use lsmf.Base.Results.{Result, ok, err}
use lsmf.Base.Dict.{mem}
use lsmf.Base.Decimal.{decimal}
use lsmf.Base.Text.{codes}
use lsmf.Peer.Identity.{RequestBinding, action_value}
use lsmf.Authorization.ProcessTime.{process_start_time}
use lsmf.Authorization.Pkcheck.{
  verdict, Answers, Ran, exited, failed, raised, authorize, judge, judge_run, timed, subject,
  sorted_details, pkcheck_argv, polkit_action_ids,
}

-- the return code of pkcheck that stands for an answer
abbrev pub code_of : Bool → ℕ
code_of true = 0
code_of false = 1

-- The command that asks pkcheck for a consent, from the request that is bound to its peer: about the
-- process that is named by its PID, its start time and its user, with the details sorted by key.
abbrev pub question : List ℕ → String → RequestBinding → ℕ → List (List ℕ)
question executable authorization_id binding start_time =
    let peer = binding.peer in
    let process =
      decimal peer.pid ++ (codes "," ++ (decimal start_time ++ (codes "," ++ decimal peer.uid))) in
    let detail = codes "--detail" in
    (executable ∷ codes "--action-id" ∷ codes authorization_id ∷ codes "--process" ∷ process ∷ [])
    ++ (codes "--allow-user-interaction" ∷ [])
    ++ (detail ∷ codes "action" ∷ codes (action_value binding.action) ∷ [])
    ++ (detail ∷ codes "caller_pid" ∷ decimal peer.pid ∷ [])
    ++ (detail ∷ codes "caller_uid" ∷ decimal peer.uid ∷ [])
    ++ (detail ∷ codes "parameter_digest" ∷ codes binding.parameter_digest ∷ [])
    ++ (detail ∷ codes "request_id" ∷ codes binding.request_id ∷ [])
    ++ (detail ∷ codes "seat_id" ∷ codes peer.seat_id ∷ [])
    ++ (detail ∷ codes "session_id" ∷ codes peer.session_id ∷ [])

pkcheck_argv_eq :
    (executable : List ℕ) (authorization_id : String) (binding : RequestBinding) (start_time : ℕ)
    → pkcheck_argv executable authorization_id binding start_time
      ≡ question executable authorization_id binding start_time
unfolding pkcheck_argv subject sorted_details
pkcheck_argv_eq executable authorization_id binding start_time = refl

-- The grounds of a verdict: the ID is one of LSMF's, the PID named a process, pkcheck ended with
-- the verdict's code when it was asked about the process of this PID, start time and user, and if
-- it consented, then the PID names the same process after.
abbrev pub HasGrounds : List ℕ → Answers → String → RequestBinding → Bool → Type 0
HasGrounds executable answers authorization_id binding b =
    (mem authorization_id polkit_action_ids ≡ true)
    × (start_time : ℕ) × (process_start_time binding.peer.pid answers.stat_before ≡ ok start_time)
    × (answers.run (question executable authorization_id binding start_time)
        ≡ exited (ℤ.pos (code_of b)))
    × (b ≡ true → process_start_time binding.peer.pid answers.stat_after ≡ ok start_time)

judge_inv :
    (code : ℤ) (s : ℕ) (again : Result ℕ) (b : Bool)
    → judge code s again ≡ verdict b
    → (code ≡ ℤ.pos (code_of b)) × (b ≡ true → again ≡ ok s)
unfolding judge
judge_inv (ℤ.pos zero) s (err m) b h = cc
judge_inv (ℤ.pos zero) s (ok n) true h = ground arith
judge_inv (ℤ.pos zero) s (ok n) false h = ground arith
judge_inv (ℤ.pos (suc n)) s again true h = ground arith
judge_inv (ℤ.pos (suc n)) s again false h = ground arith
judge_inv (ℤ.negsuc n) s again b h = cc

judge_verdict :
    (s : ℕ) (again : Result ℕ) (b : Bool)
    → (b ≡ true → again ≡ ok s)
    → judge (ℤ.pos (code_of b)) s again ≡ verdict b
unfolding judge
judge_verdict s again true h = rw (h refl) (ground arith)
judge_verdict s again false h = refl

judge_run_inv :
    (ran : Ran) (s : ℕ) (again : Result ℕ) (b : Bool)
    → judge_run ran s again ≡ verdict b
    → (ran ≡ exited (ℤ.pos (code_of b))) × (b ≡ true → again ≡ ok s)
judge_run_inv (exited code) s again b h =
    (ap exited (judge_inv code s again b h).0, (judge_inv code s again b h).1)
judge_run_inv failed s again b h = cc
judge_run_inv (raised m) s again b h = cc

module _ (executable : List ℕ) (answers : Answers) (authorization_id : String)
    (binding : RequestBinding) (b : Bool) where
  timed_inv :
      (before : Result ℕ)
      → timed before (λ s.
        judge_run
          (answers.run (pkcheck_argv executable authorization_id binding s))
          s
          (process_start_time binding.peer.pid answers.stat_after))
        ≡ verdict b
      → (s : ℕ) × (before ≡ ok s)
        × (answers.run (pkcheck_argv executable authorization_id binding s)
            ≡ exited (ℤ.pos (code_of b)))
        × (b ≡ true → process_start_time binding.peer.pid answers.stat_after ≡ ok s)
  timed_inv (err m) h = cc
  timed_inv (ok s) h = let (ran, again) = judge_run_inv _ s _ b h in (s, refl, ran, again)

  grounds :
      authorize executable answers authorization_id binding ≡ verdict b
      → HasGrounds executable answers authorization_id binding b
  unfolding authorize
  grounds h = elim (Bool-cases (mem authorization_id polkit_action_ids)) [
    | inl listed ↦
        let (s, before, ran, again) = timed_inv _ (rw listed at h) in
        (
          listed,
          s,
          before,
          ap answers.run (sym (pkcheck_argv_eq executable authorization_id binding s)) ∙ ran,
          again,
        )
    | inr unlisted ↦ cc
  ]

  judged :
      HasGrounds executable answers authorization_id binding b
      → authorize executable answers authorization_id binding ≡ verdict b
  unfolding authorize
  judged (listed, s, before, ran, again) = rw (
    listed,
    before,
    pkcheck_argv_eq executable authorization_id binding s,
    ran,
    judge_verdict s _ b again,
  )

  -- `PkcheckAuthorizer.authorize` consents exactly if the authorization's ID is one of LSMF's, the
  -- peer's PID named a process, pkcheck ended with 0 when it was asked, by the command written out
  -- in `question`, about the process of this PID, start time and user, and the PID names a process of the same start time after. It refuses
  -- exactly if the same holds with 1 in place of 0, whatever the PID names after.
  pub authorize_iff :
      (authorize executable answers authorization_id binding ≡ verdict b)
      ↔ HasGrounds executable answers authorization_id binding b
  authorize_iff = (grounds, judged)
