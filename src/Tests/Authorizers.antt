-- ===== src/Tests/Authorizers.antt =====
-- pkcheck asked about a desktop program whose command has an awkward name.
use lsmf.Base.{ℕ, ◌≡◌, ◌↔◌, refl, true, false, List, [], ◌∷◌, ◌++◌, none, ℤ, arith}
use lsmf.Base.Results.{ok}
use lsmf.Base.Decimal.{decimal}
use lsmf.Base.Text.{codes}
use lsmf.Peer.Identity.{Action, RequestBinding}
use lsmf.Authorization.ProcessTime.{process_start_time}
use lsmf.Authorization.ProcessTime.Laws.{spaced, process_start_time-spaced}
use lsmf.Authorization.Pkcheck
use lsmf.Authorization.Pkcheck.{verdict, authorize, pkcheck_argv, credentials}
use lsmf.Authorization.Pkcheck.Laws.{HasGrounds, authorize_iff}
use lsmf.Authorization.AsyncPkcheck.{
  sent, Child, exited, timed_out, child, Answers, terminated, killed, reaped, async_authorize, stop,
}
use lsmf.Authorization.AsyncPkcheck.Refinement.{verdict_of, as_run, async_authorize-refines}
use lsmf.Authorization.AsyncPkcheck.Cleanup.{IsEnded, async_authorize-IsEnded}

abbrev binding : RequestBinding
binding = record {
  request_id = "3f2a1c9e-5b7d-4e21-9c3a-0a1b2c3d4e5f";
  action = Action.audit;
  parameter_digest = "0123456789abcdef0123456789abcdef0123456789abcdef0123456789abcdef";
  peer = record {
    pid = 4711;
    uid = 1000;
    unique_owner = ":1.42";
    session_id = "c2";
    seat_id = "seat0";
  };
}

-- the state and eighteen numbers before the start time, and two after
abbrev fields : List (List ℕ)
fields =
    codes "S"
    ∷ codes "1"
    ∷ codes "4711"
    ∷ codes "4711"
    ∷ codes "0"
    ∷ codes "-1"
    ∷ codes "4194304"
    ∷ codes "100"
    ∷ codes "0"
    ∷ codes "0"
    ∷ codes "0"
    ∷ codes "5"
    ∷ codes "3"
    ∷ codes "0"
    ∷ codes "0"
    ∷ codes "20"
    ∷ codes "0"
    ∷ codes "1"
    ∷ codes "0"
    ∷ codes "8812"
    ∷ codes "4096"
    ∷ codes "7"
    ∷ []

-- a command named `a) S 1 2 (b`, which tries to look like fields
abbrev front : List ℕ
front = codes "4711 (a) S 1 2 (b"

abbrev stat_text : List ℕ
stat_text = front ++ b')' ∷ spaced fields

decimal_8812 : decimal 8812 ≡ codes "8812"
unfolding decimal
decimal_8812 = refl

process_start_time-spaced_example : process_start_time 4711 (ok stat_text) ≡ ok 8812
unfolding decimal spaced
process_start_time-spaced_example =
    process_start_time-spaced 4711 8812 front fields (omega arith) (omega arith) refl (ground arith)
      refl

abbrev answers : Pkcheck.Answers
answers = record {
  stat_before = ok stat_text;
  run = λ argv. Pkcheck.exited (ℤ.pos 0);
  stat_after = ok stat_text;
}

abbrev pkcheck : List ℕ
pkcheck = codes "/usr/bin/pkcheck"

authorize_iff_example :
    (authorize pkcheck answers "org.lsmf.helper.audit" binding ≡ verdict true)
    ↔ HasGrounds pkcheck answers "org.lsmf.helper.audit" binding true
authorize_iff_example = authorize_iff pkcheck answers "org.lsmf.helper.audit" binding true

consent : authorize pkcheck answers "org.lsmf.helper.audit" binding ≡ verdict true
consent =
    authorize_iff_example.1
      (refl, 8812, process_start_time-spaced_example, refl, λ _. process_start_time-spaced_example)

-- the user does not answer in time, and pkcheck does not end when it is asked to
abbrev stubborn : Child
stubborn = record {
  waited = timed_out;
  has_returned = false;
  to_terminate = sent;
  waited_again = timed_out;
  to_kill = sent;
  waited_last = exited (ℤ.negsuc 8);
}

abbrev unanswered : Answers
unanswered = record {
  stat_before = ok stat_text;
  spawn = λ argv. child stubborn;
  stat_after = ok stat_text;
}

stopped : stop stubborn ≡ (terminated ∷ killed ∷ reaped (ℤ.negsuc 8) ∷ [], none)
unfolding stop
stopped = refl

async_authorize-refines_example :
    verdict_of (async_authorize pkcheck unanswered "org.lsmf.helper.audit" binding).1
    ≡ verdict_of (authorize pkcheck (as_run unanswered) "org.lsmf.helper.audit" binding)
async_authorize-refines_example =
    async_authorize-refines pkcheck unanswered "org.lsmf.helper.audit" binding

async_authorize-IsEnded_example :
    IsEnded unanswered.spawn (async_authorize pkcheck unanswered "org.lsmf.helper.audit" binding)
async_authorize-IsEnded_example =
    async_authorize-IsEnded pkcheck unanswered "org.lsmf.helper.audit" binding
