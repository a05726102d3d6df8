-- ===== src/Relay/Jobs/Tests.antt =====
-- Concrete runs of the job store: two callers, one job each.
use home_inference_server.Prelude.{
  At, here, Bool, true, false, ◌<◌, none, some, [], ◌∷◌, String, str_eq, str_eq_iff, ◌≡◌, ◌≢◌, refl,
  arith,
}
use home_inference_server.Relay.Jobs.{
  pending, done, failed, Job, Jobs, ok, err, enqueue, cancel_pending, sweep_expired, try_claim_one,
  claimed, claim, timed_out, added, not_found, AckRequest, ack, get_result, count_pending,
}
use home_inference_server.Relay.Jobs.Lifecycle.{
  TableOk, enqueues, claims, sweeps, Reach, empty, next, Reach-TableOk,
}
use home_inference_server.Relay.Jobs.Claims.{Handed, try_claim_one-Handed}
use home_inference_server.Relay.Jobs.Spent.{Run, stays, goes, spent_forever}
use home_inference_server.Relay.Jobs.Isolation.{rows_of, after, rows_of-isolated, ack-ack}

abbrev any_text : String → Bool
any_text t = true

abbrev request : String → String → Job
request id identity = record {
  id = id;
  correlation_id = "c";
  status = pending;
  payload = "{}";
  result_payload = none;
  error_code = none;
  created_at = 0;
  claimed_at = none;
  finished_at = none;
  attempt_count = 0;
  max_attempts = 1;
  identity = identity;
}

-- Ann's job enters at 5, Bob's at 7.
abbrev ann_waits : Job
ann_waits = record (request "a" "ann") { created_at = 5 }

abbrev bob_waits : Job
bob_waits = record (request "b" "bob") { created_at = 7 }

abbrev waiting : Jobs
waiting = ann_waits ∷ bob_waits ∷ []

-- Ann's job is claimed at 10 and its worker never acks.
abbrev ann_runs : Job
ann_runs = claimed 10 ann_waits

abbrev running : Jobs
running = ann_runs ∷ bob_waits ∷ []

-- After the visibility timeout it waits again, with its one attempt used.
abbrev ann_spent : Job
ann_spent = record ann_runs { status = pending; claimed_at = none }

abbrev swept : Jobs
swept = ann_spent ∷ bob_waits ∷ []

enqueue_a : enqueue any_text 5 (request "a" "ann") [] ≡ ok (ann_waits ∷ [])
unfolding enqueue
enqueue_a = refl

enqueue_b : enqueue any_text 7 (request "b" "bob") (ann_waits ∷ []) ≡ ok waiting
unfolding enqueue
enqueue_b = refl

claim_oldest : try_claim_one 10 waiting ≡ (some ann_runs, running)
unfolding try_claim_one
claim_oldest = refl

sweep_a : sweep_expired 120_011 running ≡ swept
unfolding sweep_expired
sweep_a = refl

cancel_foreign : cancel_pending "a" "bob" waiting ≡ err not_found
unfolding cancel_pending
cancel_foreign = refl

-- Three rounds of a claim that waits: nothing, nothing, and Ann's job, which came meanwhile.
claim_waits :
    claim 0 [] (added 3 (λ t. t) (added 10 (λ t. waiting) timed_out)) ≡ (some ann_runs, running)
unfolding claim try_claim_one sweep_expired
claim_waits = refl

abbrev reach_swept : Reach any_text (sweep_expired 120_011 (try_claim_one 10 waiting).1)
reach_swept =
    next
      (next
        (next (next empty (enqueues 5 (request "a" "ann") enqueue_a))
          (enqueues 7 (request "b" "bob") enqueue_b))
        (claims 10))
      (sweeps 120_011)

Reach-TableOk_example : TableOk (sweep_expired 120_011 (try_claim_one 10 waiting).1)
Reach-TableOk_example = Reach-TableOk reach_swept

try_claim_one-Handed_example : Handed 10 waiting (try_claim_one 10 waiting).0
try_claim_one-Handed_example = try_claim_one-Handed 10 waiting

abbrev swept_ok : TableOk swept
swept_ok = record {
  rows = ((omega arith, (refl, refl)), ((omega arith, (refl, refl)), tt));
  keys = ((refl, tt), (tt, tt));
}

-- The next claim takes Bob's job, never Ann's.
abbrev served : Run ann_spent any_text swept (try_claim_one 120_020 swept).1
served = goes stays (claims 120_020) tt

spent_forever_example :
    At ann_spent (try_claim_one 120_020 swept).1
    × (0 < count_pending (try_claim_one 120_020 swept).1)
spent_forever_example =
    spent_forever ann_spent any_text swept (try_claim_one 120_020 swept).1 swept_ok
      (refl, omega arith) here served

claim_b : (try_claim_one 120_030 swept).0 ≡ some (claimed 120_030 bob_waits)
unfolding try_claim_one
claim_b = refl

clash : (b : Bool) → b ≡ true → b ≡ false → ⊥
clash b p q = cc

abbrev ann : String
ann = "ann"

abbrev bob : String
bob = "bob"

two_callers : bob ≢ ann
two_callers same = clash (str_eq bob ann) ((str_eq_iff bob ann).1 same) refl

rows_of-isolated_example :
    (get_result "a" "bob" waiting ≡ get_result "a" "bob" (rows_of "bob" waiting))
    × (rows_of "ann" (after waiting (cancel_pending "a" "bob" waiting)) ≡ rows_of "ann" waiting)
rows_of-isolated_example = rows_of-isolated "a" "bob" "ann" waiting two_callers

abbrev first_ack : AckRequest
first_ack = record { job_id = "a"; status = done; result_payload = "42"; error_code = "" }

abbrev late_ack : AckRequest
late_ack = record { job_id = "a"; status = failed; result_payload = ""; error_code = "late" }

abbrev answered : Jobs
answered =
    record ann_runs { status = done; result_payload = some "42"; finished_at = some 20 }
    ∷ bob_waits
    ∷ []

ack_first : ack any_text 20 first_ack running ≡ ok (answered, true)
unfolding ack
ack_first = refl

ack_late : ack any_text 30 late_ack answered ≡ ok (answered, false)
unfolding ack
ack_late = refl

ack-ack_example : answered ≡ answered
ack-ack_example =
    ack-ack any_text 20 30 first_ack late_ack running answered answered true false refl refl
      ack_first ack_late
