-- ===== src/Relay/Server/Tests.antt =====
-- Requests at a relay whose queue holds two jobs at most.
use home_inference_server.Prelude.{ℕ, true, false, none, some, List, [], ◌∷◌, String, ◌≡◌, refl}
use home_inference_server.Prelude.Int.{pos}
use home_inference_server.Relay.Jobs.{
  pending, done, Job, enqueue, count_pending, try_claim_one, sweep_expired, claimed,
}
use home_inference_server.Relay.Gate.{Config}
use home_inference_server.Relay.Server.{
  Relay, increment_usage, seen, note_seen, decoded, EnqueueRequest, AckBody, created, error,
  claim_response, Outage, Moment, attempts_of, job_of, handle_enqueue, claim_look, handle_claim,
}
use home_inference_server.Relay.Server.Intake.{Intake, handle_enqueue-Intake}
use home_inference_server.Relay.Server.Refinement.{
  Call, enqueue_call, claim_call, ack_call, cancel_call, result_call,
}

abbrev config : Config
config = record {
  static_api_key = "owner-key";
  has_verifier = false;
  rate_per_min = 10;
  daily_quota = 200;
  max_pending_depth = 1;
}

abbrev works : Outage
works = record { reads = false; writes = false; claims = false; counter = false }

abbrev at_time : ℕ → String → Moment
at_time t id = record {
  now = t;
  db_now = t;
  today = 1;
  new_id = id;
  json_valid = λ _. true;
  outage = works;
}

abbrev nothing_yet : Relay
nothing_yet = record { jobs = []; usage = []; oldest = none; last_seen = none }

abbrev question : EnqueueRequest
question = record { correlation_id = "c"; payload = "{}"; max_attempts = pos 0 }

abbrev waiting_job : Job
waiting_job = record {
  id = "a";
  correlation_id = "c";
  status = pending;
  payload = "{}";
  result_payload = none;
  error_code = none;
  created_at = 5;
  claimed_at = none;
  finished_at = none;
  attempt_count = 0;
  max_attempts = 3;
  identity = "ann";
}

abbrev one_waits : Relay
one_waits = record {
  jobs = waiting_job ∷ [];
  usage = record { identity = "ann"; day = 1; count = 1 } ∷ [];
  oldest = none;
  last_seen = none;
}

enqueue_first :
    handle_enqueue config (at_time 5 "a") "ann" (decoded question) nothing_yet
    ≡ (created "a", one_waits)
unfolding handle_enqueue count_pending enqueue job_of attempts_of increment_usage
enqueue_first = refl

enqueue_full :
    handle_enqueue config (at_time 6 "b") "bob" (decoded question) one_waits
    ≡ (error 503 "queue_full", one_waits)
unfolding handle_enqueue count_pending
enqueue_full = refl

claim_first : handle_claim (at_time 9 "-") (decoded (record { worker_id = "pc" })) one_waits ≡ (
  claim_response (some (claimed 9 waiting_job)),
  record one_waits { jobs = claimed 9 waiting_job ∷ []; last_seen = some 9 },
)
unfolding handle_claim claim_look try_claim_one sweep_expired note_seen seen
claim_first = refl

handle_enqueue-Intake_example :
    Intake config
      (at_time 5 "a")
      "ann"
      nothing_yet
      (handle_enqueue config (at_time 5 "a") "ann" (decoded question) nothing_yet)
handle_enqueue-Intake_example =
    handle_enqueue-Intake config (at_time 5 "a") "ann" nothing_yet (decoded question)

abbrev ack_body : AckBody
ack_body = record { job_id = "a"; status = some done; result_payload = "1"; error_code = "" }

abbrev day : List (Moment × Call)
day =
    (at_time 5 "a", enqueue_call "ann" (decoded question))
    ∷ (at_time 6 "b", enqueue_call "bob" (decoded question))
    ∷ (at_time 9 "-", claim_call (decoded (record { worker_id = "pc" })))
    ∷ (at_time 20 "-", ack_call (decoded ack_body))
    ∷ (at_time 21 "-", result_call "ann" "a")
    ∷ (at_time 22 "-", cancel_call "bob" "a")
    ∷ []
