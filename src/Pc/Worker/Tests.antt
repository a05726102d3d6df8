-- ===== src/Pc/Worker/Tests.antt =====
-- One job of the relay, taken, run and acked.
use home_inference_server.Prelude.{
  ◌*◌, ◌<◌, Bool, true, false, not, none, some, [], ◌∷◌, String, str_eq, ◌==◌, All, ◌≡◌, refl,
  arith,
}
use home_inference_server.Prelude.Int.{pos, ltb_ℤ}
use home_inference_server.Relay.Jobs.{
  processing, is_processing, done, visibility_timeout, AckRequest, Job, Jobs, ok, ack,
}
use home_inference_server.Pc.Api.{InferRequest, Response, answers}
use home_inference_server.Pc.Infer.{milliseconds}
use home_inference_server.Pc.Worker.{
  max_job_wait, Net, ack_with_retry, job_wait, Codec, accepted, result, Work, process_job,
}
use home_inference_server.Pc.Worker.Deadlines.{Waits, job_wait-Waits}
use home_inference_server.Pc.Worker.Closes.{process_job-closes}

abbrev hello : InferRequest
hello = record {
  correlation_id = "";
  modality = "text";
  text_input = some (record { prompt = "Hello"; messages = [] });
  vision_input = none;
  max_tokens = pos 20;
  temperature = 0;
  system_prompt = "";
  stream = false;
  timeout_ms = pos 30_000;
  priority = "normal";
  min_tier = "mid";
  preferred_tier = "";
  response_format = none;
  tools = [];
  reasoning = "off";
}

abbrev codec : Codec
codec = record {
  decode_base64 = λ s. none;
  decode_request = λ s. some hello;
  encode_response = λ r. "{}";
  encode_error = λ code message correlation. "{}";
}

abbrev is_object : String → Bool
is_object s = str_eq s "{}"

-- The first POST of the ack is lost.
abbrev flaky : Net
flaky = record { posted = λ n. not (n == 0); done_after = λ n. false; done_asleep = λ n. false }

abbrev good : Response
good = record {
  output = "Hi.";
  tokens_generated = 2;
  reasoning = "";
  model_tier = "mid";
  quality_degraded = false;
  tool_calls = [];
  length_limited = false;
}

abbrev work : Work
work = record {
  request_id = "r1";
  enqueued_at = 0;
  finished_at = 2_000_000;
  accept = λ wait req. accepted;
  finish = λ wait req. result (answers good);
  net = flaky;
}

abbrev taken : Job
taken = record {
  id = "job-1";
  correlation_id = "c1";
  status = processing;
  payload = "{}";
  result_payload = none;
  error_code = none;
  created_at = 0;
  claimed_at = some 1;
  finished_at = none;
  attempt_count = 1;
  max_attempts = 3;
  identity = "owner";
}

-- The second POST gets through, after a second's sleep.
two_posts : ack_with_retry flaky ≡ record { acked = true; posts = 2; slept = 1_000_000_000 }
unfolding ack_with_retry
two_posts = refl

-- A timeout of 9300000000000 ms gives a job no time.
negative_wait : ltb_ℤ (job_wait (pos 9_300_000_000_000)) (pos 0) ≡ true
unfolding job_wait milliseconds
negative_wait = refl

job_wait-Waits_example :
    Waits 30_000 (job_wait (pos 30_000))
    × (ltb_ℤ (pos max_job_wait) (job_wait (pos 30_000)) ≡ false)
    × (max_job_wait < visibility_timeout * 1_000_000)
job_wait-Waits_example = job_wait-Waits 30_000 (omega arith)

abbrev final_ack : AckRequest
final_ack = record { job_id = "job-1"; status = done; result_payload = "{}"; error_code = "" }

sends_final : (process_job codec work taken).sent ≡ some final_ack
unfolding process_job
sends_final = refl

process_job-closes_example :
    (t : Jobs) × (updated : Bool) × (ack is_object 9 final_ack (taken ∷ []) ≡ ok (t, updated))
    × All (λ j. str_eq j.id "job-1" ≡ true → is_processing j.status ≡ false) t
process_job-closes_example =
    process_job-closes codec work taken is_object (λ r. refl) (λ code message correlation. refl) 9
      (taken ∷ []) final_ack sends_final
