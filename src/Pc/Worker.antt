-- ===== src/Pc/Worker.antt =====
-- internal/remote/client.go: the worker of the PC, which claims the relay's jobs, runs each through the
-- local queue and acks it.
--
-- Durations are nanoseconds, as in Go. The network, the queue and the context's cancellation are the
-- records `Net` and `Work`, and one `Turn` for each round of the loop; JSON's encoding and decoding are
-- the record `Codec`.
pub mod Retries
pub mod Deadlines
pub mod Acked
pub mod Closes
pub mod Loop
mod Tests
use home_inference_server.Prelude.{
  ℕ, zero, suc, ◌+◌, ◌*◌, min, Bool, true, false, ◌&&◌, Option, none, some, List, [], ◌∷◌, ◌++◌,
  String, str_eq, if◌then◌else◌, ◌==◌,
}
use home_inference_server.Prelude.Int.{ℤ, pos, ltb_ℤ}
use home_inference_server.Relay.Jobs.{done, failed, AckRequest, Job}
use home_inference_server.Pc.Api.{
  InferRequest, Request, Response, Failure, backend_error, other_error, Run, answers, fails,
  error_text,
}
use home_inference_server.Pc.Infer.{is_blank, milliseconds, translate_infer_request}
use home_inference_server.Pc.Jobs.{JobEntry, InferResponse, millis_between}

abbrev pub backoff_min : ℕ
backoff_min = 1_000_000_000

abbrev pub backoff_max : ℕ
backoff_max = 30_000_000_000

abbrev pub max_job_wait : ℕ
max_job_wait = 100_000_000_000

abbrev pub ack_retries : ℕ
ack_retries = 3

abbrev pub next_backoff : ℕ → ℕ
next_backoff backoff = min (backoff * 2) backoff_max

-- What the k-th POST of an ack comes to, and whether the context is done right after it or during the
-- sleep that follows.
pub record Net : Type 0 where
  pub posted : ℕ → Bool
  pub done_after : ℕ → Bool
  pub done_asleep : ℕ → Bool

-- How `ackWithRetry` ends: with an ack or an error, after so many POSTs and so long a sleep.
pub record AckEnd : Type 0 where
  pub acked : Bool
  pub posts : ℕ
  pub slept : ℕ

-- `left` attempts are left, the next is number `attempt`.
retry : Net → ℕ → ℕ → ℕ → ℕ → AckEnd
retry net zero attempt backoff slept = record { acked = false; posts = attempt; slept = slept }
retry net (suc left) attempt backoff slept =
    let again = retry net left (attempt + 1) (next_backoff backoff) (slept + backoff) in
    let lost : AckEnd = record { acked = false; posts = attempt + 1; slept = slept } in
    if net.posted attempt
    then record { acked = true; posts = attempt + 1; slept = slept }
    else if net.done_after attempt
    then lost
    else if left == 0
    then lost
    else if net.done_asleep attempt
    then lost
    else again

pub ack_with_retry : Net → AckEnd
unfolding retry
ack_with_retry net = retry net ack_retries 0 backoff_min 0

-- The bound on a job's wait: the caller's timeout, if it is given and shorter. The product wraps.
pub job_wait : ℤ → ℤ
job_wait timeout_ms =
    if ltb_ℤ (pos 0) timeout_ms && ltb_ℤ (milliseconds timeout_ms) (pos max_job_wait)
    then milliseconds timeout_ms
    else pos max_job_wait

pub record Codec : Type 0 where
  pub decode_base64 : String → Option (List ℕ)
  pub decode_request : String → Option InferRequest
  pub encode_response : InferResponse → String
  pub encode_error : String → String → String → String

-- How `Enqueue` on the local queue ends, and what the wait for the result ends by.
pub data Accept : Type 0 where
  accepted : Accept
  shutdown_at_queue : Accept
  refused_by_queue : Accept

pub data Finish : Type 0 where
  result : Run → Finish
  shutdown_in_wait : Finish
  expired : Finish

pub record Work : Type 0 where
  pub request_id : String
  pub enqueued_at : ℕ
  pub finished_at : ℕ
  pub accept : ℤ → Request → Accept
  pub finish : ℤ → Request → Finish
  pub net : Net

-- What a job leaves: the ack that is sent, with how its sending ended, and the entry for the history.
pub record Processed : Type 0 where
  pub sent : Option AckRequest
  pub ack_end : AckEnd
  pub entry : Option JobEntry

-- `ackFailed` posts once.
abbrev pub once : Net → AckEnd
once net = record { acked = net.posted 0; posts = 1; slept = 0 }

abbrev pub unsent : AckEnd
unsent = record { acked = false; posts = 0; slept = 0 }

module _ (codec : Codec) (w : Work) (job : Job) where
  fail_request : String → String → AckRequest
  fail_request error_code payload = record {
    job_id = job.id;
    status = failed;
    result_payload = payload;
    error_code = error_code;
  }

  -- `ackFailed` with no body of its own.
  fail_plainly : String → String → Processed
  unfolding fail_request
  fail_plainly correlation_id error_code = record {
    sent = some (fail_request error_code (codec.encode_error error_code "" correlation_id));
    ack_end = once w.net;
    entry = none;
  }

  nothing_sent : Processed
  nothing_sent = record { sent = none; ack_end = unsent; entry = none }

  pub code_of : Failure → String
  code_of (backend_error code message cause) = code
  code_of (other_error text) = "internal_error"

  offline_entry : InferRequest → String → String → ℕ → String → JobEntry
  offline_entry req status model_tier tokens error_code = record {
    request_id = w.request_id;
    correlation_id = req.correlation_id;
    source = "offline_queue";
    status = status;
    modality = req.modality;
    model_tier = model_tier;
    priority = req.priority;
    min_tier = req.min_tier;
    enqueued_at = w.enqueued_at;
    started_at = some w.enqueued_at;
    finished_at = some w.finished_at;
    duration_ms = millis_between w.enqueued_at w.finished_at;
    queue_wait_ms = pos 0;
    inference_ms = pos 0;
    tokens_generated = tokens;
    deferred = false;
    error_code = error_code;
  }

  response_of : InferRequest → Response → InferResponse
  response_of req resp = record {
    request_id = w.request_id;
    correlation_id = req.correlation_id;
    modality = req.modality;
    output = resp.output;
    reasoning = resp.reasoning;
    tokens_generated = resp.tokens_generated;
    queue_wait_ms = pos 0;
    inference_ms = pos 0;
    duration_ms = millis_between w.enqueued_at w.finished_at;
    model_tier = resp.model_tier;
    finished_at = w.finished_at;
    tool_calls = [];
    truncated = false;
  }

  ran : InferRequest → Run → Processed
  unfolding fail_request code_of error_text offline_entry response_of
  ran req (fails e) = record {
    sent = some (
        fail_request (code_of e)
          (codec.encode_error (code_of e) (error_text e) req.correlation_id));
    ack_end = once w.net;
    entry = some (offline_entry req "failed" "" 0 (code_of e));
  }
  ran req (answers resp) = record {
    sent = some (record {
      job_id = job.id;
      status = done;
      result_payload = codec.encode_response (response_of req resp);
      error_code = "";
    });
    ack_end = ack_with_retry w.net;
    entry = some (offline_entry req "done" resp.model_tier resp.tokens_generated "");
  }

  waited : InferRequest → Finish → Processed
  unfolding ran fail_plainly nothing_sent
  waited req (result run) = ran req run
  waited req shutdown_in_wait = nothing_sent
  waited req expired = fail_plainly req.correlation_id "timeout"

  queued : InferRequest → Request → ℤ → Accept → Processed
  unfolding waited
  queued req breq wait accepted = waited req (w.finish wait breq)
  queued req breq wait shutdown_at_queue = nothing_sent
  queued req breq wait refused_by_queue = fail_plainly req.correlation_id "overloaded"

  abbrev pub correlated : InferRequest → InferRequest
  correlated req =
      if is_blank req.correlation_id
      then record req { correlation_id = job.correlation_id }
      else req

  run_request : InferRequest → Processed
  unfolding queued
  run_request req =
      queued req (translate_infer_request codec.decode_base64 req w.request_id)
        (job_wait req.timeout_ms)
        (w.accept (job_wait req.timeout_ms)
          (translate_infer_request codec.decode_base64 req w.request_id))

  decoded : Option InferRequest → Processed
  unfolding run_request
  decoded none = fail_plainly job.correlation_id "invalid_request"
  decoded (some req) = run_request (correlated req)

  pub process_job : Processed
  unfolding decoded
  process_job = decoded (codec.decode_request job.payload)

-- The client: the pause flag, the channel that wakes a pause (which holds one signal), the backoff, and
-- the jobs that it has taken.
pub record Client : Type 0 where
  pub paused : Bool
  pub resume_signal : Bool
  pub backoff : ℕ
  pub taken : List Job

unfoldable pub pause : Client → Client
pause c = record c { paused = true }

unfoldable pub resume : Client → Client
resume c = if c.paused then record c { paused = false; resume_signal = true } else c

pub data Claim : Type 0 where
  claim_fails : Claim
  no_job : Claim
  claimed : Job → Claim

-- What a round of the loop meets: the context done at its start, in a sleep or after a claim's error, and
-- what the claim comes to.
pub record Turn : Type 0 where
  pub done_first : Bool
  pub done_asleep : Bool
  pub claim : Claim
  pub done_after : Bool

pub data Round : Type 0 where
  ends : Client → Round
  goes_on : Client → Round

-- A sleep in a pause ends by the signal, which it takes, or by the tick.
paused_round : Turn → Client → Round
paused_round t c = if t.done_asleep then ends c else goes_on (record c { resume_signal = false })

claimed_round : Turn → Claim → Client → Round
claimed_round t claim_fails c =
    if t.done_after
    then ends c
    else if t.done_asleep
    then ends c
    else goes_on (record c { backoff = next_backoff c.backoff })
claimed_round t no_job c = goes_on (record c { backoff = backoff_min })
claimed_round t (claimed job) c =
    goes_on (record c { backoff = backoff_min; taken = c.taken ++ job ∷ [] })

unfoldable pub round : Turn → Client → Round
unfolding paused_round claimed_round
round t c =
    if t.done_first
    then ends c
    else if c.paused
    then paused_round t c
    else claimed_round t t.claim c
