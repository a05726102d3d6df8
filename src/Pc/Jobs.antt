-- ===== src/Pc/Jobs.antt =====
-- internal/server/server.go and server_tools.go: how a request is served, or handed to the relay, and
-- what the history keeps of it. Streaming is not modelled.
--
-- Instants are nanoseconds. What the surroundings answer to one request is the record `Scene`: the clock,
-- the memory and CPU readings, the relay, the queue and the pipeline behind it, and the backends.
pub mod Parts
pub mod Accounted
use home_inference_server.Prelude.{
  ℕ, ◌≤◌, Bool, true, false, ◌&&◌, ◌||◌, not, Option, none, some, List, [], ◌∷◌, String, str_eq,
  if◌then◌else◌, leb, take,
}
use home_inference_server.Prelude.Int.{ℤ, pos, sub_ℕ, quot, ltb_ℤ, leb_ℤ}
use home_inference_server.Pc.Api.{
  ToolCallSummary, InferRequest, Request, Response, Failure, backend_error, other_error, Run,
  answers, fails,
}
use home_inference_server.Pc.Tools.{Search, Model, Outcome, run_with_tools}

-- types.JobEntry. An unset time is `none`.
pub record JobEntry : Type 0 where
  pub request_id : String
  pub correlation_id : String
  pub source : String
  pub status : String
  pub modality : String
  pub model_tier : String
  pub priority : String
  pub min_tier : String
  pub enqueued_at : ℕ
  pub started_at : Option ℕ
  pub finished_at : Option ℕ
  pub duration_ms : ℤ
  pub queue_wait_ms : ℤ
  pub inference_ms : ℤ
  pub tokens_generated : ℕ
  pub deferred : Bool
  pub error_code : String

abbrev pub History : Type 0
History = List JobEntry

-- `recordJob`.
abbrev pub job_history_max : ℕ
job_history_max = 200

unfoldable pub record_job : JobEntry → History → History
record_job entry history = take job_history_max (entry ∷ history)

-- api.InferResponse. The token rate is left out.
pub record InferResponse : Type 0 where
  pub request_id : String
  pub correlation_id : String
  pub modality : String
  pub output : String
  pub reasoning : String
  pub tokens_generated : ℕ
  pub queue_wait_ms : ℤ
  pub inference_ms : ℤ
  pub duration_ms : ℤ
  pub model_tier : String
  pub finished_at : ℕ
  pub tool_calls : List ToolCallSummary
  pub truncated : Bool

-- A reply: an error's status, code, message and correlation id; a job's id and where to poll (202); or an
-- answer (200), with the header that marks it degraded or without.
pub data Reply : Type 0 where
  error_reply : ℕ → String → String → String → Reply
  deferred_reply : String → String → Reply
  answer_reply : Bool → InferResponse → Reply

-- What the waiter of the queue is woken by.
pub data Wait : Type 0 where
  result : Run → Option ℕ → Wait
  deadline_exceeded : Wait
  hung_up : Wait

pub record Scene : Type 0 where
  pub enqueued_at : ℕ
  pub started_at : ℕ
  pub finished_at : ℕ
  pub deferred_at : ℕ
  -- Whether a relay is set, the VRAM source with its reading, the CPU's load in hundredths of a percent.
  pub has_relay : Bool
  pub vram : Option (Option ℤ)
  pub cpu : Option ℕ
  -- `json.Marshal` of the request, and the relay's answer.
  pub serialises : Bool
  pub relay_job : Option String
  pub result_url : String → String
  pub queue_takes : Bool
  pub wait : Wait
  pub backends : String → Option Model
  pub search : Search

pub short_of_vram : Option (Option ℤ) → Bool
short_of_vram none = false
short_of_vram (some none) = false
short_of_vram (some (some avail)) =
    if ltb_ℤ avail (pos 0) then false else not (leb_ℤ (pos 500) avail)

pub short_of_cpu : Option ℕ → Bool
short_of_cpu none = false
short_of_cpu (some pct) = not (leb pct 9_000)

unfoldable pub should_defer : Scene → String → Bool
unfolding short_of_vram short_of_cpu
should_defer sc priority =
    if not sc.has_relay
    then false
    else if str_eq priority "high"
    then false
    else short_of_vram sc.vram && short_of_cpu sc.cpu

-- `b.Sub(a).Milliseconds()`.
abbrev pub millis_between : ℕ → ℕ → ℤ
millis_between a b = quot (sub_ℕ b a) (pos 1_000_000)

abbrev pub is_one_of : String → List String → Bool
is_one_of s [] = false
is_one_of s (t ∷ ts) = str_eq s t || is_one_of s ts

unfoldable pub backend_err_to_http_status : String → ℕ
backend_err_to_http_status code =
    if is_one_of code ("invalid_request" ∷ "invalid_modality" ∷ "invalid_grammar" ∷ [])
    then 400
    else if str_eq code "unauthorized"
    then 401
    else if str_eq code "not_found"
    then 404
    else if is_one_of code ("overloaded" ∷ "rate_limited" ∷ "quota_exceeded" ∷ [])
    then 429
    else if str_eq code "timeout"
    then 408
    else if str_eq code "not_implemented"
    then 501
    else if is_one_of code ("model_load_failed" ∷ "unavailable" ∷ "queue_full" ∷ [])
    then 503
    else 500

unfoldable pub failure_reply : Failure → String → Reply
unfolding backend_err_to_http_status
failure_reply (backend_error code message cause) correlation_id =
    error_reply (backend_err_to_http_status code) code message correlation_id
failure_reply (other_error text) correlation_id =
    error_reply 500 "internal_error" text correlation_id

module _ (sc : Scene) (req : InferRequest) (breq : Request) where
  deferred_entry : String → JobEntry
  deferred_entry job_id = record {
    request_id = job_id;
    correlation_id = req.correlation_id;
    source = "offline_queue";
    status = "queued";
    modality = req.modality;
    model_tier = "";
    priority = req.priority;
    min_tier = req.min_tier;
    enqueued_at = sc.deferred_at;
    started_at = none;
    finished_at = none;
    duration_ms = pos 0;
    queue_wait_ms = pos 0;
    inference_ms = pos 0;
    tokens_generated = 0;
    deferred = true;
    error_code = "";
  }

  handed : Option String → History → Reply × History
  unfolding deferred_entry
  handed none history = (
    error_reply 503 "overloaded"
        "under pressure and the offline queue is unreachable — retry shortly" req.correlation_id,
    history,
  )
  handed (some job_id) history =
      (deferred_reply job_id (sc.result_url job_id), record_job (deferred_entry job_id) history)

  -- `none`: the request is to be served here.
  unfoldable pub defer_to_relay : History → Option (Reply × History)
  unfolding handed
  defer_to_relay history =
      if not (should_defer sc req.priority)
      then none
      else if not sc.serialises
      then some (
        error_reply 500 "internal_error" "could not serialise request for deferral"
            req.correlation_id,
        history,
      )
      else some (handed sc.relay_job history)

  -- The entry of a request that was served here, from when it started and how it ended.
  local_entry : ℕ → String → String → ℕ → JobEntry
  local_entry started_at status model_tier tokens = record {
    request_id = breq.request_id;
    correlation_id = req.correlation_id;
    source = "local";
    status = status;
    modality = req.modality;
    model_tier = model_tier;
    priority = req.priority;
    min_tier = req.min_tier;
    enqueued_at = sc.enqueued_at;
    started_at = some started_at;
    finished_at = some sc.finished_at;
    duration_ms = millis_between sc.enqueued_at sc.finished_at;
    queue_wait_ms = millis_between sc.enqueued_at started_at;
    inference_ms = millis_between started_at sc.finished_at;
    tokens_generated = tokens;
    deferred = false;
    error_code = "";
  }

  answered : ℕ → List ToolCallSummary → Response → InferResponse
  answered started_at tool_calls resp = record {
    request_id = breq.request_id;
    correlation_id = req.correlation_id;
    modality = req.modality;
    output = resp.output;
    reasoning = resp.reasoning;
    tokens_generated = resp.tokens_generated;
    queue_wait_ms = millis_between sc.enqueued_at started_at;
    inference_ms = millis_between started_at sc.finished_at;
    duration_ms = millis_between sc.enqueued_at sc.finished_at;
    model_tier = resp.model_tier;
    finished_at = sc.finished_at;
    tool_calls = tool_calls;
    truncated = resp.length_limited;
  }

  -- The end that the blocking path and the path with tools share.
  finish : ℕ → List ToolCallSummary → Run → History → Reply × History
  unfolding local_entry answered
  finish started_at tool_calls (fails e) history = (
    failure_reply e req.correlation_id,
    record_job (local_entry started_at "failed" "" 0) history,
  )
  finish started_at tool_calls (answers resp) history = (
    answer_reply resp.quality_degraded (answered started_at tool_calls resp),
    record_job (local_entry started_at "done" resp.model_tier resp.tokens_generated) history,
  )

  cancelled_entry : JobEntry
  unfolding local_entry
  cancelled_entry = record (local_entry 0 "cancelled" "" 0) {
    started_at = none;
    queue_wait_ms = pos 0;
    inference_ms = pos 0;
  }

  started_or : Option ℕ → ℕ
  started_or none = sc.enqueued_at
  started_or (some t) = t

  waited : Wait → History → Reply × History
  unfolding finish cancelled_entry started_or
  waited (result run started) history = finish (started_or started) [] run history
  waited deadline_exceeded history = (
    error_reply 408 "timeout" "request cancelled or timed out" req.correlation_id,
    record_job cancelled_entry history,
  )
  waited hung_up history = (
    error_reply 503 "unavailable" "request cancelled or timed out" req.correlation_id,
    record_job cancelled_entry history,
  )

  enqueued : History → Reply × History
  unfolding waited
  enqueued history = if sc.queue_takes then waited sc.wait history else (
    error_reply 503 "overloaded" "queue full or request cancelled" req.correlation_id,
    history,
  )

  unless_deferred : Option (Reply × History) → Reply × History → Reply × History
  unless_deferred none served = served
  unless_deferred (some handed_over) served = handed_over

  unfoldable pub handle_infer_blocking : History → Reply × History
  unfolding unless_deferred enqueued
  handle_infer_blocking history = unless_deferred (defer_to_relay history) (enqueued history)

  run_tools : Option Model → History → Reply × History
  unfolding finish
  run_tools none history = (
    error_reply 503 "unavailable" "no backend registered for modality" req.correlation_id,
    history,
  )
  run_tools (some b) history =
      let o = run_with_tools sc.search b breq in finish sc.started_at o.summaries o.run history

  pub handle_infer_with_tools : History → Reply × History
  unfolding unless_deferred run_tools
  handle_infer_with_tools history =
      unless_deferred (defer_to_relay history) (run_tools (sc.backends req.modality) history)
