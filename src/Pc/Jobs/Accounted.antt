-- ===== src/Pc/Jobs/Accounted.antt =====
-- The reply to a request and its entry in the history agree.
use home_inference_server.Prelude.{ℕ, ◌≤◌, true, Option, some, String, ◌≡◌, ◌⊎◌}
use home_inference_server.Pc.Api.{InferRequest, Request, Response, Failure, Run, answers, fails}
use home_inference_server.Pc.Tools.{Model, run_with_tools}
use home_inference_server.Pc.Jobs.{
  JobEntry, History, record_job, InferResponse, Reply, error_reply, deferred_reply, answer_reply,
  result, deadline_exceeded, hung_up, Scene,
}
use home_inference_server.Pc.Jobs.Parts.{IsPressed, Split}

module _ (sc : Scene) (req : InferRequest) (breq : Request) where
  -- An entry speaks for this request.
  abbrev pub IsOf : JobEntry → Type 0
  IsOf e =
      (e.correlation_id ≡ req.correlation_id)
      × (e.modality ≡ req.modality)
      × (e.priority ≡ req.priority)
      × (e.min_tier ≡ req.min_tier)

  -- The answer and the entry of a request that was served give the same account of it.
  pub record Agrees (resp : Response) (r : InferResponse) (e : JobEntry) : Type 0 where
    pub same_output : (r.output ≡ resp.output) × (r.reasoning ≡ resp.reasoning)
    pub same_ids :
        (r.request_id ≡ breq.request_id)
        × (r.correlation_id ≡ req.correlation_id)
        × (e.request_id ≡ breq.request_id)
    pub same_tier : (r.model_tier ≡ resp.model_tier) × (e.model_tier ≡ resp.model_tier)
    pub same_tokens :
        (r.tokens_generated ≡ resp.tokens_generated) × (e.tokens_generated ≡ resp.tokens_generated)
    pub same_times :
        (r.duration_ms ≡ e.duration_ms)
        × (r.queue_wait_ms ≡ e.queue_wait_ms)
        × (r.inference_ms ≡ e.inference_ms)
    pub cut_short : r.truncated ≡ resp.length_limited
    -- The two parts of the time make up the whole, but for a millisecond that both drop.
    pub parts :
        (s : ℕ)
        → e.started_at ≡ some s
        → sc.enqueued_at ≤ s
        → s ≤ sc.finished_at
        → Split e.queue_wait_ms e.inference_ms e.duration_ms

  pub data Accounted (Ran : Run → Type 0) (history : History) (o : Reply × History) : Type 0 where
    queued :
        (job_id : String) (e : JobEntry)
        → IsPressed sc req.priority
        → sc.relay_job ≡ some job_id
        → o.0 ≡ deferred_reply job_id (sc.result_url job_id)
        → IsOf e × (e.request_id ≡ job_id) × (e.status ≡ "queued") × (e.deferred ≡ true)
        → o.1 ≡ record_job e history
        → Accounted Ran history o
    turned_away :
        (status : ℕ) (code message : String)
        → o.0 ≡ error_reply status code message req.correlation_id
        → 500 ≤ status
        → o.1 ≡ history
        → Accounted Ran history o
    done :
        (resp : Response) (r : InferResponse) (e : JobEntry)
        → Ran (answers resp)
        → o.0 ≡ answer_reply resp.quality_degraded r
        → Agrees resp r e
        → IsOf e × (e.status ≡ "done")
        → o.1 ≡ record_job e history
        → Accounted Ran history o
    failed :
        (f : Failure) (status : ℕ) (code message : String) (e : JobEntry)
        → Ran (fails f)
        → o.0 ≡ error_reply status code message req.correlation_id
        → 400 ≤ status
        → IsOf e × (e.request_id ≡ breq.request_id) × (e.status ≡ "failed") × (e.error_code ≡ "")
        → o.1 ≡ record_job e history
        → Accounted Ran history o
    cancelled :
        (status : ℕ) (code message : String) (e : JobEntry)
        → (sc.wait ≡ deadline_exceeded) ⊎ (sc.wait ≡ hung_up)
        → o.0 ≡ error_reply status code message req.correlation_id
        → 400 ≤ status
        → IsOf e × (e.request_id ≡ breq.request_id) × (e.status ≡ "cancelled")
        → o.1 ≡ record_job e history
        → Accounted Ran history o

  abbrev pub Served : Run → Type 0
  Served run = (started : Option ℕ) × (sc.queue_takes ≡ true) × (sc.wait ≡ result run started)

  abbrev pub Toured : Run → Type 0
  Toured run =
      (b : Model) × (sc.backends req.modality ≡ some b)
      × (run ≡ (run_with_tools sc.search b breq).run)
