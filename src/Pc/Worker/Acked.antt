-- ===== src/Pc/Worker/Acked.antt =====
-- What becomes of a job that the worker has claimed.
use home_inference_server.Prelude.{Option, none, some, String, ◌≡◌, refl, ◌⊎◌, inl, inr}
use home_inference_server.Relay.Jobs.{done, failed, AckRequest, Job}
use home_inference_server.Pc.Api.{
  InferRequest, Request, Response, Failure, Run, answers, fails, error_text,
}
use home_inference_server.Pc.Infer.{translate_infer_request}
use home_inference_server.Pc.Jobs.{JobEntry, InferResponse}
use home_inference_server.Pc.Worker.{
  ack_with_retry, job_wait, Codec, Accept, accepted, shutdown_at_queue, refused_by_queue, Finish,
  result, shutdown_in_wait, expired, Work, Processed, once, code_of, ran, waited, queued,
  correlated, decoded, process_job, fail_plainly,
}

module _ (codec : Codec) (w : Work) (job : Job) where
  -- What the queue is given for a request, and for how long.
  abbrev pub translated : InferRequest → Request
  translated req = translate_infer_request codec.decode_base64 req w.request_id

  abbrev pub AcceptIs : InferRequest → Accept → Type 0
  AcceptIs req a = w.accept (job_wait req.timeout_ms) (translated req) ≡ a

  abbrev pub FinishIs : InferRequest → Finish → Type 0
  FinishIs req f = w.finish (job_wait req.timeout_ms) (translated req) ≡ f

  -- The request that the job carries, under the job's correlation id if it has none of its own.
  abbrev pub Carries : InferRequest → Type 0
  Carries req =
      (r : InferRequest) × (codec.decode_request job.payload ≡ some r)
      × (req ≡ correlated codec w job r)

  -- The job is acked as failed with a code, in one POST.
  pub record IsFailed (code : String) (o : Processed) : Type 0 where
    pub request : AckRequest
    pub sent : o.sent ≡ some request
    pub of_job : request.job_id ≡ job.id
    pub status : request.status ≡ failed
    pub told : request.error_code ≡ code
    pub body :
        (message : String) × (correlation : String) × (request.result_payload
          ≡ codec.encode_error code message correlation)
    pub posted : o.ack_end ≡ once w.net

  -- The job is acked as done with the answer, in as many POSTs as it takes.
  pub record IsDone (req : InferRequest) (resp : Response) (o : Processed) : Type 0 where
    pub request : AckRequest
    pub body : InferResponse
    pub sent : o.sent ≡ some request
    pub of_job : request.job_id ≡ job.id
    pub status : request.status ≡ done
    pub told : request.result_payload ≡ codec.encode_response body
    pub answer : (body.output ≡ resp.output) × (body.model_tier ≡ resp.model_tier)
    pub correlated_to : body.correlation_id ≡ req.correlation_id
    pub posted : o.ack_end ≡ ack_with_retry w.net

  pub data Acknowledged (o : Processed) : Type 0 where
    left_to_relay :
        (req : InferRequest)
        → Carries req
        → AcceptIs req shutdown_at_queue ⊎ FinishIs req shutdown_in_wait
        → o.sent ≡ none
        → o.entry ≡ none
        → Acknowledged o
    unreadable :
        codec.decode_request job.payload ≡ none
        → IsFailed "invalid_request" o
        → o.entry ≡ none
        → Acknowledged o
    overloaded :
        (req : InferRequest)
        → Carries req
        → AcceptIs req refused_by_queue
        → IsFailed "overloaded" o
        → o.entry ≡ none
        → Acknowledged o
    too_late :
        (req : InferRequest)
        → Carries req
        → FinishIs req expired
        → IsFailed "timeout" o
        → o.entry ≡ none
        → Acknowledged o
    failed_run :
        (req : InferRequest) (e : Failure) (entry : JobEntry)
        → Carries req
        → FinishIs req (result (fails e))
        → IsFailed (code_of codec w job e) o
        → o.entry ≡ some entry
        → (entry.status ≡ "failed") × (entry.error_code ≡ code_of codec w job e)
        → Acknowledged o
    done_run :
        (req : InferRequest) (resp : Response) (entry : JobEntry)
        → Carries req
        → FinishIs req (result (answers resp))
        → IsDone req resp o
        → o.entry ≡ some entry
        → (entry.status ≡ "done") × (entry.model_tier ≡ resp.model_tier)
        → Acknowledged o

  fail_plainly-IsFailed :
      (correlation_id code : String) → IsFailed code (fail_plainly codec w job correlation_id code)
  unfolding fail_plainly
  fail_plainly-IsFailed correlation_id code = record {
    request = _;
    sent = refl;
    of_job = refl;
    status = refl;
    told = refl;
    body = ("", correlation_id, refl);
    posted = refl;
  }

  ran-Acknowledged :
      (req : InferRequest) (run : Run)
      → Carries req
      → FinishIs req (result run)
      → Acknowledged (ran codec w job req run)
  unfolding ran
  ran-Acknowledged req (fails e) own h =
      failed_run req e _ own h
        (record {
          request = _;
          sent = refl;
          of_job = refl;
          status = refl;
          told = refl;
          body = (error_text e, req.correlation_id, refl);
          posted = refl;
        })
        refl (refl, refl)
  ran-Acknowledged req (answers resp) own h =
      done_run req resp _ own h
        (record {
          request = _;
          body = _;
          sent = refl;
          of_job = refl;
          status = refl;
          told = refl;
          answer = (refl, refl);
          correlated_to = refl;
          posted = refl;
        })
        refl (refl, refl)

  waited-Acknowledged :
      (req : InferRequest) (f : Finish)
      → Carries req
      → FinishIs req f
      → Acknowledged (waited codec w job req f)
  unfolding waited
  waited-Acknowledged req (result run) own h = ran-Acknowledged req run own h
  waited-Acknowledged req shutdown_in_wait own h = left_to_relay req own (inr h) refl refl
  waited-Acknowledged req expired own h =
      too_late req own h (fail_plainly-IsFailed req.correlation_id "timeout") refl

  queued-Acknowledged :
      (req : InferRequest) (a : Accept)
      → Carries req
      → AcceptIs req a
      → Acknowledged (queued codec w job req (translated req) (job_wait req.timeout_ms) a)
  unfolding queued
  queued-Acknowledged req accepted own h = waited-Acknowledged req _ own refl
  queued-Acknowledged req shutdown_at_queue own h = left_to_relay req own (inl h) refl refl
  queued-Acknowledged req refused_by_queue own h =
      overloaded req own h (fail_plainly-IsFailed req.correlation_id "overloaded") refl

  decoded-Acknowledged :
      (body : Option InferRequest)
      → codec.decode_request job.payload ≡ body
      → Acknowledged (decoded codec w job body)
  unfolding decoded
  decoded-Acknowledged none h =
      unreadable h (fail_plainly-IsFailed job.correlation_id "invalid_request") refl
  decoded-Acknowledged (some req) h =
      queued-Acknowledged (correlated codec w job req) _ (req, h, refl) refl

  pub process_job-Acknowledged : Acknowledged (process_job codec w job)
  unfolding process_job
  process_job-Acknowledged = decoded-Acknowledged (codec.decode_request job.payload) refl
