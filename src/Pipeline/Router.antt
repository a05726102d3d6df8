-- ===== src/Pipeline/Router.antt =====
-- internal/router/router.go: one job to the backend of its modality, and one result back.
--
-- What a backend's `Infer` does with a job is a function on it: an answer, an error or a panic.
use home_inference_server.Prelude.{ℕ, Bool, Option, none, some, String, ◌≡◌, if◌then◌else◌}

pub record Job : Type 0 where
  pub id : String
  pub modality : String
  pub prompt : String
  -- Whether `ResultCh` is set: whether somebody waits.
  pub has_channel : Bool

-- The fields of an answer that the router copies.
pub record Reply : Type 0 where
  pub output : String
  pub reasoning : String
  pub tokens_generated : ℕ
  pub model_tier : String
  pub quality_degraded : Bool
  pub length_limited : Bool

pub data Run : Type 0 where
  answers : Reply → Run
  fails : String → Run
  panics : Run

-- `queue.Result`: a reply, or the code of an error.
pub data Result : Type 0 where
  success : Reply → Result
  failure : String → Result

abbrev pub Backends : Type 0
Backends = String → Option (Job → Run)

-- `sendResult`: what is sent on the job's channel.
unfoldable pub send_result : Job → Result → Option Result
send_result job r = if job.has_channel then some r else none

sent : Job → Run → Option Result
sent job (answers r) = send_result job (success r)
sent job (fails code) = send_result job (failure code)
sent job panics = send_result job (failure "internal_error")

routed : Job → Option (Job → Run) → Option Result
unfolding sent
routed job none = send_result job (failure "invalid_modality")
routed job (some infer) = sent job (infer job)

unfoldable pub dispatch_one : Backends → Job → Option Result
unfolding routed
dispatch_one backends job = routed job (backends job.modality)

-- A result reports a run: with the reply, the backend's error, or an internal error for a panic.
abbrev pub Reports : Run → Result → Type 0
Reports (answers a) r = r ≡ success a
Reports (fails code) r = r ≡ failure code
Reports panics r = r ≡ failure "internal_error"

-- What the waiter of a job receives, by what its backend did.
pub data Delivered (backends : Backends) (job : Job) (o : Option Result) : Type 0 where
  no_backend :
      backends job.modality ≡ none
      → o ≡ some (failure "invalid_modality")
      → Delivered backends job o
  by_backend :
      (infer : Job → Run) (r : Result)
      → backends job.modality ≡ some infer
      → o ≡ some r
      → Reports (infer job) r
      → Delivered backends job o
