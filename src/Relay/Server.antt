-- ===== src/Relay/Server.antt =====
-- internal/railwayq/handler.go over the store, with the usage counters of store.go and the presence of
-- the PC of wake.go: the requests that have passed the gate.
--
-- The state is the two tables that the handlers write and the two facts that the relay keeps in memory.
-- Which statements of a request the database fails is an argument.
pub mod Intake
pub mod Refinement
mod Tests
use text.Mathlib.Text.{find?}
use home_inference_server.Prelude.{
  ℕ, suc, ◌+◌, ◌-◌, ◌*◌, Bool, true, false, ◌&&◌, ◌||◌, not, Option, none, some, List, [], ◌∷◌,
  String, str_eq, if◌then◌else◌, ltb, leb, ◌==◌,
}
use home_inference_server.Prelude.Int.{ℤ, pos, negsuc}
use home_inference_server.Relay.Jobs.{
  QueueJobStatus, pending, is_terminal, Job, Jobs, StoreError, not_found, not_pending, Reply, ok,
  err, enqueue, cancel_pending, sweep_expired, try_claim_one, AckRequest, ack, get_result,
  ResultResponse, count_pending, last_claim_at,
}
use home_inference_server.Relay.Sweeper.{record_finish}
use home_inference_server.Relay.Gate.{Config}

-- A row of the table `usage`; the day is counted in the database's dates.
pub record Usage : Type 0 where
  pub identity : String
  pub day : ℕ
  pub count : ℕ

pub record Relay : Type 0 where
  pub jobs : Jobs
  pub usage : List Usage
  pub oldest : Option ℕ
  pub last_seen : Option ℕ

-- `INSERT … ON CONFLICT (identity, day) DO UPDATE SET count = usage.count + 1`.
pub is_usage : String → ℕ → Usage → Bool
is_usage identity day u = str_eq u.identity identity && u.day == day

pub increment_usage : String → ℕ → List Usage → List Usage
increment_usage identity day [] = record { identity = identity; day = day; count = 1 } ∷ []
increment_usage identity day (u ∷ rest) =
    let later = increment_usage identity day rest in
    if is_usage identity day u then record u { count = u.count + 1 } ∷ rest else u ∷ later

unfoldable pub usage_today : String → ℕ → List Usage → ℕ
usage_today identity day [] = 0
usage_today identity day (u ∷ rest) =
    if is_usage identity day u then u.count else usage_today identity day rest

-- `pcPresence`.
abbrev pub long_poll_timeout : ℕ
long_poll_timeout = 30_000

pub seen : ℕ → Option ℕ → Option ℕ
seen t none = some t
seen t (some last) = if ltb last t then some t else some last

unfoldable pub online : ℕ → Option ℕ → Bool
online now none = false
online now (some last) = ltb (now - last) (2 * long_poll_timeout)

-- What `json.Decode` makes of a body.
pub data Body {ℓ} (A : Type ℓ) : Type ℓ where
  too_large : Body A
  malformed : Body A
  decoded : A → Body A

pub record EnqueueRequest : Type 0 where
  pub correlation_id : String
  pub payload : String
  pub max_attempts : ℤ

-- The replies: a job's id, nothing (204), a claimed job or none, a result, the status, or an error.
pub data Answer : Type 0 where
  created : String → Answer
  no_content : Answer
  claim_response : Option Job → Answer
  result_response : ResultResponse → Answer
  status_response : Bool → Option ℕ → ℕ → Answer
  error : ℕ → String → Answer

-- The statements that the database fails. Of the two of a claim `writes` is the sweep.
pub record Outage : Type 0 where
  pub reads : Bool
  pub writes : Bool
  pub claims : Bool
  pub counter : Bool

-- The surroundings of a request: the relay's clock, the database's clock and date, the new job's id, and
-- `json.Valid`.
pub record Moment : Type 0 where
  pub now : ℕ
  pub db_now : ℕ
  pub today : ℕ
  pub new_id : String
  pub json_valid : String → Bool
  pub outage : Outage

pub attempts_of : ℤ → ℕ
attempts_of (pos n) = if n == 0 then 3 else n
attempts_of (negsuc n) = 3

pub job_of : Moment → String → EnqueueRequest → Job
job_of m identity req = record {
  id = m.new_id;
  correlation_id = req.correlation_id;
  status = pending;
  payload = req.payload;
  result_payload = none;
  error_code = none;
  created_at = 0;
  claimed_at = none;
  finished_at = none;
  attempt_count = 0;
  max_attempts = attempts_of req.max_attempts;
  identity = identity;
}

-- After the insertion. A counter that cannot be written does not fail the request.
inserted : Moment → String → Relay → Reply Jobs → Answer × Relay
inserted m identity s (err e) = (error 500 "internal_error", s)
inserted m identity s (ok jobs) = (
  created m.new_id,
  record s {
    jobs = jobs;
    usage = if m.outage.counter then s.usage else increment_usage identity m.today s.usage;
  },
)

accepted : Config → Moment → String → EnqueueRequest → Relay → Answer × Relay
unfolding inserted
accepted cfg m identity req s =
    if str_eq req.correlation_id "" || str_eq req.payload ""
    then (error 400 "invalid_request", s)
    else if m.outage.reads
    then (error 500 "internal_error", s)
    else if leb cfg.max_pending_depth (count_pending s.jobs)
    then (error 503 "queue_full", s)
    else if m.outage.writes
    then (error 500 "internal_error", s)
    else inserted m identity s (enqueue m.json_valid m.db_now (job_of m identity req) s.jobs)

pub handle_enqueue : Config → Moment → String → Body EnqueueRequest → Relay → Answer × Relay
unfolding accepted
handle_enqueue cfg m identity too_large s = (error 413 "invalid_request", s)
handle_enqueue cfg m identity malformed s = (error 400 "invalid_request", s)
handle_enqueue cfg m identity (decoded req) s = accepted cfg m identity req s

-- `handleClaim`: the PC is seen, then `Claim` looks for a job; each further look of its wait is an
-- event of its own, since other requests run in between, and so is the end of the wait.
pub note_seen : ℕ → Relay → Relay
note_seen now s = record s { last_seen = seen now s.last_seen }

-- The sweep and the transaction of one look, and what is noted when it has found a job.
handed_out : Moment → Relay → Option Job × Jobs → Answer × Relay
handed_out m s (none, jobs) = (claim_response none, record s { jobs = jobs })
handed_out m s (some j, jobs) =
    (claim_response (some j), note_seen m.now (record s { jobs = jobs }))

pub claim_look : Moment → Relay → Answer × Relay
unfolding handed_out
claim_look m s =
    if m.outage.writes
    then (error 500 "internal_error", s)
    else if m.outage.claims
    then (error 500 "internal_error", record s { jobs = sweep_expired m.db_now s.jobs })
    else handed_out m s (try_claim_one m.now (sweep_expired m.db_now s.jobs))

-- The wait times out: no job, and the PC is seen once more.
pub claim_expires : Moment → Relay → Answer × Relay
claim_expires m s = (claim_response none, note_seen m.now s)

pub record ClaimRequest : Type 0 where
  pub worker_id : String

pub handle_claim : Moment → Body ClaimRequest → Relay → Answer × Relay
handle_claim m too_large s = (error 400 "invalid_request", s)
handle_claim m malformed s = (error 400 "invalid_request", s)
handle_claim m (decoded _) s = claim_look m (note_seen m.now s)

-- A status that is none of the four texts is `none`.
pub record AckBody : Type 0 where
  pub job_id : String
  pub status : Option QueueJobStatus
  pub result_payload : String
  pub error_code : String

abbrev pub ack_request : AckBody → QueueJobStatus → AckRequest
ack_request b status = record {
  job_id = b.job_id;
  status = status;
  result_payload = b.result_payload;
  error_code = b.error_code;
}

stored : Moment → Relay → Reply (Jobs × Bool) → Answer × Relay
stored m s (err e) = (error 500 "internal_error", s)
stored m s (ok (jobs, hit)) = (
  no_content,
  record s { jobs = jobs; oldest = if hit then record_finish m.now s.oldest else s.oldest },
)

checked : Moment → AckBody → Option QueueJobStatus → Relay → Answer × Relay
unfolding stored
checked m b none s = (error 400 "invalid_request", s)
checked m b (some status) s =
    if not (is_terminal status)
    then (error 400 "invalid_request", s)
    else if m.outage.writes
    then (error 500 "internal_error", s)
    else stored m s (ack m.json_valid m.now (ack_request b status) s.jobs)

pub handle_ack : Moment → Body AckBody → Relay → Answer × Relay
unfolding checked
handle_ack m too_large s = (error 400 "invalid_request", note_seen m.now s)
handle_ack m malformed s = (error 400 "invalid_request", note_seen m.now s)
handle_ack m (decoded b) s =
    if str_eq b.job_id ""
    then (error 400 "invalid_request", note_seen m.now s)
    else checked m b b.status (note_seen m.now s)

abbrev pub has_slash : String → Bool
has_slash id = elim (find? id "/") [ none ↦ false | some _ ↦ true ]

result_of : Reply ResultResponse → Answer
result_of (ok r) = result_response r
result_of (err e) = error 404 "not_found"

pub handle_result : Moment → String → String → Relay → Answer × Relay
unfolding result_of
handle_result m identity id s =
    if str_eq id "" || has_slash id
    then (error 400 "invalid_request", s)
    else if m.outage.reads
    then (error 500 "internal_error", s)
    else (result_of (get_result id identity s.jobs), s)

cancelled_by : Relay → Reply Jobs → Answer × Relay
cancelled_by s (ok jobs) = (no_content, record s { jobs = jobs })
cancelled_by s (err not_found) = (error 404 "not_found", s)
cancelled_by s (err not_pending) = (error 409 "not_pending", s)
cancelled_by s (err _) = (error 500 "internal_error", s)

pub handle_cancel : Moment → String → String → Relay → Answer × Relay
unfolding cancelled_by
handle_cancel m identity id s =
    if m.outage.writes
    then (error 500 "internal_error", s)
    else cancelled_by s (cancel_pending id identity s.jobs)

pub handle_status : Moment → Relay → Answer × Relay
handle_status m s = if m.outage.reads then (error 500 "internal_error", s) else (
  status_response (online m.now s.last_seen) (last_claim_at s.jobs) (count_pending s.jobs),
  s,
)
