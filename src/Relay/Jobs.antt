-- ===== src/Relay/Jobs.antt =====
-- internal/railwayq/store.go, over queue/payload.go and the table `jobs` of db.go.
--
-- A function of the store is its SQL statement on the list of the table's rows. The driver, and the
-- errors with which it can fail, are not modelled; Go's own checks and results are. Times are in
-- milliseconds: `now` is the relay's clock, `db_now` that of the database. A payload is JSON text,
-- and the test `json.Valid` is a parameter.
pub mod Keys
pub mod Lifecycle
pub mod Claims
pub mod Spent
pub mod Isolation
mod Tests
use home_inference_server.Prelude.{
  ℕ, suc, ◌+◌, ◌*◌, Bool, true, false, ◌&&◌, ◌||◌, not, Option, none, some, List, [], ◌∷◌, ◌++◌,
  String, str_eq, if◌then◌else◌, ltb, leb,
}
use home_inference_server.Relay.Sql.{
  update_where, delete_where, count_where, select_where, first_by,
}

pub data QueueJobStatus : Type 0 where
  pending processing done failed : QueueJobStatus

abbrev pub is_pending : QueueJobStatus → Bool
is_pending pending = true
is_pending _ = false

abbrev pub is_processing : QueueJobStatus → Bool
is_processing processing = true
is_processing _ = false

-- `status IN ('done', 'failed')`.
abbrev pub is_terminal : QueueJobStatus → Bool
is_terminal done = true
is_terminal failed = true
is_terminal _ = false

pub record Job : Type 0 where
  pub id : String
  pub correlation_id : String
  pub status : QueueJobStatus
  pub payload : String
  pub result_payload : Option String
  pub error_code : Option String
  pub created_at : ℕ
  pub claimed_at : Option ℕ
  pub finished_at : Option ℕ
  pub attempt_count : ℕ
  pub max_attempts : ℕ
  pub identity : String

abbrev pub Jobs : Type 0
Jobs = List Job

-- The outcomes that the callers tell apart.
pub data StoreError : Type 0 where
  not_found not_pending invalid_json duplicate_id : StoreError

pub data Reply {ℓ} (A : Type ℓ) : Type ℓ where
  ok : A → Reply A
  err : StoreError → Reply A

abbrev pub has_id : String → Job → Bool
has_id id j = str_eq j.id id

abbrev pub is_own : String → String → Job → Bool
is_own id identity j = str_eq j.id id && str_eq j.identity identity

-- The inserted row, with the defaults of the schema.
abbrev pub new_row : ℕ → Job → Job
new_row db_now job = record {
  id = job.id;
  correlation_id = job.correlation_id;
  status = pending;
  payload = job.payload;
  result_payload = none;
  error_code = none;
  created_at = db_now;
  claimed_at = none;
  finished_at = none;
  attempt_count = 0;
  max_attempts = job.max_attempts;
  identity = job.identity;
}

unfoldable pub enqueue : (String → Bool) → ℕ → Job → Jobs → Reply Jobs
enqueue json_valid db_now job jobs =
    if not (json_valid job.payload)
    then err invalid_json
    else elim (select_where (has_id job.id) jobs) [
      | some _ ↦ err duplicate_id
      | none ↦ ok (jobs ++ new_row db_now job ∷ [])
    ]

-- `DELETE … AND status = 'pending'`, and the second query if that removed nothing.
unfoldable pub cancel_pending : String → String → Jobs → Reply Jobs
cancel_pending id identity jobs =
    if ltb 0 (count_where (λ j. is_own id identity j && is_pending j.status) jobs)
    then ok (delete_where (λ j. is_own id identity j && is_pending j.status) jobs)
    else elim (select_where (is_own id identity) jobs) [
      | none ↦ err not_found
      | some _ ↦ err not_pending
    ]

-- `claimed_at < NOW() - INTERVAL '120 seconds'`; NULL compares as unknown.
abbrev pub visibility_timeout : ℕ
visibility_timeout = 120_000

abbrev pub is_before : Option ℕ → ℕ → ℕ → Bool
is_before none age now = false
is_before (some t) age now = ltb (t + age) now

abbrev pub is_stale : ℕ → Job → Bool
is_stale db_now j = is_processing j.status && is_before j.claimed_at visibility_timeout db_now

unfoldable pub sweep_expired : ℕ → Jobs → Jobs
sweep_expired db_now jobs =
    update_where (is_stale db_now) (λ j. record j { status = pending; claimed_at = none }) jobs

abbrev pub is_claimable : Job → Bool
is_claimable j = is_pending j.status && ltb j.attempt_count j.max_attempts

-- The row as it is updated, and as it is handed to the worker.
abbrev pub claimed : ℕ → Job → Job
claimed now j = record j {
  status = processing;
  claimed_at = some now;
  attempt_count = j.attempt_count + 1;
}

abbrev pub oldest_claimable : Jobs → Option Job
oldest_claimable jobs = first_by is_claimable (λ j. j.created_at) jobs

-- The transaction of `tryClaimOne`. The UPDATE writes the count that was read, by the key of the row.
claim_row : ℕ → ℕ → Job → Job
claim_row now attempts j = record j {
  status = processing;
  claimed_at = some now;
  attempt_count = attempts;
}

claim_found : ℕ → Jobs → Option Job → Option Job × Jobs
unfolding claim_row
claim_found now jobs none = (none, jobs)
claim_found now jobs (some c) =
    (some (claimed now c), update_where (has_id c.id) (claim_row now (c.attempt_count + 1)) jobs)

unfoldable pub try_claim_one : ℕ → Jobs → Option Job × Jobs
unfolding claim_found
try_claim_one now jobs = claim_found now jobs (oldest_claimable jobs)

-- How the wait of `Claim` ends: by the time-out or the caller's context, or by a new job, when the
-- others have changed the table.
pub data Wake : Type 0 where
  timed_out : Wake
  cancelled : Wake
  added : ℕ → (Jobs → Jobs) → Wake → Wake

-- The loop of `Claim`: sweep, try, and wait if there is nothing.
claim_check : ℕ → Jobs → Option Job × Jobs
unfolding sweep_expired try_claim_one
claim_check now jobs = try_claim_one now (sweep_expired now jobs)

pub claim : ℕ → Jobs → Wake → Option Job × Jobs
unfolding claim_check
claim now jobs timed_out = claim_check now jobs
claim now jobs cancelled = claim_check now jobs
claim now jobs (added later others wake) =
    let next = claim later (others (claim_check now jobs).1) wake in
    elim (claim_check now jobs).0 [ some j ↦ (some j, (claim_check now jobs).1) | none ↦ next ]

pub record AckRequest : Type 0 where
  pub job_id : String
  pub status : QueueJobStatus
  pub result_payload : String
  pub error_code : String

-- An empty Go string or slice is stored as NULL.
abbrev pub non_empty : String → Option String
non_empty t = if str_eq t "" then none else some t

abbrev pub acked_by : AckRequest → Job → Bool
acked_by req j = str_eq j.id req.job_id && is_processing j.status

abbrev pub finished : ℕ → AckRequest → Job → Job
finished now req j = record j {
  status = req.status;
  result_payload = non_empty req.result_payload;
  error_code = non_empty req.error_code;
  finished_at = some now;
}

-- The table, and whether a row was updated: then `Ack` records the finish time for the sweeper.
unfoldable pub ack : (String → Bool) → ℕ → AckRequest → Jobs → Reply (Jobs × Bool)
ack json_valid now req jobs =
    if not (str_eq req.result_payload "") && not (json_valid req.result_payload)
    then err invalid_json
    else ok (
      update_where (acked_by req) (finished now req) jobs,
      ltb 0 (count_where (acked_by req) jobs),
    )

pub record ResultResponse : Type 0 where
  pub status : QueueJobStatus
  pub result_payload : Option String
  pub error_code : Option String

unfoldable pub get_result : String → String → Jobs → Reply ResultResponse
get_result id identity jobs = elim (select_where (is_own id identity) jobs) [
  | none ↦ err not_found
  | some j ↦
      ok
        (record { status = j.status; result_payload = j.result_payload; error_code = j.error_code })
]

unfoldable pub count_pending : Jobs → ℕ
count_pending jobs = count_where (λ j. is_pending j.status) jobs

abbrev pub later_of : Option ℕ → Option ℕ → Option ℕ
later_of none b = b
later_of (some a) none = some a
later_of (some a) (some b) = if ltb a b then some b else some a

abbrev pub sooner_of : Option ℕ → Option ℕ → Option ℕ
sooner_of none b = b
sooner_of (some a) none = some a
sooner_of (some a) (some b) = if ltb b a then some b else some a

-- `MAX(claimed_at)`.
unfoldable pub last_claim_at : Jobs → Option ℕ
last_claim_at [] = none
last_claim_at (j ∷ jobs) = later_of j.claimed_at (last_claim_at jobs)

abbrev pub is_expired : ℕ → ℕ → Job → Bool
is_expired ttl db_now j = is_terminal j.status && is_before j.finished_at ttl db_now

-- The rows left, and the number removed.
unfoldable pub purge_expired : ℕ → ℕ → Jobs → Jobs × ℕ
purge_expired ttl db_now jobs =
    (delete_where (is_expired ttl db_now) jobs, count_where (is_expired ttl db_now) jobs)

-- `MIN(finished_at)` of the terminal rows.
unfoldable pub oldest_finished_at : Jobs → Option ℕ
oldest_finished_at [] = none
oldest_finished_at (j ∷ jobs) =
    let rest = oldest_finished_at jobs in
    if is_terminal j.status then sooner_of j.finished_at rest else rest
