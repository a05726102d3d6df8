-- ===== src/Relay/Jobs/Lifecycle.antt =====
-- The life of a job: every row of every reachable table is in one of the four shapes, its attempts
-- never pass its limit, and ids stay distinct.
use home_inference_server.Prelude.{
  At, All-at, ℕ, ◌+◌, ◌≤◌, ◌<◌, Bool, true, false, ◌&&◌, Option, none, some, [], ◌∷◌, ◌++◌, String,
  ◌≡◌, refl, subst, arith, All,
}
use home_inference_server.Relay.Sql.{
  update_where, delete_where, select_where, All-update, All-delete, First, found, missing,
  first_by-First,
}
use home_inference_server.Relay.Jobs.{
  QueueJobStatus, pending, processing, done, failed, is_terminal, is_pending, Job, Jobs, ok, has_id,
  is_own, enqueue, cancel_pending, is_stale, sweep_expired, is_claimable, claim_row, claim_found,
  new_row, oldest_claimable, try_claim_one, AckRequest, acked_by, finished, ack, is_expired,
  purge_expired,
}
use home_inference_server.Relay.Jobs.Keys.{
  Distinct, Distinct-update, Distinct-delete, Distinct-append, All-update_key,
}

abbrev pub is_set {ℓ} : {A : Type ℓ} → Option A → Bool
is_set none = false
is_set (some a) = true

-- What the columns of a row hold in each status.
abbrev Shape : QueueJobStatus → Job → Type 0
Shape pending j = (j.claimed_at ≡ none) × (j.finished_at ≡ none)
Shape processing j = (is_set j.claimed_at ≡ true) × (j.finished_at ≡ none) × (0 < j.attempt_count)
Shape done j = (is_set j.claimed_at ≡ true) × (is_set j.finished_at ≡ true) × (0 < j.attempt_count)
Shape failed j =
    (is_set j.claimed_at ≡ true) × (is_set j.finished_at ≡ true) × (0 < j.attempt_count)

abbrev pub RowOk : Job → Type 0
RowOk j = (j.attempt_count ≤ j.max_attempts) × Shape j.status j

pub record TableOk (jobs : Jobs) : Type 0 where
  pub rows : All RowOk jobs
  pub keys : Distinct jobs

All-append {κ} : (P : Job → Type κ) (t : Jobs) (k : Job) → All P t → P k → All P (t ++ k ∷ [])
All-append P [] k a h = (h, tt)
All-append P (j ∷ t) k a h = (a.0, All-append P t k a.1 h)

pub enqueue-inv :
    (valid : String → Bool) (db_now : ℕ) (job : Job) (s t : Jobs)
    → enqueue valid db_now job s ≡ ok t
    → (select_where (has_id job.id) s ≡ none) × (s ++ new_row db_now job ∷ [] ≡ t)
unfolding enqueue
enqueue-inv valid db_now job s t e = ground arith

enqueue-TableOk :
    (valid : String → Bool) (db_now : ℕ) (job : Job) (s t : Jobs)
    → enqueue valid db_now job s ≡ ok t
    → TableOk s
    → TableOk t
enqueue-TableOk valid db_now job s t e v =
    let (fresh, same) = enqueue-inv valid db_now job s t e in
    subst TableOk same (record {
      rows = All-append RowOk s (new_row db_now job) v.rows (omega arith, (refl, refl));
      keys = Distinct-append (new_row db_now job) s v.keys fresh;
    })

pub cancel-inv :
    (id identity : String) (s t : Jobs)
    → cancel_pending id identity s ≡ ok t
    → delete_where (λ j. is_own id identity j && is_pending j.status) s ≡ t
unfolding cancel_pending
cancel-inv id identity s t e = ground arith

cancel-TableOk :
    (id identity : String) (s t : Jobs)
    → cancel_pending id identity s ≡ ok t
    → TableOk s
    → TableOk t
cancel-TableOk id identity s t e v = subst TableOk (cancel-inv id identity s t e) (record {
  rows = All-delete RowOk (λ j. is_own id identity j && is_pending j.status) s v.rows;
  keys = Distinct-delete (λ j. is_own id identity j && is_pending j.status) s v.keys;
})

row-sweep :
    (db_now : ℕ) (j : Job)
    → is_stale db_now j ≡ true
    → RowOk j
    → RowOk (record j { status = pending; claimed_at = none })
row-sweep db_now j h v = ground arith

pub sweep-TableOk : (db_now : ℕ) (s : Jobs) → TableOk s → TableOk (sweep_expired db_now s)
unfolding sweep_expired
sweep-TableOk db_now s v = record {
  rows = All-update (is_stale db_now) _ s (row-sweep db_now) v.rows;
  keys = Distinct-update (is_stale db_now) _ (λ k. refl) s v.keys;
}

row-claim :
    (now : ℕ) (c : Job)
    → is_claimable c ≡ true
    → RowOk c
    → RowOk (claim_row now (c.attempt_count + 1) c)
unfolding claim_row
row-claim now c h v = ground arith

claim_found-TableOk :
    (now : ℕ) (s : Jobs) (o : Option Job)
    → First is_claimable (λ j. j.created_at) s o
    → TableOk s
    → TableOk (claim_found now s o).1
unfolding claim_found
claim_found-TableOk now s none f v = v
claim_found-TableOk now s (some c) (found r e at fits least) v =
    let same : r ≡ c = cc in
    let m : At c s = subst (λ x. At x s) same at in
    let h : is_claimable c ≡ true = subst (λ x. is_claimable x ≡ true) same fits in
    record {
      rows =
          All-update_key (claim_row now (c.attempt_count + 1)) RowOk m v.keys v.rows
            (row-claim now c h (All-at RowOk v.rows m));
      keys =
          Distinct-update (has_id c.id) (claim_row now (c.attempt_count + 1)) (λ k. refl) s v.keys;
    }
claim_found-TableOk now s (some c) (missing e _) v = cc

pub try_claim-TableOk : (now : ℕ) (s : Jobs) → TableOk s → TableOk (try_claim_one now s).1
unfolding try_claim_one
try_claim-TableOk now s v =
    claim_found-TableOk now s (oldest_claimable s)
      (first_by-First is_claimable (λ j. j.created_at) s) v

row-finish :
    (now : ℕ) (req : AckRequest) (j : Job)
    → is_terminal req.status ≡ true
    → acked_by req j ≡ true
    → RowOk j
    → RowOk (finished now req j)
row-finish now req j t h v = ground arith

pub ack-inv :
    (valid : String → Bool) (now : ℕ) (req : AckRequest) (s t : Jobs) (hit : Bool)
    → ack valid now req s ≡ ok (t, hit)
    → update_where (acked_by req) (finished now req) s ≡ t
unfolding ack
ack-inv valid now req s t hit e = ground arith

ack-TableOk :
    (valid : String → Bool) (now : ℕ) (req : AckRequest) (s t : Jobs) (hit : Bool)
    → is_terminal req.status ≡ true
    → ack valid now req s ≡ ok (t, hit)
    → TableOk s
    → TableOk t
ack-TableOk valid now req s t hit final e v =
    subst TableOk (ack-inv valid now req s t hit e) (record {
      rows = All-update (acked_by req) _ s (λ j. row-finish now req j final) v.rows;
      keys = Distinct-update (acked_by req) (finished now req) (λ k. refl) s v.keys;
    })

purge-TableOk : (ttl db_now : ℕ) (s : Jobs) → TableOk s → TableOk (purge_expired ttl db_now s).0
unfolding purge_expired
purge-TableOk ttl db_now s v = record {
  rows = All-delete RowOk (is_expired ttl db_now) s v.rows;
  keys = Distinct-delete (is_expired ttl db_now) s v.keys;
}

-- The statements that the relay's requests and timers make, in any order. The handler of /ack lets only
-- the two terminal statuses through.
pub data Step (valid : String → Bool) (s : Jobs) : Jobs → Type 0 where
  enqueues :
      (db_now : ℕ) (job : Job) {t : Jobs} → enqueue valid db_now job s ≡ ok t → Step valid s t
  cancels : (id identity : String) {t : Jobs} → cancel_pending id identity s ≡ ok t → Step valid s t
  sweeps : (db_now : ℕ) → Step valid s (sweep_expired db_now s)
  claims : (now : ℕ) → Step valid s (try_claim_one now s).1
  acks :
      (now : ℕ) (req : AckRequest) (hit : Bool) {t : Jobs}
      → is_terminal req.status ≡ true
      → ack valid now req s ≡ ok (t, hit)
      → Step valid s t
  purges : (ttl db_now : ℕ) → Step valid s (purge_expired ttl db_now s).0

pub data Reach (valid : String → Bool) : Jobs → Type 0 where
  empty : Reach valid []
  next : {s t : Jobs} → Reach valid s → Step valid s t → Reach valid t

pub Step-TableOk : {valid : String → Bool} {s t : Jobs} → Step valid s t → TableOk s → TableOk t
Step-TableOk {valid} {s} (enqueues db_now job e) v = enqueue-TableOk valid db_now job s _ e v
Step-TableOk {s = s} (cancels id identity e) v = cancel-TableOk id identity s _ e v
Step-TableOk {s = s} (sweeps db_now) v = sweep-TableOk db_now s v
Step-TableOk {s = s} (claims now) v = try_claim-TableOk now s v
Step-TableOk {valid} {s} (acks now req hit final e) v = ack-TableOk valid now req s _ hit final e v
Step-TableOk {s = s} (purges ttl db_now) v = purge-TableOk ttl db_now s v

-- In every table that the relay's statements can lead to, a row's columns fit its status, no job has
-- been claimed more often than it may be, and no two jobs share an id.
pub Reach-TableOk : {valid : String → Bool} {t : Jobs} → Reach valid t → TableOk t
Reach-TableOk empty = record { rows = tt; keys = tt }
Reach-TableOk (next r st) = Step-TableOk st (Reach-TableOk r)
