-- ===== src/Pipeline/Flow.antt =====
-- internal/batcher/batcher.go and internal/dispatcher/dispatcher.go, as cmd/server/main.go joins them:
-- jobs gather into batches, and a pool of workers takes the batches.
--
-- The goroutines' interleaving is a list of events. A worker that `ctx` cancels is not modelled: what the
-- pool holds when the process ends is lost.
pub mod Conservation
pub mod Sizes
use home_inference_server.Prelude.{
  ℕ, suc, zero, ◌+◌, ◌*◌, ◌≤◌, Bool, true, false, Option, none, some, List, [], ◌∷◌, ◌++◌,
  if◌then◌else◌, ltb, leb, length,
}

-- `Batcher.cfg` and the size of the pool. A size under 1 flushes each job alone, as 0 does here.
pub record Config : Type 0 where
  pub max_batch_size : ℕ
  pub n : ℕ

-- The pool's buffer, what is left of each worker's batch, and of the batches that are dispatched by a
-- goroutine of their own since the buffer was full.
pub record Flow {ℓ} (A : Type ℓ) : Type ℓ where
  pub batch : List A
  pub active : ℕ
  pub batches : List (List A)
  pub workers : List (List A)
  pub extra : List (List A)
  -- In the order in which they reached the router.
  pub dispatched : List A

-- `dispatcher.New`: a size under 1 is 1.
unfoldable pub pool_size : Config → ℕ
pool_size cfg = if ltb cfg.n 1 then 1 else cfg.n

unfoldable pub buffer_size : Config → ℕ
buffer_size cfg = pool_size cfg * 4

-- What the goroutines do next: the batcher takes a job from the queue or its window ends; a worker, or
-- one of the extra goroutines, goes on; the queue is closed or the batcher is cancelled, with the jobs
-- that are still in the channel.
pub data Event {ℓ} (A : Type ℓ) : Type ℓ where
  arrives : A → Event A
  window_ends : Event A
  works : ℕ → Event A
  works_extra : ℕ → Event A
  closes : Event A
  cancelled : List A → Event A

module _ {ℓ} {A : Type ℓ} where
  unfoldable pub idle_workers : ℕ → List (List A)
  idle_workers zero = []
  idle_workers (suc k) = [] ∷ idle_workers k

  unfoldable pub start : Config → Flow A
  start cfg = record {
    batch = [];
    active = 0;
    batches = [];
    workers = idle_workers (pool_size cfg);
    extra = [];
    dispatched = [];
  }

  -- `Submit`, and the goroutine for the batch that finds the buffer full.
  unfoldable pub submit : Config → List A → Flow A → Flow A
  submit cfg b s =
      if ltb (length s.batches) (buffer_size cfg)
      then record s { batches = s.batches ++ b ∷ [] }
      else record s { extra = s.extra ++ b ∷ [] }

  flushed : Config → List A → Flow A → Flow A
  flushed cfg [] s = s
  flushed cfg (j ∷ rest) s = record (submit cfg (j ∷ rest) s) { batch = []; active = 0 }

  unfoldable pub flush : Config → Flow A → Flow A
  unfolding flushed
  flush cfg s = flushed cfg s.batch s

  appended : A → Flow A → Flow A
  appended job s = record s { batch = s.batch ++ job ∷ []; active = length (s.batch ++ job ∷ []) }

  -- A job from the queue.
  unfoldable pub receive : Config → A → Flow A → Flow A
  unfolding appended
  receive cfg job s =
      if leb cfg.max_batch_size (length (s.batch ++ job ∷ []))
      then flush cfg (appended job s)
      else appended job s

  receive_all : Config → List A → Flow A → Flow A
  receive_all cfg [] s = s
  receive_all cfg (j ∷ rest) s = receive_all cfg rest (receive cfg j s)

  -- The `k`-th of some goroutines runs its next job through the router: what is left, and the job.
  unfoldable pub advance : ℕ → List (List A) → Option (A × List (List A))
  advance k [] = none
  advance zero ([] ∷ others) = none
  advance zero ((j ∷ rest) ∷ others) = some (j, rest ∷ others)
  advance (suc k) (w ∷ others) = elim (advance k others) [
    | none ↦ none
    | some (j, others') ↦ some (j, w ∷ others')
  ]

  -- The `k`-th worker, if it has none left, takes a batch.
  unfoldable pub give : ℕ → List A → List (List A) → Option (List (List A))
  give k b [] = none
  give zero b ([] ∷ others) = some (b ∷ others)
  give zero b ((j ∷ rest) ∷ others) = none
  give (suc k) b (w ∷ others) = elim (give k b others) [
    | none ↦ none
    | some others' ↦ some (w ∷ others')
  ]

  taken : Flow A → List (List A) → Option (List (List A)) → Flow A
  taken s rest none = s
  taken s rest (some workers') = record s { batches = rest; workers = workers' }

  take_batch : ℕ → List (List A) → Flow A → Flow A
  unfolding taken
  take_batch k [] s = s
  take_batch k (b ∷ rest) s = taken s rest (give k b s.workers)

  worked : ℕ → Option (A × List (List A)) → Flow A → Flow A
  unfolding take_batch
  worked k none s = take_batch k s.batches s
  worked k (some (j, workers')) s = record s {
    workers = workers';
    dispatched = s.dispatched ++ j ∷ [];
  }

  worked_extra : Option (A × List (List A)) → Flow A → Flow A
  worked_extra none s = s
  worked_extra (some (j, extra')) s = record s {
    extra = extra';
    dispatched = s.dispatched ++ j ∷ [];
  }

  unfoldable pub step : Config → Event A → Flow A → Flow A
  unfolding worked worked_extra receive_all
  step cfg (arrives job) s = receive cfg job s
  step cfg window_ends s = flush cfg s
  step cfg (works k) s = worked k (advance k s.workers) s
  step cfg (works_extra k) s = worked_extra (advance k s.extra) s
  step cfg closes s = flush cfg s
  step cfg (cancelled left) s = flush cfg (receive_all cfg left s)

  unfoldable pub run : Config → List (Event A) → Flow A → Flow A
  run cfg [] s = s
  run cfg (e ∷ events) s = run cfg events (step cfg e s)
