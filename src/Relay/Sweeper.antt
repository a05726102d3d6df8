-- ===== src/Relay/Sweeper.antt =====
-- internal/railwayq/ttl.go and the finish tracker of wake.go: when finished jobs are purged, and how the
-- sweeper knows without asking the database.
--
-- The state is the table and the tracker's `oldest`, whose zero time is `none`. A query may fail; which
-- do is an argument. Time runs in milliseconds, with one clock for the relay and the database: the
-- relay's instants and `NOW()` differ by their clocks' skew, which is left out here.
pub mod Tracking
pub mod Acks
mod Tests
use home_inference_server.Prelude.{
  ℕ, ◌+◌, ◌-◌, ◌*◌, Bool, true, false, ◌||◌, Option, none, some, List, [], ◌∷◌, String,
  if◌then◌else◌, ltb, min,
}
use home_inference_server.Relay.Jobs.{
  Jobs, Reply, ok, err, AckRequest, ack, purge_expired, oldest_finished_at,
}

abbrev pub minute : ℕ
minute = 60_000

-- `finishTracker.record`, `.peek` and `.take`.
pub record_finish : ℕ → Option ℕ → Option ℕ
record_finish t none = some t
record_finish t (some oldest) = if ltb t oldest then some t else some oldest

abbrev pub take_oldest : Option ℕ → Option ℕ
take_oldest _ = none

abbrev pub record_optional : Option ℕ → Option ℕ → Option ℕ
record_optional none tracker = tracker
record_optional (some t) tracker = record_finish t tracker

pub record Sweeper : Type 0 where
  pub jobs : Jobs
  pub oldest : Option ℕ
  -- The database was queried.
  pub queries : ℕ

-- Which of the two queries of a sweep fail.
pub record Faults : Type 0 where
  pub purge : Bool
  pub lookup : Bool

-- The interval of the ticker in `StartTTLSweeper`.
pub sweep_interval : ℕ → ℕ
sweep_interval ttl =
    let capped = if ltb (10 * minute) ttl then 10 * minute else ttl in
    if ltb capped minute then minute else capped

-- `s.tracker.record(s.now().Add(-s.ttl))`: unknown, so due at once. Before the ttl has passed since the
-- epoch Go's instant is negative; here it is the epoch.
abbrev pub due_at_once : ℕ → ℕ → ℕ
due_at_once ttl now = now - ttl

-- After the purge: the oldest finished row that is left.
look_up : ℕ → ℕ → Faults → Sweeper → Sweeper
look_up ttl now f s =
    if f.lookup
    then record s { oldest = record_finish (due_at_once ttl now) s.oldest; queries = s.queries + 1 }
    else record s {
      oldest = record_optional (oldest_finished_at s.jobs) s.oldest;
      queries = s.queries + 1;
    }

-- A purge that is due at `t`, which the tracker no longer holds.
purge_due : ℕ → ℕ → Faults → ℕ → Sweeper → Sweeper
unfolding look_up
purge_due ttl now f t s =
    if f.purge
    then record s { oldest = record_finish t s.oldest; queries = s.queries + 1 }
    else look_up ttl now f
        (record s { jobs = (purge_expired ttl now s.jobs).0; queries = s.queries + 1 })

-- `sweepIfDue`, with what `peek` returned.
sweep_peeked : ℕ → ℕ → Faults → Option ℕ → Sweeper → Sweeper
unfolding purge_due
sweep_peeked ttl now f none s = s
sweep_peeked ttl now f (some t) s =
    if ltb now (t + ttl)
    then s
    else purge_due ttl now f t (record s { oldest = take_oldest s.oldest })

pub sweep_if_due : ℕ → ℕ → Faults → Sweeper → Sweeper
unfolding sweep_peeked
sweep_if_due ttl now f s = sweep_peeked ttl now f s.oldest s

-- `checkAtStartup`; `failed` is the failure of its own query.
pub check_at_startup : ℕ → ℕ → Bool → Faults → Sweeper → Sweeper
unfolding sweep_if_due
check_at_startup ttl now failed f s =
    if failed
    then record s { oldest = record_finish (due_at_once ttl now) s.oldest; queries = s.queries + 1 }
    else sweep_if_due ttl now f (record s {
      oldest = record_optional (oldest_finished_at s.jobs) s.oldest;
      queries = s.queries + 1;
    })

-- `Ack` with its report to the tracker.
acked : ℕ → Sweeper → Reply (Jobs × Bool) → Sweeper
acked now s (err e) = s
acked now s (ok (t, hit)) = record s {
  jobs = t;
  oldest = if hit then record_finish now s.oldest else s.oldest;
}

pub ack_and_record : (String → Bool) → ℕ → AckRequest → Sweeper → Sweeper
unfolding acked
ack_and_record valid now req s = acked now s (ack valid now req s.jobs)
