-- ===== src/Relay/Sweeper/Tests.antt =====
-- Concrete runs of the sweeper, with a ttl of an hour.
use home_inference_server.Prelude.{
  ℕ, Bool, true, false, ◌+◌, none, some, List, [], ◌∷◌, String, ◌≡◌, refl, All,
}
use home_inference_server.Relay.Jobs.{
  processing, done, Job, AckRequest, is_expired, ack, purge_expired, oldest_finished_at,
}
use home_inference_server.Relay.Sweeper.{
  Sweeper, Faults, record_finish, sweep_interval, sweep_if_due, check_at_startup, ack_and_record,
}
use home_inference_server.Relay.Sweeper.Tracking.{Watches, sweep_if_due-clean}
use home_inference_server.Relay.Sweeper.Acks.{
  Event, acks, sweeps, run, time_after, run-check_at_startup,
}

abbrev hour : ℕ
hour = 3_600_000

abbrev fine : Faults
fine = record { purge = false; lookup = false }

abbrev broken : Faults
broken = record { purge = true; lookup = true }

abbrev any_payload : String → Bool
any_payload t = true

abbrev being_served : Job
being_served = record {
  id = "a";
  correlation_id = "c";
  status = processing;
  payload = "{}";
  result_payload = none;
  error_code = none;
  created_at = 0;
  claimed_at = some 10;
  finished_at = none;
  attempt_count = 1;
  max_attempts = 1;
  identity = "ann";
}

abbrev served_at : ℕ → Job
served_at t = record being_served { status = done; finished_at = some t }

abbrev before_ack : Sweeper
before_ack = record { jobs = being_served ∷ []; oldest = none; queries = 0 }

abbrev after_ack : Sweeper
after_ack = record { jobs = served_at 20 ∷ []; oldest = some 20; queries = 0 }

abbrev request : AckRequest
request = record { job_id = "a"; status = done; result_payload = ""; error_code = "" }

ack_tracked : ack_and_record any_payload 20 request before_ack ≡ after_ack
unfolding ack_and_record ack record_finish
ack_tracked = refl

idle : sweep_if_due hour 1000 fine after_ack ≡ after_ack
unfolding sweep_if_due
idle = refl

purges :
    sweep_if_due hour (hour + 20) fine after_ack
    ≡ record { jobs = served_at 20 ∷ []; oldest = some 20; queries = 2 }
unfolding sweep_if_due purge_expired oldest_finished_at record_finish
purges = refl

removed : (sweep_if_due hour (hour + 21) fine after_ack).jobs ≡ []
unfolding sweep_if_due purge_expired
removed = refl

every_ten_minutes : sweep_interval hour ≡ 600_000
unfolding sweep_interval
every_ten_minutes = refl

abbrev watches_after : Watches hour 1000 after_ack
watches_after = record { stamps = (refl, tt); tracks = (refl, tt) }

abbrev watches_late : Watches hour (hour + 21) after_ack
watches_late = record { stamps = (refl, tt); tracks = (refl, tt) }

sweep_if_due-clean_example :
    All
      (λ j. is_expired hour (hour + 21) j ≡ false)
      (sweep_if_due hour (hour + 21) fine after_ack).jobs
sweep_if_due-clean_example = sweep_if_due-clean hour (hour + 21) fine after_ack refl watches_late

abbrev watches_before : Watches hour 10 before_ack
watches_before = record { stamps = (refl, tt); tracks = (refl, tt) }

-- An ack, a sweep in which both queries fail, and one that works.
abbrev events : List (ℕ × Event)
events = (10, acks any_payload request) ∷ (hour + 1, sweeps broken) ∷ (60_000, sweeps fine) ∷ []

run-check_at_startup_example :
    Watches hour
      (time_after 10 events)
      (run hour 10 events (check_at_startup hour 10 true fine before_ack))
run-check_at_startup_example = run-check_at_startup hour 10 true fine events before_ack (refl, tt)
