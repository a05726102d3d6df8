-- ===== src/Pipeline/Tests.antt =====
-- A pool of one worker with batches of two, and a router with one backend.
use home_inference_server.Prelude.{
  ℕ, true, ◌+◌, none, some, List, [], ◌∷◌, ◌≡◌, refl, str_eq, if◌then◌else◌, ltb,
}
use home_inference_server.Pipeline.Router.{
  Job, panics, failure, Backends, send_result, dispatch_one,
}
use home_inference_server.Pipeline.Flow.{
  Config, Event, arrives, works, cancelled, start, run, pool_size, buffer_size, idle_workers,
  submit, flush, receive, advance, give, step,
}
use home_inference_server.Pipeline.Flow.Conservation.{held, arrivals, run-held}

abbrev config : Config
config = record { max_batch_size = 2; n = 1 }

abbrev events : List (Event ℕ)
events = arrives 5 ∷ arrives 6 ∷ works 0 ∷ works 0 ∷ arrives 7 ∷ cancelled (8 ∷ []) ∷ []

interleaved : run config events (start config) ≡ record {
  batch = [];
  active = 0;
  batches = (7 ∷ 8 ∷ []) ∷ [];
  workers = (6 ∷ []) ∷ [];
  extra = [];
  dispatched = 5 ∷ [];
}
unfolding run start pool_size buffer_size idle_workers submit flush receive advance give step
interleaved = refl

run-held_example :
    held (ltb 5) (run config events (start config))
    ≡ held (ltb 5) (start config) + arrivals (ltb 5) events
run-held_example = run-held (ltb 5) config events (start config)

abbrev backends : Backends
backends = λ modality. if str_eq modality "text" then some (λ _. panics) else none

abbrev question : Job
question = record { id = "a"; modality = "text"; prompt = "?"; has_channel = true }

panic_reported : dispatch_one backends question ≡ some (failure "internal_error")
unfolding dispatch_one send_result
panic_reported = refl
