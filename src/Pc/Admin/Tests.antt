-- ===== src/Pc/Admin/Tests.antt =====
-- A drain of the PC, and who may ask for it.
use home_inference_server.Prelude.{
  true, false, none, some, List, [], ◌∷◌, String, str_eq, ◌≡◌, refl,
}
use home_inference_server.Prelude.Int.{pos}
use home_inference_server.Relay.Jobs.{pending, Job}
use home_inference_server.Pc.Worker.{backoff_min, Turn, claimed}
use home_inference_server.Pc.Admin.{
  Net, is_loopback, HttpRequest, Controls, state_reply, error_reply, set_draining, action_of,
  take_action, handle_admin, Config, decide, perform, serve,
}
use home_inference_server.Pc.Admin.Drained.{Event, request, works}
use home_inference_server.Pc.Admin.Guarded.{Guarded}

-- Addresses without a port; one of them is the machine's own.
abbrev net : Net
net = record { split_host_port = λ s. none; parse_ip = λ s. some (str_eq s "127.0.0.1") }

abbrev cfg : Config
cfg = record {
  net = net;
  decode_base64 = λ s. none;
  infer_timeout = pos 120_000_000_000;
  fresh_id = "req-1";
  request_id = "r1";
  api_key = "secret";
  has_cors = false;
}

abbrev post : String → String → HttpRequest
post addr path = record {
  path = path;
  method = "POST";
  remote_addr = addr;
  api_key = "";
  origin = "";
  body = none;
}

abbrev waiting_job : Job
waiting_job = record {
  id = "job-1";
  correlation_id = "c1";
  status = pending;
  payload = "{}";
  result_payload = none;
  error_code = none;
  created_at = 0;
  claimed_at = none;
  finished_at = none;
  attempt_count = 0;
  max_attempts = 3;
  identity = "owner";
}

abbrev busy : Turn
busy = record {
  done_first = false;
  done_asleep = false;
  claim = claimed waiting_job;
  done_after = false;
}

abbrev fresh : Controls
fresh = record {
  draining = false;
  pause_sink =
      some (record { paused = false; resume_signal = false; backoff = backoff_min; taken = [] });
  restart_signal = some false;
}

abbrev drained : Controls
drained = record {
  draining = true;
  pause_sink =
      some (record { paused = true; resume_signal = false; backoff = backoff_min; taken = [] });
  restart_signal = some false;
}

drains : serve cfg (post "127.0.0.1" "/v1/admin/drain") fresh ≡ (state_reply "draining", drained)
unfolding serve perform decide is_loopback handle_admin take_action action_of set_draining
drains = refl

-- From elsewhere the key is asked for first.
far_drain :
    serve cfg (post "10.0.0.7" "/v1/admin/drain") fresh ≡ (error_reply 401 "unauthorized", fresh)
unfolding serve perform decide is_loopback
far_drain = refl

-- With the key the admin routes are still not there.
far_keyed :
    serve cfg (record (post "10.0.0.7" "/v1/admin/drain") { api_key = "secret" }) fresh
    ≡ (error_reply 404 "invalid_request", fresh)
unfolding serve perform decide is_loopback handle_admin take_action action_of
far_keyed = refl

-- An inference, a resumption from elsewhere and a round of the worker with a job at hand.
abbrev events : List Event
events =
    request (post "127.0.0.1" "/v1/infer")
    ∷ request (post "10.0.0.7" "/v1/admin/resume")
    ∷ works busy
    ∷ []
