-- ===== src/Pc/Admin/Drained.antt =====
-- A drain holds: no new work reaches the PC until it is resumed.
use home_inference_server.Prelude.{true, Option, none, some, List, [], ◌∷◌, String, ◌≡◌}
use home_inference_server.Relay.Jobs.{Job}
use home_inference_server.Pc.Infer.{Handled, replied}
use home_inference_server.Pc.Worker.{Client, Turn, round}
use home_inference_server.Pc.Worker.Loop.{client_of}
use home_inference_server.Pc.Admin.{
  is_loopback, HttpRequest, Controls, Out, inferred, path_resume, Config, serve,
}

-- What the PC does next: it serves a request, or its worker, if it has one, goes round its loop.
pub data Event : Type 0 where
  request : HttpRequest → Event
  works : Turn → Event

abbrev worked : Turn → Option Client → Option Client
worked t none = none
worked t (some c) = some (client_of (round t c))

abbrev with_out : Out → List Out × Controls → List Out × Controls
with_out o (outs, s) = (o ∷ outs, s)

module _ (cfg : Config) where
  -- The replies, and the state at the end.
  pub run : List Event → Controls → List Out × Controls
  run [] s = ([], s)
  run (request r ∷ rest) s = with_out (serve cfg r s).0 (run rest (serve cfg r s).1)
  run (works t ∷ rest) s = run rest (record s { pause_sink = worked t s.pause_sink })

-- The one request that ends a drain.
abbrev pub IsResume : Config → Event → Type 0
IsResume cfg (request r) =
    (is_loopback cfg.net r.remote_addr ≡ true) × (r.method ≡ "POST") × (r.path ≡ path_resume)
IsResume cfg (works t) = ⊥

abbrev pub IsPaused : Option Client → Type 0
IsPaused none = Unit {0}
IsPaused (some c) = c.paused ≡ true

abbrev pub taken_by : Option Client → List Job
taken_by none = []
taken_by (some c) = c.taken

pub record IsDrained (taken : List Job) (s : Controls) : Type 0 where
  pub stopped : s.draining ≡ true
  pub paused : IsPaused s.pause_sink
  pub no_new : taken_by s.pause_sink ≡ taken

-- A reply starts no inference.
abbrev pub StartsNone : Out → Type 0
StartsNone o =
    (h : Handled) → o ≡ inferred h → (message : String) × (h ≡ replied 503 "draining" message "")

-- Whatever is done but a resumption, a drained server stays drained.
abbrev Keeps : List Job → Out × Controls → Type 0
Keeps taken o = StartsNone o.0 × IsDrained taken o.1
