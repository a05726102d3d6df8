-- ===== src/Pc/Admin/Guarded.antt =====
-- Who reaches what: the key, and the routes of the machine itself.
use text.Mathlib.Text.{starts_with}
use home_inference_server.Prelude.{true, false, String, ◌≡◌, ◌≢◌, ◌⊎◌}
use home_inference_server.Pc.Admin.{
  is_loopback, HttpRequest, Controls, Out, state_reply, error_reply, preflight, Action, drain,
  undrain, restart, Config,
}

pub record Guarded (cfg : Config) (r : HttpRequest) (s : Controls) (o : Out × Controls)
    : Type 0 where
  -- With a key set, a caller from elsewhere needs it for every /v1/ route, but for a preflight.
  pub keyed :
      cfg.api_key ≢ ""
      → starts_with r.path "/v1/" ≡ true
      → is_loopback cfg.net r.remote_addr ≡ false
      → r.api_key ≢ cfg.api_key
      → (o ≡ (error_reply 401 "unauthorized", s)) ⊎ (o ≡ (preflight, s))
  -- Nothing from elsewhere, with the key or without, drains, resumes or restarts the server or reads its
  -- admin state.
  pub local_only :
      is_loopback cfg.net r.remote_addr ≡ false
      → (o.1 ≡ s) × ((state : String) → o.0 ≢ state_reply state)
  pub posts_only : r.method ≢ "POST" → o.1 ≡ s

-- What is no POST takes no action that changes the state.
abbrev Changes : Action → Type 0
Changes a = (a ≡ drain) ⊎ ((a ≡ undrain) ⊎ (a ≡ restart))
