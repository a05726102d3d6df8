-- ===== src/Pc/Worker/Loop.antt =====
-- The loop of the worker: its backoff, and what a pause means.
use home_inference_server.Prelude.{◌≤◌, true, ◌≡◌, arith}
use home_inference_server.Pc.Worker.{
  Client, Turn, Claim, claim_fails, no_job, claimed, Round, ends, goes_on, backoff_min, backoff_max,
  claimed_round, round,
}

abbrev pub client_of : Round → Client
client_of (ends c) = c
client_of (goes_on c) = c

abbrev pub InBounds : Client → Type 0
InBounds c = (backoff_min ≤ c.backoff) × (c.backoff ≤ backoff_max)

-- A paused client takes no job and stays paused.
pub round-paused :
    (t : Turn) (c : Client)
    → c.paused ≡ true
    → ((client_of (round t c)).taken ≡ c.taken) × ((client_of (round t c)).paused ≡ true)
unfolding round
round-paused t c h = (ground arith, ground arith)

claimed-InBounds :
    (t : Turn) (claim : Claim) (c : Client)
    → InBounds c
    → InBounds (client_of (claimed_round t claim c))
unfolding claimed_round
claimed-InBounds t claim_fails c h = (ground arith, ground arith)
claimed-InBounds t no_job c h = omega arith
claimed-InBounds t (claimed job) c h = omega arith

pub round-InBounds : (t : Turn) (c : Client) → InBounds c → InBounds (client_of (round t c))
unfolding round
round-InBounds t c h = let claims = claimed-InBounds t t.claim c h in (ground arith, ground arith)
