-- ===== src/Relay/Jobs/Claims.antt =====
-- Which job a worker gets, and which it never gets again.
use home_inference_server.Prelude.{At, ℕ, ◌≤◌, true, false, Option, none, some, ◌≡◌, refl, All}
use home_inference_server.Relay.Sql.{First, found, missing, first_by-First}
use home_inference_server.Relay.Jobs.{
  Job, Jobs, is_claimable, claimed, claim_found, oldest_claimable, try_claim_one,
}

-- What a worker is handed: a job that was waiting with attempts left, no such job older than it, now
-- marked as processing from this moment with one attempt more. It gets nothing only if there is none.
pub data Handed (now : ℕ) (jobs : Jobs) (o : Option Job) : Type 0 where
  gives :
      (c : Job)
      → o ≡ some (claimed now c)
      → At c jobs
      → is_claimable c ≡ true
      → All (λ k. is_claimable k ≡ true → c.created_at ≤ k.created_at) jobs
      → Handed now jobs o
  nothing : o ≡ none → All (λ k. is_claimable k ≡ false) jobs → Handed now jobs o

handed :
    (now : ℕ) (jobs : Jobs) (o : Option Job)
    → First is_claimable (λ j. j.created_at) jobs o
    → Handed now jobs (claim_found now jobs o).0
unfolding claim_found
handed now jobs none (found c e _ _ _) = cc
handed now jobs none (missing e l) = nothing refl l
handed now jobs (some c) (found r e at fits least) =
    let same : r ≡ c = cc in gives r (rw same) at fits least
handed now jobs (some c) (missing e l) = cc

-- A claim hands out the oldest job that waits with attempts left, and nothing only if none does.
pub try_claim_one-Handed : (now : ℕ) (jobs : Jobs) → Handed now jobs (try_claim_one now jobs).0
unfolding try_claim_one
try_claim_one-Handed now jobs =
    handed now jobs (oldest_claimable jobs) (first_by-First is_claimable (λ j. j.created_at) jobs)
