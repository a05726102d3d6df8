-- ===== src/Pc/Worker/Deadlines.antt =====
-- How long a job may keep the worker.
use home_inference_server.Prelude.{
  ℕ, ◌*◌, ◌-◌, ◌^◌, ◌≤◌, ◌<◌, true, false, ◌&&◌, ◌≡◌, refl, arith, min, leb, Bool-cases, ◌⊎◌, inl,
  inr,
}
use home_inference_server.Prelude.Int.{ℤ, pos, negsuc, ltb_ℤ}
use home_inference_server.Relay.Jobs.{visibility_timeout}
use home_inference_server.Pc.Infer.{milliseconds}
use home_inference_server.Pc.Infer.Content.{milliseconds-pos}
use home_inference_server.Pc.Worker.{max_job_wait, job_wait}

-- Never as long as the relay's visibility timeout.
pub job_wait-le : (ms : ℤ) → ltb_ℤ (pos max_job_wait) (job_wait ms) ≡ false
unfolding job_wait
job_wait-le ms =
    elim (Bool-cases (ltb_ℤ (pos 0) ms && ltb_ℤ (milliseconds ms) (pos max_job_wait))) [
      | inl shorter ↦ rw shorter (ground arith)
      | inr longer ↦ rw longer refl
    ]

pub job_wait-pos :
    (ms : ℕ)
    → 0 < ms
    → ms ≤ 9_223_372_036_854
    → job_wait (pos ms) ≡ pos (min (ms * 1_000_000) max_job_wait)
unfolding job_wait
job_wait-pos ms h k = rw (milliseconds-pos ms k) (ground arith)

leb_cases : (a b : ℕ) → (a ≤ b) ⊎ (b < a)
leb_cases a b = elim (Bool-cases (leb a b)) [
  | inl small ↦ inl (ground arith)
  | inr large ↦ inr (ground arith)
]

wrapped :
    (ms : ℕ)
    → 9_223_372_036_855 ≤ ms
    → ms < 18_446_744_073_709
    → milliseconds (pos ms) ≡ negsuc (2 ^ 64 - 1 - ms * 1_000_000)
unfolding milliseconds
wrapped ms h k = ground arith

-- A timeout for which the product wraps below zero: the job has no time at all.
pub job_wait-wraps :
    (ms : ℕ)
    → 9_223_372_036_855 ≤ ms
    → ms < 18_446_744_073_709
    → ltb_ℤ (job_wait (pos ms)) (pos 0) ≡ true
unfolding job_wait
job_wait-wraps ms h k = rw (wrapped ms h k) (ground arith)

-- The wait for a job whose timeout is given, in milliseconds.
pub data Waits (ms : ℕ) (wait : ℤ) : Type 0 where
  as_asked : ms ≤ 9_223_372_036_854 → wait ≡ pos (min (ms * 1_000_000) max_job_wait) → Waits ms wait
  wrapped_over :
      9_223_372_036_855 ≤ ms → ms < 18_446_744_073_709 → ltb_ℤ wait (pos 0) ≡ true → Waits ms wait
  far_over : 18_446_744_073_709 ≤ ms → ltb_ℤ (pos max_job_wait) wait ≡ false → Waits ms wait

-- A job that gives a timeout waits for no longer than that and no longer than 100 s, which is below the
-- relay's visibility timeout, as long as the timeout in nanoseconds fits an int64; from
-- 9223372036855 ms on it wraps, below 18446744073709 ms to a negative wait: the job has no time at all.
pub job_wait-Waits :
    (ms : ℕ)
    → 0 < ms
    → Waits ms (job_wait (pos ms))
      × (ltb_ℤ (pos max_job_wait) (job_wait (pos ms)) ≡ false)
      × (max_job_wait < visibility_timeout * 1_000_000)
job_wait-Waits ms h = (waits, job_wait-le (pos ms), omega arith)
  where
    waits : Waits ms (job_wait (pos ms))
    waits = elim (leb_cases ms 9_223_372_036_854) [
      | inl small ↦ as_asked small (job_wait-pos ms h small)
      | inr large ↦ elim (leb_cases 18_446_744_073_709 ms) [
        | inl huge ↦ far_over huge (job_wait-le (pos ms))
        | inr below ↦ wrapped_over (omega arith) below (job_wait-wraps ms (omega arith) below)
      ]
    ]
