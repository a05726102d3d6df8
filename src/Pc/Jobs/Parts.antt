-- ===== src/Pc/Jobs/Parts.antt =====
-- The parts of an account: the pressure of a deferral, the status of a failure, and the times.
use home_inference_server.Prelude.{
  ℕ, ◌+◌, ◌-◌, ◌/◌, ◌≤◌, ◌<◌, Bool, true, false, if◌then◌else◌, Option, none, some, String,
  str_eq_iff, ◌≡◌, refl, ◌≢◌, arith,
}
use home_inference_server.Prelude.Int.{ℤ, pos, negsuc}
use home_inference_server.Pc.Api.{Failure, backend_error, other_error}
use home_inference_server.Pc.Jobs.{
  error_reply, Scene, short_of_vram, short_of_cpu, should_defer, millis_between,
  backend_err_to_http_status, failure_reply,
}

-- The pressure under which a request may be handed to the relay.
pub record IsPressed (sc : Scene) (priority : String) : Type 0 where
  pub relay : sc.has_relay ≡ true
  pub not_high : priority ≢ "high"
  pub vram : (avail : ℕ) × (sc.vram ≡ some (some (pos avail))) × (avail < 500)
  pub cpu : (pct : ℕ) × (sc.cpu ≡ some pct) × (9_000 < pct)

short_of_vram-lt :
    (v : Option (Option ℤ))
    → short_of_vram v ≡ true
    → (avail : ℕ) × (v ≡ some (some (pos avail))) × (avail < 500)
unfolding short_of_vram
short_of_vram-lt none h = absurd (cc)
short_of_vram-lt (some none) h = absurd (cc)
short_of_vram-lt (some (some (pos n))) h = (n, refl, ground arith)
short_of_vram-lt (some (some (negsuc n))) h = absurd (ground arith)

short_of_cpu-lt :
    (c : Option ℕ) → short_of_cpu c ≡ true → (pct : ℕ) × (c ≡ some pct) × (9_000 < pct)
unfolding short_of_cpu
short_of_cpu-lt none h = absurd (cc)
short_of_cpu-lt (some pct) h = (pct, refl, ground arith)

pub should_defer-IsPressed :
    (sc : Scene) (priority : String) → should_defer sc priority ≡ true → IsPressed sc priority
unfolding should_defer
should_defer-IsPressed sc priority h = record {
  relay = ground arith;
  not_high = λ e. ground (arith, str_eq_iff priority "high");
  vram = short_of_vram-lt sc.vram (ground arith);
  cpu = short_of_cpu-lt sc.cpu (ground arith);
}

if-is_error : (b : Bool) (s t : ℕ) → 400 ≤ s → 400 ≤ t → 400 ≤ (if b then s else t)
if-is_error true s t h k = h
if-is_error false s t h k = k

backend_err-status : (code : String) → 400 ≤ backend_err_to_http_status code
unfolding backend_err_to_http_status
backend_err-status code = if-is_error _ 400 _ (omega arith) (
    if-is_error _ 401 _ (omega arith) (
      if-is_error _ 404 _ (omega arith) (
        if-is_error _ 429 _ (omega arith) (
          if-is_error _ 408 _ (omega arith) (
            if-is_error _ 501 _ (omega arith)
              (if-is_error _ 503 500 (omega arith) (omega arith)))))))

pub failure-status :
    (e : Failure) (c : String)
    → (status : ℕ) × (code : String) × (message : String) × (failure_reply e c
        ≡ error_reply status code message c)
      × (400 ≤ status)
unfolding failure_reply
failure-status (backend_error code message cause) c =
    (backend_err_to_http_status code, code, message, refl, backend_err-status code)
failure-status (other_error text) c = (500, "internal_error", text, refl, omega arith)

-- A wait and a run in whole milliseconds, and their sum.
pub record Split (wait run whole : ℤ) : Type 0 where
  pub w : ℕ
  pub i : ℕ
  pub d : ℕ
  pub waits : wait ≡ pos w
  pub runs : run ≡ pos i
  pub lasts : whole ≡ pos d
  pub at_least : w + i ≤ d
  pub at_most : d ≤ w + i + 1

pub millis-Split :
    (a b c : ℕ)
    → a ≤ b
    → b ≤ c
    → Split (millis_between a b) (millis_between b c) (millis_between a c)
millis-Split a b c h k = record {
  w = (b - a) / 1_000_000;
  i = (c - b) / 1_000_000;
  d = (c - a) / 1_000_000;
  waits = ground arith;
  runs = ground arith;
  lasts = ground arith;
  at_least = omega arith;
  at_most = omega arith;
}
