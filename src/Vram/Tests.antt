-- ===== src/Vram/Tests.antt =====
-- Concrete runs of the VRAM-aware backend, on the roster of the README.
use home_inference_server.Prelude.{
  ℕ, ◌*◌, true, false, none, some, List, [], ◌∷◌, ◌≡◌, refl, arith, ◌⊎◌,
}
use home_inference_server.Prelude.Int.{pos, negsuc, add64, sub64, mul64, quot64}
use home_inference_server.Types.Model.{ModelDescriptor, TierLabel, has_vision, weight_mb, kv_parts}
use home_inference_server.Vram.Layers.{
  fit_layers, scaled_kv_overhead_mb, gpu_resident_mb, fits_with_buffer,
}
use home_inference_server.Vram.Layers.Fit.{InRange, Fit, fit_layers-Fits}
use home_inference_server.Vram.Backend.{Backend, Options, World, State, ok}
use home_inference_server.Vram.Backend.Choose.{choose, largest_on_gpu, matches}
use home_inference_server.Vram.Backend.Choose.Admission.{Admits, choose-Admits}
use home_inference_server.Vram.Backend.Load.{select_and_load}
use home_inference_server.Vram.Backend.Load.Residency.{IsConsistent, Serves, select_and_load-Serves}
use home_inference_server.Vram.Backend.Request.{Request, meets_speed_floor, infer}
use home_inference_server.Vram.Backend.Request.Quality.{Outcome, infer-Outcome}
use home_inference_server.Vram.Backend.Load.Liveness.{IsOk, Roomy}
use home_inference_server.Vram.Backend.Request.Liveness.{Favourable, Plain, infer-IsOk}
use home_inference_server.Vram.Eviction.{Loop, Surroundings, tick_once, is_loaded}
use home_inference_server.Vram.Eviction.Idle.{Tick, tick_once-Tick}

abbrev tier : TierLabel → TierLabel → ℕ → ℕ → ModelDescriptor
tier label projector weight layers = record {
  tier_label = label;
  mm_proj_path = projector;
  required_vram_mb = pos weight;
  total_layers = pos layers;
  kv_overhead_mb = pos 0;
  kv_cache_mb = pos 100;
  kv_fixed_mb = pos 300;
  vision_required_vram_mb = pos weight;
  vision_kv_cache_mb = pos 150;
  vision_kv_fixed_mb = pos 1100;
}

abbrev weak : ModelDescriptor
weak = tier "weak" "mmproj.gguf" 1800 36

abbrev strong : ModelDescriptor
strong = tier "strong" "" 4700 42

abbrev roster : List ModelDescriptor
roster = weak ∷ tier "mid" "" 3000 35 ∷ strong ∷ []

abbrev options : Options
options = record {
  buffer_pct = pos 10;
  max_parallel = pos 2;
  eviction_idle_timeout = 20000;
  vram_reclaim_max_wait = 0;
  oom_simulator = λ _. false;
}

-- 4000 MB are free, time passes by a second an observation, and every tier runs at a good rate.
abbrev world : World
world = record {
  available = λ _. some (pos 4000);
  clock = λ n. n * 1000;
  tok_per_sec = λ _ _. record { is_zero = false; below = λ _. false };
  inner_infer =
      λ _ label. ok (record { output = "hi"; model_tier = label; quality_degraded = false });
}

abbrev backend : Backend
backend = record {
  roster = roster;
  opts = options;
  inners = λ _. some (record { gpu_layer_sink = true; vision_sink = true; measurable = true });
  world = world;
}

-- The weak tier is loaded with its projector, and idle since the start.
abbrev with_vision : State
with_vision = record {
  loaded_tier = some weak;
  loaded_at = 0;
  loaded_layers = negsuc 0;
  loaded_vision = true;
  last_used = 0;
  inflight = 0;
  contention_logged = false;
  observations = 30;
  effects = [];
}

abbrev urgent : Request
urgent = record { image_length = 0; priority = "high"; min_tier = "mid"; preferred_tier = "" }

vision-IsConsistent : IsConsistent with_vision
unfolding has_vision
vision-IsConsistent = refl

partial : fit_layers (pos 4700) (pos 800) (pos 4000) (pos 42) (pos 10) ≡ pos 25
unfolding fit_layers add64 sub64 mul64 quot64
partial = refl

in_range : InRange 4700 800 4000 42 10
in_range = omega arith

fit_layers-Fits_example :
    Fit 4700 800 4000 42 10 (fit_layers (pos 4700) (pos 800) (pos 4000) (pos 42) (pos 10))
    × ((fit_layers (pos 4700) (pos 800) (pos 4000) (pos 42) (pos 10) ≡ pos 0)
        ⊎ (fits_with_buffer
              (gpu_resident_mb
                (pos 4700)
                (pos 800)
                (fit_layers (pos 4700) (pos 800) (pos 4000) (pos 42) (pos 10))
                (pos 42))
              (pos 4000)
              (pos 10)
            ≡ true))
fit_layers-Fits_example = fit_layers-Fits 4700 800 4000 42 10 in_range (omega arith)

choose-Admits_example :
    Admits options none false (pos 4000) roster (choose options none false (pos 4000) roster)
choose-Admits_example = choose-Admits options none false (pos 4000) roster refl

select_and_load-Serves_example : Serves none false (select_and_load backend none false with_vision)
select_and_load-Serves_example =
    select_and_load-Serves backend none false with_vision vision-IsConsistent

infer-Outcome_example : Outcome urgent (infer backend urgent true with_vision)
infer-Outcome_example =
    infer-Outcome backend urgent true with_vision (omega arith) vision-IsConsistent

-- Another request arrives while the loop reads the free VRAM.
abbrev surroundings : Surroundings
surroundings = record {
  has_reaper = true;
  inner_busy = false;
  stop_fails = false;
  before_lock = λ s. s;
  meanwhile = λ s. record s { inflight = 1 };
}

abbrev waiting : Loop
waiting = record { tick = 0; sweeping = false; sweeps = 0; backend = with_vision }

tick_once-Tick_example :
    ((tick_once backend surroundings waiting).backend ≡ with_vision)
    ⊎ ((is_loaded with_vision ≡ true)
        × (with_vision.inflight ≡ 0)
        × Tick backend surroundings with_vision (tick_once backend surroundings waiting).backend)
tick_once-Tick_example = tick_once-Tick backend surroundings waiting

-- The strong tier with 28 of its layers on the GPU.
strong_chosen : choose options none false (pos 4000) roster ≡ some (strong, pos 28)
unfolding choose largest_on_gpu matches fit_layers weight_mb sub64 quot64 mul64 add64
    scaled_kv_overhead_mb kv_parts
strong_chosen = refl

abbrev roomy : Roomy backend
roomy = record { reads = λ n. (pos 4000, strong, pos 28, refl, strong_chosen); loads = λ d. refl }

abbrev chat : Request
chat = record { image_length = 0; priority = "high"; min_tier = ""; preferred_tier = "" }

fast_enough : meets_speed_floor "high" (record { is_zero = false; below = λ _. false }) ≡ true
unfolding meets_speed_floor
fast_enough = refl

abbrev favourable : Favourable backend chat
favourable = record {
  room = roomy;
  inner = λ label. (record { gpu_layer_sink = true; vision_sink = true; measurable = true }, refl);
  infers =
      λ n label. (record { output = "hi"; model_tier = label; quality_degraded = false }, refl);
  fast = λ n label. fast_enough;
}

chat-Plain : Plain chat
chat-Plain = record { text = refl; unpinned = refl; no_minimum = refl }

infer-IsOk_example : IsOk (infer backend chat true with_vision)
infer-IsOk_example = infer-IsOk backend chat with_vision (omega arith) favourable chat-Plain
