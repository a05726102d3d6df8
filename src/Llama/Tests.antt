-- ===== src/Llama/Tests.antt =====
-- A subprocess that is started, replaced and lost.
use home_inference_server.Prelude.{true, false, none, some, List, [], ◌∷◌, ◌≡◌, refl}
use home_inference_server.Prelude.Int.{pos}
use home_inference_server.Types.Model.{tier_mid, ModelDescriptor}
use home_inference_server.Llama.{
  Engine, Settings, Chance, ensure_running, Op, sets_vision, ensures, restarts, reads_resident,
}

abbrev desc : ModelDescriptor
desc = record {
  tier_label = tier_mid;
  mm_proj_path = "mmproj.gguf";
  required_vram_mb = pos 3_000;
  total_layers = pos 42;
  kv_overhead_mb = pos 0;
  kv_cache_mb = pos 200;
  kv_fixed_mb = pos 100;
  vision_required_vram_mb = pos 4_000;
  vision_kv_cache_mb = pos 200;
  vision_kv_fixed_mb = pos 100;
}

abbrev settings : Settings
settings = record {
  desc = desc;
  port = 0;
  max_parallel = pos 1;
  compute_gpu_layers = λ weight avail. pos 20;
}

abbrev cold : Engine
cold = record {
  proc = none;
  base_url = 0;
  ready = false;
  restarting = false;
  resident_mb = pos 0;
  n_ctx = 0;
  next_gpu_layers = some (pos 20);
  next_needs_vision = false;
  running_with_vision = false;
  started = 0;
  left_running = [];
}

abbrev fine : Chance
fine = record { alive = true; healthy = true; available = none; starts = true }

abbrev crashed : Chance
crashed = record { alive = false; healthy = false; available = none; starts = true }

-- Busy for longer than the probe waits.
abbrev slow : Chance
slow = record { alive = true; healthy = false; available = none; starts = true }

starts_once :
    (ensure_running settings fine (ensure_running settings fine cold).1).1.left_running ≡ 0 ∷ []
unfolding ensure_running
starts_once = refl

-- A subprocess that lives but misses the probe is forgotten and left running beside its successor.
leaks :
    (ensure_running settings slow (ensure_running settings fine cold).1).1.left_running ≡ 1 ∷ 0 ∷ []
unfolding ensure_running
leaks = refl

abbrev calls : List Op
calls =
    ensures fine
    ∷ sets_vision true
    ∷ ensures fine
    ∷ restarts crashed
    ∷ reads_resident false
    ∷ ensures fine
    ∷ []
