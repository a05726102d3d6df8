-- ===== src/Vram/Backend.antt =====
-- internal/backend/vram/vram.go: the state of the VRAM-aware backend, what it observes of the outside,
-- and the bookkeeping of loads and evictions.
--
-- The state is the mutex-guarded part of `Backend`. `loadMu` makes a selection one step, and the
-- eviction loop leaves the state alone while a request is counted in `inflight`, so the functions here
-- pass the state along. An observation (a reading of the free VRAM, of the clock, of an inner
-- backend's rate or of its answer) is a value of `World` at the number of observations made so far.
pub mod Choose
pub mod Load
pub mod Request
use home_inference_server.Prelude.{
  ℕ, zero, suc, ◌+◌, ◌/◌, Bool, true, false, ◌&&◌, ◌||◌, not, Option, none, some, List, [], ◌∷◌,
  String, str_eq, if◌then◌else◌, leb, ltb, ◌==◌,
}
use home_inference_server.Prelude.Int.{ℤ, pos, negsuc, ltb_ℤ, leb_ℤ, add64, mul64, quot64}
use home_inference_server.Types.Model.{ModelDescriptor, TierLabel, tier_strong, tier_mid}
use home_inference_server.Vram.Layers.{resident_of}

-- What the code asks of an inner backend besides inference: the optional interfaces that it has.
pub record Inner : Type 0 where
  pub gpu_layer_sink : Bool
  pub vision_sink : Bool
  pub measurable : Bool

pub record Options : Type 0 where
  pub buffer_pct : ℤ
  pub max_parallel : ℤ
  pub eviction_idle_timeout : ℕ
  pub vram_reclaim_max_wait : ℕ
  -- `OOMSimulator`; the constant `false` where it is nil.
  pub oom_simulator : ModelDescriptor → Bool

-- A float64 rate, seen through the two tests that the code makes of it.
pub record Rate : Type 0 where
  pub is_zero : Bool
  pub below : ℕ → Bool

pub record Response : Type 0 where
  pub output : String
  pub model_tier : String
  pub quality_degraded : Bool

-- The codes of a `BackendError`, and the errors of other types.
pub data Error : Type 0 where
  backend_error : String → Error
  other_error : Error

pub data Result {ℓ} (A : Type ℓ) : Type ℓ where
  ok : A → Result A
  err : Error → Result A

pub record World : Type 0 where
  -- `AvailableMB`: `none` is an error.
  pub available : ℕ → Option ℤ
  -- Milliseconds.
  pub clock : ℕ → ℕ
  pub tok_per_sec : ℕ → TierLabel → Rate
  pub inner_infer : ℕ → TierLabel → Result Response

-- Roster, small to large by `RequiredVRAMMB`.
pub record Backend : Type 0 where
  pub roster : List ModelDescriptor
  pub opts : Options
  pub inners : TierLabel → Option Inner
  pub world : World

-- What the backend does to the others, newest first.
pub data Effect : Type 0 where
  stopped : TierLabel → Effect
  next_gpu_layers : TierLabel → ℤ → Effect
  next_needs_vision : TierLabel → Bool → Effect
  notified : Effect

pub record State : Type 0 where
  pub loaded_tier : Option ModelDescriptor
  pub loaded_at : ℕ
  pub loaded_layers : ℤ
  pub loaded_vision : Bool
  pub last_used : ℕ
  pub inflight : ℕ
  pub contention_logged : Bool
  pub observations : ℕ
  pub effects : List Effect

-- One observation more.
abbrev pub observed : State → State
observed s = record s { observations = s.observations + 1 }

abbrev pub reading : Backend → State → Option ℤ
reading b s = b.world.available s.observations

abbrev pub effect : Effect → State → State
effect e s = record s { effects = e ∷ s.effects }

-- `b.lastUsed = time.Now()`.
abbrev pub touch : Backend → State → State
touch b s = record s { last_used = b.world.clock s.observations; observations = s.observations + 1 }

-- Insertion in the order of `sort.Slice` by `RequiredVRAMMB`.
insert_by_vram : ModelDescriptor → List ModelDescriptor → List ModelDescriptor
insert_by_vram d [] = d ∷ []
insert_by_vram d (e ∷ r) =
    if leb_ℤ d.required_vram_mb e.required_vram_mb then d ∷ e ∷ r else e ∷ insert_by_vram d r

sort_by_vram : List ModelDescriptor → List ModelDescriptor
unfolding insert_by_vram
sort_by_vram [] = []
sort_by_vram (d ∷ r) = insert_by_vram d (sort_by_vram r)

clamp_parallel : Options → Options
clamp_parallel o = if ltb_ℤ o.max_parallel (pos 1) then record o { max_parallel = pos 1 } else o

pub new : List ModelDescriptor → Options → (TierLabel → Option Inner) → World → Backend
unfolding sort_by_vram clamp_parallel
new roster opts inners world = record {
  roster = sort_by_vram roster;
  opts = clamp_parallel opts;
  inners = inners;
  world = world;
}

pub init : State
init = record {
  loaded_tier = none;
  loaded_at = 0;
  loaded_layers = pos 0;
  loaded_vision = false;
  last_used = 0;
  inflight = 0;
  contention_logged = false;
  observations = 0;
  effects = [];
}

-- `stopInner` of the inner backend that `evictLocked` hands back; a missing one is nil.
stop_inner : Backend → TierLabel → State → State
stop_inner b tier s = elim (b.inners tier) [ none ↦ s | some _ ↦ effect (stopped tier) s ]

-- `evictLocked`, and the `stopInner` that every caller makes with its result.
pub evict : Backend → State → State
unfolding stop_inner
evict b s = elim s.loaded_tier [
  | none ↦ s
  | some d ↦
      stop_inner b d.tier_label (record s {
        loaded_tier = none;
        loaded_layers = pos 0;
        loaded_vision = false;
        loaded_at = 0;
      })
]

push_layers : Backend → TierLabel → ℤ → State → State
push_layers b tier layers s = elim (b.inners tier) [
  | none ↦ s
  | some i ↦ if i.gpu_layer_sink then effect (next_gpu_layers tier layers) s else s
]

push_vision : Backend → TierLabel → Bool → State → State
push_vision b tier needs_vision s = elim (b.inners tier) [
  | none ↦ s
  | some i ↦ if i.vision_sink then effect (next_needs_vision tier needs_vision) s else s
]

-- `loadModel`: `none` is its OOM error, the only one that it has.
pub load_model : Backend → ModelDescriptor → ℤ → Bool → State → Option State
unfolding push_layers push_vision
load_model b d layers needs_vision s =
    if b.opts.oom_simulator d
    then none
    else let s' = push_vision b d.tier_label needs_vision (push_layers b d.tier_label layers s) in
      let now = b.world.clock s'.observations in
      some (record s' {
        loaded_tier = some d;
        loaded_layers = layers;
        loaded_vision = needs_vision;
        loaded_at = now;
        last_used = now;
        observations = s'.observations + 1;
      })

-- The polling loop of `waitForVRAMReclaim`, on fuel: the number of observations when it ends.
poll_reclaim : World → ℕ → ℤ → ℕ → ℕ → ℕ
poll_reclaim w zero want deadline n = n
poll_reclaim w (suc fuel) want deadline n =
    let later = poll_reclaim w fuel want deadline (n + 2) in
    if leb deadline (w.clock n) then n + 1 else elim (w.available (n + 1)) [
      | none ↦ n + 2
      | some avail ↦ if ltb_ℤ avail (pos 0) || leb_ℤ want avail then n + 2 else later
    ]

abbrev pub poll_interval : ℕ
poll_interval = 100

reclaim_max_wait : Options → ℕ
reclaim_max_wait o = if o.vram_reclaim_max_wait == 0 then 2000 else o.vram_reclaim_max_wait

-- The loop sleeps for `poll_interval` between two polls, so it ends within this many.
poll_fuel : Options → ℕ
unfolding reclaim_max_wait
poll_fuel o = reclaim_max_wait o / poll_interval + 2

-- `waitForVRAMReclaim`: it only observes.
pub wait_for_vram_reclaim : Backend → ℤ → ℤ → State → State
unfolding poll_reclaim poll_fuel
wait_for_vram_reclaim b before_avail resident s =
    if leb_ℤ resident (pos 0)
    then s
    else let want = add64 before_avail (quot64 (mul64 resident (pos 3)) (pos 4)) in
      let deadline = b.world.clock s.observations + reclaim_max_wait b.opts in
      record s {
        observations = poll_reclaim b.world (poll_fuel b.opts) want deadline (s.observations + 1);
      }

-- The footprint of what is loaded now, in the mode in which it was loaded.
abbrev pub loaded_resident : Backend → State → ModelDescriptor → ℤ
loaded_resident b s d = resident_of d s.loaded_layers s.loaded_vision b.opts.max_parallel

unfoldable pub tier_rank : TierLabel → ℕ
tier_rank label = if str_eq label tier_strong then 2 else if str_eq label tier_mid then 1 else 0
