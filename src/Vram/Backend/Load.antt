-- ===== src/Vram/Backend/Load.antt =====
-- internal/backend/vram/vram.go: `selectAndLoad`, the step from a request's wishes to a loaded tier.
pub mod Residency
pub mod Slots
pub mod Liveness
use home_inference_server.Prelude.{
  ℕ, Bool, true, false, ◌&&◌, ◌||◌, not, Option, none, some, List, [], ◌∷◌, ◌++◌, String, str_eq,
  if◌then◌else◌,
}
use home_inference_server.Prelude.Int.{ℤ, pos, ltb_ℤ}
use home_inference_server.Types.Model.{ModelDescriptor, TierLabel}
use home_inference_server.Vram.Layers.{effective_headroom_fits}
use home_inference_server.Vram.Backend.{
  Backend, State, Result, ok, err, backend_error, observed, reading, touch, evict, load_model,
  wait_for_vram_reclaim, loaded_resident,
}
use home_inference_server.Vram.Backend.Choose.{matches, fit_of, choose}

pub same_mode : Bool → Bool → Bool
same_mode true b = b
same_mode false b = not b

-- `forced == nil || forced.TierLabel == loaded.TierLabel`.
pub forced_allows : Option ModelDescriptor → ModelDescriptor → Bool
forced_allows none loaded = true
forced_allows (some f) loaded = str_eq f.tier_label loaded.tier_label

-- The outcome of a stage: the function's early return, or the way on.
pub data Stage : Type 0 where
  return : Result ModelDescriptor → State → Stage
  proceed : State → Stage

-- The model that is loaded in the right mode is used again while it still fits; else it is evicted.
reuse_reading : Backend → ModelDescriptor → Bool → Option ℤ → State → Stage
reuse_reading b loaded needs_vision none s = return (err (backend_error "unavailable")) s
reuse_reading b loaded needs_vision (some avail) s =
    if ltb_ℤ avail (pos 0)
      || effective_headroom_fits loaded s.loaded_layers needs_vision b.opts.max_parallel avail
          b.opts.buffer_pct
    then return (ok loaded) (touch b s)
    else proceed (wait_for_vram_reclaim b avail (loaded_resident b s loaded) (evict b s))

-- A model in the wrong mode is evicted in any case. The reading is taken before it is stopped.
evict_mismatched : Backend → ModelDescriptor → State → Stage
evict_mismatched b loaded s = elim (reading b s) [
  | none ↦ proceed (observed (evict b s))
  | some avail ↦
      if ltb_ℤ avail (pos 0)
      then proceed (observed (evict b s))
      else proceed
          (wait_for_vram_reclaim b avail (loaded_resident b s loaded) (observed (evict b s)))
]

pub reuse_loaded : Backend → Option ModelDescriptor → Bool → State → Stage
unfolding reuse_reading evict_mismatched
reuse_loaded b forced needs_vision s = elim s.loaded_tier [
  | none ↦ proceed s
  | some loaded ↦
      if same_mode s.loaded_vision needs_vision && forced_allows forced loaded
      then reuse_reading b loaded needs_vision (reading b s) (observed s)
      else if not (same_mode s.loaded_vision needs_vision)
      then evict_mismatched b loaded s
      else proceed s
]

abbrev pub label_of : Option ModelDescriptor → Option TierLabel
label_of none = none
label_of (some d) = some d.tier_label

-- The roster from the first entry with the label downwards: the tiers that the OOM loop visits.
-- `rosterIndex` panics where there is none, but the label is always that of an entry.
down_onto : TierLabel → List ModelDescriptor → List ModelDescriptor → List ModelDescriptor
down_onto label smaller [] = []
down_onto label smaller (d ∷ larger) =
    if str_eq d.tier_label label then d ∷ smaller else down_onto label (d ∷ smaller) larger

pub down_from : TierLabel → List ModelDescriptor → List ModelDescriptor
unfolding down_onto
down_from label roster = down_onto label [] roster

-- The split for a tier below the chosen one.
refit : Backend → Bool → ℤ → ℤ → ModelDescriptor → ℤ
refit b needs_vision avail chosen_layers d =
    if ltb_ℤ avail (pos 0) then chosen_layers else fit_of b.opts needs_vision avail d

load_one_of :
    Backend
    → Option TierLabel
    → Bool
    → ℤ
    → ℤ
    → List ModelDescriptor
    → State
    → Result ModelDescriptor × State
unfolding refit
load_one_of b forced needs_vision avail chosen_layers [] s = (err (backend_error "overloaded"), s)
load_one_of b forced needs_vision avail chosen_layers (d ∷ r) s =
    if not (matches forced needs_vision d)
    then (err (backend_error "overloaded"), s)
    else elim (load_model b d (refit b needs_vision avail chosen_layers d) needs_vision s) [
      | some s' ↦ (ok d, s')
      | none ↦ load_one_of b forced needs_vision avail chosen_layers r s
    ]

-- The loop over the chosen tier and, on OOM, those below it.
load_cascade :
    Backend
    → Option TierLabel
    → Bool
    → ℤ
    → ℤ
    → List ModelDescriptor
    → State
    → Result ModelDescriptor × State
unfolding load_one_of
load_cascade b forced needs_vision avail layers [] s = (err (backend_error "overloaded"), s)
load_cascade b forced needs_vision avail layers (d ∷ r) s =
    if not (matches forced needs_vision d)
    then (err (backend_error "overloaded"), s)
    else elim (load_model b d layers needs_vision s) [
      | some s' ↦ (ok d, s')
      | none ↦ load_one_of b forced needs_vision avail layers r s
    ]

-- Loaded already in this mode, or evicted and loaded anew.
load_chosen :
    Backend
    → Option TierLabel
    → Bool
    → ℤ
    → ModelDescriptor
    → ℤ
    → State
    → Result ModelDescriptor × State
unfolding load_cascade down_from
load_chosen b forced needs_vision avail chosen layers s = elim s.loaded_tier [
  | none ↦
      load_cascade b forced needs_vision avail layers (down_from chosen.tier_label b.roster)
        (wait_for_vram_reclaim b avail (pos 0) (evict b s))
  | some loaded ↦
      if str_eq loaded.tier_label chosen.tier_label && same_mode s.loaded_vision needs_vision
      then (ok loaded, touch b s)
      else load_cascade b forced needs_vision avail layers (down_from chosen.tier_label b.roster)
          (wait_for_vram_reclaim b avail (loaded_resident b s loaded) (evict b s))
]

-- From the fresh reading on.
admit : Backend → Option TierLabel → Bool → Option ℤ → State → Result ModelDescriptor × State
unfolding load_chosen
admit b forced needs_vision none s = (err (backend_error "unavailable"), s)
admit b forced needs_vision (some avail) s =
    elim (choose b.opts forced needs_vision avail b.roster) [
      | none ↦ (err (backend_error "overloaded"), s)
      | some (chosen, layers) ↦ load_chosen b forced needs_vision avail chosen layers s
    ]

after_reuse : Backend → Option ModelDescriptor → Bool → Stage → Result ModelDescriptor × State
unfolding admit
after_reuse b forced needs_vision (return r s) = (r, s)
after_reuse b forced needs_vision (proceed s) =
    admit b (label_of forced) needs_vision (reading b s) (observed s)

pub select_and_load :
    Backend → Option ModelDescriptor → Bool → State → Result ModelDescriptor × State
unfolding reuse_loaded after_reuse
select_and_load b forced needs_vision s =
    after_reuse b forced needs_vision (reuse_loaded b forced needs_vision s)
