-- ===== src/Vram/Layers.antt =====
-- internal/backend/vram/layers.go, and `fitsWithBuffer` and `effectiveHeadroomFits` of vram.go: how
-- much of a model goes to the GPU, and whether that fits. All numbers are int64, wrap-around included.
-- The divisor 100 + bufferPct is zero only for the setting bufferPct = -100, where Go would panic.
pub mod Fit
use home_inference_server.Prelude.{Bool, true, false, ◌&&◌, ◌||◌, if◌then◌else◌}
use home_inference_server.Prelude.Int.{
  ℤ, pos, negsuc, ltb_ℤ, leb_ℤ, eqb_ℤ, add64, sub64, mul64, quot64,
}
use home_inference_server.Types.Model.{
  ModelDescriptor, has_vision, kv_parts, vision_kv_parts, weight_mb,
}

abbrev pub default_total_layers : ℤ
default_total_layers = pos 32

-- -1: all layers on the GPU.
abbrev pub all_layers : ℤ
all_layers = negsuc 0

unfoldable pub scaled_kv_overhead_mb : ModelDescriptor → ℤ → Bool → ℤ
scaled_kv_overhead_mb d slots needs_vision =
    let n : ℤ = if ltb_ℤ slots (pos 1) then pos 1 else slots in
    let (cache, fixed) = if needs_vision && has_vision d then vision_kv_parts d else kv_parts d in
    add64 (mul64 cache n) fixed

pub layers_or_default : ℤ → ℤ
layers_or_default total = if leb_ℤ total (pos 0) then default_total_layers else total

-- The budget for weights: free VRAM shrunk by the buffer, less the fixed overhead.
pub weight_budget : ℤ → ℤ → ℤ → ℤ
weight_budget kv_overhead available buffer_pct =
    sub64 (quot64 (mul64 available (pos 100)) (add64 (pos 100) buffer_pct)) kv_overhead

-- The layer count that fills the budget, clipped at both ends.
pub clip_layers : ℤ → ℤ → ℤ
clip_layers layers total =
    if ltb_ℤ layers (pos 1) then pos 0 else if leb_ℤ total layers then all_layers else layers

unfoldable pub fit_layers : ℤ → ℤ → ℤ → ℤ → ℤ → ℤ
unfolding layers_or_default weight_budget clip_layers
fit_layers weight kv_overhead available total_layers buffer_pct =
    let total = layers_or_default total_layers in
    let budget = weight_budget kv_overhead available buffer_pct in
    if leb_ℤ weight (pos 0) || ltb_ℤ available (pos 0)
    then all_layers
    else if leb_ℤ weight budget
    then all_layers
    else if leb_ℤ budget (pos 0)
    then pos 0
    else clip_layers (quot64 (mul64 budget total) weight) total

pub gpu_resident_mb : ℤ → ℤ → ℤ → ℤ → ℤ
unfolding layers_or_default
gpu_resident_mb weight kv_overhead gpu_layers total_layers =
    let total = layers_or_default total_layers in
    if ltb_ℤ gpu_layers (pos 0)
    then add64 weight kv_overhead
    else if eqb_ℤ gpu_layers (pos 0)
    then kv_overhead
    else let n : ℤ = if ltb_ℤ total gpu_layers then total else gpu_layers in
      add64 (quot64 (mul64 weight n) total) kv_overhead

pub fits_with_buffer : ℤ → ℤ → ℤ → Bool
fits_with_buffer resident avail pct =
    leb_ℤ (add64 resident (quot64 (mul64 resident pct) (pos 100))) avail

-- The footprint of a load of `d`, as the callers of gpuResidentMB write it out.
pub resident_of : ModelDescriptor → ℤ → Bool → ℤ → ℤ
resident_of d layers needs_vision slots =
    gpu_resident_mb (weight_mb d needs_vision) (scaled_kv_overhead_mb d slots needs_vision) layers
      d.total_layers

unfoldable pub effective_headroom_fits : ModelDescriptor → ℤ → Bool → ℤ → ℤ → ℤ → Bool
unfolding resident_of
effective_headroom_fits loaded loaded_layers needs_vision slots avail_raw buffer_pct =
    let resident = resident_of loaded loaded_layers needs_vision slots in
    fits_with_buffer resident (add64 avail_raw resident) buffer_pct
