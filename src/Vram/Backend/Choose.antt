-- ===== src/Vram/Backend/Choose.antt =====
-- internal/backend/vram/vram.go: the admission decision of `selectAndLoad`, a function of the roster,
-- the free VRAM and what the request wants.
pub mod Admission
use home_inference_server.Prelude.{
  Bool, true, false, ◌&&◌, ◌||◌, not, Option, none, some, List, [], ◌∷◌, String, str_eq,
  if◌then◌else◌,
}
use home_inference_server.Prelude.Int.{ℤ, pos, ltb_ℤ, eqb_ℤ}
use home_inference_server.Types.Model.{ModelDescriptor, TierLabel, has_vision, weight_mb}
use home_inference_server.Vram.Layers.{
  all_layers, scaled_kv_overhead_mb, fit_layers, fits_with_buffer,
}
use home_inference_server.Vram.Backend.{Options}

-- `matches`: the tiers that the request may be served on.
unfoldable pub matches : Option TierLabel → Bool → ModelDescriptor → Bool
matches forced needs_vision d =
    if needs_vision && not (has_vision d)
    then false
    else elim forced [ none ↦ true | some label ↦ str_eq d.tier_label label ]

abbrev pub fit_of : Options → Bool → ℤ → ModelDescriptor → ℤ
fit_of o needs_vision avail d =
    fit_layers (weight_mb d needs_vision) (scaled_kv_overhead_mb d o.max_parallel needs_vision)
      avail d.total_layers o.buffer_pct

-- Whether even a CPU-only load has room for its buffers.
abbrev pub overhead_fits : Options → Bool → ℤ → ModelDescriptor → Bool
overhead_fits o needs_vision avail d =
    fits_with_buffer (scaled_kv_overhead_mb d o.max_parallel needs_vision) avail o.buffer_pct

-- The three loops. A loop from the large end is the loop over the tail, then the head.
unfoldable pub largest_match :
    Option TierLabel → Bool → List ModelDescriptor → Option (ModelDescriptor × ℤ)
largest_match forced needs_vision [] = none
largest_match forced needs_vision (d ∷ r) = elim (largest_match forced needs_vision r) [
  | some c ↦ some c
  | none ↦ if matches forced needs_vision d then some (d, all_layers) else none
]

unfoldable pub largest_on_gpu :
    Options → Option TierLabel → Bool → ℤ → List ModelDescriptor → Option (ModelDescriptor × ℤ)
largest_on_gpu o forced needs_vision avail [] = none
largest_on_gpu o forced needs_vision avail (d ∷ r) =
    elim (largest_on_gpu o forced needs_vision avail r) [
      | some c ↦ some c
      | none ↦
          if matches forced needs_vision d && not (eqb_ℤ (fit_of o needs_vision avail d) (pos 0))
          then some (d, fit_of o needs_vision avail d)
          else none
    ]

unfoldable pub smallest_on_cpu :
    Options → Option TierLabel → Bool → ℤ → List ModelDescriptor → Option (ModelDescriptor × ℤ)
smallest_on_cpu o forced needs_vision avail [] = none
smallest_on_cpu o forced needs_vision avail (d ∷ r) =
    if matches forced needs_vision d && overhead_fits o needs_vision avail d
    then some (d, pos 0)
    else smallest_on_cpu o forced needs_vision avail r

-- The `switch`: `unlimited`, or the two passes.
unfoldable pub choose :
    Options → Option TierLabel → Bool → ℤ → List ModelDescriptor → Option (ModelDescriptor × ℤ)
choose o forced needs_vision avail roster =
    if ltb_ℤ avail (pos 0)
    then largest_match forced needs_vision roster
    else elim (largest_on_gpu o forced needs_vision avail roster) [
      | some c ↦ some c
      | none ↦ smallest_on_cpu o forced needs_vision avail roster
    ]
