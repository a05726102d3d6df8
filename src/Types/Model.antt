-- ===== src/Types/Model.antt =====
-- types/model.go: the tiered model roster. The descriptor's fields that only name files or ports of
-- the subprocess (Name, FilePath, Modality, GPULayers, Port, RequireChatTemplate) are left out: the
-- selection of a tier does not read them, and what starts the subprocess has them beside it.
use home_inference_server.Prelude.{Bool, ◌&&◌, ◌||◌, not, String, str_eq, if◌then◌else◌}
use home_inference_server.Prelude.Int.{ℤ, pos, ltb_ℤ}

-- `ModelTierLabel` is a string type: a request may carry any text.
abbrev pub TierLabel : Type 0
TierLabel = String

abbrev pub tier_weak : TierLabel
tier_weak = "weak"

abbrev pub tier_mid : TierLabel
tier_mid = "mid"

abbrev pub tier_strong : TierLabel
tier_strong = "strong"

pub record ModelDescriptor : Type 0 where
  pub tier_label : TierLabel
  pub mm_proj_path : String
  pub required_vram_mb : ℤ
  pub total_layers : ℤ
  pub kv_overhead_mb : ℤ
  pub kv_cache_mb : ℤ
  pub kv_fixed_mb : ℤ
  pub vision_required_vram_mb : ℤ
  pub vision_kv_cache_mb : ℤ
  pub vision_kv_fixed_mb : ℤ

unfoldable pub has_vision : ModelDescriptor → Bool
has_vision d = not (str_eq d.mm_proj_path "")

unfoldable pub kv_parts : ModelDescriptor → ℤ × ℤ
kv_parts d =
    if ltb_ℤ (pos 0) d.kv_cache_mb || ltb_ℤ (pos 0) d.kv_fixed_mb
    then (d.kv_cache_mb, d.kv_fixed_mb)
    else (d.kv_overhead_mb, pos 0)

unfoldable pub vision_kv_parts : ModelDescriptor → ℤ × ℤ
vision_kv_parts d = (d.vision_kv_cache_mb, d.vision_kv_fixed_mb)

unfoldable pub weight_mb : ModelDescriptor → Bool → ℤ
weight_mb d needs_vision =
    if needs_vision && has_vision d then d.vision_required_vram_mb else d.required_vram_mb
