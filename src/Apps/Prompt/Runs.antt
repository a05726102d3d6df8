-- ===== src/Apps/Prompt/Runs.antt =====
-- The request of a question, on the PC that runs it.
use Prim.Native.String.{◌++◌ as append}
use home_inference_server.Prelude.{ℕ, ◌+◌, ◌*◌, ◌≤◌, ◌<◌, Option, List, [], String, ◌≡◌}
use home_inference_server.Prelude.Int.{pos}
use home_inference_server.Pc.Api.{InferRequest}
use home_inference_server.Pc.Infer.{translate_infer_request}
use home_inference_server.Pc.Infer.Accepts.{Acceptable}
use home_inference_server.Pc.Worker.{job_wait}
use home_inference_server.Apps.Spec.{Spec, UrlParser}
use home_inference_server.Apps.Prompt.{Source, build_request}

module _ (itoa : ℕ → String) (parse_url : UrlParser) (spec : Spec) (sources : List Source)
    (question : String) (history : List String) where
  abbrev pub asked : InferRequest
  asked = build_request itoa spec sources question history

  -- What the run of a question is.
  pub record Runs (decode_base64 : String → Option (List ℕ)) (id : String) (w : ℕ) : Type 0 where
    -- The checks of the PC's own endpoint pass it.
    pub acceptable : Acceptable asked
    -- It is a plain completion: no chat turn, and no image.
    pub plain :
        ((translate_infer_request decode_base64 asked id).messages ≡ [])
        × ((translate_infer_request decode_base64 asked id).image_data ≡ [])
        × ((translate_infer_request decode_base64 asked id).tools ≡ [])
    -- The tiers and the length are the spec's.
    pub pinned :
        ((translate_infer_request decode_base64 asked id).min_tier ≡ spec.min_tier)
        × ((translate_infer_request decode_base64 asked id).preferred_tier ≡ spec.preferred_tier)
        × ((translate_infer_request decode_base64 asked id).max_tokens ≡ spec.max_output_tokens)
    -- The worker gives up at least five seconds before the relay does.
    pub in_time :
        (t : ℕ) × (job_wait asked.timeout_ms ≡ pos t)
        × (0 < t)
        × (t + 5 * 1_000_000_000 ≤ w * 1_000_000_000)
