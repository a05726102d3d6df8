-- ===== src/Pc/Infer/Verdicts.antt =====
-- What `handleInfer` comes to, on every branch.
use home_inference_server.Prelude.{Bool, true, false, Option, none, some, [], String, ◌≡◌, ◌⊎◌}
use home_inference_server.Prelude.Int.{ℤ, pos, ltb_ℤ}
use home_inference_server.Pc.Api.{InferRequest, Request}
use home_inference_server.Pc.Infer.{
  Checked, passed, refused, is_empty, Way, streaming, with_tools, blocking, Handled, replied, goes,
  named,
}
use home_inference_server.Pc.Infer.Accepts.{Acceptable, IsToolTier}
use home_inference_server.Pc.Infer.Content.{HasContent}

-- What the backend is asked when a request runs.
pub record Runs (infer_timeout : ℤ) (request_id : String) (req : InferRequest) (way : Way)
    (r : Request) (time : ℤ) : Type 0 where
  pub own_id : r.request_id ≡ request_id
  pub same_call : r.correlation_id ≡ req.correlation_id
  pub content :
      (req.modality ≡ "vision") ⊎ (req.vision_input ≡ none) → HasContent r.prompt r.messages
  pub tools_with_turns : is_empty r.tools ≡ false → is_empty r.messages ≡ false
  pub tools_with_tier :
      is_empty r.tools ≡ false → IsToolTier r.min_tier ⊎ IsToolTier r.preferred_tier
  pub bounded : ltb_ℤ (pos 0) infer_timeout ≡ true → ltb_ℤ (pos 0) time ≡ true
  pub plain : way ≡ blocking → (r.stream ≡ false) × (r.tools ≡ [])
  pub tooled : way ≡ with_tools → (r.stream ≡ false) × (is_empty r.tools ≡ false)
  pub streamed : way ≡ streaming → r.stream ≡ true

module _ (infer_timeout : ℤ) (fresh request_id : String) where
  pub data Verdict (draining : Bool) (body : Option InferRequest) (o : Handled) : Type 0 where
    drained :
        draining ≡ true
        → (message : String) → o ≡ replied 503 "draining" message ""
        → Verdict draining body o
    unreadable :
        draining ≡ false
        → body ≡ none
        → (message : String) → o ≡ replied 400 "invalid_request" message ""
        → Verdict draining body o
    refuses :
        (req : InferRequest) (code message : String)
        → draining ≡ false
        → body ≡ some req
        → ¬ Acceptable (named fresh req)
        → o ≡ replied 400 code message (named fresh req).correlation_id
        → Verdict draining body o
    runs :
        (req : InferRequest) (way : Way) (r : Request) (time : ℤ)
        → draining ≡ false
        → body ≡ some req
        → Acceptable (named fresh req)
        → o ≡ goes way (named fresh req) r time
        → Runs infer_timeout request_id (named fresh req) way r time
        → Verdict draining body o

-- A refusal is a 400.
abbrev Is400 : Checked → Type 0
Is400 passed = Unit {0}
Is400 (refused status code message) = status ≡ 400
