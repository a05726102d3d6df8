-- ===== src/Pc/Infer.antt =====
-- internal/server/server.go: what `handleInfer` accepts, the backend request that it makes of it, the
-- deadline and the path that it takes.
--
-- `base64.StdEncoding.DecodeString` is an argument of the translation, as are the two fresh ids.

pub mod Accepts
pub mod Content
pub mod Verdicts
use Prim.Native.String.{◌++◌ as append}
use home_inference_server.Prelude.{
  ℕ, Bool, true, false, ◌&&◌, ◌||◌, not, Option, none, some, List, [], ◌∷◌, String, str_eq,
  if◌then◌else◌,
}
use home_inference_server.Prelude.Int.{ℤ, pos, ltb_ℤ, leb_ℤ, mul64}
use home_inference_server.Pc.Api.{
  ChatMessage, TextInput, VisionInput, Tool, InferRequest, Message, Request,
}

-- A check passes, or it writes an error: its status, code and message.
pub data Checked : Type 0 where
  passed : Checked
  refused : ℕ → String → String → Checked

infixl 5 ◌>>◌
abbrev pub ◌>>◌ : Checked → Checked → Checked
passed >> k = k
refused s c m >> k = refused s c m

abbrev pub refuse_if : Bool → ℕ → String → String → Checked
refuse_if true s c m = refused s c m
refuse_if false s c m = passed

abbrev pub is_empty {ℓ} : {A : Type ℓ} → List A → Bool
is_empty [] = true
is_empty (x ∷ xs) = false

abbrev pub is_blank : String → Bool
is_blank s = str_eq s ""

pub check_text : Option TextInput → Checked
check_text none = refused 400 "invalid_request" "text_input required for text modality"
check_text (some t) =
    refuse_if (is_blank t.prompt && is_empty t.messages) 400 "invalid_request"
      "text_input must have prompt or messages"

pub check_image : VisionInput → Checked
check_image v =
    if is_blank v.image_base64
    then if not (is_blank v.image_url)
      then refused 400 "invalid_request"
          "image_url is not supported; send the image as image_base64"
      else refused 400 "invalid_request" "vision_input needs image_base64"
    else passed

pub check_vision : Option VisionInput → Checked
unfolding check_image
check_vision none = refused 400 "invalid_request" "vision_input required for vision modality"
check_vision (some v) =
    refuse_if (is_blank v.prompt) 400 "invalid_request" "vision_input.prompt is required"
    >> check_image v

pub check_modality : InferRequest → Checked
unfolding check_text check_vision
check_modality req =
    if str_eq req.modality "text"
    then check_text req.text_input
    else if str_eq req.modality "vision"
    then check_vision req.vision_input
    else if is_blank req.modality
    then refused 400 "invalid_request" "modality is required"
    else refused 400 "invalid_modality" "unknown modality"

pub check_reasoning : InferRequest → Checked
check_reasoning req =
    refuse_if
      (not (is_blank req.reasoning)
        && not (str_eq req.reasoning "off")
        && not (str_eq req.reasoning "on"))
      400 "invalid_request" "reasoning must be \"off\" or \"on\""

abbrev pub can_call_tools : String → Bool
can_call_tools tier = str_eq tier "mid" || str_eq tier "strong"

abbrev pub has_messages : Option TextInput → Bool
has_messages none = false
has_messages (some t) = not (is_empty t.messages)

pub check_tools : InferRequest → Checked
check_tools req =
    if is_empty req.tools
    then passed
    else refuse_if (str_eq req.modality "vision") 400 "tool_not_supported"
        "tools are not supported with vision_input"
      >> refuse_if (not (can_call_tools req.min_tier) && not (can_call_tools req.preferred_tier))
          400 "tool_not_supported"
          "tools requires min_tier or preferred_tier of \"mid\" or \"strong\" — the weak tier has no tool-calling grammar"
      >> refuse_if (not (has_messages req.text_input)) 400 "invalid_request"
          "tools requires text_input.messages"

unfoldable pub check_request : InferRequest → Checked
unfolding check_modality check_reasoning check_tools
check_request req = check_modality req >> check_reasoning req >> check_tools req

-- `translateMessages`.
pub has_system : List ChatMessage → Bool
has_system [] = false
has_system (m ∷ rest) = str_eq m.role "system" || has_system rest

abbrev turn : String → String → Message
turn role content = record {
  role = role;
  content = content;
  tool_calls = [];
  tool_call_id = "";
  name = "";
}

pub copy_messages : List ChatMessage → List Message
copy_messages [] = []
copy_messages (m ∷ rest) = turn m.role m.content ∷ copy_messages rest

pub translate_messages : List ChatMessage → String → List Message
unfolding has_system copy_messages
translate_messages msgs system_prompt =
    if not (is_blank system_prompt) && not (has_system msgs)
    then turn "system" system_prompt ∷ copy_messages msgs
    else copy_messages msgs

-- The prompt and the messages of a text input.
pub text_parts : Option TextInput → String → String × List Message
unfolding translate_messages
text_parts none system_prompt = ("", [])
text_parts (some t) system_prompt =
    if not (is_empty t.messages)
    then ("", translate_messages t.messages system_prompt)
    else if is_blank t.prompt
    then ("", [])
    else if is_blank system_prompt
    then (t.prompt, [])
    else (append system_prompt (append "\n\n" t.prompt), [])

-- `none` is an image that does not decode.
abbrev decoded_or_empty : Option (List ℕ) → List ℕ
decoded_or_empty none = []
decoded_or_empty (some bytes) = bytes

module _ (decode_base64 : String → Option (List ℕ)) where
  -- The prompt and the image that a vision input leaves.
  pub vision_parts : Option VisionInput → String → String × List ℕ
  vision_parts none prompt = (prompt, [])
  vision_parts (some v) prompt = (
    v.prompt,
    if is_blank v.image_base64 then [] else decoded_or_empty (decode_base64 v.image_base64),
  )

  unfoldable pub translate_infer_request : InferRequest → String → Request
  unfolding text_parts vision_parts
  translate_infer_request req request_id =
      let text = text_parts req.text_input req.system_prompt in
      let vision = vision_parts req.vision_input text.0 in
      record {
        correlation_id = req.correlation_id;
        request_id = request_id;
        modality = req.modality;
        prompt = vision.0;
        messages = text.1;
        image_data = vision.1;
        system_prompt = req.system_prompt;
        max_tokens = req.max_tokens;
        temperature = req.temperature;
        priority = req.priority;
        min_tier = req.min_tier;
        preferred_tier = req.preferred_tier;
        stream = req.stream;
        response_format = req.response_format;
        tools = req.tools;
        reasoning = req.reasoning;
      }

-- `time.Duration(ms) * time.Millisecond`: an int64 of nanoseconds, which wraps.
unfoldable pub milliseconds : ℤ → ℤ
unfolding mul64
milliseconds ms = mul64 ms (pos 1_000_000)

unfoldable pub deadline : ℤ → ℤ → ℤ
unfolding milliseconds
deadline infer_timeout timeout_ms =
    if leb_ℤ (milliseconds timeout_ms) (pos 0) then infer_timeout else milliseconds timeout_ms

-- What `handleInfer` comes to: an error that it writes, or one of the three paths with the request, its
-- translation and the time that it has.
pub data Way : Type 0 where
  streaming : Way
  with_tools : Way
  blocking : Way

pub data Handled : Type 0 where
  replied : ℕ → String → String → String → Handled
  goes : Way → InferRequest → Request → ℤ → Handled

-- The body: `none` where it is no JSON of a request.
abbrev pub named : String → InferRequest → InferRequest
named fresh req = if is_blank req.correlation_id then record req { correlation_id = fresh } else req

pub path_of : InferRequest → Way
path_of req = if req.stream then streaming else if is_empty req.tools then blocking else with_tools

module _ (decode_base64 : String → Option (List ℕ)) (infer_timeout : ℤ) where
  -- `fresh` is the correlation id for a request that has none, `request_id` the id of the run.
  checked_infer : Checked → String → InferRequest → Handled
  checked_infer (refused status code message) request_id req =
      replied status code message req.correlation_id
  checked_infer passed request_id req =
      goes (path_of req) req (translate_infer_request decode_base64 req request_id)
        (deadline infer_timeout req.timeout_ms)

  decoded_infer : String → String → Option InferRequest → Handled
  unfolding checked_infer
  decoded_infer fresh request_id none = replied 400 "invalid_request" "malformed JSON body" ""
  decoded_infer fresh request_id (some req) =
      checked_infer (check_request (named fresh req)) request_id (named fresh req)

  unfoldable pub handle_infer : Bool → String → String → Option InferRequest → Handled
  unfolding decoded_infer
  handle_infer draining fresh request_id body =
      if draining
      then replied 503 "draining" "server is draining for maintenance; retry shortly" ""
      else decoded_infer fresh request_id body
