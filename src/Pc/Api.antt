-- ===== src/Pc/Api.antt =====
-- api/request.go, api/response.go and the message types of backend/backend.go.
--
-- A text that only passes through (a JSON Schema, an image in base64) is a text; a float32 that is only
-- copied is its 32 bits.
use Prim.Native.String.{◌++◌ as append}
use home_inference_server.Prelude.{ℕ, Bool, Option, none, some, List, String}
use home_inference_server.Prelude.Int.{ℤ}

pub record ChatMessage : Type 0 where
  pub role : String
  pub content : String

pub record TextInput : Type 0 where
  pub prompt : String
  pub messages : List ChatMessage

pub record VisionInput : Type 0 where
  pub image_base64 : String
  pub image_url : String
  pub prompt : String

pub record ToolFunction : Type 0 where
  pub name : String
  pub description : String
  pub parameters : String

pub record Tool : Type 0 where
  pub kind : String
  pub function : ToolFunction

pub record InferRequest : Type 0 where
  pub correlation_id : String
  pub modality : String
  pub text_input : Option TextInput
  pub vision_input : Option VisionInput
  pub max_tokens : ℤ
  pub temperature : ℕ
  pub system_prompt : String
  pub stream : Bool
  pub timeout_ms : ℤ
  pub priority : String
  pub min_tier : String
  pub preferred_tier : String
  pub response_format : Option String
  pub tools : List Tool
  pub reasoning : String

pub record ToolCallSummary : Type 0 where
  pub name : String
  pub arguments : String
  pub error : String

-- backend.ToolCall, backend.Message, backend.Request and backend.Response.
pub record ToolCall : Type 0 where
  pub id : String
  pub name : String
  pub arguments : String

pub record Message : Type 0 where
  pub role : String
  pub content : String
  pub tool_calls : List ToolCall
  pub tool_call_id : String
  pub name : String

pub record Request : Type 0 where
  pub correlation_id : String
  pub request_id : String
  pub modality : String
  pub prompt : String
  pub messages : List Message
  pub image_data : List ℕ
  pub system_prompt : String
  pub max_tokens : ℤ
  pub temperature : ℕ
  pub priority : String
  pub min_tier : String
  pub preferred_tier : String
  pub stream : Bool
  pub response_format : Option String
  pub tools : List Tool
  pub reasoning : String

pub record Response : Type 0 where
  pub output : String
  pub tokens_generated : ℕ
  pub reasoning : String
  pub model_tier : String
  pub quality_degraded : Bool
  pub tool_calls : List ToolCall
  pub length_limited : Bool

-- The error of a backend: a `BackendError` with its code, message and cause, or another error's text.
pub data Failure : Type 0 where
  backend_error : String → String → Option String → Failure
  other_error : String → Failure

-- `Error()`.
abbrev with_cause : String → Option String → String
with_cause message none = message
with_cause message (some cause) = append message (append ": " cause)

unfoldable pub error_text : Failure → String
error_text (backend_error code message cause) = with_cause message cause
error_text (other_error text) = text

-- What a call of a backend returns.
pub data Run : Type 0 where
  answers : Response → Run
  fails : Failure → Run
