-- ===== src/Pc/Tests.antt =====
-- Concrete requests to the PC, and what becomes of them.
use home_inference_server.Prelude.{
  ℕ, true, false, Option, none, some, List, [], ◌∷◌, String, ◌≡◌, refl, length,
}
use home_inference_server.Prelude.Int.{pos}
use home_inference_server.Pc.Api.{
  VisionInput, Tool, InferRequest, ToolCall, Request, Response, backend_error, answers, fails,
}
use home_inference_server.Pc.Infer.{check_request, refused, translate_infer_request, deadline}
use home_inference_server.Pc.Tools.{results, Search, Model, execute_tool_call, run_with_tools}
use home_inference_server.Pc.Tools.Grounded.{Grounded}
use home_inference_server.Pc.Jobs.{
  error_reply, deferred_reply, result, Scene, should_defer, defer_to_relay, failure_reply,
  backend_err_to_http_status, handle_infer_blocking,
}
use home_inference_server.Pc.Jobs.Accounted.{Accounted}

abbrev web_search : Tool
web_search = record {
  kind = "function";
  function = record { name = "web_search"; description = ""; parameters = "{}" };
}

-- A chat with a tool, for a tier that has a grammar for it.
abbrev question : InferRequest
question = record {
  correlation_id = "";
  modality = "text";
  text_input =
      some (record {
        prompt = "";
        messages = record { role = "user"; content = "What is new?" } ∷ [];
      });
  vision_input = none;
  max_tokens = pos 200;
  temperature = 0;
  system_prompt = "Be brief.";
  stream = false;
  timeout_ms = pos 30_000;
  priority = "normal";
  min_tier = "mid";
  preferred_tier = "";
  response_format = none;
  tools = web_search ∷ [];
  reasoning = "off";
}

abbrev picture : VisionInput
picture = record { image_base64 = "AA=="; image_url = ""; prompt = "What is this?" }

-- One byte for every text.
abbrev decode_any : String → Option (List ℕ)
decode_any s = some (0 ∷ [])

abbrev asked : Request
asked = translate_infer_request decode_any question "r1"

-- The system prompt becomes the first turn.
asked_turns :
    asked.messages
    ≡ record {
      role = "system";
      content = "Be brief.";
      tool_calls = [];
      tool_call_id = "";
      name = "";
    }
      ∷ record {
        role = "user";
        content = "What is new?";
        tool_calls = [];
        tool_call_id = "";
        name = "";
      }
      ∷ []
unfolding translate_infer_request
asked_turns = refl

-- Tools for the weak tier are refused.
weak_tools :
    check_request (record question { min_tier = "weak" })
    ≡ refused 400 "tool_not_supported"
        "tools requires min_tier or preferred_tier of \"mid\" or \"strong\" — the weak tier has no tool-calling grammar"
unfolding check_request
weak_tools = refl

-- A text that also brings a picture passes the checks, and then asks the picture's question in place of
-- its own.
abbrev mixed : InferRequest
mixed = record question {
  text_input = some (record { prompt = "Add 2 and 2."; messages = [] });
  vision_input = some picture;
  tools = [];
}

mixed_prompt : (translate_infer_request decode_any mixed "r1").prompt ≡ "What is this?"
unfolding translate_infer_request
mixed_prompt = refl

-- A missing timeout takes the server's, and so does one that wraps to 0 nanoseconds or below.
deadlines : (deadline (pos 7) (pos 0) ≡ pos 7) × (deadline (pos 7) (pos 9_300_000_000_000) ≡ pos 7)
unfolding deadline
deadlines = (refl, refl)

-- A search that knows one thing, and a model that asks for it and then for another tool.
abbrev search : Search
search = record {
  searcher = some (λ query. results "[\"rain\"]");
  query_of = λ arguments. arguments;
  json_string = λ s. s;
}

abbrev call : String → String → ToolCall
call id name = record { id = id; name = name; arguments = "weather" }

abbrev answer : String → List ToolCall → Response
answer output calls = record {
  output = output;
  tokens_generated = 12;
  reasoning = "";
  model_tier = "mid";
  quality_degraded = false;
  tool_calls = calls;
  length_limited = false;
}

abbrev calls_once : Model
calls_once [] req = answers (answer "" (call "1" "web_search" ∷ call "2" "shell" ∷ []))
calls_once (earlier ∷ rest) req = answers (answer "It rains." [])

-- The tool that nobody offers is answered too, and reported.
second_summary : (execute_tool_call search (call "2" "shell")).1.error ≡ "tool not available"
unfolding execute_tool_call
second_summary = refl

two_hops : length (run_with_tools search calls_once asked).asked ≡ 2
unfolding run_with_tools
two_hops = refl

-- A server under pressure, with a relay.
abbrev pressed : Scene
pressed = record {
  enqueued_at = 5_000_000;
  started_at = 6_000_000;
  finished_at = 9_500_000;
  deferred_at = 5_500_000;
  has_relay = true;
  vram = some (some (pos 400));
  cpu = some 9_500;
  serialises = true;
  relay_job = some "job-1";
  result_url = λ id. id;
  queue_takes = true;
  wait = result (fails (backend_error "overloaded" "busy" none)) (some 6_000_000);
  backends = λ modality. some calls_once;
  search = search;
}

defers_normal : (should_defer pressed "normal" ≡ true) × (should_defer pressed "high" ≡ false)
unfolding should_defer
defers_normal = (refl, refl)

hands_over : (handle_infer_blocking pressed question asked []).0 ≡ deferred_reply "job-1" "job-1"
unfolding handle_infer_blocking defer_to_relay should_defer
hands_over = refl

overloaded_status : backend_err_to_http_status "overloaded" ≡ 429
unfolding backend_err_to_http_status
overloaded_status = refl

-- The same request, urgent: it is served here.
abbrev urgent : InferRequest
urgent = record question { priority = "high" }

urgent_fails :
    (handle_infer_blocking pressed urgent asked []).0 ≡ error_reply 429 "overloaded" "busy" ""
unfolding handle_infer_blocking defer_to_relay should_defer failure_reply
urgent_fails = refl
