-- ===== src/Pc/Tools.antt =====
-- internal/server/server_tools.go: the round trip of a request that offers tools.
--
-- The backend's answer may depend on what it was asked before, so it is a function of the requests so
-- far, which the model keeps as a trace. The searcher and JSON's encoding are the record `Search`.
pub mod Grounded
use Prim.Native.String.{◌++◌ as append}
use home_inference_server.Prelude.{
  Bool, true, false, Option, none, some, List, [], ◌∷◌, ◌++◌, String, str_eq, if◌then◌else◌,
}
use home_inference_server.Pc.Api.{
  ToolCallSummary, ToolCall, Message, Request, Response, Failure, backend_error, other_error, Run,
  answers, fails,
}

-- What a search comes to: its results, encoded as a JSON list, or an error.
pub data Found : Type 0 where
  results : String → Found
  search_fails : Failure → Found

-- `toolSearcher`, the `query` that `json.Unmarshal` reads from a call's arguments, and a JSON string.
pub record Search : Type 0 where
  pub searcher : Option (String → Found)
  pub query_of : String → String
  pub json_string : String → String

abbrev instruction : String
instruction =
    "The web search failed, so you have no current information for this query. Answer using only what you already know, and say so explicitly — e.g. start with \"Based on my last update...\" or \"I wasn't able to search, but as of my training...\" — rather than presenting your answer as current or search-verified."

unfoldable pub search_failure_content : Search → String → String
search_failure_content k msg = append "{\"error\":" (
    append (k.json_string msg)
      (append ",\"instruction\":" (append (k.json_string instruction) "}")))

unfoldable pub search_error : Failure → String
search_error (backend_error code message cause) = message
search_error (other_error text) = "search failed"

abbrev tool_message : ToolCall → String → Message
tool_message call content = record {
  role = "tool";
  content = content;
  tool_calls = [];
  tool_call_id = call.id;
  name = call.name;
}

abbrev summary_of : ToolCall → String → ToolCallSummary
summary_of call error = record { name = call.name; arguments = call.arguments; error = error }

found_message : Search → ToolCall → Found → Message × ToolCallSummary
found_message k call (results json) =
    (tool_message call (append "{\"results\":" (append json "}")), summary_of call "")
found_message k call (search_fails e) = (
  tool_message call (search_failure_content k (search_error e)),
  summary_of call (search_error e),
)

searched : Search → ToolCall → Option (String → Found) → Message × ToolCallSummary
unfolding found_message
searched k call none = (
  tool_message call (search_failure_content k "search is not available right now"),
  summary_of call "search backend not configured",
)
searched k call (some search) = found_message k call (search (k.query_of call.arguments))

unfoldable pub execute_tool_call : Search → ToolCall → Message × ToolCallSummary
unfolding searched
execute_tool_call k call = if str_eq call.name "web_search" then searched k call k.searcher else (
  tool_message call (search_failure_content k "tool not available"),
  summary_of call "tool not available",
)

pub execute_all : Search → List ToolCall → List Message × List ToolCallSummary
execute_all k [] = ([], [])
execute_all k (call ∷ rest) =
    let later = execute_all k rest in
    let now = execute_tool_call k call in (now.0 ∷ later.0, now.1 ∷ later.1)

-- A backend: its answer to a request after those that it was asked before.
abbrev pub Model : Type 0
Model = List Request → Request → Run

-- `runWithTools` returns a response or an error, the summaries, and here the requests that it made.
pub record Outcome : Type 0 where
  pub run : Run
  pub summaries : List ToolCallSummary
  pub asked : List Request

abbrev assistant : List ToolCall → Message
assistant calls = record {
  role = "assistant";
  content = "";
  tool_calls = calls;
  tool_call_id = "";
  name = "";
}

pub next_request : Search → Request → List ToolCall → Request
next_request k req calls = record req {
  messages = req.messages ++ (assistant calls ∷ (execute_all k calls).0);
  tools = [];
}

second_hop : Search → Model → Request → List ToolCall → Outcome
second_hop k b req calls = record {
  run = b (req ∷ []) (next_request k req calls);
  summaries = (execute_all k calls).1;
  asked = req ∷ next_request k req calls ∷ [];
}

first_hop : Search → Model → Request → Response → List ToolCall → Outcome
unfolding second_hop
first_hop k b req resp [] = record { run = answers resp; summaries = []; asked = req ∷ [] }
first_hop k b req resp (call ∷ rest) = second_hop k b req (call ∷ rest)

after_first : Search → Model → Request → Run → Outcome
unfolding first_hop
after_first k b req (fails e) = record { run = fails e; summaries = []; asked = req ∷ [] }
after_first k b req (answers resp) = first_hop k b req resp resp.tool_calls

unfoldable pub run_with_tools : Search → Model → Request → Outcome
unfolding after_first
run_with_tools k b req = after_first k b req (b [] req)
