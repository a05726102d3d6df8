-- ===== src/Pc/Tools/Grounded.antt =====
-- What the caller of a request with tools gets.
use home_inference_server.Prelude.{List, [], ◌∷◌, ◌++◌, String, ◌≡◌, ◌≢◌, ◌⊎◌}
use home_inference_server.Pc.Api.{
  ToolCallSummary, ToolCall, Message, Request, Response, Failure, answers, fails,
}
use home_inference_server.Pc.Tools.{Search, search_failure_content, Model, Outcome}

-- A message that answers a call: the model can match it to the call, and what it holds is results of a
-- search, or the instruction to say that there are none exactly when the summary reports an error.
pub record Answers (k : Search) (call : ToolCall) (m : Message) (s : ToolCallSummary) : Type 0 where
  pub role : m.role ≡ "tool"
  pub matched : m.tool_call_id ≡ call.id
  pub named : m.name ≡ call.name
  pub no_calls : m.tool_calls ≡ []
  pub reported : (s.name ≡ call.name) × (s.arguments ≡ call.arguments)
  pub told : (s.error ≡ "") ⊎ ((reason : String) × (m.content ≡ search_failure_content k reason))

-- One message and one summary for each call, in order.
pub data AnswersAll (k : Search)
    : List ToolCall → List Message → List ToolCallSummary → Type 0 where
  no_more : AnswersAll k [] [] []
  one_more :
      {call : ToolCall} {m : Message} {s : ToolCallSummary} {calls : List ToolCall}
      {ms : List Message} {ss : List ToolCallSummary}
      → Answers k call m s
      → AnswersAll k calls ms ss
      → AnswersAll k (call ∷ calls) (m ∷ ms) (s ∷ ss)

pub data Grounded (k : Search) (b : Model) (req : Request) (o : Outcome) : Type 0 where
  fails_first :
      (e : Failure)
      → b [] req ≡ fails e
      → o.run ≡ fails e
      → o.summaries ≡ []
      → o.asked ≡ req ∷ []
      → Grounded k b req o
  direct :
      (resp : Response)
      → b [] req ≡ answers resp
      → resp.tool_calls ≡ []
      → o.run ≡ answers resp
      → o.summaries ≡ []
      → o.asked ≡ req ∷ []
      → Grounded k b req o
  grounded :
      (resp : Response) (next : Request) (turn : Message) (replies : List Message)
      → b [] req ≡ answers resp
      → resp.tool_calls ≢ []
      → next.messages ≡ req.messages ++ (turn ∷ replies)
      → (turn.role ≡ "assistant") × (turn.tool_calls ≡ resp.tool_calls)
      → AnswersAll k resp.tool_calls replies o.summaries
      → record next { messages = req.messages; tools = req.tools } ≡ req
      → next.tools ≡ []
      → o.run ≡ b (req ∷ []) next
      → o.asked ≡ req ∷ next ∷ []
      → Grounded k b req o
