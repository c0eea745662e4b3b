-- ===== src/Events/Reader.antt =====
-- What a client makes of a stream of events.
use Prim.Native.Nat.{ℕ}
use mathlib.Core.List.{List, [], ◌++◌, ◌∷◌}
use mathlib.Core.Option.{Option, none, some}
use gemini_web2api_go.Base.Int.{int_eq}
use gemini_web2api_go.Base.Tests.{if◌then◌else◌, nat_eq, ◌==◌, ◌>>=◌}
use gemini_web2api_go.Base.Text.{Text, text_eq}
use gemini_web2api_go.Events.{
  ChunkChoice, ChunkDelta, ErrorMember, SseWriter, TokenUsage, ToolCall, Written, content_delta,
  data_line, done_line, fail_stream, finish_stream, header_line, no_delta, numbered,
  reasoning_delta, role_delta, send_content, send_reasoning, send_tool_calls, tool_calls,
}

-- How far a stream has come.
pub data Phase : Type 0 where
  before_header : Phase
  before_role : Phase
  open_stream : Phase
  ending : Phase
  closed : Phase

-- A client, with the text, the reasoning and the calls of tools that it has put together.
pub record Client : Type 0 where
  pub phase : Phase
  pub text : Text
  pub thought : Text
  pub calls : List (ℕ × ToolCall)
  pub failure : Option Text

abbrev pub new_client : Client
new_client = record { phase = before_header; text = []; thought = []; calls = []; failure = none }

-- The first choice of a chunk while answers come in. A chunk may be out of place.
abbrev pub read_choice : Client → ChunkDelta → Option Text → Option Client
read_choice v (content_delta t) none = some (record v { text = v.text ++ t })
read_choice v (reasoning_delta t) none = some (record v { thought = v.thought ++ t })
read_choice v (tool_calls cs) none = some (record v { calls = v.calls ++ cs })
read_choice v no_delta (some reason) = some (record v { phase = ending })
read_choice v _ _ = none

abbrev read_role : Client → List ChunkChoice → Option Client
read_role v (ch ∷ []) = elim ch.delta [
  | role_delta r ↦ some (record v { phase = open_stream })
  | _ ↦ none
]
read_role v _ = none

abbrev read_choices : Client → List ChunkChoice → Option ErrorMember → Option Client
read_choices v (ch ∷ []) none = read_choice v ch.delta ch.finish_reason
read_choices v [] (some e) = some (record v { phase = ending; failure = some e.message })
read_choices v _ _ = none

abbrev read_usage : Client → List ChunkChoice → Option TokenUsage → Option Client
read_usage v [] (some u) = some v
read_usage v _ _ = none

-- One event, in the order that a stream has to have.
unfoldable pub read_in : Phase → Client → Written → Option Client
read_in before_header v (header_line status hs) =
    if status == 200 then some (record v { phase = before_role }) else none
read_in before_role v (data_line ch) = read_role v ch.choices
read_in open_stream v (data_line ch) = read_choices v ch.choices ch.error_member
read_in ending v (data_line ch) = read_usage v ch.choices ch.usage
read_in ending v done_line = some (record v { phase = closed })
read_in _ v _ = none

unfoldable pub read_all : Option Client → List Written → Option Client
unfolding read_in
read_all v [] = v
read_all v (e ∷ es) = read_all (v >>= λ c. read_in c.phase c e) es

-- What the handler of a request sends.
pub data Sending : Type 0 where
  sends_content : Text → Sending
  sends_reasoning : Text → Sending
  sends_tool_calls : List ToolCall → Sending

pub data Closing : Type 0 where
  stream_finishes : Text → Option TokenUsage → Closing
  stream_fails : Text → Closing

unfoldable pub send : SseWriter → Sending → SseWriter
unfolding send_content send_reasoning send_tool_calls
send s (sends_content t) = send_content s t
send s (sends_reasoning t) = send_reasoning s t
send s (sends_tool_calls cs) = send_tool_calls s cs

unfoldable pub send_all : SseWriter → List Sending → SseWriter
unfolding send
send_all s [] = s
send_all s (x ∷ xs) = send_all (send s x) xs

unfoldable pub close : SseWriter → Closing → SseWriter
unfolding finish_stream fail_stream
close s (stream_finishes reason usage) = finish_stream s reason usage
close s (stream_fails err) = fail_stream s err

-- What the client should get of it.
unfoldable pub received : Client → Sending → Client
received v (sends_content t) = record v { text = v.text ++ t }
received v (sends_reasoning t) = record v { thought = v.thought ++ t }
received v (sends_tool_calls cs) = record v { calls = v.calls ++ numbered 0 cs }

unfoldable pub received_all : Client → List Sending → Client
unfolding received
received_all v [] = v
received_all v (x ∷ xs) = received_all (received v x) xs

unfoldable pub received_end : Client → Closing → Client
received_end v (stream_finishes reason usage) = record v { phase = closed }
received_end v (stream_fails err) = record v { phase = closed; failure = some err }
