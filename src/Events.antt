-- ===== src/Events.antt =====
-- internal/app/sse.go: the stream of events that a client reads. An event stands for the JSON object
-- in it, and flushing is left out.
pub mod Order
pub mod Reader
use Prim.Native.Nat.{ℕ, ◌+◌}
use mathlib.Core.Bool.{Bool, false, true}
use mathlib.Core.List.{List, [], ◌++◌, ◌∷◌}
use mathlib.Core.Option.{Option, none, some}
use gemini_web2api_go.Base.Int.{int_eq}
use gemini_web2api_go.Base.Tests.{if◌then◌else◌, nat_eq}
use gemini_web2api_go.Base.Text.{Text, codes, text_eq}

-- `ToolCall`
pub record ToolCall : Type 0 where
  pub call_id : Text
  pub call_type : Text
  pub call_name : Text
  pub call_arguments : Text

-- The `delta` of a choice.
pub data ChunkDelta : Type 0 where
  role_delta : Text → ChunkDelta
  content_delta : Text → ChunkDelta
  reasoning_delta : Text → ChunkDelta
  tool_calls : List (ℕ × ToolCall) → ChunkDelta
  no_delta : ChunkDelta

pub record ChunkChoice : Type 0 where
  pub choice_index : ℕ
  pub delta : ChunkDelta
  pub finish_reason : Option Text

-- The member `error`.
pub record ErrorMember : Type 0 where
  pub message : Text
  pub error_type : Text

-- The keys of `usage` with their counts.
abbrev pub TokenUsage : Type 0
TokenUsage = List (Text × ℕ)

pub record Chunk : Type 0 where
  pub chunk_id : Text
  pub object : Text
  pub created_at : ℕ
  pub chunk_model : Text
  pub choices : List ChunkChoice
  pub usage : Option TokenUsage
  pub error_member : Option ErrorMember

-- What goes out to the client.
pub data Written : Type 0 where
  header_line : ℕ → List (Text × Text) → Written
  data_line : Chunk → Written
  done_line : Written

-- `sseWriter`, with all that it has written.
pub record SseWriter : Type 0 where
  pub stream_id : Text
  pub stream_created : ℕ
  pub stream_model : Text
  pub started : Bool
  pub written : List Written

-- `newSSEWriter`
abbrev pub new_sse_writer : Text → ℕ → Text → SseWriter
new_sse_writer i created_at m = record {
  stream_id = i;
  stream_created = created_at;
  stream_model = m;
  started = false;
  written = [];
}

abbrev pub write : SseWriter → Written → SseWriter
write s e = record s { written = s.written ++ e ∷ [] }

abbrev pub chunk_of : SseWriter → List ChunkChoice → Option TokenUsage → Option ErrorMember → Chunk
chunk_of s choices usage e = record {
  chunk_id = s.stream_id;
  object = codes "chat.completion.chunk";
  created_at = s.stream_created;
  chunk_model = s.stream_model;
  choices = choices;
  usage = usage;
  error_member = e;
}

-- `chunk`
unfoldable pub write_chunk : SseWriter → ChunkDelta → Option Text → Option TokenUsage → SseWriter
write_chunk s d finish usage =
    let choice : ChunkChoice = record { choice_index = 0; delta = d; finish_reason = finish } in
    write s (data_line (chunk_of s (choice ∷ []) usage none))

abbrev pub stream_headers : List (Text × Text)
stream_headers =
    (codes "Content-Type", codes "text/event-stream")
    ∷ (codes "Cache-Control", codes "no-cache")
    ∷ (codes "Connection", codes "keep-alive")
    ∷ (codes "X-Accel-Buffering", codes "no")
    ∷ (codes "Access-Control-Allow-Origin", codes "*")
    ∷ []

-- `start`
unfoldable pub start_stream : SseWriter → SseWriter
unfolding write_chunk
start_stream s =
    if s.started
    then s
    else write_chunk (write (record s { started = true }) (header_line 200 stream_headers))
        (role_delta (codes "assistant")) none none

-- `SendReasoning`
unfoldable pub send_reasoning : SseWriter → Text → SseWriter
unfolding start_stream write_chunk
send_reasoning s [] = s
send_reasoning s (b ∷ t) = write_chunk (start_stream s) (reasoning_delta (b ∷ t)) none none

-- `SendContent`
unfoldable pub send_content : SseWriter → Text → SseWriter
unfolding start_stream write_chunk
send_content s [] = s
send_content s (b ∷ t) = write_chunk (start_stream s) (content_delta (b ∷ t)) none none

abbrev pub numbered : ℕ → List ToolCall → List (ℕ × ToolCall)
numbered i [] = []
numbered i (c ∷ cs) = (i, c) ∷ numbered (i + 1) cs

-- `SendToolCalls`
unfoldable pub send_tool_calls : SseWriter → List ToolCall → SseWriter
unfolding start_stream write_chunk
send_tool_calls s cs = write_chunk (start_stream s) (tool_calls (numbered 0 cs)) none none

abbrev pub write_usage : SseWriter → Option TokenUsage → SseWriter
write_usage s none = s
write_usage s (some u) = write s (data_line (chunk_of s [] (some u) none))

-- `Finish`
unfoldable pub finish_stream : SseWriter → Text → Option TokenUsage → SseWriter
unfolding start_stream write_chunk
finish_stream s reason usage =
    write (write_usage (write_chunk (start_stream s) no_delta (some reason) none) usage) done_line

-- `Fail`
unfoldable pub fail_stream : SseWriter → Text → SseWriter
unfolding start_stream
fail_stream s err =
    let e : ErrorMember = record { message = err; error_type = codes "upstream_error" } in
    let s' = start_stream s in write (write s' (data_line (chunk_of s' [] none (some e)))) done_line
