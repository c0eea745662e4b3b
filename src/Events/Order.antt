-- ===== src/Events/Order.antt =====
-- The client of a stream of events gets what the handler sends.
use Prim.Native.Nat.{ℕ}
use mathlib.Core.Bool.{Bool, false, true}
use mathlib.Core.List.{List, [], append-nil, ◌++◌, ◌∷◌}
use mathlib.Core.Option.{Option, none, some}
use mathlib.Core.Path.{ap, refl, subst, sym, ◌∙◌, ◌≡◌}
use gemini_web2api_go.Base.Int.{int_eq}
use gemini_web2api_go.Base.Tests.{if◌then◌else◌, nat_eq, ◌>>=◌}
use gemini_web2api_go.Base.Text.{Text, codes, text_eq}
use gemini_web2api_go.Events.{
  ChunkDelta, ErrorMember, SseWriter, TokenUsage, Written, chunk_of, content_delta, data_line,
  done_line, fail_stream, finish_stream, header_line, new_sse_writer, no_delta, numbered,
  reasoning_delta, role_delta, send_content, send_reasoning, send_tool_calls, start_stream,
  stream_headers, tool_calls, write, write_chunk, write_usage,
}
use gemini_web2api_go.Events.Reader.{
  Client, Closing, Phase, Sending, before_header, before_role, close, closed, ending, new_client,
  open_stream, read_all, read_choice, read_in, received, received_all, received_end, send, send_all,
  sends_content, sends_reasoning, sends_tool_calls, stream_fails, stream_finishes,
}

-- A client that read all that was written.
abbrev Shows : SseWriter → Client → Type 0
Shows s v = read_all (some new_client) s.written ≡ some v

abbrev in_phase : Client → Phase → Client
in_phase v p = record v { phase = p }

abbrev phase_of : Bool → Phase
phase_of b = if b then open_stream else before_header

-- A client that keeps up with a stream that is not at its end.
abbrev KeepsUp : SseWriter → Client → Type 0
KeepsUp s v = Shows s (in_phase v (phase_of s.started))

read_all-append :
    (v : Option Client) (xs ys : List Written) → read_all v (xs ++ ys) ≡ read_all (read_all v xs) ys
unfolding read_all
read_all-append v [] ys = refl
read_all-append v (e ∷ xs) ys = read_all-append (v >>= λ c. read_in c.phase c e) xs ys

write-Shows :
    (s : SseWriter) (v u : Client) (e : Written)
    → Shows s v
    → read_in v.phase v e ≡ some u
    → Shows (write s e) u
unfolding read_all
write-Shows s v u e h r =
    read_all-append (some new_client) s.written (e ∷ []) ∙ ap (λ c. read_all c (e ∷ [])) h ∙ r

start-Shows :
    (s : SseWriter) (v : Client) → KeepsUp s v → Shows (start_stream s) (in_phase v open_stream)
unfolding start_stream write_chunk read_in
start-Shows s v = go s.started
  where
    headed : SseWriter
    headed = write (record s { started = true }) (header_line 200 stream_headers)

    go :
        (b : Bool)
        → Shows s (in_phase v (phase_of b))
        → Shows
            (if b then s else write_chunk headed (role_delta (codes "assistant")) none none)
            (in_phase v open_stream)
    go true h = h
    go false h =
        write-Shows headed (in_phase v before_role) (in_phase v open_stream) _
          (write-Shows (record s { started = true }) (in_phase v before_header)
            (in_phase v before_role) (header_line 200 stream_headers) h refl)
          refl

start-started : (s : SseWriter) → (start_stream s).started ≡ true
unfolding start_stream write_chunk
start-started s = go s.started refl
  where
    headed : SseWriter
    headed = write (record s { started = true }) (header_line 200 stream_headers)

    go :
        (b : Bool)
        → s.started ≡ b
        → (if b then s else write_chunk headed (role_delta (codes "assistant")) none none).started
          ≡ true
    go true h = h
    go false h = refl

-- A chunk that does not end the stream.
chunk-KeepsUp :
    (s : SseWriter) (v u : Client) (d : ChunkDelta)
    → KeepsUp s v
    → read_choice (in_phase v open_stream) d none ≡ some (in_phase u open_stream)
    → KeepsUp (write_chunk (start_stream s) d none none) u
unfolding write_chunk read_in
chunk-KeepsUp s v u d h r =
    subst (λ b. Shows (write_chunk (start_stream s) d none none) (in_phase u (phase_of b)))
      (sym (start-started s))
      (write-Shows (start_stream s) (in_phase v open_stream) (in_phase u open_stream) _
        (start-Shows s v h) r)

send-KeepsUp :
    (s : SseWriter) (v : Client) (x : Sending) → KeepsUp s v → KeepsUp (send s x) (received v x)
unfolding send received send_content send_reasoning send_tool_calls
send-KeepsUp s v (sends_content []) h =
    subst (λ t. KeepsUp s (record v { text = t })) (sym (append-nil v.text)) h
send-KeepsUp s v (sends_content (b ∷ t)) h =
    chunk-KeepsUp s v (record v { text = v.text ++ b ∷ t }) (content_delta (b ∷ t)) h refl
send-KeepsUp s v (sends_reasoning []) h =
    subst (λ t. KeepsUp s (record v { thought = t })) (sym (append-nil v.thought)) h
send-KeepsUp s v (sends_reasoning (b ∷ t)) h =
    chunk-KeepsUp s v (record v { thought = v.thought ++ b ∷ t }) (reasoning_delta (b ∷ t)) h refl
send-KeepsUp s v (sends_tool_calls cs) h =
    chunk-KeepsUp s v (record v { calls = v.calls ++ numbered 0 cs }) (tool_calls (numbered 0 cs)) h
      refl

send_all-KeepsUp :
    (s : SseWriter) (v : Client) (xs : List Sending)
    → KeepsUp s v
    → KeepsUp (send_all s xs) (received_all v xs)
unfolding send_all received_all
send_all-KeepsUp s v [] h = h
send_all-KeepsUp s v (x ∷ xs) h =
    send_all-KeepsUp (send s x) (received v x) xs (send-KeepsUp s v x h)

close-Shows :
    (s : SseWriter) (v : Client) (e : Closing) → KeepsUp s v → Shows (close s e) (received_end v e)
unfolding close received_end finish_stream fail_stream write_chunk read_in
close-Shows s v (stream_finishes reason usage) h = go usage
  where
    s' : SseWriter
    s' = write_chunk (start_stream s) no_delta (some reason) none

    ended : Shows s' (in_phase v ending)
    ended =
        write-Shows (start_stream s) (in_phase v open_stream) (in_phase v ending) _
          (start-Shows s v h) refl

    go : (m : Option TokenUsage) → Shows (write (write_usage s' m) done_line) (in_phase v closed)
    go none = write-Shows s' (in_phase v ending) (in_phase v closed) done_line ended refl
    go (some u) =
        write-Shows (write_usage s' (some u)) (in_phase v ending) (in_phase v closed) done_line
          (write-Shows s' (in_phase v ending) (in_phase v ending) _ ended refl) refl
close-Shows s v (stream_fails err) h =
    write-Shows told failed (in_phase failed closed) done_line
      (write-Shows (start_stream s) (in_phase v open_stream) failed _ (start-Shows s v h) refl) refl
  where
    failed : Client
    failed = record v { phase = ending; failure = some err }

    member : ErrorMember
    member = record { message = err; error_type = codes "upstream_error" }

    told : SseWriter
    told = write (start_stream s) (data_line (chunk_of (start_stream s) [] none (some member)))

-- Whatever a handler sends before it finishes or fails, a client that takes the header, the role,
-- the increments, the end and the closing line in this order and nothing else reads the whole
-- stream to its close, with exactly the text, the reasoning and the calls that were sent, and the
-- error where it failed.
pub stream-read :
    (i : Text) (t : ℕ) (m : Text) (xs : List Sending) (e : Closing)
    → read_all (some new_client) (close (send_all (new_sse_writer i t m) xs) e).written
      ≡ some (received_end (received_all new_client xs) e)
unfolding read_all
stream-read i t m xs e =
    close-Shows (send_all (new_sse_writer i t m) xs) (received_all new_client xs) e
      (send_all-KeepsUp (new_sse_writer i t m) new_client xs refl)
