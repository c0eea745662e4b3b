-- ===== src/Stream/Feed.antt =====
-- internal/app/gemini.go: `lineCB`, which sends the increments of each line of a response to the
-- client, and the lines that `readBody` reads.
pub mod Faithful
use mathlib.Core.Bool.{Bool}
use mathlib.Core.List.{List, [], ◌++◌, ◌∷◌}
use gemini_web2api_go.Base.Int.{int_eq}
use gemini_web2api_go.Base.Tests.{if◌then◌else◌, nat_eq, ◌==◌}
use gemini_web2api_go.Base.Text.{Text, is_empty, split_on, text_eq}
use gemini_web2api_go.Frames.{Parser, newline, reasoning_in_line, texts_in_line}
use gemini_web2api_go.Stream.Delta.{push_frame}

-- The two trackers of a request, and all that the client was sent of the text and of the reasoning.
pub record Feed : Type 0 where
  pub emitted : Text
  pub emitted_reasoning : Text
  pub sent : Text
  pub sent_reasoning : Text

abbrev pub empty_feed : Feed
empty_feed = record { emitted = []; emitted_reasoning = []; sent = []; sent_reasoning = [] }

-- Which of `onDelta` and `onReasoning` are set.
pub record Callbacks : Type 0 where
  pub on_delta : Bool
  pub on_reasoning : Bool

unfoldable pub feed_reasoning : (Text → Text) → Feed → Text → Feed
unfolding push_frame
feed_reasoning clean f [] = f
feed_reasoning clean f (c ∷ r) =
    let (next, d) = push_frame clean f.emitted_reasoning (c ∷ r) in
    record f { emitted_reasoning = next; sent_reasoning = f.sent_reasoning ++ d }

unfoldable pub feed_texts : (Text → Text) → Feed → List Text → Feed
unfolding push_frame
feed_texts clean f [] = f
feed_texts clean f (t ∷ ts) =
    let (next, d) = push_frame clean f.emitted t in
    feed_texts clean (record f { emitted = next; sent = f.sent ++ d }) ts

-- `lineCB`
unfoldable pub feed_line : Parser → (Text → Text) → Callbacks → Feed → Text → Feed
feed_line parse clean w f line =
    let f' = if w.on_reasoning then feed_reasoning clean f (reasoning_in_line parse line) else f in
    if w.on_delta then feed_texts clean f' (texts_in_line parse line) else f'

unfoldable pub feed_lines : Parser → (Text → Text) → Callbacks → Feed → List Text → Feed
feed_lines parse clean w f [] = f
feed_lines parse clean w f (line ∷ lines) =
    feed_lines parse clean w (feed_line parse clean w f line) lines

-- A line without its carriage return.
unfoldable pub without_return : Text → Text
without_return [] = []
without_return (c ∷ []) = if c == 13 then [] else c ∷ []
without_return (c ∷ d ∷ s) = c ∷ without_return (d ∷ s)

-- `bufio.Scanner` on a whole body: the last line may lack its newline, and is left out if empty.
unfoldable pub scan_lines : List Text → List Text
scan_lines [] = []
scan_lines (l ∷ []) = if is_empty l then [] else without_return l ∷ []
scan_lines (l ∷ m ∷ ls) = without_return l ∷ scan_lines (m ∷ ls)

-- The lines that `readBody` hands to `onLine`.
unfoldable pub body_lines : Text → List Text
unfolding scan_lines
body_lines raw = scan_lines (split_on newline raw)
