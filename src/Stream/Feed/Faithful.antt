-- ===== src/Stream/Feed/Faithful.antt =====
-- What a client has received is what the trackers hold as sent, on any number of attempts.
use mathlib.Core.Bool.{Bool, false, true}
use mathlib.Core.List.{List, [], ◌++◌, ◌∷◌}
use mathlib.Core.Path.{ap, ◌∙◌, ◌≡◌}
use gemini_web2api_go.Base.Int.{int_eq}
use gemini_web2api_go.Base.Tests.{if◌then◌else◌, nat_eq}
use gemini_web2api_go.Base.Text.{Text, text_eq}
use gemini_web2api_go.Frames.{Parser, reasoning_in_line, texts_in_line}
use gemini_web2api_go.Stream.Delta.{push_frame, push_frame-appends}
use gemini_web2api_go.Stream.Feed.{
  Callbacks, Feed, feed_line, feed_lines, feed_reasoning, feed_texts,
}

pub record IsFaithful (f : Feed) : Type 0 where
  pub text_sent : f.sent ≡ f.emitted
  pub thought_sent : f.sent_reasoning ≡ f.emitted_reasoning

reasoning-IsFaithful :
    (clean : Text → Text) (f : Feed) (r : Text)
    → IsFaithful f
    → IsFaithful (feed_reasoning clean f r)
unfolding feed_reasoning
reasoning-IsFaithful clean f [] h = h
reasoning-IsFaithful clean f (c ∷ r) h = record {
  text_sent = h.text_sent;
  thought_sent =
      ap (λ t. t ++ (push_frame clean f.emitted_reasoning (c ∷ r)).1) h.thought_sent
      ∙ push_frame-appends clean f.emitted_reasoning (c ∷ r);
}

texts-IsFaithful :
    (clean : Text → Text) (f : Feed) (ts : List Text)
    → IsFaithful f
    → IsFaithful (feed_texts clean f ts)
unfolding feed_texts
texts-IsFaithful clean f [] h = h
texts-IsFaithful clean f (t ∷ ts) h =
    texts-IsFaithful clean
      (record f {
        emitted = (push_frame clean f.emitted t).0;
        sent = f.sent ++ (push_frame clean f.emitted t).1;
      })
      ts
      (record {
        text_sent =
            ap (λ s. s ++ (push_frame clean f.emitted t).1) h.text_sent
            ∙ push_frame-appends clean f.emitted t;
        thought_sent = h.thought_sent;
      })

line-IsFaithful :
    (parse : Parser) (clean : Text → Text) (w : Callbacks) (f : Feed) (line : Text)
    → IsFaithful f
    → IsFaithful (feed_line parse clean w f line)
unfolding feed_line
line-IsFaithful parse clean w f line h = second w.on_delta _ (thoughts w.on_reasoning)
  where
    thoughts :
        (b : Bool)
        → IsFaithful (if b then feed_reasoning clean f (reasoning_in_line parse line) else f)
    thoughts true = reasoning-IsFaithful clean f (reasoning_in_line parse line) h
    thoughts false = h

    second :
        (b : Bool) (g : Feed)
        → IsFaithful g
        → IsFaithful (if b then feed_texts clean g (texts_in_line parse line) else g)
    second true g k = texts-IsFaithful clean g (texts_in_line parse line) k
    second false g k = k

-- Whatever lines arrive.
pub lines-IsFaithful :
    (parse : Parser) (clean : Text → Text) (w : Callbacks) (f : Feed) (lines : List Text)
    → IsFaithful f
    → IsFaithful (feed_lines parse clean w f lines)
unfolding feed_lines
lines-IsFaithful parse clean w f [] h = h
lines-IsFaithful parse clean w f (l ∷ lines) h =
    lines-IsFaithful parse clean w (feed_line parse clean w f l) lines
      (line-IsFaithful parse clean w f l h)
