-- ===== src/Frames/Content.antt =====
-- A response without a content frame sends nothing to the client.
use Prim.Native.Nat.{ℕ}
use mathlib.Core.Bool.{Bool, false, not, true}
use mathlib.Core.List.{List, [], ◌∷◌}
use mathlib.Core.Logic.{inl, inr}
use mathlib.Core.Path.{refl, ◌≡◌}
use gemini_web2api_go.Base.Int.{int_eq}
use gemini_web2api_go.Base.Lists.{All}
use gemini_web2api_go.Base.Tests.{Bool-cases, if◌then◌else◌, nat_eq, ◌==◌}
use gemini_web2api_go.Base.Text.{Text, has_byte, is_empty, onto_head, split_on, text_eq}
use gemini_web2api_go.Frames.{
  Parser, any_content, has_content, has_content_frame, newline, reasoning_in_line, texts_in_line,
}
use gemini_web2api_go.Stream.Feed.{
  Callbacks, Feed, body_lines, feed_line, feed_lines, feed_reasoning, feed_texts, scan_lines,
  without_return,
}

has_content-none :
    (parse : Parser) (line : Text)
    → has_content parse line ≡ false
    → (texts_in_line parse line ≡ []) × (reasoning_in_line parse line ≡ [])
has_content-none parse line h = go (texts_in_line parse line) (reasoning_in_line parse line) h
  where
    go :
        (ts : List Text) (r : Text)
        → (let b : Bool = elim ts [ [] ↦ not (is_empty r) | t ∷ us ↦ true ] in b ≡ false)
        → (ts ≡ []) × (r ≡ [])
    go [] [] h = (refl, refl)
    go [] (c ∷ r) h = cc
    go (t ∷ ts) r h = cc

feed-nothing :
    (clean : Text → Text) (w : Callbacks) (f : Feed) (ts : List Text) (r : Text)
    → ts ≡ []
    → r ≡ []
    → (let g : Feed = if w.on_reasoning then feed_reasoning clean f r else f in
        if w.on_delta then feed_texts clean g ts else g)
      ≡ f
unfolding feed_reasoning feed_texts
feed-nothing clean w f [] [] _ _ = elim (Bool-cases w.on_reasoning) [
  | inl a ↦ elim (Bool-cases w.on_delta) [ inl b ↦ rw (a, b) | inr b ↦ rw (a, b) ]
  | inr a ↦ elim (Bool-cases w.on_delta) [ inl b ↦ rw (a, b) | inr b ↦ rw (a, b) ]
]
feed-nothing clean w f [] (c ∷ r) _ e = cc
feed-nothing clean w f (t ∷ ts) r e _ = cc

feed_line-none :
    (parse : Parser) (clean : Text → Text) (w : Callbacks) (f : Feed) (line : Text)
    → has_content parse line ≡ false
    → feed_line parse clean w f line ≡ f
unfolding feed_line
feed_line-none parse clean w f line h =
    let (t, r) = has_content-none parse line h in
    feed-nothing clean w f (texts_in_line parse line) (reasoning_in_line parse line) t r

pub feed_lines-none :
    (parse : Parser) (clean : Text → Text) (w : Callbacks) (f : Feed) (lines : List Text)
    → any_content parse lines ≡ false
    → feed_lines parse clean w f lines ≡ f
unfolding any_content feed_lines
feed_lines-none parse clean w f [] h = refl
feed_lines-none parse clean w f (line ∷ lines) h = elim (Bool-cases (has_content parse line)) [
  | inl e ↦ cc (rw e at h)
  | inr e ↦
      rw (feed_line-none parse clean w f line e) (feed_lines-none parse clean w f lines (rw e at h))
]

without_return-same : (s : Text) → has_byte 13 s ≡ false → without_return s ≡ s
unfolding has_byte without_return
without_return-same [] h = refl
without_return-same (c ∷ []) h = elim (Bool-cases (c == 13)) [
  | inl e ↦ cc (rw e at h)
  | inr e ↦ rw e
]
without_return-same (c ∷ d ∷ s) h = elim (Bool-cases (c == 13)) [
  | inl e ↦ cc (rw e at h)
  | inr e ↦ rw (without_return-same (d ∷ s) (rw e at h))
]

scan_lines-content :
    (parse : Parser) (lines : List Text)
    → All (λ l. has_byte 13 l ≡ false) lines
    → any_content parse lines ≡ false
    → any_content parse (scan_lines lines) ≡ false
unfolding any_content scan_lines
scan_lines-content parse [] a h = h
scan_lines-content parse (l ∷ []) a h = elim (Bool-cases (is_empty l)) [
  | inl e ↦ rw (e, scan_lines)
  | inr e ↦ rw (e, scan_lines, without_return-same l a.0) h
]
scan_lines-content parse (l ∷ m ∷ ls) a h = elim (Bool-cases (has_content parse l)) [
  | inl e ↦ cc (rw e at h)
  | inr e ↦ rw (without_return-same l a.0, e, scan_lines-content parse (m ∷ ls) a.1 (rw e at h))
]

NoByte-cons :
    (b c d : ℕ) (ws : List Text)
    → (d == b) ≡ false
    → All (λ w. has_byte b w ≡ false) ws
    → All (λ w. has_byte b w ≡ false) (onto_head d ws)
unfolding has_byte
NoByte-cons b c d [] e a = (rw e, tt)
NoByte-cons b c d (w ∷ ws) e a = (rw e a.0, a.1)

-- A byte that a text does not have is in none of its parts.
split_on-NoOther :
    (b c : ℕ) (s : Text) → has_byte b s ≡ false → All (λ w. has_byte b w ≡ false) (split_on c s)
unfolding split_on has_byte
split_on-NoOther b c [] h = (refl, tt)
split_on-NoOther b c (d ∷ s) h = elim (Bool-cases (d == b)) [
  | inl k ↦ cc (rw k at h)
  | inr k ↦ elim (Bool-cases (d == c)) [
    | inl e ↦ rw (e, split_on) (refl, split_on-NoOther b c s (rw k at h))
    | inr e ↦
        rw (e, split_on) (NoByte-cons b c d (split_on c s) k (split_on-NoOther b c s (rw k at h)))
  ]
]

-- A response in which `hasContentFrame` finds nothing, and which has no carriage return, has sent
-- nothing to the client when it was read line by line: the trackers and what was sent are as before.
pub no_frame-feeds_nothing :
    (parse : Parser) (clean : Text → Text) (w : Callbacks) (f : Feed) (raw : Text)
    → has_byte 13 raw ≡ false
    → has_content_frame parse raw ≡ false
    → feed_lines parse clean w f (body_lines raw) ≡ f
unfolding has_content_frame body_lines
no_frame-feeds_nothing parse clean w f raw n h =
    feed_lines-none parse clean w f (body_lines raw)
      (scan_lines-content parse (split_on newline raw) (split_on-NoOther 13 newline raw n) h)
