-- ===== src/Frames/Longest.antt =====
-- Which reasoning of a response is kept.
use Prim.Native.Nat.{◌≤◌}
use mathlib.Core.Bool.{false, true}
use mathlib.Core.List.{List, [], ◌∷◌}
use mathlib.Core.Logic.{inl, inr, ◌⊎◌}
use mathlib.Core.Path.{refl, ◌≡◌}
use native.Mathlib.Omega.{arith}
use gemini_web2api_go.Base.Int.{int_eq}
use gemini_web2api_go.Base.Lists.{All, length}
use gemini_web2api_go.Base.Tests.{Bool-cases, ltb, nat_eq}
use gemini_web2api_go.Base.Text.{Text, split_on, text_eq}
use gemini_web2api_go.Frames.{Parser, longest_reasoning, newline, reasoning_in_line}

-- `r` is the reasoning of one of the lines, or nothing.
pub data Found (parse : Parser) (r : Text) : List Text → Type 0 where
  no_line : {lines : List Text} → r ≡ [] → Found parse r lines
  on_line :
      {l : Text} {lines : List Text} → r ≡ reasoning_in_line parse l → Found parse r (l ∷ lines)
  on_later : {l : Text} {lines : List Text} → Found parse r lines → Found parse r (l ∷ lines)

-- No line has a longer reasoning than `best`, which is at least as long as `start`, and is that
-- or the reasoning of a line.
record Kept (parse : Parser) (start : Text) (lines : List Text) (best : Text) : Type 0 where
  most : All (λ l. length (reasoning_in_line parse l) ≤ length best) lines
  grown : length start ≤ length best
  origin : (best ≡ start) ⊎ Found parse best lines

Kept-longer :
    (parse : Parser) (start : Text) (l : Text) (lines : List Text) (best : Text)
    → ltb (length start) (length (reasoning_in_line parse l)) ≡ true
    → Kept parse (reasoning_in_line parse l) lines best
    → Kept parse start (l ∷ lines) best
Kept-longer parse start l lines best e k = record {
  most = (k.grown, k.most);
  grown = ground (arith, k.grown);
  origin = elim k.origin [ inl q ↦ inr (on_line q) | inr q ↦ inr (on_later q) ];
}

Kept-shorter :
    (parse : Parser) (start : Text) (l : Text) (lines : List Text) (best : Text)
    → ltb (length start) (length (reasoning_in_line parse l)) ≡ false
    → Kept parse start lines best
    → Kept parse start (l ∷ lines) best
Kept-shorter parse start l lines best e k = record {
  most = (ground (arith, k.grown), k.most);
  grown = k.grown;
  origin = elim k.origin [ inl q ↦ inl q | inr q ↦ inr (on_later q) ];
}

longest-Kept :
    (parse : Parser) (start : Text) (lines : List Text)
    → Kept parse start lines (longest_reasoning parse start lines)
unfolding longest_reasoning
longest-Kept parse start [] = record { most = tt; grown = omega arith; origin = inl refl }
longest-Kept parse start (l ∷ lines) =
    elim (Bool-cases (ltb (length start) (length (reasoning_in_line parse l)))) [
      | inl e ↦
          rw (e, longest_reasoning)
            (Kept-longer parse start l lines
              (longest_reasoning parse (reasoning_in_line parse l) lines) e
              (longest-Kept parse (reasoning_in_line parse l) lines))
      | inr e ↦
          rw (e, longest_reasoning)
            (Kept-shorter parse start l lines (longest_reasoning parse start lines) e
              (longest-Kept parse start lines))
    ]

-- What `extractReasoning` cleans is the reasoning of one of the lines of the response, or nothing,
-- and no line has a longer one.
pub reasoning-longest :
    (parse : Parser) (raw : Text)
    → let best = longest_reasoning parse [] (split_on newline raw) in
      All (λ l. length (reasoning_in_line parse l) ≤ length best) (split_on newline raw)
      × Found parse best (split_on newline raw)
reasoning-longest parse raw =
    let k = longest-Kept parse [] (split_on newline raw) in
    (k.most, elim k.origin [ inl q ↦ no_line q | inr q ↦ q ])
