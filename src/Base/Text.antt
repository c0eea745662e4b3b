-- ===== src/Base/Text.antt =====
-- Texts as lists of bytes, with what the program uses of Go's `strings` package.
use Prim.Native.Char.{code}
use Prim.Native.Nat.{ℕ, ◌+◌}
use Prim.Native.String.{String}
use mathlib.Core.Bool.{Bool, false, true, ◌&&◌, ◌||◌}
use mathlib.Core.List.{List, [], ◌++◌, ◌∷◌}
use mathlib.Core.Logic.{◌↔◌}
use mathlib.Core.Option.{Option, none, some}
use mathlib.Core.Path.{◌≡◌}
use native.Mathlib.Omega.{arith}
use gemini_web2api_go.Base.Int.{int_eq}
use gemini_web2api_go.Base.Tests.{Comparable, if◌then◌else◌, leb, nat_beq, nat_eq, ◌==◌}

abbrev pub Text : Type 0
Text = List ℕ

-- The bytes of a literal that is ASCII.
abbrev pub codes : String → Text
codes String.[] = []
codes (String.◌∷◌ c s) = code c ∷ codes s

unfoldable pub text_beq : Text → Text → Bool
text_beq [] [] = true
text_beq (x ∷ xs) (y ∷ ys) = nat_beq x y && text_beq xs ys
text_beq _ _ = false

pub text_beq_iff : (a b : Text) → (text_beq a b ≡ true) ↔ (a ≡ b)
unfolding text_beq
text_beq_iff (x ∷ a) (y ∷ b) = ground (arith, text_beq_iff a b)
text_beq_iff _ _ = ground arith

instance abbrev pub text_eq : Comparable Text
text_eq = record { equal = text_beq; equal_iff = text_beq_iff }

-- `s == ""`
abbrev pub is_empty : Text → Bool
is_empty [] = true
is_empty (c ∷ s) = false

-- `strings.HasPrefix(s, p)`
unfoldable pub has_prefix : Text → Text → Bool
has_prefix s [] = true
has_prefix [] (c ∷ p) = false
has_prefix (d ∷ s) (c ∷ p) = d == c && has_prefix s p

-- The ASCII white space that `strings.TrimSpace` removes.
abbrev pub is_space : ℕ → Bool
is_space c = c == 32 || (leb 9 c && leb c 13)

unfoldable pub trim_left : Text → Text
trim_left [] = []
trim_left (c ∷ s) = if is_space c then trim_left s else c ∷ s

unfoldable pub trim_end : Text → Text
trim_end [] = []
trim_end (c ∷ s) = let rest = trim_end s in if is_space c && is_empty rest then [] else c ∷ rest

-- `strings.TrimSpace(s)`
unfoldable pub trim_space : Text → Text
unfolding trim_left trim_end
trim_space s = trim_end (trim_left s)

unfoldable pub lower_byte : ℕ → ℕ
lower_byte c = if leb b'A' c && leb c b'Z' then c + 32 else c

-- `strings.ToLower(s)` on ASCII.
unfoldable pub to_lower : Text → Text
unfolding lower_byte
to_lower [] = []
to_lower (c ∷ s) = lower_byte c ∷ to_lower s

-- The end of the text where every trailing `c` is removed: `strings.TrimRight(s, string(c))`.
unfoldable pub trim_right : ℕ → Text → Text
trim_right c [] = []
trim_right c (d ∷ s) = let rest = trim_right c s in if d == c && is_empty rest then [] else d ∷ rest

-- `strings.Contains(s, p)`
unfoldable pub contains : Text → Text → Bool
unfolding has_prefix
contains [] p = is_empty p
contains (c ∷ s) p = has_prefix (c ∷ s) p || contains s p

-- `strings.Join(parts, sep)`
unfoldable pub join : Text → List Text → Text
join sep [] = []
join sep (p ∷ []) = p
join sep (p ∷ q ∷ ps) = p ++ (sep ++ join sep (q ∷ ps))

-- A text after one more byte of its first part.
abbrev pub onto_head : ℕ → List Text → List Text
onto_head c [] = (c ∷ []) ∷ []
onto_head c (w ∷ ws) = (c ∷ w) ∷ ws

-- `strings.Split(s, string(b))`
unfoldable pub split_on : ℕ → Text → List Text
split_on b [] = [] ∷ []
split_on b (c ∷ s) = let rest = split_on b s in if c == b then [] ∷ rest else onto_head c rest

-- `strings.SplitN(s, string(b), 2)[0]`
unfoldable pub before : ℕ → Text → Text
before b [] = []
before b (c ∷ s) = if c == b then [] else c ∷ before b s

-- `s[:i]` and `s[i+1:]` for `i := strings.Index(s, string(b))`, if there is one.
unfoldable pub cut_at : ℕ → Text → Option (Text × Text)
cut_at b [] = none
cut_at b (c ∷ s) =
    if c == b
    then some ([], s)
    else elim (cut_at b s) [ none ↦ none | some (p, q) ↦ some (c ∷ p, q) ]

unfoldable pub has_byte : ℕ → Text → Bool
has_byte b [] = false
has_byte b (c ∷ s) = c == b || has_byte b s
