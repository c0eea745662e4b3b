-- ===== src/Base/Result.antt =====
-- Go's `(T, error)`: a value, or the text of an error. And literals outside ASCII.
use Prim.Native.Char.{code}
use Prim.Native.Nat.{ℕ, ◌%◌, ◌+◌, ◌/◌}
use Prim.Native.String.{String}
use mathlib.Core.List.{[], ◌++◌, ◌∷◌}
use gemini_web2api_go.Base.Tests.{if◌then◌else◌, ltb}
use gemini_web2api_go.Base.Text.{Text}

pub data Result {ℓ} (A : Type ℓ) : Type ℓ where
  fine : A → Result A
  erred : Text → Result A

-- The bytes of a code point below 2 ^ 16.
abbrev pub utf8_of : ℕ → Text
utf8_of c =
    if ltb c 0x80
    then c ∷ []
    else if ltb c 0x800
    then (0xc0 + c / 64) ∷ (0x80 + c % 64) ∷ []
    else (0xe0 + c / 4096) ∷ (0x80 + (c / 64) % 64) ∷ (0x80 + c % 64) ∷ []

-- The bytes of a literal.
abbrev pub utf8 : String → Text
utf8 String.[] = []
utf8 (String.◌∷◌ c s) = utf8_of (code c) ++ utf8 s
