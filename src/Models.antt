-- ===== src/Models.antt =====
-- internal/app/gemini.go: the models on offer, and which of them need a signed-in account.
pub mod Gate
use Prim.Native.Nat.{ℕ}
use mathlib.Core.Bool.{Bool, false, not, true, ◌&&◌, ◌||◌}
use mathlib.Core.List.{List, [], ◌∷◌}
use mathlib.Core.Option.{none, some}
use gemini_web2api_go.Accounts.{CookieAccount, account_count}
use gemini_web2api_go.Base.Dict.{lookup}
use gemini_web2api_go.Base.Int.{int_eq}
use gemini_web2api_go.Base.Tests.{if◌then◌else◌, ltb, nat_eq, ◌==◌}
use gemini_web2api_go.Base.Text.{Text, codes, has_prefix, text_eq}
use gemini_web2api_go.Config.{RuntimeConfig}

abbrev pub hex_flash36 : Text
hex_flash36 = codes "fbb127bbb056c959"

abbrev pub hex_flash_lite : Text
hex_flash_lite = codes "cf41b0e0dd7d53e5"

abbrev pub hex_pro31 : Text
hex_pro31 = codes "9d8ca3786ebdfbea"

abbrev pub hex_flash38 : Text
hex_flash38 = codes "56fdd199312815e2"

-- `ModelConfig`, without its description.
pub record ModelConfig : Type 0 where
  pub hex_id : Text
  pub mode : ℕ
  pub thinking : Bool
  pub tool : ℕ

abbrev pub Models : Type 0
Models = List (Text × ModelConfig)

abbrev plain : Text → ℕ → ModelConfig
plain hex m = record { hex_id = hex; mode = m; thinking = false; tool = 0 }

abbrev extended : Text → ℕ → ModelConfig
extended hex m = record { hex_id = hex; mode = m; thinking = true; tool = 0 }

abbrev with_tool : ℕ → ModelConfig
with_tool t = record { hex_id = hex_flash36; mode = 1; thinking = false; tool = t }

-- `Models`
abbrev pub all_models : Models
all_models =
    (codes "gemini-3.6-flash", plain hex_flash36 1)
    ∷ (codes "gemini-3.5-flash-lite", plain hex_flash_lite 6)
    ∷ (codes "gemini-3.1-pro", plain hex_pro31 3)
    ∷ (codes "gemini-3.8-flash", plain hex_flash38 1)
    ∷ (codes "gemini-3.7-flash", plain hex_flash38 1)
    ∷ (codes "gemini-3.6-flash-thinking", extended hex_flash36 1)
    ∷ (codes "gemini-3.5-flash-lite-thinking", extended hex_flash_lite 6)
    ∷ (codes "gemini-3.1-pro-thinking", extended hex_pro31 3)
    ∷ (codes "gemini-3.8-flash-thinking", extended hex_flash38 1)
    ∷ (codes "gemini-3.7-flash-thinking", extended hex_flash38 1)
    ∷ (codes "gemini-image", with_tool 14)
    ∷ (codes "gemini-music", with_tool 21)
    ∷ (codes "gemini-video", with_tool 11)
    ∷ (codes "gemini-canvas", with_tool 2)
    ∷ []

-- `hasCookie`
unfoldable pub has_cookie : List CookieAccount → Bool
unfolding account_count
has_cookie rows = ltb 0 (account_count rows).1

-- `modelNeedsLogin`
unfoldable pub model_needs_login : ModelConfig → Bool
model_needs_login mc =
    mc.hex_id == hex_pro31 || mc.hex_id == hex_flash38 || mc.thinking || ltb 0 mc.tool

-- `anonFirstEligible`
unfoldable pub anon_first_eligible : RuntimeConfig → ModelConfig → Bool → Bool
anon_first_eligible c mc has_attachment =
    c.anon_first && not has_attachment && not (model_needs_login mc)

unfoldable pub without_login : Models → Models
without_login [] = []
without_login ((k, mc) ∷ ms) =
    if model_needs_login mc then without_login ms else (k, mc) ∷ without_login ms

-- `availableModels`
unfoldable pub available_models : Models → List CookieAccount → Models
available_models models rows = if has_cookie rows then models else without_login models

-- The text before the first `mark`, or all of it.
unfoldable pub before_text : Text → Text → Text
unfolding has_prefix
before_text mark [] = []
before_text mark (c ∷ s) = if has_prefix (c ∷ s) mark then [] else c ∷ before_text mark s

pub data Resolved : Type 0 where
  resolved : Text → ModelConfig → Resolved
  needs_cookie : ModelConfig → Resolved
  unknown_model : Resolved

-- `resolveModel`
unfoldable pub resolve_model : Models → List CookieAccount → Text → Resolved
resolve_model models rows name =
    let n = before_text (codes "@think=") name in
    elim (lookup n (available_models models rows)) [
      | some mc ↦ resolved n mc
      | none ↦ elim (lookup n models) [
        | some full ↦ if not (has_cookie rows) then needs_cookie full else unknown_model
        | none ↦ unknown_model
      ]
    ]
