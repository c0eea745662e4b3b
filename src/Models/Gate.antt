-- ===== src/Models/Gate.antt =====
-- Which models a request gets.
use mathlib.Core.Bool.{Bool, false, not, true, ◌||◌}
use mathlib.Core.List.{List, [], map, ◌∷◌}
use mathlib.Core.Logic.{inl, inr}
use mathlib.Core.Option.{Option, none, some}
use mathlib.Core.Path.{refl, ◌≡◌}
use native.Mathlib.Omega.{arith}
use gemini_web2api_go.Accounts.{CookieAccount}
use gemini_web2api_go.Base.Dict.{lookup}
use gemini_web2api_go.Base.Int.{int_eq}
use gemini_web2api_go.Base.Tests.{Bool-cases, if◌then◌else◌, nat_eq, ◌==◌}
use gemini_web2api_go.Base.Text.{Text, codes, text_beq_iff, text_eq}
use gemini_web2api_go.Config.{RuntimeConfig}
use gemini_web2api_go.Models.{
  ModelConfig, Models, Resolved, anon_first_eligible, available_models, before_text, has_cookie,
  model_needs_login, needs_cookie, resolve_model, resolved, unknown_model, without_login,
}
use gemini_web2api_go.Proxy.{is_excluded}

-- The names of a Go map: each occurs once.
abbrev pub IsMap : Models → Type 0
IsMap [] = Unit {0}
IsMap ((k, mc) ∷ ms) = (is_excluded k (map (λ e. e.0) ms) ≡ false) × IsMap ms

absent-without :
    (ms : Models) (n : Text)
    → is_excluded n (map (λ e. e.0) ms) ≡ false
    → lookup n (without_login ms) ≡ none
unfolding is_excluded without_login lookup
absent-without [] n h = refl
absent-without ((k, mc) ∷ ms) n h = elim (Bool-cases (n == k)) [
  | inl e ↦ cc (rw e at h)
  | inr e ↦
      let apart : (k == n) ≡ false = ground (arith, text_beq_iff n k, text_beq_iff k n) in
      let ih = absent-without ms n (rw e at h) in
      elim (Bool-cases (model_needs_login mc)) [
        | inl l ↦ rw (l, without_login, ih)
        | inr l ↦ rw (l, without_login, lookup, apart, ih)
      ]
]

-- A model that is found, if it may be used without an account.
abbrev pub open_model : Option ModelConfig → Option ModelConfig
open_model none = none
open_model (some mc) = if model_needs_login mc then none else some mc

lookup-without :
    (ms : Models) (n : Text) → IsMap ms → lookup n (without_login ms) ≡ open_model (lookup n ms)
unfolding without_login lookup
lookup-without [] n m = refl
lookup-without ((k, mc) ∷ ms) n m = elim (Bool-cases (k == n)) [
  | inl e ↦
      let same = (text_beq_iff k n).0 e in
      let gone = absent-without ms n (rw same at m.0) in
      elim (Bool-cases (model_needs_login mc)) [
        | inl l ↦ rw (l, without_login, e, gone, l)
        | inr l ↦ rw (l, without_login, lookup, e, l)
      ]
  | inr e ↦ elim (Bool-cases (model_needs_login mc)) [
    | inl l ↦ rw (l, without_login, e, lookup-without ms n m.1)
    | inr l ↦ rw (l, without_login, lookup, e, lookup-without ms n m.1)
  ]
]

-- The answer for a model that is in the table, given whether an account is signed in.
abbrev pub gated : Bool → Text → Option ModelConfig → Resolved
gated signed_in n none = unknown_model
gated signed_in n (some mc) =
    if signed_in || not (model_needs_login mc) then resolved n mc else needs_cookie mc

-- For every table of models, pool and name: the part of the name before `@think=` is looked up in
-- the whole table; a model is given out if an account is enabled or the model needs none, and is
-- refused for the lack of a cookie otherwise.
pub resolve-gated :
    (models : Models) (rows : List CookieAccount) (name : Text)
    → IsMap models
    → let n = before_text (codes "@think=") name in
      resolve_model models rows name ≡ gated (has_cookie rows) n (lookup n models)
unfolding resolve_model available_models
resolve-gated models rows name m =
    go (has_cookie rows) (lookup n models) refl (lookup-without models n m)
  where
    n : Text
    n = before_text (codes "@think=") name

    go :
        (b : Bool) (o : Option ModelConfig)
        → lookup n models ≡ o
        → lookup n (without_login models) ≡ open_model o
        → (let r : Resolved = elim (lookup n (if b then models else without_login models)) [
          | some mc ↦ resolved n mc
          | none ↦ elim (lookup n models) [
            | some full ↦ if not b then needs_cookie full else unknown_model
            | none ↦ unknown_model
          ]
        ] in
            r ≡ gated b n (lookup n models))
    go true none e h = rw (e, e)
    go true (some mc) e h = rw e
    go false none e h = rw (h, e)
    go false (some mc) e h = elim (Bool-cases (model_needs_login mc)) [
      | inl l ↦ let g = rw l at h in rw (g, e, l)
      | inr l ↦ let g = rw l at h in rw (g, e, l)
    ]

-- A request that `anonFirstEligible` lets out without an account gets its model in any case, also
-- from a pool without an enabled account.
pub anon_first-resolved :
    (c : RuntimeConfig) (models : Models) (rows : List CookieAccount) (name : Text)
    (mc : ModelConfig) (has_attachment : Bool)
    → IsMap models
    → lookup (before_text (codes "@think=") name) models ≡ some mc
    → anon_first_eligible c mc has_attachment ≡ true
    → resolve_model models rows name ≡ resolved (before_text (codes "@think=") name) mc
unfolding anon_first_eligible
anon_first-resolved c models rows name mc has_attachment m h e =
    let open_to_all : model_needs_login mc ≡ false = ground arith in
    rw (resolve-gated models rows name m, h, open_to_all) (ground arith)
