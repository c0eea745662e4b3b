-- ===== src/Accounts/Import.antt =====
-- internal/app/cookie_pool.go: taking cookies into the pool. `parse` is `encoding/json`: the
-- members of an object whose values are strings, each name once, or none if the text is no object.
-- `logf` is left out.
use Prim.Native.Nat.{ℕ}
use mathlib.Core.Bool.{Bool, false, not, true, ◌&&◌}
use mathlib.Core.List.{List, [], map, ◌++◌, ◌∷◌}
use mathlib.Core.Option.{Option, none, some}
use gemini_web2api_go.Accounts.{Store, account_insert}
use gemini_web2api_go.Base.Dict.{lookup}
use gemini_web2api_go.Base.Int.{int_eq, ℤ}
use gemini_web2api_go.Base.Lists.{keep}
use gemini_web2api_go.Base.Tests.{if◌then◌else◌, ltb, nat_eq, ◌==◌}
use gemini_web2api_go.Base.Text.{Text, codes, has_prefix, is_empty, text_eq, trim_space}
use gemini_web2api_go.Cookie.{Pair, extract_sapisid, render}
use gemini_web2api_go.Proxy.{is_excluded}

-- The names of `cookieTemplateOrder`.
abbrev pub cookie_template_order : List Text
cookie_template_order =
    codes "SID"
    ∷ codes "HSID"
    ∷ codes "SSID"
    ∷ codes "APISID"
    ∷ codes "SAPISID"
    ∷ codes "__Secure-1PSID"
    ∷ codes "__Secure-1PSIDTS"
    ∷ []

-- `str`: a member without its outer space, empty if it is not there.
unfoldable pub member : List Pair → Text → Text
member m k = elim (lookup k m) [ none ↦ [] | some v ↦ trim_space v ]

-- The order of Go's strings.
unfoldable pub text_before : Text → Text → Bool
text_before s [] = false
text_before [] (d ∷ t) = true
text_before (c ∷ s) (d ∷ t) = if c == d then text_before s t else ltb c d

unfoldable pub insert_text : Text → List Text → List Text
insert_text t [] = t ∷ []
insert_text t (u ∷ us) = if text_before u t then u ∷ insert_text t us else t ∷ u ∷ us

-- `sort.Strings`
unfoldable pub sort_texts : List Text → List Text
sort_texts [] = []
sort_texts (t ∷ ts) = insert_text t (sort_texts ts)

-- The parts of the members `names` that are not empty.
unfoldable pub filled_pairs : List Pair → List Text → List Pair
filled_pairs m [] = []
filled_pairs m (k ∷ ks) =
    let rest = filled_pairs m ks in if is_empty (member m k) then rest else (k, member m k) ∷ rest

unfoldable pub extra_names : List Pair → List Text
extra_names m = sort_texts (
    keep
      (λ k.
        not (is_excluded k cookie_template_order)
        && not (k == codes "sapisid")
        && not (is_empty (member m k)))
      (map (λ kv. kv.0) m))

-- `normalizeCookie`
unfoldable pub normalize_cookie : (Text → Option (List Pair)) → Text → Option Text
normalize_cookie parse raw =
    let r = trim_space raw in
    if not (has_prefix r (codes "{")) then some r else elim (parse r) [
      | none ↦ none
      | some m ↦
          if not (is_empty (member m (codes "cookie")))
          then some (member m (codes "cookie"))
          else let kvs = filled_pairs m (cookie_template_order ++ extra_names m) in
            elim kvs [ [] ↦ none | kv ∷ rest ↦ some (render (kv ∷ rest)) ]
    ]

-- The errors of `accountAdd`.
pub data Added : Type 0 where
  inserted : ℤ → Added
  not_a_cookie no_sapisid empty_cookie : Added

abbrev pub outcome_of : Option ℤ → Added
outcome_of none = empty_cookie
outcome_of (some i) = inserted i

-- `accountAdd`
unfoldable pub account_add :
    (Text → Option (List Pair)) → ℕ → Store → Text → Text → Text → Store × Added
account_add parse now s label cookie note = elim (normalize_cookie parse cookie) [
  | none ↦ (s, not_a_cookie)
  | some c ↦
      if is_empty (extract_sapisid c)
      then (s, no_sapisid)
      else let (s', i) = account_insert now s label c note in (s', outcome_of i)
]

-- `accountAdopt`
unfoldable pub account_adopt :
    (Text → Option (List Pair)) → ℕ → Store → Text → Text → Text → Store × Added
account_adopt parse now s label cookie note = elim (normalize_cookie parse cookie) [
  | none ↦ (s, not_a_cookie)
  | some c ↦ let (s', i) = account_insert now s label c note in (s', outcome_of i)
]
