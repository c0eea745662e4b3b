-- ===== src/Cookie/Subset.antt =====
-- The values in a cookie string that `cookieSubset` cut down.
use mathlib.Core.Bool.{not, ◌&&◌}
use mathlib.Core.List.{List, [], ◌∷◌}
use mathlib.Core.Logic.{inl, inr}
use mathlib.Core.Path.{◌≡◌}
use native.Mathlib.Omega.{arith}
use gemini_web2api_go.Base.Int.{int_eq}
use gemini_web2api_go.Base.Tests.{Bool-cases, if◌then◌else◌, nat_eq, ◌==◌}
use gemini_web2api_go.Base.Text.{Text, is_empty, text_beq_iff, text_eq}
use gemini_web2api_go.Cookie.{
  Pair, cookie_subset, cookie_value, split_cookie_pairs, subset_pairs, value_in,
}
use gemini_web2api_go.Cookie.Render.{split-subset}
use gemini_web2api_go.Proxy.{is_excluded}

-- The first value of a name that is not empty.
abbrev pub filled_value : List Pair → Text → Text
filled_value [] name = []
filled_value ((k, v) ∷ kvs) name =
    if k == name && not (is_empty v) then v else filled_value kvs name

subset_pairs-value :
    (names seen : List Text) (kvs : List Pair) (name : Text)
    → value_in (subset_pairs names seen kvs) name ≡ (
        if is_excluded name names && not (is_excluded name seen) then filled_value kvs name else [])
unfolding value_in subset_pairs is_excluded
subset_pairs-value names seen [] name = ground arith
subset_pairs-value names seen ((k, v) ∷ kvs) name = elim (Bool-cases (k == name)) [
  | inl e ↦
      let same = (text_beq_iff k name).0 e in
      rw same (
        ground (
          arith,
          text_beq_iff name name,
          subset_pairs-value names seen kvs name,
          subset_pairs-value names (name ∷ seen) kvs name,
        ))
  | inr e ↦ ground (
    arith,
    text_beq_iff name k,
    text_beq_iff k name,
    subset_pairs-value names seen kvs name,
    subset_pairs-value names (k ∷ seen) kvs name,
  )
]

-- The string that `cookieSubset` returns gives each name in `names` its first value that is not
-- empty, and every other name none.
pub subset-value :
    (cookie : Text) (names : List Text) (name : Text)
    → cookie_value (cookie_subset cookie names) name
      ≡ (if is_excluded name names then filled_value (split_cookie_pairs cookie) name else [])
unfolding cookie_value is_excluded
subset-value cookie names name =
    rw (split-subset cookie names, subset_pairs-value names [] (split_cookie_pairs cookie) name)
      (ground arith)
