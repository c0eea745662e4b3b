-- ===== src/Cookie.antt =====
-- internal/app/cookie_pool.go: the strings that carry cookies. They are ASCII.
pub mod Split
pub mod Render
pub mod Merge
pub mod Subset
pub mod Updates
use Prim.Native.Nat.{ℕ}
use mathlib.Core.Bool.{Bool, not, ◌&&◌, ◌||◌}
use mathlib.Core.List.{List, [], map, ◌++◌, ◌∷◌}
use mathlib.Core.Option.{Option, none, some}
use gemini_web2api_go.Base.Dict.{lookup, put}
use gemini_web2api_go.Base.Int.{int_eq}
use gemini_web2api_go.Base.Tests.{if◌then◌else◌, nat_eq, ◌==◌}
use gemini_web2api_go.Base.Text.{
  Text, before, codes, contains, cut_at, is_empty, join, split_on, text_eq, to_lower, trim_space,
}
use gemini_web2api_go.Proxy.{is_excluded}

-- A name and its value.
abbrev pub Pair : Type 0
Pair = Text × Text

abbrev pub semicolon : ℕ
semicolon = 59

abbrev pub equals_sign : ℕ
equals_sign = 61

-- `if i := strings.Index(p, "="); i > 0`
unfoldable pub pair_of : Text → Option Pair
unfolding cut_at
pair_of p = elim (cut_at equals_sign p) [
  | none ↦ none
  | some (name, value) ↦ if is_empty name then none else some (name, value)
]

unfoldable pub collect : List Text → List Pair
unfolding pair_of trim_space
collect [] = []
collect (p ∷ ps) = elim (pair_of (trim_space p)) [ none ↦ collect ps | some kv ↦ kv ∷ collect ps ]

-- `splitCookiePairs`
unfoldable pub split_cookie_pairs : Text → List Pair
split_cookie_pairs cookie = collect (split_on semicolon cookie)

unfoldable pub value_in : List Pair → Text → Text
value_in [] name = []
value_in ((k, v) ∷ kvs) name = if k == name then v else value_in kvs name

-- `cookieValue`
unfoldable pub cookie_value : Text → Text → Text
cookie_value cookie name = value_in (split_cookie_pairs cookie) name

-- `extractSAPISID`
unfoldable pub extract_sapisid : Text → Text
extract_sapisid cookie = cookie_value cookie (codes "SAPISID")

-- `kv[0]+"="+kv[1]`
abbrev pub part_of : Pair → Text
part_of (k, v) = k ++ equals_sign ∷ v

abbrev pub parts_of : List Pair → List Text
parts_of [] = []
parts_of (kv ∷ kvs) = part_of kv ∷ parts_of kvs

-- `strings.Join(parts, "; ")`
unfoldable pub render : List Pair → Text
render kvs = join (codes "; ") (parts_of kvs)

-- The loop of `cookieSubset`.
unfoldable pub subset_pairs : List Text → List Text → List Pair → List Pair
subset_pairs names seen [] = []
subset_pairs names seen ((k, v) ∷ kvs) =
    if not (is_excluded k names) || is_empty v || is_excluded k seen
    then subset_pairs names seen kvs
    else (k, v) ∷ subset_pairs names (k ∷ seen) kvs

-- `cookieSubset`
unfoldable pub cookie_subset : Text → List Text → Text
cookie_subset cookie names = render (subset_pairs names [] (split_cookie_pairs cookie))

-- `cookieNames`
unfoldable pub cookie_names : Text → List Text
cookie_names cookie = map (λ kv. kv.0) (split_cookie_pairs cookie)

-- An expiry in the past with an empty value.
unfoldable pub deletes : Text → Text → Bool
deletes header value =
    is_empty value && contains (to_lower header) (codes "expires=thu, 01 jan 1970")

-- The loop of `mergeSetCookie` over the headers.
unfoldable pub cookie_updates : List Text → List Pair → List Pair
cookie_updates [] updates = updates
cookie_updates (header ∷ headers) updates = elim (pair_of (trim_space (before semicolon header))) [
  | none ↦ cookie_updates headers updates
  | some (name, value) ↦
      if deletes header value
      then cookie_updates headers updates
      else cookie_updates headers (put name value updates)
]

-- The pairs of the old string, with the values that the headers set.
unfoldable pub refreshed : List Pair → List Pair → List Pair
refreshed updates [] = []
refreshed updates ((k, v) ∷ kvs) =
    (k, elim (lookup k updates) [ none ↦ v | some new ↦ new ]) ∷ refreshed updates kvs

-- The updates whose names are not `seen`.
unfoldable pub added : List Pair → List Pair → List Pair
added kvs [] = []
added kvs ((k, v) ∷ us) =
    if is_excluded k (map (λ kv. kv.0) kvs) then added kvs us else (k, v) ∷ added kvs us

-- `mergeSetCookie`; `order` is the order in which the language walks through a map.
unfoldable pub merge_set_cookie : (List Pair → List Pair) → Text → List Text → Text
merge_set_cookie order cookie headers = elim (cookie_updates headers []) [
  | [] ↦ cookie
  | u ∷ us ↦
      let kvs = split_cookie_pairs cookie in
      render (refreshed (u ∷ us) kvs ++ added kvs (order (u ∷ us)))
]

-- The loop of `cookieIdentity`: the last value of each of the two names.
unfoldable pub identity_from : List Pair → Text → Text → Text
identity_from [] sapisid psid = sapisid ++ b'|' ∷ psid
identity_from ((k, v) ∷ kvs) sapisid psid =
    if k == codes "SAPISID"
    then identity_from kvs v psid
    else if k == codes "__Secure-1PSID"
    then identity_from kvs sapisid v
    else identity_from kvs sapisid psid

-- `cookieIdentity`
unfoldable pub cookie_identity : Text → Text
cookie_identity cookie = identity_from (split_cookie_pairs cookie) [] []
