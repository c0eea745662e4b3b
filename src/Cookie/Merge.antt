-- ===== src/Cookie/Merge.antt =====
-- The values in a cookie string that `mergeSetCookie` brought up to date.
use mathlib.Core.Bool.{false}
use mathlib.Core.List.{List, [], map, ◌++◌, ◌∷◌}
use mathlib.Core.Logic.{inl, inr}
use mathlib.Core.Option.{Option, none, some}
use mathlib.Core.Path.{ap, refl, ◌∙◌, ◌≡◌}
use native.Mathlib.Omega.{arith}
use gemini_web2api_go.Base.Dict.{lookup, lookup-All}
use gemini_web2api_go.Base.Int.{int_eq}
use gemini_web2api_go.Base.Lists.{All}
use gemini_web2api_go.Base.Tests.{Bool-cases, Option-cases, if◌then◌else◌, nat_eq, ◌==◌}
use gemini_web2api_go.Base.Text.{Text, text_beq_iff, text_eq}
use gemini_web2api_go.Cookie.{
  Pair, added, cookie_updates, cookie_value, merge_set_cookie, refreshed, render,
  split_cookie_pairs, value_in,
}
use gemini_web2api_go.Cookie.Render.{split-render}
use gemini_web2api_go.Cookie.Split.{IsClean, split-IsClean}
use gemini_web2api_go.Cookie.Updates.{either-none, last_set, updates-IsClean, updates-last}
use gemini_web2api_go.Proxy.{is_excluded}

-- What a walk through a map gives: its entries, in some order.
pub record IsWalk (order : List Pair → List Pair) : Type 1 where
  pub same_entries : (m : List Pair) (k : Text) → lookup k (order m) ≡ lookup k m
  pub only_entries : (P : Pair → Type 0) (m : List Pair) → All P m → All P (order m)

-- The value that the headers set, or else the old one.
abbrev pub newest : Option Text → Text → Text
newest none old = old
newest (some new) old = new

refreshed-IsClean :
    (us kvs : List Pair) → All IsClean us → All IsClean kvs → All IsClean (refreshed us kvs)
unfolding refreshed
refreshed-IsClean us [] a b = tt
refreshed-IsClean us ((k, v) ∷ kvs) a b = elim (Option-cases (lookup k us)) [
  | inl e ↦ rw (e, refreshed) (b.0, refreshed-IsClean us kvs a b.1)
  | inr (w, e) ↦
      rw (e, refreshed)
        (lookup-All (λ i u. IsClean (i, u)) k w us a e, refreshed-IsClean us kvs a b.1)
]

added-IsClean : (kvs us : List Pair) → All IsClean us → All IsClean (added kvs us)
unfolding added
added-IsClean kvs [] a = tt
added-IsClean kvs ((k, v) ∷ us) a = elim (Bool-cases (is_excluded k (map (λ kv. kv.0) kvs))) [
  | inl e ↦ rw (e, added) (added-IsClean kvs us a.1)
  | inr e ↦ rw (e, added) (a.0, added-IsClean kvs us a.1)
]

All-append : (P : Pair → Type 0) (xs ys : List Pair) → All P xs → All P ys → All P (xs ++ ys)
All-append P [] ys a b = b
All-append P (x ∷ xs) ys a b = (a.0, All-append P xs ys a.1 b)

no_update :
    (cookie name : Text)
    → value_in (split_cookie_pairs cookie) name
      ≡ newest (lookup name []) (value_in (split_cookie_pairs cookie) name)
unfolding lookup
no_update cookie name = refl

module _ (name : Text) where
  value-absent :
      (kvs : List Pair) → is_excluded name (map (λ kv. kv.0) kvs) ≡ false → value_in kvs name ≡ []
  unfolding value_in is_excluded
  value-absent [] h = refl
  value-absent ((k, v) ∷ kvs) h =
      ground (arith, text_beq_iff name k, text_beq_iff k name, value-absent kvs)

  value-added :
      (kvs us : List Pair)
      → is_excluded name (map (λ kv. kv.0) kvs) ≡ false
      → value_in (added kvs us) name ≡ newest (lookup name us) []
  unfolding value_in added lookup
  value-added kvs [] h = refl
  value-added kvs ((k, v) ∷ us) h = elim (Bool-cases (k == name)) [
    | inl e ↦
        let same = (text_beq_iff k name).0 e in
        rw (same, added, h, value_in, (text_beq_iff name name).1 refl, lookup)
    | inr e ↦ elim (Bool-cases (is_excluded k (map (λ kv. kv.0) kvs))) [
      | inl d ↦ rw (d, added, lookup, e, value-added kvs us h)
      | inr d ↦ rw (d, added, value_in, lookup, e, value-added kvs us h)
    ]
  ]

  value-refreshed :
      (us kvs rest : List Pair)
      → value_in (refreshed us kvs ++ rest) name ≡ (
          if is_excluded name (map (λ kv. kv.0) kvs)
          then newest (lookup name us) (value_in kvs name)
          else value_in rest name)
  unfolding value_in refreshed is_excluded
  value-refreshed us [] rest = refl
  value-refreshed us ((k, v) ∷ kvs) rest = elim (Bool-cases (k == name)) [
    | inl e ↦
        let same = (text_beq_iff k name).0 e in
        let self = (text_beq_iff name name).1 refl in
        elim (Option-cases (lookup name us)) [
          | inl d ↦ rw (same, refreshed, value_in, self, d, is_excluded)
          | inr (w, d) ↦ rw (same, refreshed, value_in, self, d, is_excluded)
        ]
    | inr e ↦
        let apart : (name == k) ≡ false =
          ground (arith, text_beq_iff name k, text_beq_iff k name) in
        rw (refreshed, value_in, e, is_excluded, apart, value-refreshed us kvs rest)
  ]

  -- However the map of updates is walked through, the string that `mergeSetCookie` returns gives
  -- each name the value of the last header that sets it, where a header with an empty value and an
  -- expiry in the past sets nothing, and the value that it had before where there is no such header.
  pub merge-value :
      (order : List Pair → List Pair) (cookie : Text) (headers : List Text)
      → IsWalk order
      → cookie_value (merge_set_cookie order cookie headers) name
        ≡ newest (last_set headers name) (cookie_value cookie name)
  unfolding cookie_value merge_set_cookie lookup
  merge-value order cookie headers walk =
      go (cookie_updates headers []) (updates-IsClean headers [] tt)
      ∙ ap (λ m. newest m (cookie_value cookie name)) found
    where
      found : lookup name (cookie_updates headers []) ≡ last_set headers name
      found = updates-last name headers [] ∙ either-none (last_set headers name)

      kvs : List Pair
      kvs = split_cookie_pairs cookie

      merged : List Pair → List Pair
      merged us = refreshed us kvs ++ added kvs (order us)

      all_clean : (us : List Pair) → All IsClean us → All IsClean (merged us)
      all_clean us a =
          All-append IsClean (refreshed us kvs) (added kvs (order us))
            (refreshed-IsClean us kvs a (split-IsClean cookie))
            (added-IsClean kvs (order us) (walk.only_entries IsClean us a))

      read :
          (us : List Pair) → value_in (merged us) name ≡ newest (lookup name us) (value_in kvs name)
      read us = elim (Bool-cases (is_excluded name (map (λ kv. kv.0) kvs))) [
        | inl e ↦ rw (value-refreshed us kvs (added kvs (order us)), e)
        | inr e ↦ rw (
          value-refreshed us kvs (added kvs (order us)),
          e,
          value-added kvs (order us) e,
          walk.same_entries us name,
          value-absent kvs e,
        )
      ]

      go :
          (us : List Pair)
          → All IsClean us
          → value_in
              (split_cookie_pairs (elim us [ [] ↦ cookie | v ∷ vs ↦ render (merged (v ∷ vs)) ]))
              name
            ≡ newest (lookup name us) (value_in (split_cookie_pairs cookie) name)
      go [] a = no_update cookie name
      go (v ∷ vs) a = rw (split-render (merged (v ∷ vs)) (all_clean (v ∷ vs) a)) (read (v ∷ vs))
