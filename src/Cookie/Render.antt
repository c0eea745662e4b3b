-- ===== src/Cookie/Render.antt =====
-- Writing pairs down and splitting them again.
use Prim.Native.Nat.{ℕ}
use mathlib.Core.Bool.{false, not, ◌||◌}
use mathlib.Core.List.{List, [], ◌++◌, ◌∷◌}
use mathlib.Core.Logic.{inl, inr}
use mathlib.Core.Option.{some}
use mathlib.Core.Path.{refl, ◌≡◌}
use native.Mathlib.Omega.{arith}
use gemini_web2api_go.Base.Int.{int_eq}
use gemini_web2api_go.Base.Lists.{All}
use gemini_web2api_go.Base.Tests.{Bool-cases, nat_beq_iff, nat_eq, ◌==◌}
use gemini_web2api_go.Base.Text.{
  Text, codes, cut_at, has_byte, is_empty, join, onto_head, split_on, text_eq, trim_end, trim_left,
  trim_space,
}
use gemini_web2api_go.Cookie.{
  Pair, collect, cookie_subset, pair_of, part_of, parts_of, render, semicolon, split_cookie_pairs,
  subset_pairs,
}
use gemini_web2api_go.Cookie.Split.{IsClean, split-IsClean}
use gemini_web2api_go.Proxy.{is_excluded}

split_on-whole : (b : ℕ) (w : Text) → has_byte b w ≡ false → split_on b w ≡ w ∷ []
unfolding split_on has_byte
split_on-whole b [] h = refl
split_on-whole b (c ∷ w) h = elim (Bool-cases (c == b)) [
  | inl e ↦ cc (rw e at h)
  | inr e ↦ rw (e, split_on, split_on-whole b w (rw e at h))
]

split_on-append :
    (b : ℕ) (w s : Text) → has_byte b w ≡ false → split_on b (w ++ b ∷ s) ≡ w ∷ split_on b s
unfolding split_on has_byte
split_on-append b [] s h = ground (arith, nat_beq_iff b b)
split_on-append b (c ∷ w) s h = elim (Bool-cases (c == b)) [
  | inl e ↦ cc (rw e at h)
  | inr e ↦ rw (e, split_on, split_on-append b w s (rw e at h))
]

-- The space behind a `;` is trimmed off.
collect-space : (ws : List Text) → collect (onto_head 32 ws) ≡ collect ws
unfolding collect trim_space trim_left trim_end pair_of cut_at
collect-space [] = refl
collect-space (w ∷ ws) = refl

collect-clean :
    (kv : Pair) (ws : List Text) → IsClean kv → collect (part_of kv ∷ ws) ≡ kv ∷ collect ws
unfolding collect
collect-clean kv ws k =
    let e : pair_of (trim_space (part_of kv)) ≡ some kv = rw k.trimmed k.reads in rw (e, collect)

split_on-space : (s : Text) → split_on semicolon (32 ∷ s) ≡ onto_head 32 (split_on semicolon s)
unfolding split_on
split_on-space s = refl

no_pairs : collect (split_on semicolon []) ≡ []
unfolding split_on collect trim_space trim_left trim_end pair_of cut_at
no_pairs = refl

no_rest : (kv : Pair) → kv ∷ collect [] ≡ kv ∷ []
unfolding collect
no_rest kv = refl

-- Pairs that each are read back from their own text, without `;` and outer space in it, are read
-- back in full and in order from the string that joins them with `; `.
pub split-render : (kvs : List Pair) → All IsClean kvs → split_cookie_pairs (render kvs) ≡ kvs
unfolding split_cookie_pairs render join
split-render [] a = no_pairs
split-render (kv ∷ []) a =
    rw (split_on-whole semicolon (part_of kv) a.0.whole, collect-clean kv [] a.0) (no_rest kv)
split-render (kv ∷ kw ∷ kvs) a =
    let s = join (codes "; ") (parts_of (kw ∷ kvs)) in
    rw (
      split_on-append semicolon (part_of kv) (32 ∷ s) a.0.whole,
      collect-clean kv (split_on semicolon (32 ∷ s)) a.0,
      split_on-space s,
      collect-space (split_on semicolon s),
      split-render (kw ∷ kvs) a.1,
    )

All-subset :
    (P : Pair → Type 0) (names seen : List Text) (kvs : List Pair)
    → All P kvs
    → All P (subset_pairs names seen kvs)
unfolding subset_pairs
All-subset P names seen [] a = tt
All-subset P names seen ((k, v) ∷ kvs) a =
    elim (Bool-cases (not (is_excluded k names) || is_empty v || is_excluded k seen)) [
      | inl e ↦ rw (e, subset_pairs) (All-subset P names seen kvs a.1)
      | inr e ↦ rw (e, subset_pairs) (a.0, All-subset P names (k ∷ seen) kvs a.1)
    ]

-- Reading `cookieSubset` back gives the pairs that its loop kept.
pub split-subset :
    (cookie : Text) (names : List Text)
    → split_cookie_pairs (cookie_subset cookie names)
      ≡ subset_pairs names [] (split_cookie_pairs cookie)
unfolding cookie_subset
split-subset cookie names =
    split-render (subset_pairs names [] (split_cookie_pairs cookie))
      (All-subset IsClean names [] (split_cookie_pairs cookie) (split-IsClean cookie))
