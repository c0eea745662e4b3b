-- ===== src/Base/Dict.antt =====
-- Go maps as association lists. A key occurs once in every list that `put` builds from `[]`.
use mathlib.Core.List.{List, [], ◌∷◌}
use mathlib.Core.Logic.{inl, inr}
use mathlib.Core.Option.{Option, none, some}
use mathlib.Core.Path.{refl, subst, ◌≡◌}
use native.Mathlib.Omega.{arith}
use gemini_web2api_go.Base.Int.{int_eq}
use gemini_web2api_go.Base.Lists.{All}
use gemini_web2api_go.Base.Tests.{Bool-cases, Comparable, if◌then◌else◌, nat_eq, some-eq-some, ◌==◌}
use gemini_web2api_go.Base.Text.{text_eq}

module _ {ℓ} {K : Type 0} {V : Type ℓ} ⦃e : Comparable K⦄ where
  unfoldable pub lookup : K → List (K × V) → Option V
  lookup k [] = none
  lookup k ((j, v) ∷ m) = if j == k then some v else lookup k m

  unfoldable pub put : K → V → List (K × V) → List (K × V)
  put k v [] = (k, v) ∷ []
  put k v ((j, w) ∷ m) = if j == k then (k, v) ∷ m else (j, w) ∷ put k v m

  unfoldable pub remove : K → List (K × V) → List (K × V)
  remove k [] = []
  remove k ((j, v) ∷ m) = if j == k then remove k m else (j, v) ∷ remove k m

  -- A write is read back at its key, and no other key sees it.
  pub lookup-put :
      (k j : K) (v : V) (m : List (K × V))
      → lookup j (put k v m) ≡ (if k == j then some v else lookup j m)
  unfolding lookup put
  lookup-put k j v [] = refl
  lookup-put k j v ((i, w) ∷ m) =
      ground (arith, e.equal_iff k j, e.equal_iff i k, e.equal_iff i j, lookup-put k j v m)

  pub lookup-remove :
      (k j : K) (m : List (K × V)) → lookup j (remove k m) ≡ (if k == j then none else lookup j m)
  unfolding lookup remove
  lookup-remove k j [] = ground arith
  lookup-remove k j ((i, w) ∷ m) =
      ground (arith, e.equal_iff k j, e.equal_iff i k, e.equal_iff i j, lookup-remove k j m)

  -- What holds of every entry holds of an entry that is found.
  pub lookup-All :
      (P : K → V → Type 0) (k : K) (v : V) (m : List (K × V))
      → All (λ kv. P kv.0 kv.1) m
      → lookup k m ≡ some v
      → P k v
  unfolding lookup
  lookup-All P k v [] a h = cc
  lookup-All P k v ((j, w) ∷ m) a h = elim (Bool-cases (j == k)) [
    | inl hit ↦
        let same : w ≡ v = some-eq-some w v (rw hit at h) in
        subst (λ i. P i v) ((e.equal_iff j k).0 hit) (subst (P j) same a.0)
    | inr miss ↦ lookup-All P k v m a.1 (rw miss at h)
  ]

  pub put-All :
      (P : K → V → Type 0) (k : K) (v : V) (m : List (K × V))
      → All (λ kv. P kv.0 kv.1) m
      → P k v
      → All (λ kv. P kv.0 kv.1) (put k v m)
  unfolding put
  put-All P k v [] a h = (h, tt)
  put-All P k v ((j, w) ∷ m) a h = elim (Bool-cases (j == k)) [
    | inl hit ↦ rw hit (h, a.1)
    | inr miss ↦ rw miss (a.0, put-All P k v m a.1 h)
  ]
