-- ===== src/Stream/Hold.antt =====
-- Where an unfinished text is held back: at its first end that may still become the marker.
use Prim.Native.Nat.{suc, zero, ℕ, ◌+◌, ◌-◌, ◌≤◌}
use mathlib.Core.Bool.{false, true}
use mathlib.Core.List.{[], ◌++◌, ◌∷◌}
use mathlib.Core.Logic.{inl, inr, ◌⊎◌}
use mathlib.Core.Option.{some}
use mathlib.Core.Path.{ap, refl, ◌≡◌}
use native.Mathlib.Omega.{arith}
use gemini_web2api_go.Base.Int.{int_eq}
use gemini_web2api_go.Base.Lists.{drop, length}
use gemini_web2api_go.Base.Tests.{
  Bool-cases, Option-cases, if◌then◌else◌, nat_eq, some-eq-some, ◌==◌,
}
use gemini_web2api_go.Base.Text.{Text, has_prefix, text_eq}
use gemini_web2api_go.Stream.Fence.{cut_text}

length-drop : (n : ℕ) (s : Text) → length (drop n s) ≡ length s - n
length-drop zero s = omega arith
length-drop (suc n) [] = omega arith
length-drop (suc n) (c ∷ s) = omega (arith, length-drop n s)

absurd_length : (a b d : ℕ) → suc a ≤ b → b + d ≤ a → ⊥
absurd_length a b d h k = omega (arith, h, k)

-- The text before the first end that begins the marker `m`, and that end.
abbrev pub hold : Text → Text → Text × Text
hold m [] = ([], [])
hold m (c ∷ s) =
    let rest = hold m s in if has_prefix m (c ∷ s) then ([], c ∷ s) else (c ∷ rest.0, rest.1)

-- Of two texts that begin a third, one begins the other.
pub prefix-comparable :
    (s t m : Text)
    → has_prefix (s ++ t) m ≡ true
    → (has_prefix s m ≡ true) ⊎ (has_prefix m s ≡ true)
unfolding has_prefix
prefix-comparable [] t m h = inr refl
prefix-comparable (c ∷ s) t [] h = inl refl
prefix-comparable (c ∷ s) t (d ∷ m) h = elim (Bool-cases (c == d)) [
  | inl e ↦
      let back : (d == c) ≡ true = ground arith in
      elim (prefix-comparable s t m (rw e at h)) [
        | inl k ↦ inl (rw (e, k))
        | inr k ↦ inr (rw (back, k))
      ]
  | inr e ↦ cc (rw e at h)
]

pub prefix-shorter : (s t m : Text) → has_prefix m (s ++ t) ≡ true → has_prefix m s ≡ true
unfolding has_prefix
prefix-shorter [] t m h = refl
prefix-shorter (c ∷ s) t [] h = cc
prefix-shorter (c ∷ s) t (d ∷ m) h = elim (Bool-cases (d == c)) [
  | inl e ↦ rw (e, prefix-shorter s t m (rw e at h))
  | inr e ↦ cc (rw e at h)
]

pub prefix-append : (s t m : Text) → has_prefix s m ≡ true → has_prefix (s ++ t) m ≡ true
unfolding has_prefix
prefix-append s t [] h = refl
prefix-append [] t (d ∷ m) h = cc
prefix-append (c ∷ s) t (d ∷ m) h = elim (Bool-cases (c == d)) [
  | inl e ↦ rw (e, prefix-append s t m (rw e at h))
  | inr e ↦ cc (rw e at h)
]

drop-append :
    (s t m : Text) → has_prefix s m ≡ true → drop (length m) (s ++ t) ≡ drop (length m) s ++ t
unfolding has_prefix
drop-append s t [] h = refl
drop-append [] t (d ∷ m) h = cc
drop-append (c ∷ s) t (d ∷ m) h = elim (Bool-cases (c == d)) [
  | inl e ↦ drop-append s t m (rw e at h)
  | inr e ↦ cc (rw e at h)
]

prefix-length : (s m : Text) → has_prefix s m ≡ true → length m ≤ length s
unfolding has_prefix
prefix-length s [] h = omega arith
prefix-length [] (d ∷ m) h = cc
prefix-length (c ∷ s) (d ∷ m) h = elim (Bool-cases (c == d)) [
  | inl e ↦ omega (arith, prefix-length s m (rw e at h))
  | inr e ↦ cc (rw e at h)
]

pub cut_text-length : (m s p q : Text) → cut_text m s ≡ some (p, q) → length m + length q ≤ length s
unfolding cut_text
cut_text-length m [] p q h = cc
cut_text-length m (c ∷ s) p q h = elim (Bool-cases (has_prefix (c ∷ s) m)) [
  | inl e ↦
      let same = some-eq-some ([], drop (length m) (c ∷ s)) (p, q) (rw (e, cut_text) at h) in
      rw (← ap (λ (r : Text × Text). r.1) same)
        (omega (arith, length-drop (length m) (c ∷ s), prefix-length (c ∷ s) m e))
  | inr e ↦ elim (Option-cases (cut_text m s)) [
    | inl k ↦ cc (rw (e, k, cut_text) at h)
    | inr ((p', q'), k) ↦
        let same = some-eq-some (c ∷ p', q') (p, q) (rw (e, k, cut_text) at h) in
        let ih = cut_text-length m s p' q' k in
        rw (← ap (λ (r : Text × Text). r.1) same) (omega (arith, ih))
  ]
]

-- No marker begins where the end of a text is too short for it.
not_begun :
    (c : ℕ) (s t m p q : Text)
    → has_prefix (c ∷ s) m ≡ false
    → cut_text m s ≡ some (p, q)
    → has_prefix (c ∷ (s ++ t)) m ≡ false
not_begun c s t m p q e k = elim (Bool-cases (has_prefix (c ∷ (s ++ t)) m)) [
  | inr f ↦ f
  | inl f ↦ elim (prefix-comparable (c ∷ s) t m f) [
    | inl g ↦ cc
    | inr g ↦
        let fits = prefix-length m (c ∷ s) g in
        let room = cut_text-length m s p q k in
        elim (absurd_length (length s) (length m) (length q) fits room) [ ]
  ]
]

-- An occurrence stays the first one when more text follows.
pub cut_text-append :
    (m s t p q : Text) → cut_text m s ≡ some (p, q) → cut_text m (s ++ t) ≡ some (p, q ++ t)
unfolding cut_text
cut_text-append m [] t p q h = cc
cut_text-append m (c ∷ s) t p q h = elim (Bool-cases (has_prefix (c ∷ s) m)) [
  | inl e ↦
      let longer = prefix-append (c ∷ s) t m e in
      let dropped = drop-append (c ∷ s) t m e in
      let same = some-eq-some ([], drop (length m) (c ∷ s)) (p, q) (rw (e, cut_text) at h) in
      rw (cut_text, longer, dropped) (ap (λ (r : Text × Text). some (r.0, r.1 ++ t)) same)
  | inr e ↦ elim (Option-cases (cut_text m s)) [
    | inl k ↦ cc (rw (e, k, cut_text) at h)
    | inr ((p', q'), k) ↦
        let same = some-eq-some (c ∷ p', q') (p, q) (rw (e, k, cut_text) at h) in
        rw (cut_text, not_begun c s t m p' q' e k, cut_text-append m s t p' q' k)
          (ap (λ (r : Text × Text). some (r.0, r.1 ++ t)) same)
  ]
]
