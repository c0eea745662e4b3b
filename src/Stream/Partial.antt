-- ===== src/Stream/Partial.antt =====
-- `partialPrefixLen` finds the end of a text that has to be held back.
use Prim.Native.Nat.{suc, zero, ℕ, ◌-◌, ◌≤◌}
use mathlib.Core.Bool.{false, true}
use mathlib.Core.List.{[], ◌∷◌}
use mathlib.Core.Logic.{inl, inr}
use mathlib.Core.Option.{none}
use mathlib.Core.Path.{ap, refl, ◌≡◌}
use native.Mathlib.Decide.{dec_le}
use native.Mathlib.Omega.{arith}
use gemini_web2api_go.Base.Int.{int_eq}
use gemini_web2api_go.Base.Lists.{drop, length, take}
use gemini_web2api_go.Base.Tests.{Bool-cases, Option-cases, if◌then◌else◌, ltb, nat_eq, ◌==◌}
use gemini_web2api_go.Base.Text.{Text, has_prefix, text_eq}
use gemini_web2api_go.Stream.Fence.{cut_text, partial_from, partial_prefix_len}
use gemini_web2api_go.Stream.Hold.{hold}

prefix-whole : (s m : Text) → has_prefix m s ≡ true → length m ≤ length s → has_prefix s m ≡ true
unfolding has_prefix
prefix-whole s [] h k = refl
prefix-whole [] (d ∷ m) h k = elim k [ ]
prefix-whole (c ∷ s) (d ∷ m) h k = elim (Bool-cases (d == c)) [
  | inl e ↦
      let back : (c == d) ≡ true = ground arith in
      rw (back, prefix-whole s m (rw e at h) (omega arith))
  | inr e ↦ cc (rw e at h)
]

partial_from-cons :
    (k c : ℕ) (s m : Text) → k ≤ length s → partial_from k (c ∷ s) m ≡ partial_from k s m
unfolding partial_from
partial_from-cons zero c s m h = refl
partial_from-cons (suc k) c s m h =
    let less : length (c ∷ s) - suc k ≡ suc (length s - suc k) = omega arith in
    rw (partial_from, less, partial_from-cons k c s m (omega arith))

partial_from-le : (k : ℕ) (s m : Text) → partial_from k s m ≤ k
unfolding partial_from
partial_from-le zero s m = omega arith
partial_from-le (suc k) s m = ground (arith, partial_from-le k s m)

abbrev bound : Text → Text → ℕ
bound s m = if ltb (length s) (length m - 1) then length s else length m - 1

bound-le : (s m : Text) → bound s m ≤ length s
bound-le s m = ground arith

-- A text that may still become the marker is held back whole.
partial-whole :
    (c : ℕ) (s m : Text)
    → has_prefix m (c ∷ s) ≡ true
    → has_prefix (c ∷ s) m ≡ false
    → partial_prefix_len (c ∷ s) m ≡ length (c ∷ s)
unfolding partial_prefix_len partial_from
partial-whole c s m h ne = elim (dec_le (length m) (length (c ∷ s))) [
  | yes le ↦ cc (prefix-whole (c ∷ s) m h le)
  | no more ↦
      let top : bound (c ∷ s) m ≡ suc (length s) = ground arith in
      let none_left : length (c ∷ s) - suc (length s) ≡ 0 = omega arith in
      rw (partial_prefix_len, top, partial_from, none_left, h)
]

-- Otherwise its first byte is let through.
partial-rest :
    (c : ℕ) (s m : Text)
    → has_prefix m (c ∷ s) ≡ false
    → partial_prefix_len (c ∷ s) m ≡ partial_prefix_len s m
unfolding partial_prefix_len partial_from
partial-rest c s m h = elim (Bool-cases (ltb (length s) (length m - 1))) [
  | inr e ↦
      let top : bound (c ∷ s) m ≡ length m - 1 = ground arith in
      rw (partial_prefix_len, top, e, partial_from-cons (length m - 1) c s m (ground arith))
  | inl e ↦
      let top : bound (c ∷ s) m ≡ suc (length s) = ground arith in
      let none_left : length (c ∷ s) - suc (length s) ≡ 0 = omega arith in
      rw (
        partial_prefix_len,
        top,
        e,
        partial_from,
        none_left,
        h,
        partial_from-cons (length s) c s m (omega arith),
      )
]

partial-le : (s m : Text) → partial_prefix_len s m ≤ length s
unfolding partial_prefix_len
partial-le s m = omega (arith, partial_from-le (bound s m) s m, bound-le s m)

nothing_held :
    (m : Text)
    → let n = 0 - partial_prefix_len [] m in
      let halves : Text × Text = (take n [], drop n []) in halves ≡ ([], [])
nothing_held m = let zero_left : 0 - partial_prefix_len [] m ≡ 0 = omega arith in rw zero_left

pub partial-hold :
    (s m : Text)
    → cut_text m s ≡ none
    → let n = length s - partial_prefix_len s m in
      let halves : Text × Text = (take n s, drop n s) in halves ≡ hold m s
unfolding cut_text
partial-hold [] m h = nothing_held m
partial-hold (c ∷ s) m h = elim (Bool-cases (has_prefix (c ∷ s) m)) [
  | inl e ↦ cc (rw (e, cut_text) at h)
  | inr e ↦
      let later : cut_text m s ≡ none = elim (Option-cases (cut_text m s)) [
        | inl k ↦ k
        | inr ((p, q), k) ↦ cc (rw (e, k, cut_text) at h)
      ] in
      elim (Bool-cases (has_prefix m (c ∷ s))) [
        | inl f ↦
            let none_left : length (c ∷ s) - length (c ∷ s) ≡ 0 = omega arith in
            rw (partial-whole c s m f e, none_left, f)
        | inr f ↦
            let some_left : length (c ∷ s) - partial_prefix_len s m
                ≡ suc (length s - partial_prefix_len s m) =
              omega (arith, partial-le s m) in
            let ih = partial-hold s m later in
            rw (partial-rest c s m f, some_left, f)
              (ap (λ (r : Text × Text). let t : Text × Text = (c ∷ r.0, r.1) in t) ih)
      ]
]
