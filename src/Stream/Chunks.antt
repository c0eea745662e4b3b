-- ===== src/Stream/Chunks.antt =====
-- The gate does not depend on where the stream is cut into increments.
use Prim.Native.Nat.{suc, zero, ℕ, ◌<◌, ◌≤◌}
use mathlib.Core.Bool.{Bool, false, true}
use mathlib.Core.List.{[], ◌++◌, ◌∷◌}
use mathlib.Core.Logic.{inl, inr}
use mathlib.Core.Option.{Option, none, some}
use mathlib.Core.Path.{ap, refl, ◌≡◌}
use native.Mathlib.Omega.{arith}
use gemini_web2api_go.Base.Int.{int_eq}
use gemini_web2api_go.Base.Lists.{length}
use gemini_web2api_go.Base.Tests.{Bool-cases, Option-cases, nat_eq}
use gemini_web2api_go.Base.Text.{Text, has_prefix, text_eq}
use gemini_web2api_go.Stream.Fence.{Passed, cut_text, fence_close, fence_open, run_gate}
use gemini_web2api_go.Stream.Hold.{cut_text-length, hold, prefix-comparable, prefix-shorter}
use gemini_web2api_go.Stream.Partial.{partial-hold}

-- What is held back decides alone how the text goes on: the marker is found, or an end is held
-- back, where it would be in the whole text.
abbrev pub before_cut : Text → Option (Text × Text) → Option (Text × Text)
before_cut v none = none
before_cut v (some (p, q)) = some (v ++ p, q)

pub cut_text-held :
    (m s t : Text)
    → cut_text m s ≡ none
    → cut_text m (s ++ t) ≡ before_cut (hold m s).0 (cut_text m ((hold m s).1 ++ t))
unfolding cut_text
cut_text-held m [] t h = elim (Option-cases (cut_text m t)) [ inl e ↦ rw e | inr (r, e) ↦ rw e ]
cut_text-held m (c ∷ s) t h = elim (Bool-cases (has_prefix (c ∷ s) m)) [
  | inl e ↦ cc (rw (e, cut_text) at h)
  | inr e ↦ elim (Bool-cases (has_prefix m (c ∷ s))) [
    | inl f ↦
        rw f (elim (Option-cases (cut_text m (c ∷ (s ++ t)))) [ inl k ↦ rw k | inr (r, k) ↦ rw k ])
    | inr f ↦
        let later : cut_text m s ≡ none = elim (Option-cases (cut_text m s)) [
          | inl k ↦ k
          | inr (r, k) ↦ cc (rw (e, k, cut_text) at h)
        ] in
        let fresh : has_prefix (c ∷ (s ++ t)) m ≡ false = not_yet c s t m e f in
        let ih = cut_text-held m s t later in
        rw (cut_text, fresh, f, ih) (shift c (hold m s).0 (cut_text m ((hold m s).1 ++ t)))
  ]
]
  where
    shift :
        (c : ℕ) (v : Text) (o : Option (Text × Text))
        → (let r : Option (Text × Text) = elim (before_cut v o) [
          | none ↦ none
          | some (p, q) ↦ some (c ∷ p, q)
        ] in
            r ≡ before_cut (c ∷ v) o)
    shift c v none = refl
    shift c v (some r) = refl

    not_yet :
        (c : ℕ) (s t m : Text)
        → has_prefix (c ∷ s) m ≡ false
        → has_prefix m (c ∷ s) ≡ false
        → has_prefix (c ∷ (s ++ t)) m ≡ false
    not_yet c s t m e f = elim (Bool-cases (has_prefix (c ∷ (s ++ t)) m)) [
      | inr g ↦ g
      | inl g ↦ elim (prefix-comparable (c ∷ s) t m g) [ inl k ↦ cc | inr k ↦ cc ]
    ]

pub hold-held :
    (m s t : Text)
    → hold m (s ++ t) ≡ (
        let rest = hold m ((hold m s).1 ++ t) in
        let r : Text × Text = ((hold m s).0 ++ rest.0, rest.1) in r)
hold-held m [] t = refl
hold-held m (c ∷ s) t = elim (Bool-cases (has_prefix m (c ∷ s))) [
  | inl f ↦ rw f
  | inr f ↦
      let fresh : has_prefix m (c ∷ (s ++ t)) ≡ false =
        elim (Bool-cases (has_prefix m (c ∷ (s ++ t)))) [
          | inr g ↦ g
          | inl g ↦ cc (prefix-shorter (c ∷ s) t m g)
        ] in
      rw (fresh, f, hold-held m s t)
]

hold-length : (m s : Text) → length (hold m s).1 ≤ length s
hold-length m [] = omega arith
hold-length m (c ∷ s) = elim (Bool-cases (has_prefix m (c ∷ s))) [
  | inl f ↦ rw f (omega arith)
  | inr f ↦ rw f (omega (arith, hold-length m s))
]

-- One round of the loop outside a fence, where no fence opens.
pub held_round :
    (fuel : ℕ) (s : Text)
    → cut_text fence_open s ≡ none
    → run_gate (suc fuel) false s ≡ ((hold fence_open s).0, (hold fence_open s).1, false)
unfolding run_gate
held_round fuel s h =
    rw (run_gate, h)
      (ap (λ (r : Text × Text). let x : Passed = (r.0, r.1, false) in x)
        (partial-hold s fence_open h))

-- Enough fuel is more than the bytes that wait: more of it changes nothing.
pub run_gate-enough :
    (fuel more : ℕ) (fenced : Bool) (s : Text)
    → length s < fuel
    → length s < more
    → run_gate fuel fenced s ≡ run_gate more fenced s
unfolding run_gate
run_gate-enough zero more fenced s h k = elim h [ ]
run_gate-enough (suc fuel) zero fenced s h k = elim k [ ]
run_gate-enough (suc fuel) (suc more) true s h k = elim (Option-cases (cut_text fence_close s)) [
  | inl e ↦ rw (e, run_gate)
  | inr ((p, q), e) ↦
      let shorter = cut_text-length fence_close s p q e in
      rw (
        run_gate,
        e,
        run_gate-enough fuel more false q (omega (arith, shorter)) (omega (arith, shorter)),
      )
]
run_gate-enough (suc fuel) (suc more) false s h k = elim (Option-cases (cut_text fence_open s)) [
  | inl e ↦ rw (e, run_gate)
  | inr ((p, q), e) ↦
      let shorter = cut_text-length fence_open s p q e in
      rw (
        run_gate,
        e,
        run_gate-enough fuel more true q (omega (arith, shorter)) (omega (arith, shorter)),
      )
]

pub run_gate-length :
    (fuel : ℕ) (fenced : Bool) (s : Text) → length (run_gate fuel fenced s).1 ≤ length s
unfolding run_gate
run_gate-length zero fenced s = omega arith
run_gate-length (suc fuel) true s = elim (Option-cases (cut_text fence_close s)) [
  | inl e ↦ rw (e, run_gate) (omega arith)
  | inr ((p, q), e) ↦
      rw (e, run_gate)
        (omega (arith, cut_text-length fence_close s p q e, run_gate-length fuel false q))
]
run_gate-length (suc fuel) false s = elim (Option-cases (cut_text fence_open s)) [
  | inl e ↦ rw (held_round fuel s e) (hold-length fence_open s)
  | inr ((p, q), e) ↦
      rw (e, run_gate)
        (omega (arith, cut_text-length fence_open s p q e, run_gate-length fuel true q))
]
