-- ===== src/Stream/Resume.antt =====
-- The gate over a sequence of increments.
use Prim.Native.Nat.{suc, zero, ℕ, ◌+◌, ◌<◌}
use mathlib.Core.Bool.{Bool, false, true}
use mathlib.Core.List.{[], append_assoc, ◌++◌, ◌∷◌}
use mathlib.Core.Logic.{inl, inr}
use mathlib.Core.Option.{none, some}
use mathlib.Core.Path.{ap, refl, sym, ◌∙◌, ◌≡◌}
use native.Mathlib.Omega.{arith}
use gemini_web2api_go.Base.Int.{int_eq}
use gemini_web2api_go.Base.Lists.{length, length-append}
use gemini_web2api_go.Base.Tests.{Bool-cases, Option-cases, nat_eq}
use gemini_web2api_go.Base.Text.{Text, has_prefix, text_eq}
use gemini_web2api_go.Stream.Chunks.{
  before_cut, cut_text-held, held_round, hold-held, run_gate-enough, run_gate-length,
}
use gemini_web2api_go.Stream.Fence.{
  Passed, ToolFenceGate, after_text, cut_text, fence_close, fence_open, push_gate, run_gate,
}
use gemini_web2api_go.Stream.Hold.{cut_text-append, cut_text-length, hold}

-- How the loop goes on when `t` follows what it left.
resume : ℕ → Text → Passed → Passed
resume fuel t r = after_text r.0 (run_gate fuel r.2 (r.1 ++ t))

after_text-nil : (r : Passed) → after_text [] r ≡ r
after_text-nil (sent, rest, fenced) = refl

after_text-append :
    (v p : Text) (r : Passed) → after_text (v ++ p) r ≡ after_text v (after_text p r)
after_text-append v p (sent, rest, fenced) = rw (append_assoc v p sent)

resume-enough :
    (fuel more : ℕ) (t : Text) (r : Passed)
    → length (r.1 ++ t) < fuel
    → length (r.1 ++ t) < more
    → resume fuel t r ≡ resume more t r
unfolding resume
resume-enough fuel more t r h k = ap (after_text r.0) (run_gate-enough fuel more r.2 (r.1 ++ t) h k)

resume-after :
    (fuel : ℕ) (t p : Text) (r : Passed)
    → resume fuel t (after_text p r) ≡ after_text p (resume fuel t r)
unfolding resume
resume-after fuel t p (sent, rest, fenced) =
    after_text-append p sent (run_gate fuel fenced (rest ++ t))

-- What follows an open text, of which `v` was sent and `h` held back.
held_resume :
    (fuel : ℕ) (s t : Text)
    → cut_text fence_open s ≡ none
    → run_gate (suc fuel) false (s ++ t)
      ≡ after_text (hold fence_open s).0 (run_gate (suc fuel) false ((hold fence_open s).1 ++ t))
unfolding run_gate
held_resume fuel s t h =
    let v = (hold fence_open s).0 in
    let rest = (hold fence_open s).1 ++ t in
    let moved = cut_text-held fence_open s t h in
    elim (Option-cases (cut_text fence_open rest)) [
      | inl e ↦
          let whole : cut_text fence_open (s ++ t) ≡ none = moved ∙ ap (before_cut v) e in
          rw (held_round fuel (s ++ t) whole, held_round fuel rest e)
            (ap (λ (r : Text × Text). let x : Passed = (r.0, r.1, false) in x)
              (hold-held fence_open s t))
      | inr ((p, q), e) ↦
          let whole : cut_text fence_open (s ++ t) ≡ some (v ++ p, q) =
            moved ∙ ap (before_cut v) e in
          rw (run_gate, whole, e) (after_text-append v p (run_gate fuel true q))
    ]

fenced_round :
    (fuel : ℕ) (s : Text)
    → cut_text fence_close s ≡ none
    → run_gate (suc fuel) true s ≡ ([], s, true)
unfolding run_gate
fenced_round fuel s h = rw (h, run_gate)

-- The two ways in which a round ends: in a fence that stays open, and outside any.
fenced_end :
    (few fuel : ℕ) (s t : Text)
    → cut_text fence_close s ≡ none
    → run_gate (suc fuel) true (s ++ t) ≡ resume (suc fuel) t (run_gate (suc few) true s)
unfolding resume
fenced_end few fuel s t h =
    rw (fenced_round few s h) (sym (after_text-nil (run_gate (suc fuel) true (s ++ t))))

open_end :
    (few fuel : ℕ) (s t : Text)
    → cut_text fence_open s ≡ none
    → run_gate (suc fuel) false (s ++ t) ≡ resume (suc fuel) t (run_gate (suc few) false s)
unfolding resume
open_end few fuel s t h = rw (held_round few s h) (held_resume fuel s t h)

-- The loop over a text and what follows it does what the loop over the text does, and then goes on
-- from what that left.
chunked :
    (few fuel : ℕ) (fenced : Bool) (s t : Text)
    → length s < few
    → length (s ++ t) < fuel
    → run_gate fuel fenced (s ++ t) ≡ resume fuel t (run_gate few fenced s)
unfolding run_gate
chunked zero fuel fenced s t h k = elim h [ ]
chunked (suc few) zero fenced s t h k = elim k [ ]
chunked (suc few) (suc fuel) true s t h k = elim (Option-cases (cut_text fence_close s)) [
  | inl e ↦ fenced_end few fuel s t e
  | inr ((p, q), e) ↦
      let whole = cut_text-append fence_close s t p q e in
      let shorter = cut_text-length fence_close s p q e in
      let left = run_gate-length few false q in
      let size = length-append s t in
      let size_q = length-append q t in
      let r = run_gate few false q in
      let size_r = length-append r.1 t in
      rw (run_gate, whole, e)
        (chunked few fuel false q t (omega (arith, shorter)) (omega (arith, shorter, size, size_q))
          ∙ resume-enough fuel (suc fuel) t r (omega (arith, shorter, left, size, size_r))
              (omega (arith, shorter, left, size, size_r)))
]
chunked (suc few) (suc fuel) false s t h k = elim (Option-cases (cut_text fence_open s)) [
  | inl e ↦ open_end few fuel s t e
  | inr ((p, q), e) ↦
      let whole = cut_text-append fence_open s t p q e in
      let shorter = cut_text-length fence_open s p q e in
      let left = run_gate-length few true q in
      let size = length-append s t in
      let size_q = length-append q t in
      let r = run_gate few true q in
      let size_r = length-append r.1 t in
      rw (run_gate, whole, e)
        (ap (after_text p) (
            chunked few fuel true q t (omega (arith, shorter))
              (omega (arith, shorter, size, size_q))
            ∙ resume-enough fuel (suc fuel) t r (omega (arith, shorter, left, size, size_r))
                (omega (arith, shorter, left, size, size_r)))
          ∙ sym (resume-after (suc fuel) t p r))
]

abbrev gate_of : ToolFenceGate → Passed → ToolFenceGate
gate_of g r = record { buf = r.1; sent = g.sent ++ r.0; in_fence = r.2 }

gate_of-after :
    (g : ToolFenceGate) (a : Text) (r : Passed)
    → (let twice : ToolFenceGate = record {
      buf = r.1;
      sent = (g.sent ++ a) ++ r.0;
      in_fence = r.2;
    } in
        twice ≡ gate_of g (after_text a r))
gate_of-after g a r = rw (append_assoc g.sent a r.0)

-- One run over both texts is a run over the first and then one over what is left with the second.
run_twice :
    (fenced : Bool) (s t : Text)
    → let r = run_gate (length s + 1) fenced s in
      run_gate (length (s ++ t) + 1) fenced (s ++ t)
      ≡ after_text r.0 (run_gate (length (r.1 ++ t) + 1) r.2 (r.1 ++ t))
unfolding resume
run_twice fenced s t =
    let r = run_gate (length s + 1) fenced s in
    let left = run_gate-length (length s + 1) fenced s in
    let size = length-append s t in
    let size_r = length-append r.1 t in
    chunked (length s + 1) (length (s ++ t) + 1) fenced s t (omega arith) (omega arith)
    ∙ resume-enough (length (s ++ t) + 1) (length (r.1 ++ t) + 1) t r
        (omega (arith, left, size, size_r)) (omega arith)

-- However a stream is cut into increments, the gate sends the same text, holds the same end back
-- and is in a fence or not all the same: pushing two increments is pushing both at once.
pub push_gate-append :
    (g : ToolFenceGate) (s t : Text) → push_gate (push_gate g s) t ≡ push_gate g (s ++ t)
unfolding push_gate
push_gate-append g s t =
    let r = run_gate (length (g.buf ++ s) + 1) g.in_fence (g.buf ++ s) in
    let next = run_gate (length (r.1 ++ t) + 1) r.2 (r.1 ++ t) in
    let both =
      sym (run_twice g.in_fence (g.buf ++ s) t)
      ∙ ap (λ (u : Text). run_gate (length u + 1) g.in_fence u) (append_assoc g.buf s t) in
    gate_of-after g r.0 next ∙ ap (gate_of g) both

hold-joins : (m s : Text) → (hold m s).0 ++ (hold m s).1 ≡ s
hold-joins m [] = refl
hold-joins m (c ∷ s) = elim (Bool-cases (has_prefix m (c ∷ s))) [
  | inl e ↦ rw e
  | inr e ↦ rw (e, hold-joins m s)
]

succ_fuel :
    (s : Text)
    → cut_text fence_open s ≡ none
    → run_gate (length s + 1) false s ≡ ((hold fence_open s).0, (hold fence_open s).1, false)
succ_fuel s h =
    let more : length s + 1 ≡ suc (length s) = omega arith in rw (more, held_round (length s) s h)

-- Nothing is lost without a tool call: outside a fence, and as long as the text that waited and the
-- increment open none, what was sent and what waits are all that came in.
pub push_gate-plain :
    (g : ToolFenceGate) (s : Text)
    → g.in_fence ≡ false
    → cut_text fence_open (g.buf ++ s) ≡ none
    → (push_gate g s).sent ++ (push_gate g s).buf ≡ g.sent ++ (g.buf ++ s)
unfolding push_gate
push_gate-plain g s f h = rw (
  f,
  succ_fuel (g.buf ++ s) h,
  append_assoc g.sent (hold fence_open (g.buf ++ s)).0 (hold fence_open (g.buf ++ s)).1,
  hold-joins fence_open (g.buf ++ s),
)
