-- ===== src/Stream/Delta.antt =====
-- internal/app/gemini.go: `deltaTracker`, which turns frames that carry the whole text so far into
-- increments. `clean` is `cleanGeminiText`.
use Prim.Native.Nat.{◌≤◌}
use mathlib.Core.Bool.{not, true, ◌||◌}
use mathlib.Core.List.{List, [], append-nil, append_assoc, ◌++◌, ◌∷◌}
use mathlib.Core.Logic.{inl, inr}
use mathlib.Core.Path.{refl, sym, ◌∙◌, ◌≡◌}
use native.Mathlib.Omega.{arith}
use gemini_web2api_go.Base.Int.{int_eq}
use gemini_web2api_go.Base.Lists.{drop, length}
use gemini_web2api_go.Base.Tests.{Bool-cases, if◌then◌else◌, leb, nat_beq_iff, nat_eq, ◌==◌}
use gemini_web2api_go.Base.Text.{Text, has_prefix, text_eq}

-- `Push`: the text that was sent so far, and the increment.
unfoldable pub push_frame : (Text → Text) → Text → Text → Text × Text
push_frame clean emitted full =
    let cleaned = clean full in
    if leb (length cleaned) (length emitted) || not (has_prefix cleaned emitted)
    then (emitted, [])
    else (cleaned, drop (length emitted) cleaned)

-- What the client has received after a sequence of frames, and the state of the tracker.
unfoldable pub push_frames : (Text → Text) → Text → List Text → Text × Text
push_frames clean emitted [] = (emitted, [])
push_frames clean emitted (f ∷ fs) =
    let (next, delta) = push_frame clean emitted f in
    let (last, rest) = push_frames clean next fs in (last, delta ++ rest)

abbrev pub last_of : Text → List Text → Text
last_of t [] = t
last_of t (f ∷ fs) = last_of f fs

-- Each frame goes on from the one before it, from `t`.
abbrev pub Continues : (Text → Text) → Text → List Text → Type 0
Continues clean t [] = Unit {0}
Continues clean t (f ∷ fs) = (has_prefix (clean f) t ≡ true) × Continues clean (clean f) fs

drop-prefix : (s t : Text) → has_prefix s t ≡ true → t ++ drop (length t) s ≡ s
unfolding has_prefix
drop-prefix s [] h = refl
drop-prefix [] (c ∷ t) h = cc
drop-prefix (d ∷ s) (c ∷ t) h = elim (Bool-cases (d == c)) [
  | inl e ↦ let same = (nat_beq_iff d c).0 e in rw (same, drop-prefix s t (rw e at h))
  | inr e ↦ cc (rw e at h)
]

prefix-same : (s t : Text) → has_prefix s t ≡ true → length s ≤ length t → s ≡ t
unfolding has_prefix
prefix-same [] [] h k = refl
prefix-same (d ∷ s) [] h k = elim k [ ]
prefix-same [] (c ∷ t) h k = cc
prefix-same (d ∷ s) (c ∷ t) h k = elim (Bool-cases (d == c)) [
  | inl e ↦ let same = (nat_beq_iff d c).0 e in rw (same, prefix-same s t (rw e at h) (omega arith))
  | inr e ↦ cc (rw e at h)
]

pub push_frame-appends :
    (clean : Text → Text) (emitted full : Text)
    → let (next, delta) = push_frame clean emitted full in emitted ++ delta ≡ next
unfolding push_frame
push_frame-appends clean emitted full =
    elim (Bool-cases
      (leb (length (clean full)) (length emitted) || not (has_prefix (clean full) emitted))) [
        | inl e ↦ rw (e, push_frame, append-nil emitted)
        | inr e ↦
            let starts : has_prefix (clean full) emitted ≡ true = ground arith in
            rw (e, push_frame, drop-prefix (clean full) emitted starts)
      ]

-- Whatever the frames, the increments that the client received, put behind what it had, are the
-- text that the tracker holds as sent; nothing is sent twice or lost.
pub push_frames-appends :
    (clean : Text → Text) (emitted : Text) (frames : List Text)
    → let (last, sent) = push_frames clean emitted frames in emitted ++ sent ≡ last
unfolding push_frames
push_frames-appends clean emitted [] = append-nil emitted
push_frames-appends clean emitted (f ∷ fs) =
    let (next, delta) = push_frame clean emitted f in
    let sent = (push_frames clean next fs).1 in
    rw (
      ← append_assoc emitted delta sent,
      push_frame-appends clean emitted f,
      push_frames-appends clean next fs,
    )

push_frame-keeps-up :
    (clean : Text → Text) (emitted full : Text)
    → has_prefix (clean full) emitted ≡ true
    → (push_frame clean emitted full).0 ≡ clean full
unfolding push_frame
push_frame-keeps-up clean emitted full h =
    elim (Bool-cases (leb (length (clean full)) (length emitted))) [
      | inl e ↦ rw (h, e, push_frame) (sym (prefix-same (clean full) emitted h (ground arith)))
      | inr e ↦ rw (h, e, push_frame)
    ]

reaches :
    (clean : Text → Text) (t f : Text) (frames : List Text)
    → Continues clean t (f ∷ frames)
    → (push_frames clean t (f ∷ frames)).0 ≡ clean (last_of f frames)
unfolding push_frames
reaches clean t f [] h = push_frame-keeps-up clean t f h.0
reaches clean t f (g ∷ frames) h =
    rw (push_frame-keeps-up clean t f h.0) (reaches clean (clean f) g frames h.1)

-- If every frame, cleaned, goes on from the one before it, the client ends up with exactly the last
-- frame, cleaned.
pub push_frames_complete :
    (clean : Text → Text) (frames : List Text) (f : Text)
    → Continues clean [] (f ∷ frames)
    → (push_frames clean [] (f ∷ frames)).1 ≡ clean (last_of f frames)
push_frames_complete clean frames f h =
    push_frames-appends clean [] (f ∷ frames) ∙ reaches clean [] f frames h
