-- ===== src/Cookie/Split.antt =====
-- Splitting a cookie string: every pair that comes out can be written down and read again.
use Prim.Native.Nat.{ℕ}
use mathlib.Core.Bool.{false, ◌&&◌}
use mathlib.Core.List.{List, [], ◌++◌, ◌∷◌}
use mathlib.Core.Logic.{inl, inr}
use mathlib.Core.Option.{some}
use mathlib.Core.Path.{refl, ◌≡◌}
use native.Mathlib.Omega.{arith}
use gemini_web2api_go.Base.Int.{int_eq}
use gemini_web2api_go.Base.Lists.{All}
use gemini_web2api_go.Base.Tests.{Bool-cases, Option-cases, nat_eq, ◌==◌}
use gemini_web2api_go.Base.Text.{
  Text, before, cut_at, has_byte, is_empty, is_space, onto_head, split_on, text_eq, trim_end,
  trim_left, trim_space,
}
use gemini_web2api_go.Cookie.{
  Pair, collect, equals_sign, pair_of, part_of, semicolon, split_cookie_pairs,
}

has_byte-trim_left : (b : ℕ) (s : Text) → has_byte b s ≡ false → has_byte b (trim_left s) ≡ false
unfolding has_byte trim_left
has_byte-trim_left b [] h = refl
has_byte-trim_left b (c ∷ s) h = ground (arith, has_byte-trim_left b s)

has_byte-trim_end : (b : ℕ) (s : Text) → has_byte b s ≡ false → has_byte b (trim_end s) ≡ false
unfolding has_byte trim_end
has_byte-trim_end b [] h = refl
has_byte-trim_end b (c ∷ s) h = ground (arith, has_byte-trim_end b s)

trim_end_idem : (s : Text) → trim_end (trim_end s) ≡ trim_end s
unfolding trim_end
trim_end_idem [] = refl
trim_end_idem (c ∷ s) = elim (Bool-cases (is_space c && is_empty (trim_end s))) [
  | inl e ↦ rw (e, trim_end)
  | inr e ↦ rw (e, trim_end, trim_end_idem s, e)
]

trim_left-trim_end : (s : Text) → trim_left (trim_end (trim_left s)) ≡ trim_end (trim_left s)
unfolding trim_left trim_end
trim_left-trim_end [] = refl
trim_left-trim_end (c ∷ s) = elim (Bool-cases (is_space c)) [
  | inl e ↦ rw (e, trim_left, trim_left-trim_end s)
  | inr e ↦ rw (e, trim_left, e, trim_end, e, trim_left)
]

pub trim_space_idem : (s : Text) → trim_space (trim_space s) ≡ trim_space s
unfolding trim_space
trim_space_idem s = rw (trim_left-trim_end s, trim_end_idem (trim_left s))

pub has_byte-trim_space :
    (b : ℕ) (s : Text) → has_byte b s ≡ false → has_byte b (trim_space s) ≡ false
unfolding trim_space
has_byte-trim_space b s h = has_byte-trim_end b (trim_left s) (has_byte-trim_left b s h)

pub has_byte-before : (b : ℕ) (s : Text) → has_byte b (before b s) ≡ false
unfolding has_byte before
has_byte-before b [] = refl
has_byte-before b (c ∷ s) = ground (arith, has_byte-before b s)

NoByte-onto :
    (b c : ℕ) (ws : List Text)
    → (c == b) ≡ false
    → All (λ w. has_byte b w ≡ false) ws
    → All (λ w. has_byte b w ≡ false) (onto_head c ws)
unfolding has_byte
NoByte-onto b c [] e a = (rw e, tt)
NoByte-onto b c (w ∷ ws) e a = (rw e a.0, a.1)

pub split_on-NoByte : (b : ℕ) (s : Text) → All (λ w. has_byte b w ≡ false) (split_on b s)
unfolding split_on has_byte
split_on-NoByte b [] = (refl, tt)
split_on-NoByte b (c ∷ s) = elim (Bool-cases (c == b)) [
  | inl e ↦ rw (e, split_on) (refl, split_on-NoByte b s)
  | inr e ↦ rw (e, split_on) (NoByte-onto b c (split_on b s) e (split_on-NoByte b s))
]

cut_at-joins : (b : ℕ) (s p q : Text) → cut_at b s ≡ some (p, q) → s ≡ p ++ b ∷ q
unfolding cut_at
cut_at-joins b [] p q h = cc
cut_at-joins b (c ∷ s) p q h = elim (Bool-cases (c == b)) [
  | inl e ↦ ground arith
  | inr e ↦ elim (Option-cases (cut_at b s)) [
    | inl k ↦ cc (rw (e, k, cut_at) at h)
    | inr ((p', q'), k) ↦ let ih = cut_at-joins b s p' q' k in cc (rw (e, k, cut_at) at h)
  ]
]

pub pair_of-joins : (s : Text) (kv : Pair) → pair_of s ≡ some kv → s ≡ part_of kv
unfolding pair_of
pair_of-joins s (k, v) h = elim (Option-cases (cut_at equals_sign s)) [
  | inl e ↦ cc (rw (e, pair_of) at h)
  | inr ((p, q), e) ↦
      let j = cut_at-joins equals_sign s p q e in
      elim (Bool-cases (is_empty p)) [
        | inl z ↦ cc (rw (e, pair_of, z) at h)
        | inr z ↦ cc (rw (e, pair_of, z) at h)
      ]
]

-- A pair that stands for itself: written down, it has no `;`, no outer space, and is read back.
pub record IsClean (kv : Pair) : Type 0 where
  pub reads : pair_of (part_of kv) ≡ some kv
  pub whole : has_byte semicolon (part_of kv) ≡ false
  pub trimmed : trim_space (part_of kv) ≡ part_of kv

pub pair_of-IsClean :
    (s : Text) (kv : Pair)
    → has_byte semicolon s ≡ false
    → pair_of (trim_space s) ≡ some kv
    → IsClean kv
pair_of-IsClean s kv h e =
    let j = pair_of-joins (trim_space s) kv e in
    record {
      reads = rw (← j) e;
      whole = rw (← j) (has_byte-trim_space semicolon s h);
      trimmed = rw (← j) (trim_space_idem s);
    }

collect-IsClean :
    (ws : List Text) → All (λ w. has_byte semicolon w ≡ false) ws → All IsClean (collect ws)
unfolding collect
collect-IsClean [] a = tt
collect-IsClean (w ∷ ws) a = elim (Option-cases (pair_of (trim_space w))) [
  | inl e ↦ rw (e, collect) (collect-IsClean ws a.1)
  | inr (kv, e) ↦ rw (e, collect) (pair_of-IsClean w kv a.0 e, collect-IsClean ws a.1)
]

pub split-IsClean : (cookie : Text) → All IsClean (split_cookie_pairs cookie)
unfolding split_cookie_pairs
split-IsClean cookie =
    collect-IsClean (split_on semicolon cookie) (split_on-NoByte semicolon cookie)
