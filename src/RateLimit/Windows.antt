-- ===== src/RateLimit/Windows.antt =====
-- Windows of time stamps: what `pruneTimestamps` keeps.
use Prim.Native.Nat.{ℕ, ◌+◌, ◌≤◌}
use mathlib.Core.List.{List, [], ◌++◌, ◌∷◌}
use mathlib.Core.Logic.{inl, inr}
use mathlib.Core.Path.{refl, ◌≡◌}
use native.Mathlib.Omega.{arith}
use gemini_web2api_go.Base.Int.{int_eq}
use gemini_web2api_go.Base.Lists.{All, length}
use gemini_web2api_go.Base.Tests.{Bool-cases, if◌then◌else◌, leb, ltb, nat_eq}
use gemini_web2api_go.Base.Text.{text_eq}
use gemini_web2api_go.RateLimit.{prune_timestamps}

-- How many of the time stamps are `cutoff` or later.
abbrev pub count_since : ℕ → List ℕ → ℕ
count_since cutoff [] = 0
count_since cutoff (t ∷ ts) = (if leb cutoff t then 1 else 0) + count_since cutoff ts

abbrev pub Ascending : List ℕ → Type 0
Ascending [] = Unit {0}
Ascending (t ∷ ts) = All (λ u. t ≤ u) ts × Ascending ts

All-le_trans : (m n : ℕ) (ts : List ℕ) → m ≤ n → All (λ u. n ≤ u) ts → All (λ u. m ≤ u) ts
All-le_trans m n [] h a = tt
All-le_trans m n (t ∷ ts) h a = (omega arith, All-le_trans m n ts h a.1)

pub All-up : (m n : ℕ) (ts : List ℕ) → m ≤ n → All (λ u. u ≤ m) ts → All (λ u. u ≤ n) ts
All-up m n [] h a = tt
All-up m n (t ∷ ts) h a = (omega arith, All-up m n ts h a.1)

count_since-All : (c : ℕ) (ts : List ℕ) → All (λ u. c ≤ u) ts → count_since c ts ≡ length ts
count_since-All c [] a = refl
count_since-All c (t ∷ ts) a = ground (arith, count_since-All c ts a.1)

-- On an ascending window the prune leaves exactly the stamps that are recent enough.
pub length-prune :
    (c : ℕ) (ts : List ℕ) → Ascending ts → length (prune_timestamps ts c) ≡ count_since c ts
unfolding prune_timestamps
length-prune c [] a = refl
length-prune c (t ∷ ts) a = elim (Bool-cases (ltb t c)) [
  | inl old ↦ rw old (ground (arith, length-prune c ts a.1))
  | inr new ↦ rw new (ground (arith, count_since-All c ts (All-le_trans c t ts (ground arith) a.0)))
]

pub count_since-prune :
    (c w : ℕ) (ts : List ℕ) → c ≤ w → count_since w (prune_timestamps ts c) ≡ count_since w ts
unfolding prune_timestamps
count_since-prune c w [] h = refl
count_since-prune c w (t ∷ ts) h = ground (arith, count_since-prune c w ts h)

pub prune-Ascending : (c : ℕ) (ts : List ℕ) → Ascending ts → Ascending (prune_timestamps ts c)
unfolding prune_timestamps
prune-Ascending c [] a = tt
prune-Ascending c (t ∷ ts) a = elim (Bool-cases (ltb t c)) [
  | inl old ↦ rw old (prune-Ascending c ts a.1)
  | inr new ↦ rw new a
]

pub prune-All : (P : ℕ → Type 0) (c : ℕ) (ts : List ℕ) → All P ts → All P (prune_timestamps ts c)
unfolding prune_timestamps
prune-All P c [] a = tt
prune-All P c (t ∷ ts) a = elim (Bool-cases (ltb t c)) [
  | inl old ↦ rw old (prune-All P c ts a.1)
  | inr new ↦ rw new a
]

pub count_since-append :
    (w now : ℕ) (ts : List ℕ)
    → count_since w (ts ++ now ∷ []) ≡ (if leb w now then 1 else 0) + count_since w ts
count_since-append w now [] = refl
count_since-append w now (t ∷ ts) = ground (arith, count_since-append w now ts)

pub All-append_one :
    (P : ℕ → Type 0) (now : ℕ) (ts : List ℕ) → All P ts → P now → All P (ts ++ now ∷ [])
All-append_one P now [] a p = (p, tt)
All-append_one P now (t ∷ ts) a p = (a.0, All-append_one P now ts a.1 p)

pub Ascending-append_one :
    (now : ℕ) (ts : List ℕ) → Ascending ts → All (λ u. u ≤ now) ts → Ascending (ts ++ now ∷ [])
Ascending-append_one now [] a p = (tt, tt)
Ascending-append_one now (t ∷ ts) a p =
    (All-append_one _ now ts a.0 p.0, Ascending-append_one now ts a.1 p.1)
