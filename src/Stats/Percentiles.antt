-- ===== src/Stats/Percentiles.antt =====
-- What `percentiles` returns.
use Prim.Native.Nat.{suc, zero, ℕ, ◌*◌, ◌+◌, ◌/◌, ◌<◌, ◌≤◌}
use mathlib.Core.Bool.{true}
use mathlib.Core.List.{List, [], ◌∷◌}
use mathlib.Core.Logic.{inl, inr}
use mathlib.Core.Option.{some}
use mathlib.Core.Path.{refl, subst, ◌≡◌}
use native.Mathlib.Omega.{arith}
use gemini_web2api_go.Base.Int.{int_eq}
use gemini_web2api_go.Base.Lists.{All, get_elem?, get_elem?-lt, length}
use gemini_web2api_go.Base.Tests.{Bool-cases, leb, nat_beq_iff, nat_eq, some-eq-some}
use gemini_web2api_go.Base.Text.{text_eq}
use gemini_web2api_go.Proxy.{is_excluded}
use gemini_web2api_go.Stats.{insert_latency, p95_index, percentiles, sort_latencies}

abbrev Ascends : List ℕ → Type 0
Ascends [] = Unit {0}
Ascends (a ∷ ls) = All (λ b. a ≤ b) ls × Ascends ls

module _ (P : ℕ → Type 0) where
  All-insert : (a : ℕ) (bs : List ℕ) → P a → All P bs → All P (insert_latency a bs)
  unfolding insert_latency
  All-insert a [] p h = (p, tt)
  All-insert a (b ∷ bs) p h = elim (Bool-cases (leb a b)) [
    | inl e ↦ rw (e, insert_latency) (p, h)
    | inr e ↦ rw (e, insert_latency) (h.0, All-insert a bs p h.1)
  ]

  All-sort : (ls : List ℕ) → All P ls → All P (sort_latencies ls)
  unfolding sort_latencies
  All-sort [] h = tt
  All-sort (a ∷ ls) h = All-insert a (sort_latencies ls) h.0 (All-sort ls h.1)

All-le_trans : (a b : ℕ) (cs : List ℕ) → a ≤ b → All (λ c. b ≤ c) cs → All (λ c. a ≤ c) cs
All-le_trans a b [] h k = tt
All-le_trans a b (c ∷ cs) h k = (omega (arith, k.0), All-le_trans a b cs h k.1)

insert-Ascends : (a : ℕ) (bs : List ℕ) → Ascends bs → Ascends (insert_latency a bs)
unfolding insert_latency
insert-Ascends a [] h = (tt, tt)
insert-Ascends a (b ∷ bs) h = elim (Bool-cases (leb a b)) [
  | inl e ↦
      let le : a ≤ b = ground arith in rw (e, insert_latency) ((le, All-le_trans a b bs le h.0), h)
  | inr e ↦
      let le : b ≤ a = ground arith in
      rw (e, insert_latency) (All-insert (λ c. b ≤ c) a bs le h.0, insert-Ascends a bs h.1)
]

sort-Ascends : (ls : List ℕ) → Ascends (sort_latencies ls)
unfolding sort_latencies
sort-Ascends [] = tt
sort-Ascends (a ∷ ls) = insert-Ascends a (sort_latencies ls) (sort-Ascends ls)

length-insert : (a : ℕ) (bs : List ℕ) → length (insert_latency a bs) ≡ length bs + 1
unfolding insert_latency
length-insert a [] = omega arith
length-insert a (b ∷ bs) = ground (arith, length-insert a bs)

length-sort : (ls : List ℕ) → length (sort_latencies ls) ≡ length ls
unfolding sort_latencies
length-sort [] = refl
length-sort (a ∷ ls) = omega (arith, length-insert a (sort_latencies ls), length-sort ls)

All-at : (P : ℕ → Type 0) (ls : List ℕ) (i a : ℕ) → All P ls → get_elem? ls i ≡ some a → P a
All-at P [] i a h e = cc
All-at P (b ∷ ls) zero a h e = subst P (some-eq-some b a e) h.0
All-at P (b ∷ ls) (suc i) a h e = All-at P ls i a h.1 e

Ascends-at :
    (ls : List ℕ) (i j a b : ℕ)
    → Ascends ls
    → i ≤ j
    → get_elem? ls i ≡ some a
    → get_elem? ls j ≡ some b
    → a ≤ b
Ascends-at [] i j a b h le e f = cc
Ascends-at (c ∷ ls) zero zero a b h le e f =
    let p = some-eq-some c a e in let q = some-eq-some c b f in omega (arith, p, q)
Ascends-at (c ∷ ls) zero (suc j) a b h le e f =
    let p = some-eq-some c a e in let q = All-at (λ d. c ≤ d) ls j b h.0 f in omega (arith, p, q)
Ascends-at (c ∷ ls) (suc i) zero a b h le e f = elim le [ ]
Ascends-at (c ∷ ls) (suc i) (suc j) a b h le e f = Ascends-at ls i j a b h.1 (omega arith) e f

abbrev pub Occurs : ℕ → List ℕ → Type 0
Occurs a ls = (is_excluded a ls) ≡ true

All-Occurs : (ls bs : List ℕ) → ((a : ℕ) → Occurs a ls → Occurs a bs) → All (λ a. Occurs a bs) ls
unfolding is_excluded
All-Occurs [] bs f = tt
All-Occurs (a ∷ ls) bs f =
    (f a (rw ((nat_beq_iff a a).1 refl)), All-Occurs ls bs (λ b h. f b (rw h (ground arith))))

middle_lt : (n : ℕ) → (suc n * 50) / 100 < suc n
middle_lt n = omega arith

p95_lt : (n : ℕ) → p95_index (suc n) < suc n
unfolding p95_index
p95_lt n = ground arith

middle_le : (n : ℕ) → (suc n * 50) / 100 ≤ p95_index (suc n)
unfolding p95_index
middle_le n = ground arith

-- For every list of latencies that is not empty, no index is out of range, both percentiles occur in
-- the list, and the 50th is at most the 95th.
pub percentiles-ordered :
    (a : ℕ) (ls : List ℕ)
    → (p50 : ℕ) × (p95 : ℕ) × (percentiles (a ∷ ls) ≡ some (p50, p95))
      × (p50 ≤ p95)
      × Occurs p50 (a ∷ ls)
      × Occurs p95 (a ∷ ls)
unfolding percentiles
percentiles-ordered a ls =
    let sorted = sort_latencies (a ∷ ls) in
    let size = length-sort (a ∷ ls) in
    let (p50, e) =
      get_elem?-lt sorted ((length sorted * 50) / 100) (rw size (middle_lt (length ls))) in
    let (p95, f) = get_elem?-lt sorted (p95_index (length sorted)) (rw size (p95_lt (length ls))) in
    let occurs =
      All-sort (λ b. Occurs b (a ∷ ls)) (a ∷ ls) (All-Occurs (a ∷ ls) (a ∷ ls) (λ b h. h)) in
    (
      p50,
      p95,
      rw (percentiles, e, f),
      Ascends-at sorted _ _ p50 p95 (sort-Ascends (a ∷ ls)) (rw size (middle_le (length ls))) e f,
      All-at (λ b. Occurs b (a ∷ ls)) sorted _ p50 occurs e,
      All-at (λ b. Occurs b (a ∷ ls)) sorted _ p95 occurs f,
    )
