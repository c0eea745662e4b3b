-- ===== src/Stats.antt =====
-- internal/app/scheduler.go: the percentiles of a bucket. An index out of range, at which Go
-- panics, is `none`.
pub mod Percentiles
use Prim.Native.Nat.{ℕ, ◌*◌, ◌-◌, ◌/◌}
use mathlib.Core.List.{List, [], ◌∷◌}
use mathlib.Core.Option.{Option, none, some}
use gemini_web2api_go.Base.Int.{int_eq}
use gemini_web2api_go.Base.Lists.{get_elem?, length}
use gemini_web2api_go.Base.Tests.{if◌then◌else◌, leb, nat_eq}
use gemini_web2api_go.Base.Text.{text_eq}

unfoldable pub insert_latency : ℕ → List ℕ → List ℕ
insert_latency a [] = a ∷ []
insert_latency a (b ∷ bs) = if leb a b then a ∷ b ∷ bs else b ∷ insert_latency a bs

-- `sort.Ints`
unfoldable pub sort_latencies : List ℕ → List ℕ
sort_latencies [] = []
sort_latencies (a ∷ ls) = insert_latency a (sort_latencies ls)

-- The index of `p95`, with its bound.
unfoldable pub p95_index : ℕ → ℕ
p95_index n = let i = (n * 95) / 100 in if leb n i then n - 1 else i

-- `percentiles`
unfoldable pub percentiles : List ℕ → Option (ℕ × ℕ)
percentiles [] = some (0, 0)
percentiles (a ∷ ls) =
    let sorted = sort_latencies (a ∷ ls) in
    let n = length sorted in
    elim (get_elem? sorted ((n * 50) / 100)) [
      | none ↦ none
      | some p50 ↦ elim (get_elem? sorted (p95_index n)) [
        | none ↦ none
        | some p95 ↦ some (p50, p95)
      ]
    ]
