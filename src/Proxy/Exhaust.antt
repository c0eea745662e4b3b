-- ===== src/Proxy/Exhaust.antt =====
-- A loop over the pool that finds nothing has tried every proxy, wherever it began.
use Prim.Native.Nat.{suc, zero, ℕ, ◌%◌, ◌+◌, ◌-◌, ◌<◌, ◌≤◌}
use mathlib.Core.Bool.{false}
use mathlib.Core.List.{List}
use mathlib.Core.Logic.{inl, inr}
use mathlib.Core.Option.{Option, none, some}
use mathlib.Core.Path.{ap, refl, subst, sym, ◌∙◌, ◌≡◌}
use native.Mathlib.Decide.{ℕ_discrete}
use native.Mathlib.Nat.{add-mod_right, mod-add-mod, mod-eq_of_lt, mod-lt}
use native.Mathlib.Omega.{arith}
use gemini_web2api_go.Base.Int.{int_eq, ℤ}
use gemini_web2api_go.Base.Lists.{get_elem?, get_elem?-bound, get_elem?-lt, length}
use gemini_web2api_go.Base.Tests.{Bool-cases, leb, nat_eq, some-eq-some}
use gemini_web2api_go.Base.Text.{text_eq}
use gemini_web2api_go.Config.{RuntimeConfig}
use gemini_web2api_go.Proxy.{Exits, Proxy}
use gemini_web2api_go.Proxy.Pick.{acquire_exit, attempt_exit, stick, take_turns}
use gemini_web2api_go.Proxy.Room.{denied-has_room, has_room}
use gemini_web2api_go.RateLimit.{Reason, Verdict, denied, granted}
use gemini_web2api_go.RateLimit.Slots.{is_granted}

shifted : (n start k i : ℕ) → start % n + i ≡ k → (start + i) % n ≡ k % n
shifted n start k i e = sym (mod-add-mod start n i) ∙ ap (λ (m : ℕ). m % n) e

-- Every place of the pool is `start + i` for some round `i`.
turn_of : (n start k : ℕ) → k < n → (i : ℕ) × (i < n) × ((start + i) % n ≡ k)
turn_of n start k h =
    let s = mod-lt start {m = n} (omega arith) in
    elim (Bool-cases (leb (start % n) k)) [
      | inl e ↦ (
        k - start % n,
        ground arith,
        shifted n start k (k - start % n) (ground arith) ∙ mod-eq_of_lt h,
      )
      | inr e ↦ (
        k + n - start % n,
        ground arith,
        shifted n start (k + n) (k + n - start % n) (ground arith)
            ∙ add-mod_right k n
            ∙ mod-eq_of_lt h,
      )
    ]

verdict-denied : (v : Verdict) → is_granted v ≡ false → (r : Reason) × (v ≡ denied r)
verdict-denied granted h = cc
verdict-denied (denied r) h = (r, refl)

module _ (c : RuntimeConfig) (now : ℕ) where
  acquire_exit-room :
      (x : Exits) (i : ℤ) → has_room c now x.slots i ≡ is_granted (acquire_exit c now x i).1
  unfolding acquire_exit
  acquire_exit-room x i = refl

  acquire_exit-keeps :
      (x : Exits) (i j : ℤ)
      → has_room c now x.slots i ≡ false
      → has_room c now (acquire_exit c now x i).0.slots j ≡ has_room c now x.slots j
  unfolding acquire_exit
  acquire_exit-keeps x i j full = denied-has_room c now x.slots i j full

  -- An attempt that does not find the exit was turned away, and what follows found none.
  pub attempt_exit-none :
      (x : Exits) (p : Proxy) (won : Exits → Exits) (lost : Exits → Exits × Option Proxy)
      → (attempt_exit c now x p won lost).1 ≡ none
      → (has_room c now x.slots p.id ≡ false)
        × ((lost (acquire_exit c now x p.id).0).1 ≡ none)
        × ((j : ℤ)
            → has_room c now (acquire_exit c now x p.id).0.slots j ≡ has_room c now x.slots j)
  unfolding attempt_exit
  attempt_exit-none x p won lost h = go (acquire_exit c now x p.id).1 refl h
    where
      y : Exits
      y = (acquire_exit c now x p.id).0

      go :
          (v : Verdict)
          → (acquire_exit c now x p.id).1 ≡ v
          → (let r : Exits × Option Proxy = elim v [
            | granted ↦ (won y, some p)
            | denied r ↦ lost y
          ] in
              r.1 ≡ none)
          → (has_room c now x.slots p.id ≡ false)
            × ((lost y).1 ≡ none)
            × ((j : ℤ) → has_room c now y.slots j ≡ has_room c now x.slots j)
      go granted e f = cc
      go (denied r) e f =
          let full = acquire_exit-room x p.id ∙ ap is_granted e in
          (full, f, λ j. acquire_exit-keeps x p.id j full)

  module _ (pool : List Proxy) (start : ℕ) where
    -- The slot of the proxy that the loop looks at in round `k` is full.
    abbrev pub FullAt : Exits → ℕ → Type 0
    FullAt x k =
        (p : Proxy)
        → get_elem? pool ((start + k) % length pool) ≡ some p
        → has_room c now x.slots p.id ≡ false

    take_turns-FullAt :
        (i rounds : ℕ) (x : Exits)
        → 0 < length pool
        → (take_turns c now pool start i rounds x).1 ≡ none
        → (k : ℕ) → i ≤ k
        → k < i + rounds
        → FullAt x k
    unfolding take_turns
    take_turns-FullAt i zero x n h k a b = absurd (omega arith)
    take_turns-FullAt i (suc rounds) x n h k a b =
        let (q, here) = get_elem?-lt pool ((start + i) % length pool) (mod-lt (start + i) n) in
        let y : Exits = (acquire_exit c now x q.id).0 in
        let (full, later, same) =
          attempt_exit-none x q (λ y. stick c y q) (take_turns c now pool start (i + 1) rounds)
            (rw (here, take_turns) at h) in
        elim (ℕ_discrete i k) [
          | yes e ↦ λ p f.
              let g : q ≡ p = some-eq-some q p (
                sym here
                ∙ subst (λ (m : ℕ). get_elem? pool ((start + m) % length pool) ≡ some p) (sym e)
                    f) in
              rw (← g) full
          | no ne ↦ λ p f.
              sym (same p.id)
              ∙ take_turns-FullAt (i + 1) rounds y n later k (omega arith) (omega arith) p f
        ]

    -- So a whole round over the pool that fails has found every slot of it full.
    pub take_turns-full :
        (x : Exits) (k : ℕ) (p : Proxy)
        → (take_turns c now pool start 0 (length pool) x).1 ≡ none
        → get_elem? pool k ≡ some p
        → has_room c now x.slots p.id ≡ false
    take_turns-full x k p h e =
        let inside = get_elem?-bound pool k p e in
        let (i, lt, hits) = turn_of (length pool) start k inside in
        take_turns-FullAt 0 (length pool) x (omega arith) h i (omega arith) (omega arith) p
          (rw hits e)
