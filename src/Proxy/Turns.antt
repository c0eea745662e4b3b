-- ===== src/Proxy/Turns.antt =====
-- The loop from the cursor's position visits the whole pool, and fails only where all is full.
use Prim.Native.Nat.{suc, zero, ℕ, ◌%◌, ◌+◌}
use mathlib.Core.Bool.{Bool, false, true}
use mathlib.Core.List.{List, [], ◌∷◌}
use mathlib.Core.Logic.{inl, inr}
use mathlib.Core.Option.{Option, none, some}
use mathlib.Core.Path.{refl}
use native.Mathlib.Omega.{arith}
use gemini_web2api_go.Base.Int.{int_eq, ℤ}
use gemini_web2api_go.Base.Lists.{All, get_elem?, length}
use gemini_web2api_go.Base.Tests.{Bool-cases, if◌then◌else◌, nat_eq}
use gemini_web2api_go.Base.Text.{text_eq}
use gemini_web2api_go.Config.{RuntimeConfig}
use gemini_web2api_go.Proxy.{Exits, Proxy, find_first, set_sticky_proxy}
use gemini_web2api_go.Proxy.Pick.{
  advance, attempt_exit, pick_from, preferred, stick, stuck_to, take_turns, try_found,
}
use gemini_web2api_go.Proxy.PickLaws.{
  OnSome, Search, Search-from, Search-none, Search-orelse, Search-then, attempt-Search,
}

OnSome-find_first :
    (P : Proxy → Type 0) (f : Proxy → Bool) (ps : List Proxy)
    → All P ps
    → OnSome P (find_first f ps)
unfolding find_first
OnSome-find_first P f [] a = tt
OnSome-find_first P f (p ∷ ps) a = elim (Bool-cases (f p)) [
  | inl e ↦ rw e a.0
  | inr e ↦ rw e (OnSome-find_first P f ps a.1)
]

OnSome-get_elem? :
    (P : Proxy → Type 0) (ps : List Proxy) (i : ℕ) → All P ps → OnSome P (get_elem? ps i)
OnSome-get_elem? P [] i a = tt
OnSome-get_elem? P (q ∷ ps) zero a = a.0
OnSome-get_elem? P (q ∷ ps) (suc i) a = OnSome-get_elem? P ps i a.1

OnSome-if :
    (P : Proxy → Type 0) (b : Bool) (o : Option Proxy)
    → OnSome P o
    → OnSome P (if b then o else none)
OnSome-if P true o h = h
OnSome-if P false o h = tt

module _ (c : RuntimeConfig) (now : ℕ) (P : Proxy → Type 0) where
  pub try_found-Search :
      (x : Exits) (o : Option Proxy) → OnSome P o → Search c now P x (try_found c now x o)
  unfolding try_found
  try_found-Search x none h = Search-none c now P x x refl refl refl refl
  try_found-Search x (some p) h =
      attempt-Search c now P x p (λ y. y) (λ y. (y, none)) (λ y. (refl, refl, refl, refl)) h
        (λ y k. k)

  turn-Search :
      (x : Exits) (o : Option Proxy) (rest : Exits → Exits × Option Proxy)
      → OnSome P o
      → ((y : Exits) → Search c now P y (rest y))
      → Search c now P x
          (elim o [ none ↦ (x, none) | some p ↦ attempt_exit c now x p (λ y. stick c y p) rest ])
  unfolding stick set_sticky_proxy
  turn-Search x none rest h l = Search-none c now P x x refl refl refl refl
  turn-Search x (some p) rest h l =
      attempt-Search c now P x p (λ y. stick c y p) rest
        (λ y. (ground arith, ground arith, ground arith, ground arith)) h
        (λ y k. Search-then c now P x y (rest y) k (l y))

  take_turns-Search :
      (pool : List Proxy) (start i rounds : ℕ) (x : Exits)
      → All P pool
      → Search c now P x (take_turns c now pool start i rounds x)
  unfolding take_turns
  take_turns-Search pool start i zero x a = Search-none c now P x x refl refl refl refl
  take_turns-Search pool start i (suc rounds) x a =
      turn-Search x (get_elem? pool ((start + i) % length pool))
        (take_turns c now pool start (i + 1) rounds)
        (OnSome-get_elem? P pool ((start + i) % length pool) a)
        (λ y. take_turns-Search pool start (i + 1) rounds y a)

  pub pick_from-Search :
      (x : Exits) (pool : List Proxy) (prefer : ℤ) (excl : List ℤ)
      → All P pool
      → Search c now P x (pick_from c now x pool prefer excl)
  unfolding pick_from preferred stuck_to advance
  pick_from-Search x pool prefer excl a =
      Search-orelse c now P x _ _
        (Search-orelse c now P x _ _
          (try_found-Search x _ (OnSome-if P _ _ (OnSome-find_first P _ pool a)))
          (λ x' e. try_found-Search x' _ (OnSome-if P _ _ (OnSome-find_first P _ pool a))))
        (λ x' e.
          Search-from c now P x' _ _ refl refl refl refl
            (take_turns-Search pool x'.cursor 0 (length pool) _ a))
