-- ===== src/Acquire/StaticLaws.antt =====
-- The search of the static pool keeps the state well-formed.
use Prim.Native.Nat.{suc, zero, ℕ, ◌%◌, ◌+◌}
use mathlib.Core.List.{List, [], ◌∷◌}
use mathlib.Core.Logic.{inl, inr}
use mathlib.Core.Option.{Option, none, some}
use mathlib.Core.Path.{refl, ◌≡◌}
use gemini_web2api_go.Acquire.{try_static}
use gemini_web2api_go.Acquire.WellFormed.{
  IsWellFormed, attempt_exit-IsWellFormed, orelse-IsWellFormed, same-IsWellFormed,
  stick-IsWellFormed,
}
use gemini_web2api_go.Base.Int.{int_eq, ℤ}
use gemini_web2api_go.Base.Lists.{get_elem?, length}
use gemini_web2api_go.Base.Tests.{Option-cases, nat_eq}
use gemini_web2api_go.Base.Text.{text_eq}
use gemini_web2api_go.Config.{RuntimeConfig}
use gemini_web2api_go.Proxy.{Exits, Proxy}
use gemini_web2api_go.Proxy.Choice.{Eligible, pick-Search}
use gemini_web2api_go.Proxy.Pick.{
  advance, pick_from, pick_proxy_preferring_except, preferred, stick, stuck_to, take_turns,
  try_found, usable_pool, ◌orelse◌,
}
use gemini_web2api_go.Proxy.PickLaws.{Search, Search-none}

module _ (c : RuntimeConfig) (now : ℕ) where
  try_found-IsWellFormed :
      (x : Exits) (o : Option Proxy) → IsWellFormed x → IsWellFormed (try_found c now x o).0
  unfolding try_found
  try_found-IsWellFormed x none w = w
  try_found-IsWellFormed x (some p) w =
      attempt_exit-IsWellFormed c now x p (λ y. y) (λ y. (y, none)) (λ y v. v) (λ y v. v) w

  take_turns-IsWellFormed :
      (pool : List Proxy) (start i rounds : ℕ) (x : Exits)
      → IsWellFormed x
      → IsWellFormed (take_turns c now pool start i rounds x).0
  unfolding take_turns
  take_turns-IsWellFormed pool start i zero x w = w
  take_turns-IsWellFormed pool start i (suc rounds) x w =
      elim (Option-cases (get_elem? pool ((start + i) % length pool))) [
        | inl e ↦ rw (e, take_turns) w
        | inr (p, e) ↦
            rw (e, take_turns)
              (attempt_exit-IsWellFormed c now x p (λ y. stick c y p)
                (take_turns c now pool start (i + 1) rounds) (stick-IsWellFormed c now p)
                (take_turns-IsWellFormed pool start (i + 1) rounds) w)
      ]

  pick_from-IsWellFormed :
      (x : Exits) (pool : List Proxy) (prefer : ℤ) (excl : List ℤ)
      → IsWellFormed x
      → IsWellFormed (pick_from c now x pool prefer excl).0
  unfolding pick_from advance
  pick_from-IsWellFormed x pool prefer excl w =
      let search1 = try_found c now x (preferred pool prefer excl) in
      let search2 = λ (y : Exits). try_found c now y (stuck_to c y pool prefer excl) in
      let third = λ (y : Exits). take_turns c now pool y.cursor 0 (length pool) (advance y) in
      orelse-IsWellFormed c now (search1 orelse search2) third
        (orelse-IsWellFormed c now search1 search2
          (try_found-IsWellFormed x (preferred pool prefer excl) w)
          (λ y v. try_found-IsWellFormed y (stuck_to c y pool prefer excl) v))
        (λ y v.
          take_turns-IsWellFormed pool y.cursor 0 (length pool) (advance y)
            (same-IsWellFormed y (advance y) refl refl refl refl v))

  pick-IsWellFormed :
      (x : Exits) (prefer : ℤ) (excl : List ℤ)
      → IsWellFormed x
      → IsWellFormed (pick_proxy_preferring_except c now x prefer excl).0
  unfolding pick_proxy_preferring_except
  pick-IsWellFormed x prefer excl w = go (usable_pool c now excl x.cache)
    where
      go :
          (pool : List Proxy)
          → (let r : Exits × Option Proxy = elim pool [
            | [] ↦ (x, none)
            | p ∷ ps ↦ pick_from c now x (p ∷ ps) prefer excl
          ] in
              IsWellFormed r.0)
      go [] = w
      go (p ∷ ps) = pick_from-IsWellFormed x (p ∷ ps) prefer excl w

  pub try_static-Search :
      (x : Exits) (prefer : ℤ) (excl : List ℤ)
      → Search c now (Eligible c now excl x.cache) x (try_static c now x prefer excl)
  unfolding try_static
  try_static-Search x prefer excl = go x.cache refl
    where
      go :
          (l : List Proxy)
          → x.cache ≡ l
          → Search c now (Eligible c now excl x.cache) x (elim l [
            | [] ↦ (x, none)
            | p ∷ ps ↦ pick_proxy_preferring_except c now x prefer excl
          ])
      go [] e = Search-none c now _ x x refl refl refl refl
      go (p ∷ ps) e = pick-Search c now excl x prefer

  pub try_static-IsWellFormed :
      (x : Exits) (prefer : ℤ) (excl : List ℤ)
      → IsWellFormed x
      → IsWellFormed (try_static c now x prefer excl).0
  unfolding try_static
  try_static-IsWellFormed x prefer excl w = go x.cache
    where
      go :
          (l : List Proxy)
          → (let r : Exits × Option Proxy = elim l [
            | [] ↦ (x, none)
            | p ∷ ps ↦ pick_proxy_preferring_except c now x prefer excl
          ] in
              IsWellFormed r.0)
      go [] = w
      go (p ∷ ps) = pick-IsWellFormed x prefer excl w
