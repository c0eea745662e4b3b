-- ===== src/Proxy/Choice.antt =====
-- What `pickProxyPreferringExcept` promises of the proxy that it returns, and of the pool where it
-- returns none.
use Prim.Native.Nat.{suc, ℕ}
use mathlib.Core.Bool.{Bool, false, not, true, ◌&&◌}
use mathlib.Core.List.{List, [], ◌∷◌}
use mathlib.Core.Logic.{inl, inr}
use mathlib.Core.Option.{Option, none, some}
use mathlib.Core.Path.{refl, subst, sym, ◌∙◌, ◌≡◌}
use gemini_web2api_go.Base.Int.{int_eq, ℤ}
use gemini_web2api_go.Base.Lists.{All, get_elem?, keep}
use gemini_web2api_go.Base.Tests.{Bool-cases, nat_eq}
use gemini_web2api_go.Base.Text.{text_eq}
use gemini_web2api_go.Config.{RuntimeConfig}
use gemini_web2api_go.Proxy.{Exits, Proxy, is_excluded, proxy_usable}
use gemini_web2api_go.Proxy.Exhaust.{take_turns-full}
use gemini_web2api_go.Proxy.Pick.{
  advance, pick_from, pick_proxy_preferring_except, preferred, stuck_to, try_found, usable_pool,
  ◌orelse◌,
}
use gemini_web2api_go.Proxy.PickLaws.{OnSome, Search, Search-none, Search-orelse}
use gemini_web2api_go.Proxy.Room.{has_room}
use gemini_web2api_go.Proxy.Turns.{pick_from-Search, try_found-Search}

pub data Among (p : Proxy) : List Proxy → Type 0 where
  first : {q : Proxy} {ps : List Proxy} → p ≡ q → Among p (q ∷ ps)
  beyond : {q : Proxy} {ps : List Proxy} → Among p ps → Among p (q ∷ ps)

-- `p` may be chosen: it stands in the pool, is not excluded, and may be used.
abbrev pub may_use : RuntimeConfig → ℕ → List ℤ → Proxy → Bool
may_use c now excl p = not (is_excluded p.id excl) && proxy_usable c now p

abbrev pub Eligible : RuntimeConfig → ℕ → List ℤ → List Proxy → Proxy → Type 0
Eligible c now excl cache p = Among p cache × (may_use c now excl p ≡ true)

All-map :
    {P Q : Proxy → Type 0} (f : (p : Proxy) → P p → Q p) (ps : List Proxy) → All P ps → All Q ps
All-map f [] a = tt
All-map f (p ∷ ps) a = (f p a.0, All-map f ps a.1)

All-keep :
    (P : Proxy → Type 0) (f : Proxy → Bool) (ps : List Proxy)
    → All P ps
    → All (λ p. P p × (f p ≡ true)) (keep f ps)
All-keep P f [] a = tt
All-keep P f (p ∷ ps) a = elim (Bool-cases (f p)) [
  | inl e ↦ rw e ((a.0, e), All-keep P f ps a.1)
  | inr e ↦ rw e (All-keep P f ps a.1)
]

pub All-Among : (ps : List Proxy) → All (λ p. Among p ps) ps
All-Among [] = tt
All-Among (p ∷ ps) = (first refl, All-map (λ q a. beyond a) ps (All-Among ps))

OnSome-Unit : (o : Option Proxy) → OnSome (λ p. Unit {0}) o
OnSome-Unit none = tt
OnSome-Unit (some p) = tt

orelse-none :
    (r : Exits × Option Proxy) (next : Exits → Exits × Option Proxy)
    → (r orelse next).1 ≡ none
    → (x : Exits) × (r ≡ (x, none)) × ((next x).1 ≡ none)
orelse-none (x, some p) next h = cc
orelse-none (x, none) next h = (x, refl, h)

module _ (c : RuntimeConfig) (now : ℕ) (excl : List ℤ) where
  usable_pool-Eligible :
      (cache : List Proxy) → All (Eligible c now excl cache) (usable_pool c now excl cache)
  unfolding usable_pool
  usable_pool-Eligible cache =
      All-keep (λ p. Among p cache) (may_use c now excl) cache (All-Among cache)

  -- A pick that returns a proxy returns one of the pool that is enabled, not broken and not
  -- excluded, and adds one request to its slot and to no other; one that returns none leaves every
  -- slot with the requests in flight and the room that it had. Neither changes the pool, the table or the
  -- outcomes of remote proxies.
  pub pick-Search :
      (x : Exits) (prefer : ℤ)
      → Search c now
          (Eligible c now excl x.cache)
          x
          (pick_proxy_preferring_except c now x prefer excl)
  unfolding pick_proxy_preferring_except
  pick-Search x prefer = go (usable_pool c now excl x.cache) (usable_pool-Eligible x.cache)
    where
      go :
          (pool : List Proxy)
          → All (Eligible c now excl x.cache) pool
          → Search c now
              (Eligible c now excl x.cache)
              x
              (elim pool [ [] ↦ (x, none) | p ∷ ps ↦ pick_from c now x (p ∷ ps) prefer excl ])
      go [] a = Search-none c now _ x x refl refl refl refl
      go (p ∷ ps) a = pick_from-Search c now _ x (p ∷ ps) prefer excl a

  searches-Search :
      (x : Exits) (pool : List Proxy) (prefer : ℤ)
      → Search c now
          (λ p. Unit {0})
          x
          (try_found c now x (preferred pool prefer excl)
            orelse (λ x'. try_found c now x' (stuck_to c x' pool prefer excl)))
  searches-Search x pool prefer =
      Search-orelse c now _ x _ _ (try_found-Search c now _ x _ (OnSome-Unit _))
        (λ x' e. try_found-Search c now _ x' _ (OnSome-Unit _))

  pick_from-full :
      (x : Exits) (pool : List Proxy) (prefer : ℤ) (k : ℕ) (p : Proxy)
      → (pick_from c now x pool prefer excl).1 ≡ none
      → get_elem? pool k ≡ some p
      → has_room c now x.slots p.id ≡ false
  unfolding pick_from advance
  pick_from-full x pool prefer k p h e =
      let (x', found, failed) = orelse-none _ _ h in
      let searches = searches-Search x pool prefer in
      let same = (subst (Search c now (λ p. Unit {0}) x) found searches).room p.id refl in
      sym same ∙ take_turns-full c now pool x'.cursor (advance x') k p failed e

  full-All :
      (x : Exits) (pool : List Proxy)
      → ((k : ℕ) (p : Proxy) → get_elem? pool k ≡ some p → has_room c now x.slots p.id ≡ false)
      → All (λ p. has_room c now x.slots p.id ≡ false) pool
  full-All x [] f = tt
  full-All x (p ∷ ps) f = (f 0 p refl, full-All x ps (λ k q e. f (suc k) q e))

  none_free :
      (x : Exits) (cache : List Proxy)
      → All (λ p. has_room c now x.slots p.id ≡ false) (usable_pool c now excl cache)
      → All (λ p. (may_use c now excl p && has_room c now x.slots p.id) ≡ false) cache
  unfolding usable_pool
  none_free x [] a = tt
  none_free x (p ∷ ps) a = elim (Bool-cases (may_use c now excl p)) [
    | inl e ↦ (rw e (rw e at a).0, none_free x ps (rw e at a).1)
    | inr e ↦ (rw e, none_free x ps (rw e at a))
  ]

  -- A pick that returns none was right to: every proxy of the pool that is not excluded and may be
  -- used has no room in its slot.
  pub pick-full :
      (x : Exits) (prefer : ℤ)
      → (pick_proxy_preferring_except c now x prefer excl).1 ≡ none
      → All (λ p. (may_use c now excl p && has_room c now x.slots p.id) ≡ false) x.cache
  unfolding pick_proxy_preferring_except
  pick-full x prefer h = none_free x x.cache (go (usable_pool c now excl x.cache) h)
    where
      go :
          (pool : List Proxy)
          → (let r : Exits × Option Proxy = elim pool [
            | [] ↦ (x, none)
            | p ∷ ps ↦ pick_from c now x (p ∷ ps) prefer excl
          ] in
              r.1 ≡ none)
          → All (λ p. has_room c now x.slots p.id ≡ false) pool
      go [] f = tt
      go (p ∷ ps) f = full-All x (p ∷ ps) (λ k q e. pick_from-full x (p ∷ ps) prefer k q f e)
