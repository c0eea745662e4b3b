-- ===== src/Acquire/Choice.antt =====
-- The theorems about `acquireSlotExcept`, in every proxy mode.
use Prim.Native.Nat.{ℕ}
use mathlib.Core.Bool.{not, true, ◌&&◌}
use mathlib.Core.List.{List}
use mathlib.Core.Logic.{inl, inr}
use mathlib.Core.Path.{refl, subst, ◌≡◌}
use native.Mathlib.Omega.{arith}
use gemini_web2api_go.Acquire.{
  Outcome, ProxyMode, acquire_in_mode, acquire_slot_except, auto, direct_only, dynamic_only,
  give_up, has_pool, last_resort, or_else, pool_only, proxy_mode_of, static_only, try_dynamic,
  try_static,
}
use gemini_web2api_go.Acquire.Laws.{
  Acquired, Allowed, directly, dynamic, give_up-Acquired, or_else-Acquired, static,
  take_direct-Acquired,
}
use gemini_web2api_go.Acquire.Remote.{Answer}
use gemini_web2api_go.Acquire.RemoteLaws.{Finds, Remote, fetch-Finds}
use gemini_web2api_go.Acquire.StaticLaws.{try_static-IsWellFormed, try_static-Search}
use gemini_web2api_go.Acquire.Ways.{Ways, ways, ways-named, ways_of}
use gemini_web2api_go.Acquire.WellFormed.{IsWellFormed}
use gemini_web2api_go.Base.Int.{int_eq, ℤ}
use gemini_web2api_go.Base.Tests.{Bool-cases, nat_eq}
use gemini_web2api_go.Base.Text.{Text, is_empty, text_eq}
use gemini_web2api_go.Config.{RuntimeConfig}
use gemini_web2api_go.Proxy.{DynamicStat, Exits, Proxy}
use gemini_web2api_go.Proxy.PickLaws.{Search-none}

module _ (c : RuntimeConfig) (now : ℕ) (net : ℕ → Text → Answer) (excl : List ℤ)
    (excl_urls : List Text) where
  try_dynamic-Finds :
      (x : Exits) → IsWellFormed x → Finds c now excl_urls x (try_dynamic c now net x excl_urls)
  unfolding try_dynamic
  try_dynamic-Finds x w = elim (Bool-cases (is_empty c.proxy_pool_url)) [
    | inl e ↦ rw (e, try_dynamic) (Search-none c now _ x x refl refl refl refl, w)
    | inr e ↦ rw (e, try_dynamic) (fetch-Finds c now excl_urls net c.proxy_pool_url x w)
  ]

  -- A search followed by the next way out, at the exits that are allowed from state `x`.
  module _ (lets : Ways) (x : Exits) where
    abbrev S : Proxy → Type 0
    S = Allowed lets c now x excl excl_urls

    then_dynamic :
        (y : Exits) (next : Exits → Exits × Outcome)
        → lets.lets_dynamic ≡ true
        → IsWellFormed y
        → y.dynamic_stats ≡ x.dynamic_stats
        → ((z : Exits) → IsWellFormed z → Acquired S z (next z))
        → Acquired S y (or_else (try_dynamic c now net y excl_urls) next)
    then_dynamic y next l w s f =
        let (k, w') = try_dynamic-Finds y w in
        or_else-Acquired S c now _ y _ next k w'
          (λ p h.
            dynamic (subst (λ (m : List (Text × DynamicStat)). Remote c now m excl_urls p) s h) l)
          (λ z v a b. f z v)

    then_static :
        (prefer : ℤ) (next : Exits → Exits × Outcome)
        → lets.lets_static ≡ true
        → IsWellFormed x
        → ((z : Exits) → IsWellFormed z → z.dynamic_stats ≡ x.dynamic_stats → Acquired S z (next z))
        → Acquired S x (or_else (try_static c now x prefer excl) next)
    then_static prefer next l w f =
        or_else-Acquired S c now _ x _ next (try_static-Search c now x prefer excl)
          (try_static-IsWellFormed c now x prefer excl w) (λ p h. static h l) (λ z v a b. f z v b)

  last_resort-Acquired :
      (x y : Exits)
      → IsWellFormed y
      → Acquired
          (Allowed (ways_of auto c x) c now x excl excl_urls)
          y
          (last_resort c now (has_pool c x) excl y)
  unfolding last_resort
  last_resort-Acquired x y w = elim (Bool-cases (has_pool c x && not c.fallback_direct)) [
    | inl e ↦ rw (e, last_resort) (give_up-Acquired _ y w)
    | inr e ↦
        rw (e, last_resort)
          (take_direct-Acquired c now excl _ y w (λ h. directly refl (ground arith) h))
  ]

  mode-Acquired :
      (m : ProxyMode) (x : Exits) (prefer : ℤ)
      → IsWellFormed x
      → Acquired
          (Allowed (ways_of m c x) c now x excl excl_urls)
          x
          (acquire_in_mode m c now net x prefer excl excl_urls)
  unfolding acquire_in_mode
  mode-Acquired direct_only x prefer w =
      take_direct-Acquired c now excl _ x w (λ h. directly refl refl h)
  mode-Acquired static_only x prefer w =
      then_static _ x prefer give_up refl w (λ z v s. give_up-Acquired _ z v)
  mode-Acquired dynamic_only x prefer w =
      then_dynamic _ x x give_up refl w refl (λ z v. give_up-Acquired _ z v)
  mode-Acquired pool_only x prefer w =
      then_static _ x prefer _ refl w
        (λ z v s. then_dynamic _ x z give_up refl v s (λ z' v'. give_up-Acquired _ z' v'))
  mode-Acquired auto x prefer w =
      then_static _ x prefer _ refl w
        (λ z v s. then_dynamic _ x z _ refl v s (λ z' v'. last_resort-Acquired x z' v'))

  -- From a well-formed state a call either returns an exit, having added one request to the slot
  -- of that exit and to no other, or refuses and leaves every slot's count as it was; the state
  -- stays well-formed. The exit is a proxy of the pool that is enabled, not broken and not excluded,
  -- unless the mode is dynamic_only or direct_only; or a remote one with a negative identifier whose
  -- address is neither excluded nor cooling, unless the mode is static_only or direct_only; or the
  -- direct connection, not excluded, where the mode and the configuration let requests out directly.
  pub acquire_slot_except-Acquired :
      (x : Exits) (prefer : ℤ)
      → IsWellFormed x
      → Acquired
          (Allowed (ways c x) c now x excl excl_urls)
          x
          (acquire_slot_except c now net x prefer excl excl_urls)
  unfolding acquire_slot_except
  acquire_slot_except-Acquired x prefer w =
      subst
        (λ lets.
          Acquired (Allowed lets c now x excl excl_urls) x
            (acquire_slot_except c now net x prefer excl excl_urls))
        (ways-named c x) (mode-Acquired (proxy_mode_of c.proxy_mode) x prefer w)
