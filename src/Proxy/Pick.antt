-- ===== src/Proxy/Pick.antt =====
-- internal/app/proxy.go: choosing an exit from the static pool. The clock is read once in a call.
use Prim.Native.Nat.{suc, zero, ℕ, ◌%◌, ◌+◌, ◌^◌}
use mathlib.Core.Bool.{Bool, not, ◌&&◌}
use mathlib.Core.List.{List, [], ◌∷◌}
use mathlib.Core.Option.{Option, none, some}
use gemini_web2api_go.Base.Int.{int_eq, is_positive, pos, ℤ}
use gemini_web2api_go.Base.Lists.{get_elem?, keep, length}
use gemini_web2api_go.Base.Tests.{if◌then◌else◌, nat_eq, ◌==◌}
use gemini_web2api_go.Base.Text.{codes, is_empty, text_eq}
use gemini_web2api_go.Config.{RuntimeConfig}
use gemini_web2api_go.Proxy.{Exits, Proxy, find_first, is_excluded, proxy_usable, set_sticky_proxy}
use gemini_web2api_go.RateLimit.{Verdict, denied, granted, try_slot_acquire}

-- `rtCfg().ProxyStrategy == "sticky"`
abbrev pub is_sticky : RuntimeConfig → Bool
is_sticky c = c.proxy_strategy == codes "sticky"

-- The slice `pool`: neither excluded nor out of use.
unfoldable pub usable_pool : RuntimeConfig → ℕ → List ℤ → List Proxy → List Proxy
usable_pool c now excl = keep (λ p. not (is_excluded p.id excl) && proxy_usable c now p)

-- `trySlotAcquire(p.ID)` on the exits' slots.
unfoldable pub acquire_exit : RuntimeConfig → ℕ → Exits → ℤ → Exits × Verdict
acquire_exit c now x i =
    let (after, v) = try_slot_acquire c now x.slots i in (record x { slots = after }, v)

-- `if ok, _ := trySlotAcquire(p.ID); ok { …; return p, true }`, where `won` is what the body does
-- to the state and `lost` is what follows the `if`.
unfoldable pub attempt_exit :
    RuntimeConfig
    → ℕ
    → Exits
    → Proxy
    → (Exits → Exits)
    → (Exits → Exits × Option Proxy)
    → Exits × Option Proxy
attempt_exit c now x p won lost =
    let (x', v) = acquire_exit c now x p.id in
    elim v [ granted ↦ (won x', some p) | denied r ↦ lost x' ]

-- The exit that one of the two searches by identifier or address found.
unfoldable pub try_found : RuntimeConfig → ℕ → Exits → Option Proxy → Exits × Option Proxy
try_found c now x none = (x, none)
try_found c now x (some p) = attempt_exit c now x p (λ y. y) (λ y. (y, none))

-- The bound exit, where one is preferred.
unfoldable pub preferred : List Proxy → ℤ → List ℤ → Option Proxy
preferred pool prefer excl =
    if is_positive prefer && not (is_excluded prefer excl)
    then find_first (λ p. p.id == prefer) pool
    else none

-- The last exit that worked, where none is preferred and the strategy is `sticky`.
unfoldable pub stuck_to : RuntimeConfig → Exits → List Proxy → ℤ → List ℤ → Option Proxy
stuck_to c x pool prefer excl =
    if not (is_positive prefer)
      && is_sticky c
      && (not (is_empty x.sticky.sticky_url) && not (is_excluded x.sticky.sticky_id excl))
    then find_first (λ p. p.url == x.sticky.sticky_url) pool
    else none

-- `if rtCfg().ProxyStrategy == "sticky" { setStickyProxy(p.URL, p.ID, p.Name) }`
unfoldable pub stick : RuntimeConfig → Exits → Proxy → Exits
stick c x p = if is_sticky c then set_sticky_proxy x p.url p.id p.name else x

-- The loop from the cursor's position: `rounds` are left, and `i` is the loop variable.
unfoldable pub take_turns :
    RuntimeConfig → ℕ → List Proxy → ℕ → ℕ → ℕ → Exits → Exits × Option Proxy
take_turns c now pool start i zero x = (x, none)
take_turns c now pool start i (suc rounds) x = elim (get_elem? pool ((start + i) % length pool)) [
  | none ↦ (x, none)
  | some p ↦ attempt_exit c now x p (λ y. stick c y p) (take_turns c now pool start (i + 1) rounds)
]

-- `atomic.AddUint64(&proxyCursor, 1)`
unfoldable pub advance : Exits → Exits
advance x = record x { cursor = (x.cursor + 1) % 2 ^ 64 }

-- A search, and the next one where the first found no exit.
infixl 5 ◌orelse◌
abbrev pub ◌orelse◌ : Exits × Option Proxy → (Exits → Exits × Option Proxy) → Exits × Option Proxy
(x, some p) orelse next = (x, some p)
(x, none) orelse next = next x

-- The three searches of `pickProxyPreferringExcept` over its slice `pool`.
unfoldable pub pick_from :
    RuntimeConfig → ℕ → Exits → List Proxy → ℤ → List ℤ → Exits × Option Proxy
pick_from c now x pool prefer excl =
    try_found c now x (preferred pool prefer excl)
    orelse (λ x'. try_found c now x' (stuck_to c x' pool prefer excl))
    orelse (λ x'. take_turns c now pool x'.cursor 0 (length pool) (advance x'))

-- `pickProxyPreferringExcept`
unfoldable pub pick_proxy_preferring_except :
    RuntimeConfig → ℕ → Exits → ℤ → List ℤ → Exits × Option Proxy
pick_proxy_preferring_except c now x prefer excl = elim (usable_pool c now excl x.cache) [
  | [] ↦ (x, none)
  | p ∷ ps ↦ pick_from c now x (p ∷ ps) prefer excl
]

-- `pickProxyPreferring` and `pickProxyWithCapacity`
unfoldable pub pick_proxy_preferring : RuntimeConfig → ℕ → Exits → ℤ → Exits × Option Proxy
pick_proxy_preferring c now x prefer = pick_proxy_preferring_except c now x prefer []

unfoldable pub pick_proxy_with_capacity : RuntimeConfig → ℕ → Exits → Exits × Option Proxy
pick_proxy_with_capacity c now x = pick_proxy_preferring c now x (pos 0)
