-- ===== src/Acquire.antt =====
-- internal/app/gemini.go: the exit of one request, `acquireSlotExcept` and the remote pool behind
-- it. What the remote pool answers is a parameter. The clock is read once in a call.
pub mod Remote
pub mod WellFormed
pub mod RemoteLaws
pub mod StaticLaws
pub mod Laws
pub mod Ways
pub mod Choice
pub mod Guarantees
use Prim.Native.Nat.{ℕ}
use mathlib.Core.Bool.{Bool, false, not, true, ◌&&◌, ◌||◌}
use mathlib.Core.List.{List, [], ◌++◌, ◌∷◌}
use mathlib.Core.Option.{Option, none, some}
use gemini_web2api_go.Acquire.Remote.{Answer, fetch_or_sticky_remote_proxy_except, made_proxy}
use gemini_web2api_go.Base.Int.{int_eq, negsuc, pos, ℤ}
use gemini_web2api_go.Base.Tests.{if◌then◌else◌, nat_eq, ◌==◌}
use gemini_web2api_go.Base.Text.{Text, codes, is_empty, text_eq}
use gemini_web2api_go.Config.{RuntimeConfig}
use gemini_web2api_go.Proxy.{Exits, Proxy, is_excluded}
use gemini_web2api_go.Proxy.Pick.{acquire_exit, pick_proxy_preferring_except}
use gemini_web2api_go.RateLimit.{
  Reason, concurrent, denied, excluded, granted, rph, rpm, slot_release,
}

-- `RateLimitError`, without the display name of the refused exit.
pub record RateLimitError : Type 0 where
  pub reason : Reason
  pub proxy_id : ℤ

abbrev reason_text : Reason → Text
reason_text concurrent = codes "concurrent"
reason_text rpm = codes "rpm"
reason_text rph = codes "rph"
reason_text excluded = codes "excluded"

-- `Error`
unfoldable pub refusal_text : RateLimitError → Text
refusal_text e =
    if e.proxy_id == pos 0
    then codes "direct IP slot full: "
      ++ (reason_text e.reason ++ codes " limit reached (configure proxies to scale)")
    else codes "all proxy slots full: " ++ (reason_text e.reason ++ codes " limit reached")

pub data Outcome : Type 0 where
  taken : Proxy → Outcome
  refused : RateLimitError → Outcome

abbrev pub refuse : Reason → ℤ → Outcome
refuse r i = refused (record { reason = r; proxy_id = i })

-- 直连, in UTF-8.
abbrev pub direct_name : Text
direct_name = 0xe7 ∷ 0x9b ∷ 0xb4 ∷ 0xe8 ∷ 0xbf ∷ 0x9e ∷ []

abbrev pub direct : Proxy
direct = made_proxy (pos 0) direct_name [] false

-- The cases of `switch mode`; every other text is `auto`.
pub data ProxyMode : Type 0 where
  direct_only static_only dynamic_only pool_only auto : ProxyMode

unfoldable pub proxy_mode_of : Text → ProxyMode
proxy_mode_of t =
    if t == codes "direct_only"
    then direct_only
    else if t == codes "static_only"
    then static_only
    else if t == codes "dynamic_only"
    then dynamic_only
    else if t == codes "pool_only"
    then pool_only
    else auto

-- The direct connection: `excludedIDs[0]`, then its slot.
unfoldable pub take_direct : RuntimeConfig → ℕ → Exits → List ℤ → Exits × Outcome
take_direct c now x excl =
    if is_excluded (pos 0) excl
    then (x, refuse excluded (pos 0))
    else let (x', v) = acquire_exit c now x (pos 0) in
      (x', elim v [ granted ↦ taken direct | denied r ↦ refuse r (pos 0) ])

-- `if hasProxies { if p, ok := pickProxyPreferringExcept(…); ok { return p, true, nil } }`
unfoldable pub try_static : RuntimeConfig → ℕ → Exits → ℤ → List ℤ → Exits × Option Proxy
try_static c now x prefer excl = elim x.cache [
  | [] ↦ (x, none)
  | p ∷ ps ↦ pick_proxy_preferring_except c now x prefer excl
]

-- `if hasPoolURL { if p, ok := fetchOrStickyRemoteProxyExcept(…); ok { return p, true, nil } }`
unfoldable pub try_dynamic :
    RuntimeConfig → ℕ → (ℕ → Text → Answer) → Exits → List Text → Exits × Option Proxy
try_dynamic c now net x excl_urls =
    if is_empty c.proxy_pool_url
    then (x, none)
    else fetch_or_sticky_remote_proxy_except c now net x c.proxy_pool_url excl_urls

-- What follows a search: its exit, or the next way out.
abbrev pub or_else : Exits × Option Proxy → (Exits → Exits × Outcome) → Exits × Outcome
or_else (x, some p) next = (x, taken p)
or_else (x, none) next = next x

abbrev pub give_up : Exits → Exits × Outcome
give_up x = (x, refuse rph (negsuc 0))

-- `hasProxies || hasPoolURL`
abbrev pub has_pool : RuntimeConfig → Exits → Bool
has_pool c x = not (elim x.cache [ [] ↦ true | p ∷ ps ↦ false ]) || not (is_empty c.proxy_pool_url)

-- The end of the `auto` branch; `pooled` is `hasProxies || hasPoolURL`.
unfoldable pub last_resort : RuntimeConfig → ℕ → Bool → List ℤ → Exits → Exits × Outcome
last_resort c now pooled excl x =
    if pooled && not c.fallback_direct then give_up x else take_direct c now x excl

unfoldable pub acquire_in_mode :
    ProxyMode
    → RuntimeConfig
    → ℕ
    → (ℕ → Text → Answer)
    → Exits
    → ℤ
    → List ℤ
    → List Text
    → Exits × Outcome
acquire_in_mode direct_only c now net x prefer excl excl_urls = take_direct c now x excl
acquire_in_mode static_only c now net x prefer excl excl_urls =
    or_else (try_static c now x prefer excl) give_up
acquire_in_mode dynamic_only c now net x prefer excl excl_urls =
    or_else (try_dynamic c now net x excl_urls) give_up
acquire_in_mode pool_only c now net x prefer excl excl_urls =
    or_else (try_static c now x prefer excl)
      (λ x'. or_else (try_dynamic c now net x' excl_urls) give_up)
acquire_in_mode auto c now net x prefer excl excl_urls =
    or_else (try_static c now x prefer excl)
      (λ x'. or_else (try_dynamic c now net x' excl_urls) (last_resort c now (has_pool c x) excl))

-- `acquireSlotExcept`
unfoldable pub acquire_slot_except :
    RuntimeConfig → ℕ → (ℕ → Text → Answer) → Exits → ℤ → List ℤ → List Text → Exits × Outcome
acquire_slot_except c now net x prefer excl excl_urls =
    acquire_in_mode (proxy_mode_of c.proxy_mode) c now net x prefer excl excl_urls

-- `acquireSlot`
unfoldable pub acquire_slot : RuntimeConfig → ℕ → (ℕ → Text → Answer) → Exits → ℤ → Exits × Outcome
acquire_slot c now net x prefer = acquire_slot_except c now net x prefer [] []

-- `releaseSlot`
unfoldable pub release_slot : Exits → ℤ → Exits
release_slot x i = record x { slots = slot_release x.slots i }
