-- ===== src/Proxy.antt =====
-- internal/app/proxy.go: the state of the exits, and when a proxy may be used. Times are Unix
-- seconds. The read-write locks make each operation of the children one step here.
pub mod Dynamic
pub mod Pick
pub mod Record
pub mod Room
pub mod PickLaws
pub mod Turns
pub mod Exhaust
pub mod Choice
pub mod Breaker
pub mod Edit
pub mod Seed
pub mod SeedLaws
pub mod Synced
pub mod Usage
use Prim.Native.Nat.{ℕ, ◌*◌, ◌+◌}
use mathlib.Core.Bool.{Bool, false, not, true, ◌||◌}
use mathlib.Core.List.{List, [], ◌∷◌}
use mathlib.Core.Option.{Option, none, some}
use gemini_web2api_go.Base.Int.{int_eq, is_positive, negsuc, pos, pos_part, ℤ}
use gemini_web2api_go.Base.Tests.{Comparable, if◌then◌else◌, leb, ltb, nat_eq, ◌==◌}
use gemini_web2api_go.Base.Text.{Text, text_eq}
use gemini_web2api_go.Config.{RuntimeConfig}
use gemini_web2api_go.RateLimit.{Slots}

-- `Proxy`; `fail_count` counts failures up from 0.
pub record Proxy : Type 0 where
  pub id : ℤ
  pub name : Text
  pub url : Text
  pub enabled : Bool
  pub weight : ℤ
  pub fail_count : ℕ
  pub last_used : ℕ
  pub last_error : Text
  pub created_at : ℕ

-- `dynamicProxyStat`
pub record DynamicStat : Type 0 where
  pub stat_fails : ℕ
  pub stat_used : ℕ
  pub stat_error : Text

-- `lastStickyURL`, `lastStickyID`, `lastStickyName`
pub record Sticky : Type 0 where
  pub sticky_url : Text
  pub sticky_id : ℤ
  pub sticky_name : Text

abbrev pub no_sticky : Sticky
no_sticky = record { sticky_url = []; sticky_id = pos 0; sticky_name = [] }

-- The package variables of proxy.go, with the rows of the table `proxies` in the order of their
-- identifiers and the slots of ratelimit.go.
pub record Exits : Type 0 where
  pub cache : List Proxy
  pub table : List Proxy
  pub cursor : ℕ
  pub sticky : Sticky
  pub dynamic_ids : List (Text × ℤ)
  pub dynamic_urls : List (ℤ × Text)
  pub next_dynamic : ℤ
  pub dynamic_stats : List (Text × DynamicStat)
  pub slots : Slots

abbrev pub empty_exits : Exits
empty_exits = record {
  cache = [];
  table = [];
  cursor = 0;
  sticky = no_sticky;
  dynamic_ids = [];
  dynamic_urls = [];
  next_dynamic = negsuc 999;
  dynamic_stats = [];
  slots = [];
}

-- `setStickyProxy`
unfoldable pub set_sticky_proxy : Exits → Text → ℤ → Text → Exits
set_sticky_proxy x u i n = record x {
  sticky = record { sticky_url = u; sticky_id = i; sticky_name = n };
}

-- `clearStickyProxy`
unfoldable pub clear_sticky_proxy : Exits → Exits
clear_sticky_proxy x = record x { sticky = no_sticky }

-- `proxyFailThreshold`
unfoldable pub proxy_fail_threshold : RuntimeConfig → ℕ
proxy_fail_threshold c = if is_positive c.retry_attempts then pos_part c.retry_attempts else 1

-- `proxyUsable`; `now-p.LastUsed >= cooldown` is an order between sums, so no clock underflows.
unfoldable pub proxy_usable : RuntimeConfig → ℕ → Proxy → Bool
unfolding proxy_fail_threshold
proxy_usable c now p =
    if not p.enabled
    then false
    else if ltb p.fail_count (proxy_fail_threshold c)
    then true
    else if not (is_positive c.proxy_cooldown_min)
    then false
    else leb (p.last_used + pos_part c.proxy_cooldown_min * 60) now

-- `excludedIDs[id]`, for a map that holds `true` at each identifier in the list.
unfoldable pub is_excluded {ℓ} : {K : Type ℓ} → ⦃e : Comparable K⦄ → K → List K → Bool
is_excluded k [] = false
is_excluded k (j ∷ js) = k == j || is_excluded k js

-- The first element that passes a test, as a `for` loop with `break` finds it.
unfoldable pub find_first {ℓ} : {A : Type ℓ} → (A → Bool) → List A → Option A
find_first f [] = none
find_first f (x ∷ xs) = if f x then some x else find_first f xs

-- `poolHasProxyURL`
unfoldable pub pool_has_proxy_url : List Proxy → Text → Bool
pool_has_proxy_url [] u = false
pool_has_proxy_url (p ∷ ps) u = p.url == u || pool_has_proxy_url ps u

-- The loop of `proxyNameByID`, `proxyURLByID` and `proxyUsableByID`.
unfoldable pub proxy_by_id : List Proxy → ℤ → Option Proxy
unfolding find_first
proxy_by_id cache i = if is_positive i then find_first (λ p. p.id == i) cache else none

unfoldable pub proxy_name_by_id : List Proxy → ℤ → Text
unfolding proxy_by_id
proxy_name_by_id cache i = elim (proxy_by_id cache i) [ none ↦ [] | some p ↦ p.name ]

unfoldable pub proxy_url_by_id : List Proxy → ℤ → Text
unfolding proxy_by_id
proxy_url_by_id cache i = elim (proxy_by_id cache i) [ none ↦ [] | some p ↦ p.url ]

unfoldable pub proxy_usable_by_id : RuntimeConfig → ℕ → List Proxy → ℤ → Bool
unfolding proxy_by_id proxy_usable
proxy_usable_by_id c now cache i = elim (proxy_by_id cache i) [
  | none ↦ false
  | some p ↦ proxy_usable c now p
]
