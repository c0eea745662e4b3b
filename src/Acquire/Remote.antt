-- ===== src/Acquire/Remote.antt =====
-- internal/app/proxy.go and gemini.go: an exit from the remote pool.
use Prim.Native.Nat.{suc, zero, ℕ, ◌+◌}
use mathlib.Core.Bool.{Bool, not, true, ◌&&◌, ◌||◌}
use mathlib.Core.List.{List, [], ◌++◌}
use mathlib.Core.Option.{Option, none, some}
use gemini_web2api_go.Base.Int.{int_eq, pos, ℤ}
use gemini_web2api_go.Base.Tests.{if◌then◌else◌, nat_eq, ◌==◌}
use gemini_web2api_go.Base.Text.{Text, codes, has_prefix, is_empty, text_eq, trim_right, trim_space}
use gemini_web2api_go.Config.{RuntimeConfig}
use gemini_web2api_go.Proxy.{Exits, Proxy, clear_sticky_proxy, is_excluded}
use gemini_web2api_go.Proxy.Dynamic.{get_dynamic_slot_id, is_dynamic_proxy_cooling, is_dynamic_slot}
use gemini_web2api_go.Proxy.Pick.{attempt_exit, is_sticky, stick, try_found, ◌orelse◌}

-- What a `GET` to the remote pool comes back with: no answer, or a status with the `url` of the
-- decoded item (`none` where the body is no such JSON).
pub data Answer : Type 0 where
  unreachable : Answer
  answered : ℕ → Option Text → Answer

-- `normalizePoolURL`
unfoldable pub normalize_pool_url : Text → Text
normalize_pool_url pool_url =
    let u = trim_space pool_url in
    if is_empty u
    then []
    else trim_right b'/' (
        if not (has_prefix u (codes "http://")) && not (has_prefix u (codes "https://"))
        then codes "http://" ++ u
        else u)

-- The reading of one answer: an error is `none`.
unfoldable pub item_url : Answer → Option Text
item_url unreachable = none
item_url (answered status none) = none
item_url (answered status (some u)) =
    if not (status == 200) then none else if is_empty u then none else some u

-- `fetchRemoteProxy`, for the answer to each address that it asks.
unfoldable pub fetch_remote_proxy : (Text → Answer) → Text → Option Text
unfolding normalize_pool_url item_url
fetch_remote_proxy get pool_url =
    let u = normalize_pool_url pool_url in
    if is_empty u then none else item_url (get (u ++ codes "/api/proxy"))

-- `Proxy{ID: i, Name: n, URL: u, Enabled: e}`
abbrev pub made_proxy : ℤ → Text → Text → Bool → Proxy
made_proxy i n u e = record {
  id = i;
  name = n;
  url = u;
  enabled = e;
  weight = pos 0;
  fail_count = 0;
  last_used = 0;
  last_error = [];
  created_at = 0;
}

abbrev pub remote_proxy : ℤ → Text → Text → Proxy
remote_proxy i n u = made_proxy i n u true

abbrev pub dynamic_name : Text → Text
dynamic_name u = codes "Dynamic (" ++ u ++ codes ")"

-- `excludedURLs[u] || isDynamicProxyCooling(u)`
abbrev pub is_barred : RuntimeConfig → ℕ → Exits → List Text → Text → Bool
is_barred c now x excl_urls u = is_excluded u excl_urls || is_dynamic_proxy_cooling c now x u

-- The sticky exit: `none` leaves the search to the loop below.
unfoldable pub stick_remote : RuntimeConfig → ℕ → Exits → List Text → Exits × Option Proxy
stick_remote c now x excl_urls =
    let s = x.sticky in
    if is_sticky c && not (is_empty s.sticky_url)
    then elim (is_dynamic_slot x s.sticky_id) [
      | none ↦ (x, none)
      | some u ↦
          if is_barred c now x excl_urls s.sticky_url
          then (clear_sticky_proxy x, none)
          else try_found c now x (some (remote_proxy s.sticky_id s.sticky_name s.sticky_url))
    ]
    else (x, none)

-- One exit that the remote pool offered: its slot is taken, or the loop goes on.
unfoldable pub try_remote : RuntimeConfig → ℕ → Exits → Text → Exits × Option Proxy
try_remote c now x u =
    let (x', i) = get_dynamic_slot_id x u in
    let p = remote_proxy i (dynamic_name u) u in
    attempt_exit c now x' p (λ y. stick c y p) (λ y. (y, none))

-- The loop over `fetchAttempt`, with `rounds` left.
unfoldable pub fetch_turns :
    RuntimeConfig
    → ℕ
    → (ℕ → Text → Answer)
    → Text
    → List Text
    → ℕ
    → ℕ
    → Exits
    → Exits × Option Proxy
fetch_turns c now net pool_url excl_urls attempt zero x = (x, none)
fetch_turns c now net pool_url excl_urls attempt (suc rounds) x =
    elim (fetch_remote_proxy (net attempt) pool_url) [
      | none ↦ (x, none)
      | some u ↦
          let rest = fetch_turns c now net pool_url excl_urls (attempt + 1) rounds in
          if is_empty u
          then (x, none)
          else if is_barred c now x excl_urls u
          then rest x
          else try_remote c now x u orelse rest
    ]

abbrev pub max_fetch_attempts : ℕ
max_fetch_attempts = 10

-- `fetchOrStickyRemoteProxyExcept`
unfoldable pub fetch_or_sticky_remote_proxy_except :
    RuntimeConfig → ℕ → (ℕ → Text → Answer) → Exits → Text → List Text → Exits × Option Proxy
fetch_or_sticky_remote_proxy_except c now net x pool_url excl_urls =
    stick_remote c now x excl_urls
    orelse fetch_turns c now net pool_url excl_urls 0 max_fetch_attempts
