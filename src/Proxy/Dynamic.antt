-- ===== src/Proxy/Dynamic.antt =====
-- internal/app/proxy.go: the exits that a remote pool hands out, with their slots' identifiers
-- and their circuit breaker.
use Prim.Native.Nat.{ℕ, ◌*◌, ◌+◌}
use mathlib.Core.Bool.{Bool, false, not, ◌&&◌}
use mathlib.Core.List.{List, [], ◌∷◌}
use mathlib.Core.Option.{Option, none, some}
use gemini_web2api_go.Base.Dict.{lookup, put}
use gemini_web2api_go.Base.Int.{int_eq, is_positive, pos_part, pred_neg, ℤ}
use gemini_web2api_go.Base.Lists.{length}
use gemini_web2api_go.Base.Tests.{if◌then◌else◌, ltb, nat_eq, ◌==◌}
use gemini_web2api_go.Base.Text.{Text, is_empty, text_eq}
use gemini_web2api_go.Config.{RuntimeConfig}
use gemini_web2api_go.Proxy.{DynamicStat, Exits, proxy_fail_threshold}

-- `getDynamicSlotID`
unfoldable pub get_dynamic_slot_id : Exits → Text → Exits × ℤ
get_dynamic_slot_id x u = elim (lookup u x.dynamic_ids) [
  | some i ↦ (x, i)
  | none ↦ (
    record x {
      dynamic_ids = put u x.next_dynamic x.dynamic_ids;
      dynamic_urls = put x.next_dynamic u x.dynamic_urls;
      next_dynamic = pred_neg x.next_dynamic;
    },
    x.next_dynamic,
  )
]

-- `isDynamicSlot`
unfoldable pub is_dynamic_slot : Exits → ℤ → Option Text
is_dynamic_slot x i = lookup i x.dynamic_urls

abbrev pub fresh_stat : DynamicStat
fresh_stat = record { stat_fails = 0; stat_used = 0; stat_error = [] }

abbrev pub stat_of : Exits → Text → DynamicStat
stat_of x u = elim (lookup u x.dynamic_stats) [ none ↦ fresh_stat | some s ↦ s ]

-- The statistics of one exit after a result.
unfoldable pub noted_stat : ℕ → Bool → Text → DynamicStat → DynamicStat
noted_stat now success err s =
    if success
    then record { stat_fails = 0; stat_used = now; stat_error = [] }
    else record { stat_fails = s.stat_fails + 1; stat_used = now; stat_error = err }

-- The span in the sweep of `recordDynamicProxyResult`.
abbrev pub sweep_span : RuntimeConfig → ℕ
sweep_span c = if is_positive c.proxy_cooldown_min then pos_part c.proxy_cooldown_min * 60 else 7200

-- `now-v.lastUsed > cooldownSec*2 && v.failCount == 0`
abbrev pub is_stale : RuntimeConfig → ℕ → DynamicStat → Bool
is_stale c now s = ltb (s.stat_used + sweep_span c * 2) now && s.stat_fails == 0

unfoldable pub sweep : RuntimeConfig → ℕ → List (Text × DynamicStat) → List (Text × DynamicStat)
sweep c now [] = []
sweep c now ((u, s) ∷ m) = if is_stale c now s then sweep c now m else (u, s) ∷ sweep c now m

-- `recordDynamicProxyResult`
unfoldable pub record_dynamic_proxy_result : RuntimeConfig → ℕ → Exits → Text → Bool → Text → Exits
unfolding noted_stat sweep
record_dynamic_proxy_result c now x u success err =
    if is_empty u
    then x
    else let m = put u (noted_stat now success err (stat_of x u)) x.dynamic_stats in
      record x { dynamic_stats = if ltb 500 (length m) then sweep c now m else m }

-- `forceDynamicProxyCooldown`
unfoldable pub force_dynamic_proxy_cooldown : RuntimeConfig → ℕ → Exits → Text → Text → Exits
force_dynamic_proxy_cooldown c now x u err = if is_empty u then x else record x {
  dynamic_stats =
      put u (record { stat_fails = proxy_fail_threshold c; stat_used = now; stat_error = err })
        x.dynamic_stats;
}

abbrev pub cooling_stat : RuntimeConfig → ℕ → DynamicStat → Bool
cooling_stat c now s =
    if ltb s.stat_fails (proxy_fail_threshold c)
    then false
    else ltb now (s.stat_used + pos_part c.proxy_cooldown_min * 60)

-- `isDynamicProxyCooling`
unfoldable pub is_dynamic_proxy_cooling : RuntimeConfig → ℕ → Exits → Text → Bool
is_dynamic_proxy_cooling c now x u =
    if is_empty u
    then false
    else if not (is_positive c.proxy_cooldown_min)
    then false
    else elim (lookup u x.dynamic_stats) [ none ↦ false | some s ↦ cooling_stat c now s ]
