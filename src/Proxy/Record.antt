-- ===== src/Proxy/Record.antt =====
-- internal/app/proxy.go: writing the outcome of a request back, in memory and in the table
-- `proxies`. `written` says whether the database took the update, whose error the program drops.
use Prim.Native.Nat.{ℕ, ◌+◌}
use mathlib.Core.Bool.{Bool}
use mathlib.Core.List.{List, [], ◌∷◌}
use mathlib.Core.Option.{none, some}
use gemini_web2api_go.Base.Int.{int_eq, pos, ℤ}
use gemini_web2api_go.Base.Tests.{if◌then◌else◌, nat_eq, ◌==◌}
use gemini_web2api_go.Base.Text.{Text, text_eq}
use gemini_web2api_go.Config.{RuntimeConfig}
use gemini_web2api_go.Proxy.{Exits, Proxy, clear_sticky_proxy, proxy_fail_threshold}
use gemini_web2api_go.Proxy.Dynamic.{
  force_dynamic_proxy_cooldown, is_dynamic_slot, record_dynamic_proxy_result,
}

-- The row of `UPDATE proxies SET fail_count=…, last_used=?, last_error=…`.
unfoldable pub noted_proxy : ℕ → Bool → Text → Proxy → Proxy
noted_proxy now success err p =
    if success
    then record p { last_used = now; fail_count = 0; last_error = [] }
    else record p { last_used = now; fail_count = p.fail_count + 1; last_error = err }

unfoldable pub cooled_proxy : ℕ → ℕ → Text → Proxy → Proxy
cooled_proxy threshold now err p = record p {
  last_used = now;
  fail_count = threshold;
  last_error = err;
}

-- `UPDATE … WHERE id=?`: every row with the identifier.
unfoldable pub update_where : (Proxy → Proxy) → ℤ → List Proxy → List Proxy
update_where f i [] = []
update_where f i (p ∷ ps) = (if p.id == i then f p else p) ∷ update_where f i ps

-- The loop over `proxyCache` with its `break`: the first proxy with the identifier.
unfoldable pub update_first : (Proxy → Proxy) → ℤ → List Proxy → List Proxy
update_first f i [] = []
update_first f i (p ∷ ps) = if p.id == i then f p ∷ ps else p ∷ update_first f i ps

unfoldable pub update_exit : Bool → (Proxy → Proxy) → ℤ → Exits → Exits
unfolding update_where update_first
update_exit written f i x = record x {
  table = if written then update_where f i x.table else x.table;
  cache = update_first f i x.cache;
}

-- `recordProxyResult`; the report to the remote pool is sent on another thread.
unfoldable pub record_proxy_result : RuntimeConfig → ℕ → Bool → Exits → ℤ → Bool → Text → Exits
unfolding update_exit noted_proxy
record_proxy_result c now written x i success err =
    if i == pos 0
    then x
    else let x' = if success then x else clear_sticky_proxy x in
      elim (is_dynamic_slot x' i) [
        | some u ↦ record_dynamic_proxy_result c now x' u success err
        | none ↦ update_exit written (noted_proxy now success err) i x'
      ]

-- `forceProxyCooldown`
unfoldable pub force_proxy_cooldown : RuntimeConfig → ℕ → Bool → Exits → ℤ → Text → Exits
unfolding update_exit cooled_proxy
force_proxy_cooldown c now written x i err =
    if i == pos 0
    then x
    else let x' = clear_sticky_proxy x in
      elim (is_dynamic_slot x' i) [
        | some u ↦ force_dynamic_proxy_cooldown c now x' u err
        | none ↦ update_exit written (cooled_proxy (proxy_fail_threshold c) now err) i x'
      ]
