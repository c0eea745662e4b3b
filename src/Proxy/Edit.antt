-- ===== src/Proxy/Edit.antt =====
-- internal/app/proxy.go: the edits of the pool, each of which reads the table again.
use Prim.Native.Nat.{ℕ, ◌+◌}
use mathlib.Core.Bool.{Bool, false, not, true, ◌&&◌, ◌||◌}
use mathlib.Core.List.{List, [], ◌++◌, ◌∷◌}
use mathlib.Core.Option.{Option, none, some}
use gemini_web2api_go.Base.Int.{int_eq, is_positive, pos, ℤ}
use gemini_web2api_go.Base.Lists.{keep}
use gemini_web2api_go.Base.Tests.{if◌then◌else◌, nat_eq, ◌==◌}
use gemini_web2api_go.Base.Text.{Text, codes, has_prefix, is_empty, text_eq, to_lower}
use gemini_web2api_go.Proxy.{Exits, Proxy}
use gemini_web2api_go.Proxy.Record.{update_where}

-- The exits with the key-value table, and the identifier that the next row of `proxies` gets.
pub record ProxyStore : Type 0 where
  pub exits : Exits
  pub kv : List (Text × Text)
  pub next_proxy : ℕ

-- Whether the database takes the statement, and whether the rows can be read to the end.
pub record Database : Type 0 where
  pub takes : Bool
  pub reads : Bool

-- `loadProxies`: a pool that cannot be read in full stays as it was.
unfoldable pub load_proxies : Database → Exits → Exits
load_proxies db x = if db.reads then record x { cache = x.table } else x

abbrev pub set_table : Database → (List Proxy → List Proxy) → ProxyStore → ProxyStore
unfolding load_proxies
set_table db f s = record s {
  exits = load_proxies db (record (s.exits) { table = f s.exits.table });
}

-- `validateProxyURL`
unfoldable pub validate_proxy_url : Text → Bool
validate_proxy_url u =
    let low = to_lower u in
    has_prefix low (codes "http://")
    || has_prefix low (codes "https://")
    || has_prefix low (codes "socks5://")
    || has_prefix low (codes "socks5h://")

pub data Created : Type 0 where
  created : ℤ → Created
  incomplete bad_scheme not_inserted : Created

abbrev pub new_proxy : ℕ → ℕ → Text → Text → ℤ → Proxy
new_proxy i now name url weight = record {
  id = pos i;
  name = name;
  url = url;
  enabled = true;
  weight = if is_positive weight then weight else pos 1;
  fail_count = 0;
  last_used = 0;
  last_error = [];
  created_at = now;
}

-- `proxyCreate`
unfoldable pub proxy_create : Database → ℕ → ProxyStore → Text → Text → ℤ → ProxyStore × Created
proxy_create db now s name url weight =
    if is_empty name || is_empty url
    then (s, incomplete)
    else if not (validate_proxy_url url)
    then (s, bad_scheme)
    else if not db.takes
    then (s, not_inserted)
    else (
      set_table db (λ rows. rows ++ new_proxy s.next_proxy now name url weight ∷ [])
          (record s { next_proxy = s.next_proxy + 1 }),
      created (pos s.next_proxy),
    )

-- The row after `proxyUpdate`, whose empty and missing arguments leave a column as it is.
unfoldable pub edited_proxy : Text → Text → Option Bool → Option ℤ → Proxy → Proxy
edited_proxy name url enabled weight p = record p {
  name = if is_empty name then p.name else name;
  url = if is_empty url then p.url else url;
  enabled = elim enabled [ none ↦ p.enabled | some b ↦ b ];
  weight = elim weight [ none ↦ p.weight | some w ↦ w ];
}

abbrev pub is_none {ℓ} : {A : Type ℓ} → Option A → Bool
is_none none = true
is_none (some a) = false

-- `proxyUpdate`; `false` is its error.
unfoldable pub proxy_update :
    Database → ProxyStore → ℤ → Text → Text → Option Bool → Option ℤ → ProxyStore × Bool
unfolding update_where
proxy_update db s i name url enabled weight =
    if is_empty name && is_empty url && is_none enabled && is_none weight
    then (s, true)
    else if not db.takes
    then (s, false)
    else (set_table db (update_where (edited_proxy name url enabled weight) i) s, true)

-- `proxyDelete`; `false` is its error.
unfoldable pub proxy_delete : Database → ProxyStore → ℤ → ProxyStore × Bool
proxy_delete db s i =
    if not db.takes then (s, false) else (set_table db (keep (λ p. not (p.id == i))) s, true)

-- `proxyResetFailures`; `false` is its error.
unfoldable pub proxy_reset_failures : Database → ProxyStore → ℤ → ProxyStore × Bool
unfolding update_where
proxy_reset_failures db s i =
    if not db.takes
    then (s, false)
    else (set_table db (update_where (λ p. record p { fail_count = 0; last_error = [] }) i) s, true)
