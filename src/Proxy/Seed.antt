-- ===== src/Proxy/Seed.antt =====
-- internal/app/proxy.go: the proxy of the configuration, taken into the pool at the start.
-- `written` and `number` are `strconv.FormatInt` and `strconv.ParseInt` in base 10, and
-- `proxy_member` is the text under `proxy` in a JSON object, if there is one.
use Prim.Native.Nat.{ℕ}
use mathlib.Core.Bool.{not, ◌||◌}
use mathlib.Core.List.{[], ◌∷◌}
use mathlib.Core.Option.{Option, none, some}
use gemini_web2api_go.Base.Dict.{lookup, put}
use gemini_web2api_go.Base.Int.{int_eq, is_positive, pos, ℤ}
use gemini_web2api_go.Base.Tests.{if◌then◌else◌, nat_eq, ◌==◌}
use gemini_web2api_go.Base.Text.{Text, codes, is_empty, text_eq, trim_space}
use gemini_web2api_go.Proxy.{find_first, pool_has_proxy_url}
use gemini_web2api_go.Proxy.Edit.{
  Database, ProxyStore, bad_scheme, created, incomplete, not_inserted, proxy_create, proxy_delete,
}

abbrev pub legacy_proxy_key : Text
legacy_proxy_key = codes "legacy_static_proxy_migrated"

abbrev pub seeded_proxy_id_key : Text
seeded_proxy_id_key = codes "seeded_proxy_id"

abbrev pub seeded_proxy_url_key : Text
seeded_proxy_url_key = codes "seeded_proxy_url"

abbrev pub runtime_config_key : Text
runtime_config_key = codes "runtime_config"

-- 启动参数, in UTF-8.
abbrev pub seeded_name : Text
seeded_name = 0xe5 ∷ 0x90 ∷ 0xaf ∷ 0xe5 ∷ 0x8a ∷ 0xa8 ∷ 0xe5 ∷ 0x8f ∷ 0x82 ∷ 0xe6 ∷ 0x95 ∷ 0xb0 ∷ []

-- 原静态代理, in UTF-8.
abbrev pub legacy_name : Text
legacy_name =
    0xe5 ∷ 0x8e ∷ 0x9f ∷ 0xe9 ∷ 0x9d ∷ 0x99 ∷ 0xe6 ∷ 0x80 ∷ 0x81 ∷ 0xe4 ∷ 0xbb ∷ 0xa3 ∷ 0xe7 ∷ 0x90
    ∷ 0x86 ∷ []

unfoldable pub setting : ProxyStore → Text → Text
setting s k = elim (lookup k s.kv) [ none ↦ [] | some v ↦ v ]

unfoldable pub set_setting : ProxyStore → Text → Text → ProxyStore
set_setting s k v = record s { kv = put k v s.kv }

-- `legacyStaticProxy`
unfoldable pub legacy_static_proxy : (Text → Option Text) → ProxyStore → Text
legacy_static_proxy proxy_member s =
    let raw = setting s runtime_config_key in
    if is_empty raw then [] else elim (proxy_member raw) [ none ↦ [] | some v ↦ v ]

-- `migrateLegacyStaticProxy`
unfoldable pub migrate_legacy_static_proxy :
    (Text → Option Text) → Database → ℕ → ProxyStore → ProxyStore
migrate_legacy_static_proxy proxy_member db now s =
    if setting s legacy_proxy_key == codes "1"
    then s
    else let v = trim_space (legacy_static_proxy proxy_member s) in
      if is_empty v || pool_has_proxy_url s.exits.cache v
      then set_setting s legacy_proxy_key (codes "1")
      else let (t, r) = proxy_create db now s legacy_name v (pos 1) in
        elim r [
          | created i ↦ set_setting t legacy_proxy_key (codes "1")
          | incomplete ↦ t
          | bad_scheme ↦ t
          | not_inserted ↦ t
        ]

-- `dropSeededProxy`
unfoldable pub drop_seeded_proxy : (Text → Option ℤ) → Database → ProxyStore → Text → ProxyStore
drop_seeded_proxy number db s prev =
    let id_text = setting s seeded_proxy_id_key in
    if is_empty id_text || is_empty prev then s else elim (number id_text) [
      | none ↦ s
      | some i ↦
          if not (is_positive i) then s else elim (find_first (λ p. p.id == i) s.exits.cache) [
            | none ↦ s
            | some p ↦ if p.url == prev then (proxy_delete db s i).0 else s
          ]
    ]

abbrev pub set_seeded_proxy : ProxyStore → Text → Text → ProxyStore
set_seeded_proxy s url id_text =
    set_setting (set_setting s seeded_proxy_url_key url) seeded_proxy_id_key id_text

-- `syncSeededProxy`, where `configured` is `cfg.Proxy`.
unfoldable pub sync_seeded_proxy :
    (Text → Option ℤ) → (ℤ → Text) → Database → ℕ → Text → ProxyStore → ProxyStore
sync_seeded_proxy number written db now configured s =
    let url = trim_space configured in
    let prev = setting s seeded_proxy_url_key in
    if url == prev
    then s
    else let s' = drop_seeded_proxy number db s prev in
      if is_empty url
      then set_seeded_proxy s' [] []
      else if pool_has_proxy_url s'.exits.cache url
      then set_seeded_proxy s' url []
      else let (t, r) = proxy_create db now s' seeded_name url (pos 1) in
        elim r [
          | created i ↦ set_seeded_proxy t url (written i)
          | incomplete ↦ t
          | bad_scheme ↦ t
          | not_inserted ↦ t
        ]

-- `seedProxiesFromConfig`
unfoldable pub seed_proxies_from_config :
    (Text → Option Text)
    → (Text → Option ℤ)
    → (ℤ → Text)
    → Database
    → ℕ
    → Text
    → ProxyStore
    → ProxyStore
seed_proxies_from_config proxy_member number written db now configured s =
    sync_seeded_proxy number written db now configured
      (migrate_legacy_static_proxy proxy_member db now s)
