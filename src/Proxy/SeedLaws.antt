-- ===== src/Proxy/SeedLaws.antt =====
-- Taking the proxy of the configuration into the pool, again and again.
use Prim.Native.Nat.{ℕ, ◌+◌}
use mathlib.Core.Bool.{Bool, false, true, ◌||◌}
use mathlib.Core.List.{List, [], ◌++◌, ◌∷◌}
use mathlib.Core.Logic.{inl, inr}
use mathlib.Core.Option.{Option}
use mathlib.Core.Path.{ap, refl, subst, sym, ◌∙◌, ◌≡◌}
use native.Mathlib.Omega.{arith}
use gemini_web2api_go.Base.Dict.{lookup-put}
use gemini_web2api_go.Base.Int.{int_eq, pos, ℤ}
use gemini_web2api_go.Base.Tests.{Bool-cases, if◌then◌else◌, nat_eq, ◌==◌}
use gemini_web2api_go.Base.Text.{Text, is_empty, text_beq, text_beq_iff, text_eq, trim_space}
use gemini_web2api_go.Proxy.{Proxy, pool_has_proxy_url}
use gemini_web2api_go.Proxy.Edit.{
  Created, Database, ProxyStore, bad_scheme, created, incomplete, load_proxies, new_proxy,
  not_inserted, proxy_create, set_table, validate_proxy_url,
}
use gemini_web2api_go.Proxy.Seed.{
  drop_seeded_proxy, seeded_name, seeded_proxy_id_key, seeded_proxy_url_key, set_seeded_proxy,
  set_setting, setting, sync_seeded_proxy,
}

setting-set :
    (s : ProxyStore) (k j v : Text)
    → setting (set_setting s k v) j ≡ (if k == j then v else setting s j)
unfolding setting set_setting
setting-set s k j v = elim (Bool-cases (k == j)) [
  | inl e ↦ rw (setting, lookup-put k j v s.kv, e)
  | inr e ↦ rw (setting, lookup-put k j v s.kv, e)
]

has-appended : (rows : List Proxy) (p : Proxy) → pool_has_proxy_url (rows ++ p ∷ []) p.url ≡ true
unfolding pool_has_proxy_url
has-appended [] p = rw ((text_beq_iff p.url p.url).1 refl)
has-appended (q ∷ rows) p = rw (has-appended rows p) (ground arith)

set_seeded_proxy-url :
    (s : ProxyStore) (url i : Text) → setting (set_seeded_proxy s url i) seeded_proxy_url_key ≡ url
unfolding text_beq
set_seeded_proxy-url s url i = rw (
  setting-set (set_setting s seeded_proxy_url_key url) seeded_proxy_id_key seeded_proxy_url_key i,
  setting-set s seeded_proxy_url_key seeded_proxy_url_key url,
)

set_seeded_proxy-exits :
    (s : ProxyStore) (url i : Text) → (set_seeded_proxy s url i).exits ≡ s.exits
unfolding set_setting
set_seeded_proxy-exits s url i = refl

module _ (db : Database) (now : ℕ) (name url : Text) where
  created_store : ProxyStore → ProxyStore
  unfolding load_proxies
  created_store s =
      set_table db (λ rows. rows ++ new_proxy s.next_proxy now name url (pos 1) ∷ [])
        (record s { next_proxy = s.next_proxy + 1 })

  create-inserts :
      (s : ProxyStore)
      → is_empty name ≡ false
      → is_empty url ≡ false
      → validate_proxy_url url ≡ true
      → db.takes ≡ true
      → proxy_create db now s name url (pos 1) ≡ (created_store s, created (pos s.next_proxy))
  unfolding proxy_create created_store
  create-inserts s a b v d = rw (proxy_create, a, b, v, d)

  created_store-has :
      (s : ProxyStore)
      → db.reads ≡ true
      → pool_has_proxy_url (created_store s).exits.cache url ≡ true
  unfolding created_store load_proxies
  created_store-has s r =
      rw r (has-appended s.exits.table (new_proxy s.next_proxy now name url (pos 1)))

module _ (number : Text → Option ℤ) (written : ℤ → Text) (configured : Text) where
  -- The state after a start with another proxy than before.
  abbrev Follows : ProxyStore → Type 0
  Follows t =
      (setting t seeded_proxy_url_key ≡ trim_space configured)
      × ((is_empty (trim_space configured)
            || pool_has_proxy_url t.exits.cache (trim_space configured))
          ≡ true)

  set-Follows :
      (t : ProxyStore) (url i : Text)
      → url ≡ trim_space configured
      → (is_empty url || pool_has_proxy_url t.exits.cache url) ≡ true
      → Follows (set_seeded_proxy t url i)
  set-Follows t url i e h =
      subst
        (λ (u : Text).
          (setting (set_seeded_proxy t url i) seeded_proxy_url_key ≡ u)
          × ((is_empty u || pool_has_proxy_url (set_seeded_proxy t url i).exits.cache u) ≡ true))
        e (set_seeded_proxy-url t url i, rw (set_seeded_proxy-exits t url i) h)

  stored : Text → ProxyStore × Created → ProxyStore
  stored url r = elim r.1 [
    | created i ↦ set_seeded_proxy r.0 url (written i)
    | incomplete ↦ r.0
    | bad_scheme ↦ r.0
    | not_inserted ↦ r.0
  ]

  empty-nil : (u : Text) → is_empty u ≡ true → [] ≡ u
  empty-nil [] e = refl
  empty-nil (c ∷ u) e = cc e

  or_true : (a b : Bool) → b ≡ true → (a || b) ≡ true
  or_true a b h = ground arith

  sync-Follows :
      (db : Database) (now : ℕ) (s : ProxyStore)
      → validate_proxy_url (trim_space configured) ≡ true
      → db.takes ≡ true
      → db.reads ≡ true
      → (trim_space configured == setting s seeded_proxy_url_key) ≡ false
      → Follows (sync_seeded_proxy number written db now configured s)
  unfolding sync_seeded_proxy stored
  sync-Follows db now s v d r ne =
      let url = trim_space configured in
      let s' = drop_seeded_proxy number db s (setting s seeded_proxy_url_key) in
      let start = sync_seeded_proxy number written db now configured s in
      elim (Bool-cases (is_empty url)) [
        | inl e ↦
            let same : start ≡ set_seeded_proxy s' [] [] = rw (sync_seeded_proxy, ne, e) in
            subst Follows (sym same) (set-Follows s' [] [] (empty-nil url e) refl)
        | inr e ↦ elim (Bool-cases (pool_has_proxy_url s'.exits.cache url)) [
          | inl h ↦
              let same : start ≡ set_seeded_proxy s' url [] = rw (sync_seeded_proxy, ne, e, h) in
              subst Follows (sym same) (set-Follows s' url [] refl (or_true (is_empty url) _ h))
          | inr h ↦
              let t = created_store db now seeded_name url s' in
              let same : start ≡ stored url (proxy_create db now s' seeded_name url (pos 1)) =
                rw (sync_seeded_proxy, ne, e, h) in
              let made = create-inserts db now seeded_name url s' refl e v d in
              subst Follows (sym (same ∙ ap (stored url) made)) (
                set-Follows t url (written (pos s'.next_proxy)) refl
                  (or_true (is_empty url) _ (created_store-has db now seeded_name url s' r)))
        ]
      ]

  sync-same :
      (db : Database) (now : ℕ) (s : ProxyStore)
      → setting s seeded_proxy_url_key ≡ trim_space configured
      → sync_seeded_proxy number written db now configured s ≡ s
  unfolding sync_seeded_proxy
  sync-same db now s h =
      rw (
        sync_seeded_proxy,
        h,
        (text_beq_iff (trim_space configured) (trim_space configured)).1 refl,
      )

  -- A start with a proxy in the configuration that has a known scheme, whose statements the database
  -- takes and whose rows it reads: unless the proxy is the one taken over last, the pool has it
  -- afterwards, or the configuration has none. A second start with the same configuration changes
  -- nothing, whatever the database does by then.
  pub sync_proxy-settles :
      (db later_db : Database) (now later : ℕ) (s : ProxyStore)
      → validate_proxy_url (trim_space configured) ≡ true
      → db.takes ≡ true
      → db.reads ≡ true
      → let t = sync_seeded_proxy number written db now configured s in
        let url = trim_space configured in
        (((url == setting s seeded_proxy_url_key)
            || is_empty url
            || pool_has_proxy_url t.exits.cache url)
          ≡ true)
        × (sync_seeded_proxy number written later_db later configured t ≡ t)
  sync_proxy-settles db later_db now later s v d r =
      elim (Bool-cases (trim_space configured == setting s seeded_proxy_url_key)) [
        | inl e ↦
            let same =
              (text_beq_iff (trim_space configured) (setting s seeded_proxy_url_key)).0 e in
            (rw e, rw (sync-same db now s (sym same), sync-same later_db later s (sym same)))
        | inr e ↦
            let (k, h) = sync-Follows db now s v d r e in
            (
              rw (e, h),
              sync-same later_db later (sync_seeded_proxy number written db now configured s) k,
            )
      ]
