-- ===== src/Accounts/Seed.antt =====
-- internal/app/cookie_pool.go: the cookies of the configuration, taken into the pool at the start.
-- `written` and `number` are `strconv.FormatInt` and `strconv.ParseInt` in base 10.
use Prim.Native.Nat.{ℕ}
use mathlib.Core.Bool.{Bool, false, not, true, ◌||◌}
use mathlib.Core.List.{List, []}
use mathlib.Core.Option.{Option, none, some}
use gemini_web2api_go.Accounts.{
  Store, account_by_id, account_delete, kv_get, kv_set, pool_has_cookie,
}
use gemini_web2api_go.Accounts.Import.{
  account_adopt, empty_cookie, inserted, no_sapisid, normalize_cookie, not_a_cookie,
}
use gemini_web2api_go.Base.Int.{int_eq, is_positive, ℤ}
use gemini_web2api_go.Base.Tests.{if◌then◌else◌, nat_eq, ◌==◌}
use gemini_web2api_go.Base.Text.{Text, codes, is_empty, text_eq, trim_space}
use gemini_web2api_go.Cookie.{Pair, added}

abbrev pub legacy_done_key : Text
legacy_done_key = codes "legacy_single_cookie_migrated"

abbrev pub seeded_id_key : Text
seeded_id_key = codes "seeded_cookie_id"

abbrev pub seeded_value_key : Text
seeded_value_key = codes "seeded_cookie_value"

abbrev pub google_cookie_key : Text
google_cookie_key = codes "google_cookie"

abbrev pub one_text : Text
one_text = codes "1"

-- The labels and notes of imported rows.
pub record Labels : Type 0 where
  pub legacy_label : Text
  pub legacy_note : Text
  pub file_label : Text
  pub file_note : Text

module _ (parse : Text → Option (List Pair)) (number : Text → Option ℤ) (written : ℤ → Text)
    (l : Labels) (now : ℕ) where
  -- `migrateLegacyCookie`
  unfoldable pub migrate_legacy_cookie : Store → Store
  migrate_legacy_cookie s =
      if kv_get s legacy_done_key == one_text
      then s
      else let raw = trim_space (kv_get s google_cookie_key) in
        if is_empty raw
        then kv_set s legacy_done_key one_text
        else elim (normalize_cookie parse raw) [
          | none ↦ s
          | some c ↦
              if pool_has_cookie s.accounts c
              then kv_set s legacy_done_key one_text
              else let (s', added) = account_adopt parse now s l.legacy_label c l.legacy_note in
                elim added [
                  | inserted i ↦ kv_set s' legacy_done_key one_text
                  | not_a_cookie ↦ s'
                  | no_sapisid ↦ s'
                  | empty_cookie ↦ s'
                ]
        ]

  -- `dropSeededCookie`
  unfoldable pub drop_seeded_cookie : Store → Text → Store
  drop_seeded_cookie s prev =
      let id_text = kv_get s seeded_id_key in
      if is_empty id_text || is_empty prev then s else elim (number id_text) [
        | none ↦ s
        | some i ↦ if not (is_positive i) then s else elim (account_by_id s.accounts i) [
          | none ↦ s
          | some a ↦ if a.cookie == prev then account_delete s i else s
        ]
      ]

  abbrev pub set_seeded : Store → Text → Text → Store
  set_seeded s value id_text = kv_set (kv_set s seeded_value_key value) seeded_id_key id_text

  -- `syncSeededCookieFile` from `prev := …`, where `cur` is the cookie of the file, normalized, and
  -- empty if no file is configured.
  unfoldable pub sync_seeded : Store → Text → Store
  sync_seeded s cur =
      let prev = kv_get s seeded_value_key in
      if cur == prev
      then s
      else let s' = drop_seeded_cookie s prev in
        if is_empty cur
        then set_seeded s' [] []
        else if pool_has_cookie s'.accounts cur
        then set_seeded s' cur []
        else let (t, added) = account_adopt parse now s' l.file_label cur l.file_note in
          elim added [
            | inserted i ↦ set_seeded t cur (written i)
            | not_a_cookie ↦ t
            | no_sapisid ↦ t
            | empty_cookie ↦ t
          ]

  -- `syncSeededCookieFile`; `file` is what `os.ReadFile` gives, `none` if that fails, and `asked`
  -- says whether `cfg.CookieFile` is set.
  unfoldable pub sync_seeded_cookie_file : Bool → Option Text → Store → Store
  sync_seeded_cookie_file false file s = sync_seeded s []
  sync_seeded_cookie_file true none s = s
  sync_seeded_cookie_file true (some data_read) s =
      let cur = trim_space data_read in
      if is_empty cur
      then sync_seeded s []
      else elim (normalize_cookie parse cur) [ none ↦ s | some c ↦ sync_seeded s c ]

  -- `seedCookiesFromConfig`
  unfoldable pub seed_cookies_from_config : Bool → Option Text → Store → Store
  seed_cookies_from_config asked file s =
      sync_seeded_cookie_file asked file (migrate_legacy_cookie s)
