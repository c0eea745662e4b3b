-- ===== src/Accounts.antt =====
-- internal/app/cookie_pool.go: the pool of accounts, as the rows of the table `accounts` in the
-- order of their identifiers, and the key-value table of db.go. The database takes every
-- statement. Times are Unix seconds.
pub mod Pick
pub mod Health
pub mod Import
pub mod Seed
pub mod Sorting
pub mod PickLaws
pub mod HealthLaws
pub mod SeedLaws
pub mod Identity
use Prim.Native.Nat.{ℕ, ◌+◌}
use mathlib.Core.Bool.{Bool, false, not, true, ◌||◌}
use mathlib.Core.List.{List, [], ◌++◌, ◌∷◌}
use mathlib.Core.Option.{Option, none, some}
use gemini_web2api_go.Base.Dict.{lookup, put}
use gemini_web2api_go.Base.Int.{int_eq, is_positive, pos, ℤ}
use gemini_web2api_go.Base.Lists.{keep, length}
use gemini_web2api_go.Base.Tests.{if◌then◌else◌, nat_eq, ◌==◌}
use gemini_web2api_go.Base.Text.{Text, codes, is_empty, text_eq, trim_space}
use gemini_web2api_go.Cookie.{cookie_identity}
use gemini_web2api_go.Proxy.{find_first}

-- `CookieAccount`
pub record CookieAccount : Type 0 where
  pub id : ℤ
  pub label : Text
  pub cookie : Text
  pub status : Text
  pub note : Text
  pub created_at : ℕ
  pub last_used_at : ℕ
  pub last_ok_at : ℕ
  pub last_error : Text
  pub fail_count : ℕ
  pub proxy_id : ℤ

-- The two tables, with the identifier that the next row of `accounts` gets.
pub record Store : Type 0 where
  pub accounts : List CookieAccount
  pub next_account : ℕ
  pub kv : List (Text × Text)

abbrev pub enabled_status : Text
enabled_status = codes "enabled"

abbrev pub disabled_status : Text
disabled_status = codes "disabled"

-- `kvGet`
unfoldable pub kv_get : Store → Text → Text
kv_get s k = elim (lookup k s.kv) [ none ↦ [] | some v ↦ v ]

-- `kvSet`
unfoldable pub kv_set : Store → Text → Text → Store
kv_set s k v = record s { kv = put k v s.kv }

-- `UPDATE accounts SET … WHERE id=?`
unfoldable pub update_account :
    (CookieAccount → CookieAccount) → ℤ → List CookieAccount → List CookieAccount
update_account f i [] = []
update_account f i (a ∷ rows) = (if a.id == i then f a else a) ∷ update_account f i rows

abbrev pub update_store : (CookieAccount → CookieAccount) → ℤ → Store → Store
update_store f i s = record s { accounts = update_account f i s.accounts }

-- `accountByID`
unfoldable pub account_by_id : List CookieAccount → ℤ → Option CookieAccount
account_by_id rows i = find_first (λ a. a.id == i) rows

-- `accountInsert`; `none` is its error.
unfoldable pub account_insert : ℕ → Store → Text → Text → Text → Store × Option ℤ
account_insert now s label cookie note =
    let c = trim_space cookie in
    if is_empty c
    then (s, none)
    else let i = pos s.next_account in
      let row : CookieAccount = record {
        id = i;
        label = trim_space label;
        cookie = c;
        status = enabled_status;
        note = trim_space note;
        created_at = now;
        last_used_at = 0;
        last_ok_at = 0;
        last_error = [];
        fail_count = 0;
        proxy_id = pos 0;
      } in
      (record s { accounts = s.accounts ++ row ∷ []; next_account = s.next_account + 1 }, some i)

-- `accountDelete`
unfoldable pub account_delete : Store → ℤ → Store
account_delete s i = record s { accounts = keep (λ a. not (a.id == i)) s.accounts }

-- `accountSetStatus`; `false` is its error.
unfoldable pub account_set_status : Store → ℤ → Text → Store × Bool
account_set_status s i status =
    if status == enabled_status || status == disabled_status
    then (update_store (λ a. record a { status = status }) i s, true)
    else (s, false)

-- `accountUpdateMeta`
unfoldable pub account_update_meta : Store → ℤ → Text → Text → Store
account_update_meta s i label note =
    update_store (λ a. record a { label = trim_space label; note = trim_space note }) i s

-- `accountCount`: all accounts, and those enabled.
unfoldable pub account_count : List CookieAccount → ℕ × ℕ
account_count rows = (length rows, length (keep (λ a. a.status == enabled_status) rows))

-- `poolHasCookie`
unfoldable pub pool_has_cookie : List CookieAccount → Text → Bool
pool_has_cookie [] cookie = false
pool_has_cookie (a ∷ rows) cookie = a.cookie == cookie || pool_has_cookie rows cookie

-- `bindAccountProxy`
unfoldable pub bind_account_proxy : Store → ℤ → ℤ → Store
bind_account_proxy s i proxy =
    if is_positive i then update_store (λ a. record a { proxy_id = proxy }) i s else s

-- `updateAccountCookie`
unfoldable pub update_account_cookie : Store → ℤ → Text → Store
update_account_cookie s i cookie =
    if not (is_positive i) || is_empty cookie then s else elim (account_by_id s.accounts i) [
      | none ↦ update_store (λ a. record a { cookie = cookie }) i s
      | some cur ↦
          if cookie_identity cookie == cookie_identity cur.cookie
          then update_store (λ a. record a { cookie = cookie }) i s
          else s
    ]
