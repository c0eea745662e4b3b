-- ===== src/Accounts/Pick.antt =====
-- internal/app/cookie_pool.go: which account a request gets. `pickMu` makes a call one step.
use Prim.Native.Nat.{ℕ}
use mathlib.Core.Bool.{Bool, not}
use mathlib.Core.List.{List, [], ◌∷◌}
use mathlib.Core.Option.{Option, none, some}
use gemini_web2api_go.Accounts.{CookieAccount, Store, enabled_status, update_store}
use gemini_web2api_go.Base.Int.{int_eq, ltb_ℤ, ℤ}
use gemini_web2api_go.Base.Lists.{keep}
use gemini_web2api_go.Base.Tests.{if◌then◌else◌, ltb, nat_eq, ◌==◌}
use gemini_web2api_go.Base.Text.{text_eq}
use gemini_web2api_go.Proxy.{find_first, is_excluded}

-- `ORDER BY fail_count ASC, last_used_at ASC, id ASC`
unfoldable pub comes_before : CookieAccount → CookieAccount → Bool
comes_before a b =
    if a.fail_count == b.fail_count
    then (if a.last_used_at == b.last_used_at
        then ltb_ℤ a.id b.id
        else ltb a.last_used_at b.last_used_at)
    else ltb a.fail_count b.fail_count

unfoldable pub insert_row : CookieAccount → List CookieAccount → List CookieAccount
insert_row a [] = a ∷ []
insert_row a (b ∷ rows) = if comes_before b a then b ∷ insert_row a rows else a ∷ b ∷ rows

unfoldable pub order_rows : List CookieAccount → List CookieAccount
order_rows [] = []
order_rows (a ∷ rows) = insert_row a (order_rows rows)

-- `pickCookieAccountExcept`
unfoldable pub pick_cookie_account_except : ℕ → Store → List ℤ → Store × Option CookieAccount
pick_cookie_account_except now s skip =
    let rows = order_rows (keep (λ a. a.status == enabled_status) s.accounts) in
    elim (find_first (λ a. not (is_excluded a.id skip)) rows) [
      | none ↦ (s, none)
      | some a ↦ (update_store (λ r. record r { last_used_at = now }) a.id s, some a)
    ]

-- `pickCookieAccount`
unfoldable pub pick_cookie_account : ℕ → Store → Store × Option CookieAccount
pick_cookie_account now s = pick_cookie_account_except now s []
