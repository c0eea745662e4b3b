-- ===== src/Accounts/Health.antt =====
-- internal/app/cookie_pool.go: the health of an account, and when it is switched off.
use Prim.Native.Nat.{ℕ, ◌+◌}
use mathlib.Core.Bool.{Bool, false, not, true, ◌||◌}
use mathlib.Core.List.{[]}
use gemini_web2api_go.Accounts.{CookieAccount, Store, disabled_status, enabled_status, update_store}
use gemini_web2api_go.Base.Int.{int_eq, is_positive, ℤ}
use gemini_web2api_go.Base.Lists.{take}
use gemini_web2api_go.Base.Tests.{if◌then◌else◌, ltb, nat_eq, ◌==◌}
use gemini_web2api_go.Base.Text.{Text, text_eq}

abbrev pub max_cookie_auth_failures : ℕ
max_cookie_auth_failures = 3

-- The row after `autoDisableIfDead`.
unfoldable pub disabled_if_dead : CookieAccount → CookieAccount
disabled_if_dead a =
    if not (a.status == enabled_status) || ltb a.fail_count max_cookie_auth_failures
    then a
    else record a { status = disabled_status }

-- `autoDisableIfDead`
unfoldable pub auto_disable_if_dead : Store → ℤ → Store
auto_disable_if_dead s i = update_store disabled_if_dead i s

-- `markAccountResult`
unfoldable pub mark_account_result : ℕ → Store → ℤ → Bool → Text → Store
mark_account_result now s i ok err =
    if not (is_positive i)
    then s
    else if ok
    then update_store (λ a. record a { last_ok_at = now; fail_count = 0; last_error = [] }) i s
    else auto_disable_if_dead
        (update_store (λ a. record a { fail_count = a.fail_count + 1; last_error = take 200 err }) i
          s)
        i

-- `markCookieByStatus`
unfoldable pub mark_cookie_by_status : ℕ → Store → ℤ → ℕ → Text → Store
mark_cookie_by_status now s i status_code err =
    if status_code == 200
    then mark_account_result now s i true []
    else if status_code == 401 || status_code == 403
    then mark_account_result now s i false err
    else s
