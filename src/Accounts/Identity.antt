-- ===== src/Accounts/Identity.antt =====
-- What may overwrite the cookie of an account.
use mathlib.Core.Bool.{not, ◌||◌}
use mathlib.Core.Logic.{inl, inr}
use mathlib.Core.Option.{Option, none, some}
use mathlib.Core.Path.{refl, ◌≡◌}
use gemini_web2api_go.Accounts.{
  CookieAccount, Store, account_by_id, update_account_cookie, update_store,
}
use gemini_web2api_go.Accounts.HealthLaws.{account_by_id-update, on_found}
use gemini_web2api_go.Base.Int.{int_beq_iff, int_eq, is_positive, ℤ}
use gemini_web2api_go.Base.Tests.{Bool-cases, if◌then◌else◌, nat_eq, ◌==◌}
use gemini_web2api_go.Base.Text.{Text, is_empty, text_beq_iff, text_eq}
use gemini_web2api_go.Cookie.{cookie_identity}

-- Who the account is, as far as its cookie says.
abbrev pub identity_of : Option CookieAccount → Option Text
identity_of none = none
identity_of (some a) = some (cookie_identity a.cookie)

abbrev pub identity_at : Store → ℤ → Option Text
identity_at s j = identity_of (account_by_id s.accounts j)

abbrev SameIdentity : Text → Option CookieAccount → Type 0
SameIdentity cookie none = Unit {0}
SameIdentity cookie (some a) = cookie_identity cookie ≡ cookie_identity a.cookie

written_identity :
    (s : Store) (i j : ℤ) (cookie : Text) (o : Option CookieAccount)
    → account_by_id s.accounts i ≡ o
    → SameIdentity cookie o
    → identity_at (update_store (λ a. record a { cookie = cookie }) i s) j ≡ identity_at s j
written_identity s i j cookie o h same = elim (Bool-cases (i == j)) [
  | inl e ↦
      let at = (int_beq_iff i j).0 e in
      rw
        (
          account_by_id-update (λ a. record a { cookie = cookie }) (λ a. refl) i j s.accounts,
          e,
          ← at,
          h,
        )
        (kept cookie o same)
  | inr e ↦
      rw (account_by_id-update (λ a. record a { cookie = cookie }) (λ a. refl) i j s.accounts, e)
]
  where
    kept :
        (cookie : Text) (o : Option CookieAccount)
        → SameIdentity cookie o
        → identity_of (on_found (λ a. record a { cookie = cookie }) o) ≡ identity_of o
    kept cookie none u = refl
    kept cookie (some a) u = rw u

-- No call of `updateAccountCookie` changes who an account is: its cookie afterwards has the
-- `SAPISID` and `__Secure-1PSID` that `cookieIdentity` read in it before.
pub update-identity :
    (s : Store) (i j : ℤ) (cookie : Text)
    → identity_at (update_account_cookie s i cookie) j ≡ identity_at s j
unfolding update_account_cookie
update-identity s i j cookie = elim (Bool-cases (not (is_positive i) || is_empty cookie)) [
  | inl e ↦ rw (update_account_cookie, e)
  | inr e ↦ rw (update_account_cookie, e) (found (account_by_id s.accounts i) refl)
]
  where
    set_cookie : CookieAccount → CookieAccount
    set_cookie a = record a { cookie = cookie }

    found :
        (o : Option CookieAccount)
        → account_by_id s.accounts i ≡ o
        → identity_at
            (elim o [
              | none ↦ update_store (λ a. record a { cookie = cookie }) i s
              | some cur ↦
                  if cookie_identity cookie == cookie_identity cur.cookie
                  then update_store (λ a. record a { cookie = cookie }) i s
                  else s
            ])
            j
          ≡ identity_at s j
    found none h = written_identity s i j cookie none h tt
    found (some a) h = elim (Bool-cases (cookie_identity cookie == cookie_identity a.cookie)) [
      | inl e ↦ rw e (
          written_identity s i j cookie (some a) h
            ((text_beq_iff (cookie_identity cookie) (cookie_identity a.cookie)).0 e))
      | inr e ↦ rw e
    ]
