-- ===== src/Outside/Kept.antt =====
-- What the parts of a request leave as it was: the requests in flight on every slot, the form of the
-- exits, and who each account is.
use Prim.Native.Nat.{suc, ℕ}
use mathlib.Core.Bool.{Bool, false, true}
use mathlib.Core.List.{List, [], ◌∷◌}
use mathlib.Core.Logic.{inl, inr}
use mathlib.Core.Option.{Option, none, some}
use mathlib.Core.Path.{ap, refl, subst, sym, ◌∙◌, ◌≡◌}
use gemini_web2api_go.Accounts.{
  CookieAccount, account_by_id, bind_account_proxy, update_account_cookie, update_store,
}
use gemini_web2api_go.Accounts.HealthLaws.{account_by_id-update, on_found}
use gemini_web2api_go.Accounts.Identity.{identity_at, identity_of, update-identity}
use gemini_web2api_go.Acquire.WellFormed.{IsWellFormed}
use gemini_web2api_go.Base.Int.{int_eq, is_positive, ℤ}
use gemini_web2api_go.Base.Tests.{Bool-cases, if◌then◌else◌, nat_eq, ◌==◌}
use gemini_web2api_go.Base.Text.{Text, text_eq}
use gemini_web2api_go.Cookie.{cookie_identity}
use gemini_web2api_go.Outside.{Endpoint, Request, World, stream_generate}
use gemini_web2api_go.RateLimit.Slots.{inflight_of}
use gemini_web2api_go.Trip.{with_store}

-- The requests for an answer among those sent.
abbrev pub is_ask : Endpoint → Bool
is_ask (stream_generate label reqid) = true
is_ask _ = false

abbrev pub asked_in : List Request → ℕ
asked_in [] = 0
asked_in (q ∷ log) = if is_ask q.endpoint then suc (asked_in log) else asked_in log

-- What a whole request leaves.
pub record Restored (w v : World) : Type 0 where
  pub slots_restored : (j : ℤ) → inflight_of v.exits.slots j ≡ inflight_of w.exits.slots j
  pub well_restored : IsWellFormed w.exits → IsWellFormed v.exits
  pub identity_restored : (j : ℤ) → identity_at v.store j ≡ identity_at w.store j

-- What a part of it leaves that does not ask for an answer.
pub record Kept (w v : World) : Type 0 where
  pub slots_kept : (j : ℤ) → inflight_of v.exits.slots j ≡ inflight_of w.exits.slots j
  pub well_kept : IsWellFormed w.exits → IsWellFormed v.exits
  pub identity_kept : (j : ℤ) → identity_at v.store j ≡ identity_at w.store j
  pub asked_kept : asked_in v.log ≡ asked_in w.log

-- Neither the exits nor the accounts were touched.
pub record Same (w v : World) : Type 0 where
  pub same_exits : v.exits ≡ w.exits
  pub same_store : v.store ≡ w.store
  pub same_asked : asked_in v.log ≡ asked_in w.log

pub Same-refl : (w : World) → Same w w
Same-refl w = record { same_exits = refl; same_store = refl; same_asked = refl }

pub Same-trans : (u v w : World) → Same u v → Same v w → Same u w
Same-trans u v w a b = record {
  same_exits = b.same_exits ∙ a.same_exits;
  same_store = b.same_store ∙ a.same_store;
  same_asked = b.same_asked ∙ a.same_asked;
}

pub Same-Kept : (w v : World) → Same w v → Kept w v
Same-Kept w v s = record {
  slots_kept = λ j. ap (λ x. inflight_of x.slots j) s.same_exits;
  well_kept = λ h. subst IsWellFormed (sym s.same_exits) h;
  identity_kept = λ j. ap (λ x. identity_at x j) s.same_store;
  asked_kept = s.same_asked;
}

pub Kept-trans : (u v w : World) → Kept u v → Kept v w → Kept u w
Kept-trans u v w a b = record {
  slots_kept = λ j. b.slots_kept j ∙ a.slots_kept j;
  well_kept = λ h. b.well_kept (a.well_kept h);
  identity_kept = λ j. b.identity_kept j ∙ a.identity_kept j;
  asked_kept = b.asked_kept ∙ a.asked_kept;
}

-- A write to the rows of accounts that leaves their cookies alone.
pub update-Kept :
    (w : World) (f : CookieAccount → CookieAccount) (i : ℤ)
    → ((a : CookieAccount) → (f a).id ≡ a.id)
    → ((a : CookieAccount) → (f a).cookie ≡ a.cookie)
    → Kept w (with_store w (update_store f i w.store))
update-Kept w f i same_id same_cookie = record {
  slots_kept = λ j. refl;
  well_kept = λ h. h;
  asked_kept = refl;
  identity_kept = λ j.
      rw (account_by_id-update f same_id i j w.store.accounts)
        (one (i == j) (account_by_id w.store.accounts j));
}
  where
    one :
        (b : Bool) (m : Option CookieAccount)
        → identity_of (if b then on_found f m else m) ≡ identity_of m
    one false m = refl
    one true none = refl
    one true (some a) = ap (λ t. some (cookie_identity t)) (same_cookie a)

pub cookie-Kept :
    (w : World) (i : ℤ) (cookie : Text)
    → Kept w (with_store w (update_account_cookie w.store i cookie))
cookie-Kept w i cookie = record {
  slots_kept = λ j. refl;
  well_kept = λ h. h;
  asked_kept = refl;
  identity_kept = λ j. update-identity w.store i j cookie;
}

pub bind-Kept :
    (w : World) (i proxy : ℤ) → Kept w (with_store w (bind_account_proxy w.store i proxy))
unfolding bind_account_proxy
bind-Kept w i proxy = elim (Bool-cases (is_positive i)) [
  | inl e ↦ rw (e, bind_account_proxy) (update-Kept w _ i (λ a. refl) (λ a. refl))
  | inr e ↦ rw (e, bind_account_proxy) (Same-Kept w w (Same-refl w))
]
