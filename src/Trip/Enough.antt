-- ===== src/Trip/Enough.antt =====
-- The fuel of the loop over accounts.
use Prim.Native.Nat.{suc, zero, ℕ, ◌+◌, ◌≤◌}
use mathlib.Core.Bool.{Bool, false, true}
use mathlib.Core.List.{List, ◌∷◌}
use mathlib.Core.Logic.{inl, inr}
use mathlib.Core.Option.{Option, none, some}
use mathlib.Core.Path.{ap, refl, sym, ◌∙◌, ◌≡◌}
use native.Mathlib.Omega.{arith}
use gemini_web2api_go.Accounts.{CookieAccount, account_by_id}
use gemini_web2api_go.Accounts.PickLaws.{Best, pick-Best}
use gemini_web2api_go.Base.Int.{int_eq, ℤ}
use gemini_web2api_go.Base.Lists.{length}
use gemini_web2api_go.Base.Result.{Result, erred, fine}
use gemini_web2api_go.Base.Tests.{Bool-cases, if◌then◌else◌, ltb, nat_eq}
use gemini_web2api_go.Base.Text.{Text, text_eq}
use gemini_web2api_go.Config.{RuntimeConfig}
use gemini_web2api_go.Outside.{Outside, World, now_of}
use gemini_web2api_go.Proxy.{is_excluded}
use gemini_web2api_go.Rotation.Account.{rotate_account}
use gemini_web2api_go.Tokens.{get_xsrf}
use gemini_web2api_go.Trip.{Trip, mark_account}
use gemini_web2api_go.Trip.SignIn.{
  account_display_name, add_once, adopt_account, adopt_fresh, after_rotation, after_token,
  another_account, max_cookie_tries, revive, sign_in, try_account, unless_done, unless_revived,
}

-- The account that is to be tried was not tried before.
abbrev pub Untried : Option CookieAccount → List ℤ → Type 0
Untried none tried = Unit {0}
Untried (some a) tried = is_excluded a.id tried ≡ false

Best-Untried :
    (rows : List CookieAccount) (skip : List ℤ) (m : Option CookieAccount)
    → Best rows skip m
    → Untried m skip
Best-Untried rows skip none b = tt
Best-Untried rows skip (some a) b = ground (arith, b.0)

-- After an account that is no good, one more is tried, and the next one was not.
record Advanced (t u : Trip) : Type 0 where
  untried : Untried u.account u.tried
  longer : length u.tried ≡ suc (length t.tried)

abbrev AfterTry : Trip → Trip × Bool → Type 0
AfterTry t (u, true) = Unit {0}
AfterTry t (u, false) = Advanced t u

another-Advanced :
    (o : Outside) (t u : Trip) (a : CookieAccount) (err : Text)
    → length u.tried ≡ suc (length t.tried)
    → Advanced t (another_account o u a err)
unfolding another_account mark_account
another-Advanced o t u a err e =
    let v = mark_account o u a.id 401 err in
    record {
      untried =
          Best-Untried v.world.store.accounts v.tried _
            (pick-Best (now_of o v.world) v.world.store v.tried);
      longer = e;
    }

-- A part that leaves which accounts were tried.
unless_revived-AfterTry :
    (o : Outside) (t u : Trip) (a : CookieAccount) (err : Text) (b : Bool)
    → length u.tried ≡ suc (length t.tried)
    → AfterTry t (unless_revived o a err (u, b))
unfolding unless_revived
unless_revived-AfterTry o t u a err true e = tt
unless_revived-AfterTry o t u a err false e = another-Advanced o t u a err e

adopt-tried :
    (c : RuntimeConfig) (o : Outside) (t : Trip) (a : CookieAccount) (token : Text)
    → (adopt_account c o t a token).tried ≡ t.tried
unfolding adopt_account
adopt-tried c o t a token = refl

adopt_fresh-tried :
    (c : RuntimeConfig) (o : Outside) (t : Trip) (a : CookieAccount) (w : World) (r : Result Text)
    → (adopt_fresh c o t a (w, r)).0.tried ≡ t.tried
unfolding adopt_fresh
adopt_fresh-tried c o t a w (erred e) = refl
adopt_fresh-tried c o t a w (fine token) = adopt-tried c o (record t { world = w }) a token

after_rotation-tried :
    (c : RuntimeConfig) (o : Outside) (t : Trip) (i : ℤ) (w : World) (r : Result (ℕ × List Text))
    → (after_rotation c o t i (w, r)).0.tried ≡ t.tried
unfolding after_rotation
after_rotation-tried c o t i w (erred e) = refl
after_rotation-tried c o t i w (fine r) = go (account_by_id w.store.accounts i)
  where
    go :
        (m : Option CookieAccount)
        → (let s : Trip × Bool = elim m [
          | none ↦ (record t { world = w }, false)
          | some fresh ↦ adopt_fresh c o t fresh (get_xsrf o w fresh.cookie t.picked.url)
        ] in
            s.0.tried ≡ t.tried)
    go none = refl
    go (some fresh) =
        let p = get_xsrf o w fresh.cookie t.picked.url in adopt_fresh-tried c o t fresh p.0 p.1

revive-tried :
    (c : RuntimeConfig) (o : Outside) (t : Trip) (a : CookieAccount)
    → (revive c o t a).0.tried ≡ t.tried
unfolding revive
revive-tried c o t a = elim (Bool-cases (is_excluded a.id t.rotated_once)) [
  | inl e ↦ rw (e, revive)
  | inr e ↦
      let p = rotate_account c o t.world a in
      rw (e, revive)
        (after_rotation-tried c o (record t { rotated_once = a.id ∷ t.rotated_once }) a.id p.0 p.1)
]

after_token-AfterTry :
    (c : RuntimeConfig) (o : Outside) (t u : Trip) (a : CookieAccount) (w : World) (r : Result Text)
    → length u.tried ≡ suc (length t.tried)
    → AfterTry t (after_token c o u a (w, r))
unfolding after_token
after_token-AfterTry c o t u a w (fine token) e = tt
after_token-AfterTry c o t u a w (erred m) e =
    let v = record u { world = w } in
    let p = revive c o v a in
    unless_revived-AfterTry o t p.0 a m p.1 (ap length (revive-tried c o v a) ∙ e)

try_account-AfterTry :
    (c : RuntimeConfig) (o : Outside) (t : Trip) (a : CookieAccount)
    → is_excluded a.id t.tried ≡ false
    → AfterTry t (try_account c o t a)
unfolding try_account
try_account-AfterTry c o t a h =
    let u = record t {
      tried = add_once a.id t.tried;
      cookie_id = a.id;
      cookie_label = account_display_name o a;
    } in
    let p = get_xsrf o t.world a.cookie t.picked.url in
    after_token-AfterTry c o t u a p.0 p.1 (added (is_excluded a.id t.tried) h)
  where
    added :
        (b : Bool)
        → b ≡ false
        → length (if b then t.tried else a.id ∷ t.tried) ≡ suc (length t.tried)
    added true e = cc
    added false e = refl

module _ (c : RuntimeConfig) (o : Outside) where
  unless_done-same :
      (t : Trip) (p : Trip × Bool) (f g : Trip → Trip)
      → AfterTry t p
      → ((u : Trip) → Advanced t u → f u ≡ g u)
      → unless_done p f ≡ unless_done p g
  unless_done-same t (u, true) f g a h = refl
  unless_done-same t (u, false) f g a h = h u a

  -- One step of the loop, for the account that is to be tried.
  abbrev step : ℕ → Trip → Option CookieAccount → Trip
  step n t none = t
  step n t (some a) =
      if ltb (length t.tried) max_cookie_tries
      then unless_done (try_account c o t a) (sign_in c o n)
      else t

  sign_in-step : (n : ℕ) (t : Trip) → sign_in c o (suc n) t ≡ step n t t.account
  unfolding sign_in
  sign_in-step n t = refl

  step-full :
      (n : ℕ) (t : Trip) (m : Option CookieAccount)
      → max_cookie_tries ≤ length t.tried
      → step n t m ≡ t
  step-full n t none k = refl
  step-full n t (some a) k =
      let full : ltb (length t.tried) max_cookie_tries ≡ false = ground arith in rw full

  sign_in-full : (n : ℕ) (t : Trip) → max_cookie_tries ≤ length t.tried → sign_in c o n t ≡ t
  unfolding sign_in
  sign_in-full zero t k = refl
  sign_in-full (suc n) t k = sign_in-step n t ∙ step-full n t t.account k

  step-same :
      (i j : ℕ) (t : Trip) (m : Option CookieAccount)
      → Untried m t.tried
      → ((u : Trip) → Advanced t u → sign_in c o i u ≡ sign_in c o j u)
      → step i t m ≡ step j t m
  step-same i j t none h f = refl
  step-same i j t (some a) h f = elim (Bool-cases (ltb (length t.tried) max_cookie_tries)) [
    | inl e ↦ rw e (
        unless_done-same t (try_account c o t a) (sign_in c o i) (sign_in c o j)
          (try_account-AfterTry c o t a h) f)
    | inr e ↦ rw e
  ]

  -- As long as the next account was not tried, fuel for the accounts that the limit leaves is
  -- enough for the loop over accounts: any two such amounts give the same.
  pub sign_in-enough :
      (n m : ℕ) (t : Trip)
      → Untried t.account t.tried
      → max_cookie_tries ≤ n + length t.tried
      → max_cookie_tries ≤ m + length t.tried
      → sign_in c o n t ≡ sign_in c o m t
  sign_in-enough zero m t h k l =
      sign_in-full 0 t (omega arith) ∙ sym (sign_in-full m t (omega arith))
  sign_in-enough (suc n) zero t h k l =
      sign_in-full (suc n) t (omega arith) ∙ sym (sign_in-full 0 t (omega arith))
  sign_in-enough (suc n) (suc m) t h k l =
      sign_in-step n t
      ∙ step-same n m t t.account h (λ u a.
        sign_in-enough n m u a.untried (omega (arith, a.longer)) (omega (arith, a.longer)))
      ∙ sym (sign_in-step m t)
