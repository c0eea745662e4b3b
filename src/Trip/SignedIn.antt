-- ===== src/Trip/SignedIn.antt =====
-- The whole of signing in takes no slot for good, and makes no account another.
use Prim.Native.Nat.{suc, zero, ℕ}
use mathlib.Core.Bool.{Bool, false, not, true}
use mathlib.Core.List.{[]}
use mathlib.Core.Logic.{inl, inr}
use mathlib.Core.Option.{Option, none, some}
use mathlib.Core.Path.{refl}
use gemini_web2api_go.Accounts.{CookieAccount}
use gemini_web2api_go.Acquire.WellFormed.{IsWellFormed}
use gemini_web2api_go.Base.Int.{int_eq, pos}
use gemini_web2api_go.Base.Lists.{length}
use gemini_web2api_go.Base.Tests.{Bool-cases, if◌then◌else◌, ltb, nat_eq}
use gemini_web2api_go.Base.Text.{Text, is_empty, text_eq}
use gemini_web2api_go.Config.{RuntimeConfig}
use gemini_web2api_go.Outside.{Outside}
use gemini_web2api_go.Outside.Kept.{Same-Kept, Same-refl}
use gemini_web2api_go.Trip.{Flow, Trip, attrib, gave_up, go_on, leave}
use gemini_web2api_go.Trip.Balance.{Holds, Holds-refl, Holds-trans}
use gemini_web2api_go.Trip.SignIn.{
  max_cookie_tries, none_usable, or_anonymous, sign_in, try_account, unless_done, with_account,
}
use gemini_web2api_go.Trip.SignInLaws.{try_account-Holds}

unless_done-Holds :
    (t u : Trip) (b : Bool) (f : Trip → Trip)
    → Holds t u
    → Holds u (f u)
    → Holds t (unless_done (u, b) f)
unless_done-Holds t u true f h k = h
unless_done-Holds t u false f h k = Holds-trans t u (f u) h k

sign_in-Holds :
    (c : RuntimeConfig) (o : Outside) (n : ℕ) (t : Trip)
    → IsWellFormed t.world.exits
    → Holds t (sign_in c o n t)
unfolding sign_in
sign_in-Holds c o zero t h = Holds-refl t
sign_in-Holds c o (suc n) t h = go (sign_in-Holds c o n) t.account
  where
    go :
        ((u : Trip) → IsWellFormed u.world.exits → Holds u (sign_in c o n u))
        → (m : Option CookieAccount)
        → (let u : Trip = elim m [
          | none ↦ t
          | some a ↦
              if ltb (length t.tried) max_cookie_tries
              then unless_done (try_account c o t a) (sign_in c o n)
              else t
        ] in
            Holds t u)
    go rest none = Holds-refl t
    go rest (some a) = elim (Bool-cases (ltb (length t.tried) max_cookie_tries)) [
      | inl e ↦
          let k = try_account-Holds c o t a e h in
          rw e (
            unless_done-Holds t _ (try_account c o t a).1 (sign_in c o n) k
              (rest _ (k.world_kept.well_kept h)))
      | inr e ↦ rw e (Holds-refl t)
    ]

or_anonymous-Holds : (c : RuntimeConfig) (o : Outside) (t : Trip) → Holds t (or_anonymous c o t).0
unfolding or_anonymous
or_anonymous-Holds c o t = go t.last_cookie_err
  where
    go :
        (m : Option Text)
        → (let r : Trip × Flow = elim m [
          | none ↦ (t, go_on)
          | some err ↦
              if not (is_empty t.cookie_str)
              then (t, go_on)
              else if not c.fallback_anon
              then (t, leave (gave_up (attrib t) (none_usable o t err)))
              else (record t { cookie_id = pos 0; cookie_label = [] }, go_on)
        ] in
            Holds t r.0)
    go none = Holds-refl t
    go (some err) = elim (Bool-cases (is_empty t.cookie_str)) [
      | inr e ↦ rw e (Holds-refl t)
      | inl e ↦ elim (Bool-cases c.fallback_anon) [
        | inl f ↦
            rw (e, f)
              (record {
                world_kept = Same-Kept t.world t.world (Same-refl t.world);
                same_picked = refl;
                same_held = refl;
                feed_kept = λ f. f;
                few_kept = λ f. f;
                err_kept = λ f. f;
              })
        | inr f ↦ rw (e, f) (Holds-refl t)
      ]
    ]

pub with_account-Holds :
    (c : RuntimeConfig) (o : Outside) (t : Trip)
    → IsWellFormed t.world.exits
    → Holds t (with_account c o t).0
unfolding with_account
with_account-Holds c o t h = elim (Bool-cases (is_empty t.cookie_str)) [
  | inl e ↦
      rw (e, with_account)
        (Holds-trans t _ _ (sign_in-Holds c o max_cookie_tries t h) (or_anonymous-Holds c o _))
  | inr e ↦ rw (e, with_account) (or_anonymous-Holds c o t)
]
