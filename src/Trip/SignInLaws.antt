-- ===== src/Trip/SignInLaws.antt =====
-- One account of a request takes no slot for good, and becomes no other.
use Prim.Native.Nat.{ℕ, ◌≤◌}
use mathlib.Core.Bool.{Bool, false, not, true, ◌||◌}
use mathlib.Core.List.{List, ◌∷◌}
use mathlib.Core.Logic.{inl, inr}
use mathlib.Core.Option.{Option, none, some}
use mathlib.Core.Path.{refl, ◌≡◌}
use native.Mathlib.Omega.{arith}
use gemini_web2api_go.Accounts.{CookieAccount, account_by_id}
use gemini_web2api_go.Acquire.WellFormed.{IsWellFormed}
use gemini_web2api_go.Base.Int.{int_eq, pos, ℤ}
use gemini_web2api_go.Base.Lists.{length}
use gemini_web2api_go.Base.Result.{Result, erred, fine}
use gemini_web2api_go.Base.Tests.{Bool-cases, ltb, nat_eq, ◌==◌}
use gemini_web2api_go.Base.Text.{Text, text_eq}
use gemini_web2api_go.Config.{RuntimeConfig}
use gemini_web2api_go.Outside.{Outside, World, now_of}
use gemini_web2api_go.Outside.Kept.{Kept, Kept-trans, Same-Kept, Same-refl, bind-Kept}
use gemini_web2api_go.Outside.Reports.{pick-Kept}
use gemini_web2api_go.Proxy.{is_excluded, proxy_usable_by_id}
use gemini_web2api_go.Rotation.Account.{rotate_account}
use gemini_web2api_go.Rotation.Kept.{rotate_account-Kept}
use gemini_web2api_go.Tokens.{get_xsrf}
use gemini_web2api_go.Tokens.Same.{get_xsrf-Same}
use gemini_web2api_go.Trip.{Trip, mark_account}
use gemini_web2api_go.Trip.Balance.{Holds, Holds-refl, Holds-trans, Holds-world, mark_account-Holds}
use gemini_web2api_go.Trip.SignIn.{
  account_display_name, add_once, adopt_account, adopt_fresh, after_rotation, after_token,
  another_account, max_cookie_tries, revive, try_account, unless_revived,
}

adopt-Holds :
    (c : RuntimeConfig) (o : Outside) (t : Trip) (a : CookieAccount) (token : Text)
    → Holds t (adopt_account c o t a token)
unfolding adopt_account
adopt-Holds c o t a token =
    elim (Bool-cases (
      a.proxy_id == pos 0
      || not (proxy_usable_by_id c (now_of o t.world) t.world.exits.cache a.proxy_id))) [
        | inl e ↦ rw e (record {
          world_kept = bind-Kept t.world a.id t.picked.id;
          same_picked = refl;
          same_held = refl;
          feed_kept = λ f. f;
          few_kept = λ f. f;
          err_kept = λ f. f;
        })
        | inr e ↦ rw e (record {
          world_kept = Same-Kept t.world t.world (Same-refl t.world);
          same_picked = refl;
          same_held = refl;
          feed_kept = λ f. f;
          few_kept = λ f. f;
          err_kept = λ f. f;
        })
      ]

-- A world that a part of a round made, and the account that is used in it.
adopt_in-Holds :
    (c : RuntimeConfig) (o : Outside) (t : Trip) (w : World) (a : CookieAccount) (token : Text)
    → Kept t.world w
    → Holds t (adopt_account c o (record t { world = w }) a token)
adopt_in-Holds c o t w a token k =
    Holds-trans t (record t { world = w }) _ (Holds-world t w k)
      (adopt-Holds c o (record t { world = w }) a token)

adopt_fresh-Holds :
    (c : RuntimeConfig) (o : Outside) (t : Trip) (a : CookieAccount) (w : World) (r : Result Text)
    → Kept t.world w
    → Holds t (adopt_fresh c o t a (w, r)).0
unfolding adopt_fresh
adopt_fresh-Holds c o t a w (erred e) k = Holds-world t w k
adopt_fresh-Holds c o t a w (fine token) k = adopt_in-Holds c o t w a token k

after_rotation-Holds :
    (c : RuntimeConfig) (o : Outside) (t : Trip) (i : ℤ) (w : World) (r : Result (ℕ × List Text))
    → Kept t.world w
    → Holds t (after_rotation c o t i (w, r)).0
unfolding after_rotation
after_rotation-Holds c o t i w (erred e) k = Holds-world t w k
after_rotation-Holds c o t i w (fine r) k = go (account_by_id w.store.accounts i)
  where
    go :
        (m : Option CookieAccount)
        → (let s : Trip × Bool = elim m [
          | none ↦ (record t { world = w }, false)
          | some fresh ↦ adopt_fresh c o t fresh (get_xsrf o w fresh.cookie t.picked.url)
        ] in
            Holds t s.0)
    go none = Holds-world t w k
    go (some fresh) =
        adopt_fresh-Holds c o t fresh _ _
          (Kept-trans t.world w _ k (Same-Kept w _ (get_xsrf-Same o w fresh.cookie t.picked.url)))

revive-Holds :
    (c : RuntimeConfig) (o : Outside) (t : Trip) (a : CookieAccount)
    → IsWellFormed t.world.exits
    → Holds t (revive c o t a).0
unfolding revive
revive-Holds c o t a h = elim (Bool-cases (is_excluded a.id t.rotated_once)) [
  | inl e ↦ rw (e, revive) (Holds-refl t)
  | inr e ↦
      let u = record t { rotated_once = a.id ∷ t.rotated_once } in
      let k =
        after_rotation-Holds c o u a.id _ (rotate_account c o t.world a).1
          (rotate_account-Kept c o t.world a h) in
      rw (e, revive)
        (record {
          world_kept = k.world_kept;
          same_picked = k.same_picked;
          same_held = k.same_held;
          feed_kept = k.feed_kept;
          few_kept = k.few_kept;
          err_kept = k.err_kept;
        })
]

another-Holds :
    (o : Outside) (t : Trip) (a : CookieAccount) (err : Text) → Holds t (another_account o t a err)
unfolding another_account
another-Holds o t a err =
    let u = mark_account o t a.id 401 err in
    let m = mark_account-Holds o t a.id 401 err in
    record {
      world_kept =
          Kept-trans t.world u.world _ m.world_kept (pick-Kept (now_of o u.world) u.world u.tried);
      same_picked = m.same_picked;
      same_held = m.same_held;
      feed_kept = m.feed_kept;
      few_kept = m.few_kept;
      err_kept = m.err_kept;
    }

unless_revived-Holds :
    (o : Outside) (a : CookieAccount) (err : Text) (t u : Trip) (b : Bool)
    → Holds t u
    → Holds t (unless_revived o a err (u, b)).0
unfolding unless_revived
unless_revived-Holds o a err t u true h = h
unless_revived-Holds o a err t u false h = Holds-trans t u _ h (another-Holds o u a err)

after_token-Holds :
    (c : RuntimeConfig) (o : Outside) (t : Trip) (a : CookieAccount) (w : World) (r : Result Text)
    → IsWellFormed t.world.exits
    → Kept t.world w
    → Holds t (after_token c o t a (w, r)).0
unfolding after_token
after_token-Holds c o t a w (fine token) h k = adopt_in-Holds c o t w a token k
after_token-Holds c o t a w (erred e) h k =
    let u = record t { world = w } in
    unless_revived-Holds o a e t _ (revive c o u a).1
      (Holds-trans t u _ (Holds-world t w k) (revive-Holds c o u a (k.well_kept h)))

add_once-few :
    (i : ℤ) (is : List ℤ)
    → ltb (length is) max_cookie_tries ≡ true
    → length (add_once i is) ≤ max_cookie_tries
add_once-few i is lt = elim (Bool-cases (is_excluded i is)) [
  | inl e ↦ rw e (ground arith)
  | inr e ↦ rw e (ground arith)
]

pub try_account-Holds :
    (c : RuntimeConfig) (o : Outside) (t : Trip) (a : CookieAccount)
    → ltb (length t.tried) max_cookie_tries ≡ true
    → IsWellFormed t.world.exits
    → Holds t (try_account c o t a).0
unfolding try_account
try_account-Holds c o t a lt h =
    let u = record t {
      tried = add_once a.id t.tried;
      cookie_id = a.id;
      cookie_label = account_display_name o a;
    } in
    let k =
      after_token-Holds c o u a _ (get_xsrf o t.world a.cookie t.picked.url).1 h
        (Same-Kept t.world _ (get_xsrf-Same o t.world a.cookie t.picked.url)) in
    record {
      world_kept = k.world_kept;
      same_picked = k.same_picked;
      same_held = k.same_held;
      feed_kept = k.feed_kept;
      few_kept = λ f. k.few_kept (add_once-few a.id t.tried lt);
      err_kept = k.err_kept;
    }
