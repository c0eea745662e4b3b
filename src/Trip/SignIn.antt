-- ===== src/Trip/SignIn.antt =====
-- The account of a request: its token is taken through the exit of the request, after a rotation if
-- need be, and another account is tried where that fails.
use Prim.Native.Nat.{suc, zero, ℕ}
use mathlib.Core.Bool.{Bool, false, not, true, ◌||◌}
use mathlib.Core.List.{List, [], ◌++◌, ◌∷◌}
use mathlib.Core.Option.{none, some}
use gemini_web2api_go.Accounts.{CookieAccount, account_by_id, bind_account_proxy}
use gemini_web2api_go.Accounts.Pick.{pick_cookie_account_except}
use gemini_web2api_go.Base.Int.{int_eq, pos, pos_part, ℤ}
use gemini_web2api_go.Base.Lists.{length}
use gemini_web2api_go.Base.Result.{Result, erred, fine, utf8}
use gemini_web2api_go.Base.Tests.{if◌then◌else◌, ltb, nat_eq, ◌==◌}
use gemini_web2api_go.Base.Text.{Text, codes, is_empty, text_eq}
use gemini_web2api_go.Config.{RuntimeConfig}
use gemini_web2api_go.Cookie.{extract_sapisid}
use gemini_web2api_go.Outside.{Outside, World, now_of}
use gemini_web2api_go.Proxy.{is_excluded, proxy_usable_by_id}
use gemini_web2api_go.Rotation.Account.{rotate_account}
use gemini_web2api_go.Tokens.{get_xsrf}
use gemini_web2api_go.Trip.{Flow, Trip, attrib, gave_up, go_on, leave, mark_account, with_store}

abbrev pub max_cookie_tries : ℕ
max_cookie_tries = 3

-- The account is good: its cookie and token are used, and it is bound to the exit unless it has an
-- exit that may be used.
unfoldable pub adopt_account : RuntimeConfig → Outside → Trip → CookieAccount → Text → Trip
adopt_account c o t a token =
    let w = t.world in
    let unbound =
      a.proxy_id == pos 0 || not (proxy_usable_by_id c (now_of o w) w.exits.cache a.proxy_id) in
    record t {
      account = some a;
      cookie_str = a.cookie;
      sapisid = extract_sapisid a.cookie;
      xsrf_token = token;
      world = if unbound then with_store w (bind_account_proxy w.store a.id t.picked.id) else w;
    }

-- The token of the account as it is after its rotation.
unfoldable pub adopt_fresh :
    RuntimeConfig → Outside → Trip → CookieAccount → World × Result Text → Trip × Bool
adopt_fresh c o t fresh (w, erred e) = (record t { world = w }, false)
adopt_fresh c o t fresh (w, fine token) =
    (adopt_account c o (record t { world = w }) fresh token, true)

unfoldable pub after_rotation :
    RuntimeConfig → Outside → Trip → ℤ → World × Result (ℕ × List Text) → Trip × Bool
unfolding adopt_fresh
after_rotation c o t i (w, erred e) = (record t { world = w }, false)
after_rotation c o t i (w, fine r) = elim (account_by_id w.store.accounts i) [
  | none ↦ (record t { world = w }, false)
  | some fresh ↦ adopt_fresh c o t fresh (get_xsrf o w fresh.cookie t.picked.url)
]

-- `if !rotatedOnce[acct.ID] { … }`: whether the account is good after all.
unfoldable pub revive : RuntimeConfig → Outside → Trip → CookieAccount → Trip × Bool
unfolding after_rotation
revive c o t a =
    if is_excluded a.id t.rotated_once
    then (t, false)
    else after_rotation c o (record t { rotated_once = a.id ∷ t.rotated_once }) a.id
        (rotate_account c o t.world a)

-- The account is marked, and the next one picked.
unfoldable pub another_account : Outside → Trip → CookieAccount → Text → Trip
another_account o t a err =
    let t' = mark_account o t a.id 401 err in
    let (s, picked) = pick_cookie_account_except (now_of o t'.world) t'.world.store t'.tried in
    record t' { world = with_store t'.world s; last_cookie_err = some err; account = picked }

unfoldable pub unless_revived : Outside → CookieAccount → Text → Trip × Bool → Trip × Bool
unless_revived o a err (t, true) = (t, true)
unless_revived o a err (t, false) = (another_account o t a err, false)

unfoldable pub after_token :
    RuntimeConfig → Outside → Trip → CookieAccount → World × Result Text → Trip × Bool
unfolding unless_revived
after_token c o t a (w, fine token) = (adopt_account c o (record t { world = w }) a token, true)
after_token c o t a (w, erred e) = unless_revived o a e (revive c o (record t { world = w }) a)

-- `accountDisplayName`
unfoldable pub account_display_name : Outside → CookieAccount → Text
account_display_name o a =
    if is_empty a.label then codes "#" ++ o.decimal (pos_part a.id) else a.label

-- `tried[id] = true`
abbrev pub add_once : ℤ → List ℤ → List ℤ
add_once i is = if is_excluded i is then is else i ∷ is

-- One account: whether the search is over.
unfoldable pub try_account : RuntimeConfig → Outside → Trip → CookieAccount → Trip × Bool
unfolding after_token
try_account c o t a =
    let t' = record t {
      tried = add_once a.id t.tried;
      cookie_id = a.id;
      cookie_label = account_display_name o a;
    } in
    after_token c o t' a (get_xsrf o t.world a.cookie t.picked.url)

abbrev pub unless_done : Trip × Bool → (Trip → Trip) → Trip
unless_done (t, true) f = t
unless_done (t, false) f = f t

-- The loop over accounts; it runs at most `max_cookie_tries` times.
unfoldable pub sign_in : RuntimeConfig → Outside → ℕ → Trip → Trip
unfolding try_account
sign_in c o zero t = t
sign_in c o (suc n) t = elim t.account [
  | none ↦ t
  | some a ↦
      if ltb (length t.tried) max_cookie_tries
      then unless_done (try_account c o t a) (sign_in c o n)
      else t
]

-- The text of the refusal where no account is good.
unfoldable pub none_usable : Outside → Trip → Text → Text
none_usable o t err =
    utf8 "cookie 池里 "
    ++ (o.decimal (length t.tried)
        ++ (utf8 " 个账号都不可用（最后一个："
            ++ (err ++ utf8 "）；到面板「Cookie 池」用「检测」按钮逐个排查，或打开 fallback_anon 降级匿名")))

-- `if lastCookieErr != nil && cookieStr == "" { … }`
unfoldable pub or_anonymous : RuntimeConfig → Outside → Trip → Trip × Flow
or_anonymous c o t = elim t.last_cookie_err [
  | none ↦ (t, go_on)
  | some err ↦
      if not (is_empty t.cookie_str)
      then (t, go_on)
      else if not c.fallback_anon
      then (t, leave (gave_up (attrib t) (none_usable o t err)))
      else (record t { cookie_id = pos 0; cookie_label = [] }, go_on)
]

-- Everything about the account in one round.
unfoldable pub with_account : RuntimeConfig → Outside → Trip → Trip × Flow
unfolding or_anonymous sign_in
with_account c o t =
    or_anonymous c o (if is_empty t.cookie_str then sign_in c o max_cookie_tries t else t)
