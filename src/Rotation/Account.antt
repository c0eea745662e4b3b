-- ===== src/Rotation/Account.antt =====
-- internal/app/rotate.go: both renewals of one account, and of all accounts.
use Prim.Native.Nat.{ℕ}
use mathlib.Core.Bool.{not, ◌&&◌}
use mathlib.Core.List.{List, [], ◌++◌, ◌∷◌}
use gemini_web2api_go.Accounts.{CookieAccount, enabled_status, update_account_cookie}
use gemini_web2api_go.Acquire.{Outcome, acquire_slot, refusal_text, refused, release_slot, taken}
use gemini_web2api_go.Base.Int.{int_eq, ℤ}
use gemini_web2api_go.Base.Lists.{length}
use gemini_web2api_go.Base.Result.{Result, erred, fine, utf8}
use gemini_web2api_go.Base.Tests.{if◌then◌else◌, ltb, nat_eq, ◌==◌}
use gemini_web2api_go.Base.Text.{Text, text_eq}
use gemini_web2api_go.Config.{RuntimeConfig}
use gemini_web2api_go.Outside.{Outside, World, now_of, sent_count}
use gemini_web2api_go.Rotation.{default_rotate_interval, try_rotate_1psidts, unique_keep_order}
use gemini_web2api_go.Rotation.Sidcc.{Renewed, rotate_sidcc}
use gemini_web2api_go.Tokens.{invalidate_xsrf}

-- The cookie and the names after each of the two renewals.
abbrev after_psidts : Text → Result (Text × List Text) → Text × List Text
after_psidts cookie (erred e) = (cookie, [])
after_psidts cookie (fine r) = r

abbrev after_sidcc : Text × List Text → Result Renewed → Renewed
after_sidcc (cookie, names) (erred e) = record {
  renewed_cookie = cookie;
  interval = default_rotate_interval;
  names = names;
}
after_sidcc (cookie, names) (fine r) = record {
  renewed_cookie = r.renewed_cookie;
  interval = if ltb 0 r.interval then r.interval else default_rotate_interval;
  names = names ++ r.names;
}

-- What is returned: an error only where nothing was renewed, the first of the two.
unfoldable pub rotated_of :
    Text → Result (Text × List Text) → Result Renewed → Renewed → Result (ℕ × List Text)
rotated_of cookie p s r =
    let done = fine (r.interval, unique_keep_order r.names) in
    if r.renewed_cookie == cookie && length (unique_keep_order r.names) == 0
    then elim p [ erred e ↦ erred e | fine q ↦ elim s [ erred e ↦ erred e | fine q' ↦ done ] ]
    else done

-- The two renewals through an exit, and the write-back.
unfoldable pub renew : Outside → World → CookieAccount → Text → World × Result (ℕ × List Text)
unfolding try_rotate_1psidts rotate_sidcc
renew o w a proxy_url =
    let (w1, p) = try_rotate_1psidts o w a.id a.cookie proxy_url in
    let mid = after_psidts a.cookie p in
    let (w2, s) = rotate_sidcc o w1 mid.0 proxy_url in
    let r = after_sidcc mid s in
    let w3 =
      if r.renewed_cookie == a.cookie
      then w2
      else invalidate_xsrf o
          (record w2 { store = update_account_cookie w2.store a.id r.renewed_cookie }) a.cookie in
    (w3, rotated_of a.cookie p s r)

-- `releaseSlot` on the shared state.
abbrev pub release_at : World → ℤ → World
release_at w i = record w { exits = release_slot w.exits i }

-- The rotation through the exit that it got, which is released at the end.
unfoldable pub rotate_through :
    Outside → World → CookieAccount → Outcome → World × Result (ℕ × List Text)
unfolding renew
rotate_through o w a (refused e) = (w, erred (utf8 "保活获取代理出口失败: " ++ refusal_text e))
rotate_through o w a (taken p) = let (w', r) = renew o w a p.url in (release_at w' p.id, r)

-- `rotateAccount`
unfoldable pub rotate_account :
    RuntimeConfig → Outside → World → CookieAccount → World × Result (ℕ × List Text)
unfolding rotate_through
rotate_account c o w a =
    let (x, out) = acquire_slot c (now_of o w) (o.remote (sent_count w)) w.exits a.proxy_id in
    rotate_through o (record w { exits = x }) a out

abbrev next_wait : ℕ → Result (ℕ × List Text) → ℕ
next_wait next (erred e) = next
next_wait next (fine (iv, names)) = if ltb 0 iv then iv else next

-- The loop of `rotateAllAccounts`.
unfoldable pub rotate_each : RuntimeConfig → Outside → World → List CookieAccount → ℕ → World × ℕ
rotate_each c o w [] next = (w, next)
rotate_each c o w (a ∷ rows) next =
    if not (a.status == enabled_status)
    then rotate_each c o w rows next
    else let (w', r) = rotate_account c o w a in rotate_each c o w' rows (next_wait next r)

-- `rotateAllAccounts`
unfoldable pub rotate_all_accounts : RuntimeConfig → Outside → World → World × ℕ
unfolding rotate_each
rotate_all_accounts c o w = rotate_each c o w w.store.accounts default_rotate_interval
