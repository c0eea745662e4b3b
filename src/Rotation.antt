-- ===== src/Rotation.antt =====
-- internal/app/rotate.go: keeping the session of an account alive. Two requests renew two families
-- of cookies; each goes out through an exit that the rotation takes for itself.
pub mod Sidcc
pub mod Account
pub mod Kept
pub mod Pacing
use Prim.Native.Nat.{ℕ, ◌+◌}
use mathlib.Core.Bool.{Bool, false, not, true, ◌&&◌, ◌||◌}
use mathlib.Core.List.{List, [], map, ◌++◌, ◌∷◌}
use mathlib.Core.Option.{Option, none, some}
use gemini_web2api_go.Base.Dict.{lookup, put}
use gemini_web2api_go.Base.Int.{int_eq, ℤ}
use gemini_web2api_go.Base.Lists.{take}
use gemini_web2api_go.Base.Result.{Result, erred, fine, utf8}
use gemini_web2api_go.Base.Tests.{if◌then◌else◌, leb, nat_eq, ◌==◌}
use gemini_web2api_go.Base.Text.{Text, codes, contains, cut_at, is_empty, text_eq, trim_space}
use gemini_web2api_go.Cookie.{cookie_subset, cookie_value, equals_sign, merge_set_cookie}
use gemini_web2api_go.Outside.{
  Outside, Reply, Request, World, broken_off, exchange, no_reply, now_of, replied, rotate_cookies,
}
use gemini_web2api_go.Proxy.{is_excluded}

abbrev pub min_1psidts_interval : ℕ
min_1psidts_interval = 60

abbrev pub default_rotate_interval : ℕ
default_rotate_interval = 600

abbrev pub rotate_1psidts_cookies : List Text
rotate_1psidts_cookies = codes "__Secure-1PSID" ∷ codes "__Secure-1PSIDTS" ∷ []

-- The loop of `uniqueKeepOrder`.
unfoldable pub unique_after : List Text → List Text → List Text
unique_after seen [] = []
unique_after seen (s ∷ ss) =
    if is_empty s || is_excluded s seen
    then unique_after seen ss
    else s ∷ unique_after (s ∷ seen) ss

-- `uniqueKeepOrder`
unfoldable pub unique_keep_order : List Text → List Text
unfolding unique_after
unique_keep_order names = unique_after [] names

-- The name in one header: what stands before an `=` that is not the first byte.
unfoldable pub header_name : Text → Text
header_name h = elim (cut_at equals_sign h) [
  | none ↦ trim_space h
  | some (name, value) ↦ if is_empty name then trim_space h else trim_space name
]

-- `setCookieNames`
unfoldable pub set_cookie_names : List Text → List Text
unfolding unique_after header_name
set_cookie_names headers = unique_after [] (map header_name headers)

abbrev pub has_rested : ℕ → Option ℕ → Bool
has_rested now none = true
has_rested now (some last) = leb (last + min_1psidts_interval) now

-- `allow1PSIDTSRotate`
unfoldable pub allow_1psidts_rotate : Outside → World → ℤ → Bool
allow_1psidts_rotate o w i = has_rested (now_of o w) (lookup i w.psidts_last_at)

-- The errors after which an attempt does not count.
abbrev pub is_uncounted : Result (Text × List Text) → Bool
is_uncounted (fine r) = false
is_uncounted (erred e) =
    not (contains e (codes "HTTP 401"))
    && (not (contains e (codes "HTTP 403")) && not (contains e (codes "HTTP 429")))

-- `note1PSIDTSAttempt`
unfoldable pub note_1psidts_attempt : Outside → World → ℤ → Result (Text × List Text) → World
note_1psidts_attempt o w i r =
    if is_uncounted r then w else record w { psidts_last_at = put i (now_of o w) w.psidts_last_at }

abbrev rotate_1psidts_body : Text
rotate_1psidts_body = codes "[000,\"-0000000000000000000\"]"

unfoldable pub rotate_1psidts_request : Text → Text → Request
rotate_1psidts_request cookie proxy_url = record {
  endpoint = rotate_cookies;
  headers =
      (codes "Accept", codes "*/*")
      ∷ (codes "Content-Type", codes "application/json")
      ∷ (codes "Origin", codes "https://accounts.google.com")
      ∷ (codes "Cookie", cookie_subset cookie rotate_1psidts_cookies)
      ∷ (codes "Cache-Control", codes "no-cache")
      ∷ (codes "Pragma", codes "no-cache")
      ∷ (codes "Sec-Fetch-Dest", codes "empty")
      ∷ (codes "Sec-Fetch-Mode", codes "cors")
      ∷ (codes "Sec-Fetch-Site", codes "same-origin")
      ∷ [];
  body = rotate_1psidts_body;
  proxy_url = proxy_url;
}

-- The reading of the answer to the first request.
unfoldable pub psidts_of : Outside → Text → Reply → Result (Text × List Text)
psidts_of o cookie (no_reply e) = erred e
psidts_of o cookie (broken_off status cookies got e) = erred e
psidts_of o cookie (replied status head cookies got) =
    if status == 401 || status == 403
    then erred (
        utf8 "RotateCookies 1PSIDTS 返回 HTTP "
        ++ (o.decimal status
            ++ (utf8 "（Chrome 导出的 cookie 可能受设备绑定限制，建议用 Firefox 重新导出）: " ++ take 120 got)))
    else if not (status == 200)
    then erred (
        utf8 "RotateCookies 1PSIDTS 返回 HTTP " ++ (o.decimal status ++ (codes ": " ++ take 120 got)))
    else fine (merge_set_cookie o.order cookie cookies, set_cookie_names cookies)

-- `rotate1PSIDTS`
unfoldable pub rotate_1psidts : Outside → World → Text → Text → World × Result (Text × List Text)
unfolding exchange psidts_of
rotate_1psidts o w cookie proxy_url =
    let (w', r) = exchange o w (rotate_1psidts_request cookie proxy_url) in
    (w', psidts_of o cookie r)

-- `tryRotate1PSIDTS`
unfoldable pub try_rotate_1psidts :
    Outside → World → ℤ → Text → Text → World × Result (Text × List Text)
unfolding rotate_1psidts note_1psidts_attempt
try_rotate_1psidts o w i cookie proxy_url =
    if is_empty (cookie_value cookie (codes "__Secure-1PSID"))
    then (w, fine (cookie, []))
    else if not (allow_1psidts_rotate o w i)
    then (w, fine (cookie, []))
    else let (w', r) = rotate_1psidts o w cookie proxy_url in (note_1psidts_attempt o w' i r, r)
