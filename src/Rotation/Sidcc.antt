-- ===== src/Rotation/Sidcc.antt =====
-- internal/app/rotate.go: the second renewal, that of the `SIDCC` family, a page and a post.
use Prim.Native.Nat.{ℕ, ◌/◌}
use mathlib.Core.Bool.{not, ◌&&◌}
use mathlib.Core.List.{List, [], ◌++◌, ◌∷◌}
use mathlib.Core.Option.{none, some}
use gemini_web2api_go.Base.Int.{int_eq}
use gemini_web2api_go.Base.Lists.{take}
use gemini_web2api_go.Base.Result.{Result, erred, fine, utf8}
use gemini_web2api_go.Base.Tests.{if◌then◌else◌, leb, nat_eq, ◌==◌}
use gemini_web2api_go.Base.Text.{Text, codes, text_eq}
use gemini_web2api_go.Cookie.{merge_set_cookie}
use gemini_web2api_go.Outside.{
  Outside, Reply, Request, World, broken_off, exchange, no_reply, replied, rotate_cookies,
  rotate_page,
}
use gemini_web2api_go.Rotation.{default_rotate_interval, set_cookie_names}

unfoldable pub rotate_page_request : Text → Text → Request
rotate_page_request cookie proxy_url = record {
  endpoint = rotate_page;
  headers =
      (codes "Cookie", cookie)
      ∷ (
        codes "Accept",
        codes
            "text/html,application/xhtml+xml,application/xml;q=0.9,image/avif,image/webp,image/apng,*/*;q=0.8,application/signed-exchange;v=b3;q=0.7",
      )
      ∷ (codes "Referer", codes "https://gemini.google.com/")
      ∷ (codes "Sec-Fetch-Dest", codes "iframe")
      ∷ (codes "Sec-Fetch-Mode", codes "navigate")
      ∷ (codes "Sec-Fetch-Site", codes "same-site")
      ∷ (codes "Sec-Fetch-User", codes "?1")
      ∷ (codes "Upgrade-Insecure-Requests", codes "1")
      ∷ (codes "Priority", codes "u=0, i")
      ∷ [];
  body = [];
  proxy_url = proxy_url;
}

-- The interval that the page names, between a minute and an hour.
unfoldable pub interval_of : Outside → Text → ℕ
interval_of o t = elim (o.thousandths t) [
  | none ↦ default_rotate_interval
  | some n ↦ if leb 60000 n && leb n 3600000 then n / 1000 else default_rotate_interval
]

-- The session's identifier, the interval and the page's cookies.
unfoldable pub rotate_params_of : Outside → Reply → Result (Text × (ℕ × List Text))
rotate_params_of o (no_reply e) = erred e
rotate_params_of o (broken_off status cookies got e) = erred e
rotate_params_of o (replied status head cookies got) =
    if not (status == 200)
    then erred (utf8 "取轮转页返回 HTTP " ++ o.decimal status)
    else elim (o.find_init got) [
      | none ↦ erred (utf8 "轮转页里没有 init(...)（cookie 可能已失效）")
      | some (i, t) ↦ fine (i, (interval_of o t, cookies))
    ]

-- `fetchRotateParams`
unfoldable pub fetch_rotate_params :
    Outside → World → Text → Text → World × Result (Text × (ℕ × List Text))
unfolding exchange rotate_params_of
fetch_rotate_params o w cookie proxy_url =
    let (w', r) = exchange o w (rotate_page_request cookie proxy_url) in (w', rotate_params_of o r)

abbrev rotate_page_url : Text
rotate_page_url =
    codes
      "https://accounts.google.com/RotateCookiesPage?og_pid=658&rot=3&origin=https%3A%2F%2Fgemini.google.com&exp_id=0"

-- The second request; the headers are those of `rotatePostHeaders`.
unfoldable pub sidcc_request : Text → Text → Text → Request
sidcc_request i cookie proxy_url = record {
  endpoint = rotate_cookies;
  headers =
      (codes "Accept", codes "*/*")
      ∷ (codes "Content-Type", codes "application/json")
      ∷ (codes "Origin", codes "https://accounts.google.com")
      ∷ (codes "Referer", rotate_page_url)
      ∷ (codes "Cache-Control", codes "no-cache")
      ∷ (codes "Pragma", codes "no-cache")
      ∷ (codes "Priority", codes "u=1, i")
      ∷ (codes "Sec-Fetch-Dest", codes "empty")
      ∷ (codes "Sec-Fetch-Mode", codes "same-origin")
      ∷ (codes "Sec-Fetch-Site", codes "same-origin")
      ∷ (codes "Cookie", cookie)
      ∷ [];
  body = codes "[658,\"" ++ (i ++ codes "\"]");
  proxy_url = proxy_url;
}

-- What `rotateSIDCC` returns without an error.
pub record Renewed : Type 0 where
  pub renewed_cookie : Text
  pub interval : ℕ
  pub names : List Text

-- The reading of the answer to the second request.
unfoldable pub sidcc_of : Outside → Text → ℕ → List Text → Reply → Result Renewed
sidcc_of o cookie interval page_set (no_reply e) = erred e
sidcc_of o cookie interval page_set (broken_off status cookies got e) = erred e
sidcc_of o cookie interval page_set (replied status head cookies got) =
    if not (status == 200)
    then erred (utf8 "RotateCookies 返回 HTTP " ++ (o.decimal status ++ (codes ": " ++ take 120 got)))
    else fine (record {
      renewed_cookie = merge_set_cookie o.order cookie cookies;
      interval = interval;
      names = set_cookie_names (page_set ++ cookies);
    })

-- The post that follows the page.
unfoldable pub post_sidcc :
    Outside → Text → Text → World × Result (Text × (ℕ × List Text)) → World × Result Renewed
unfolding exchange sidcc_of
post_sidcc o cookie proxy_url (w, erred e) = (w, erred e)
post_sidcc o cookie proxy_url (w, fine (i, (interval, page_set))) =
    let cookie' = merge_set_cookie o.order cookie page_set in
    let (w', r) = exchange o w (sidcc_request i cookie' proxy_url) in
    (w', sidcc_of o cookie' interval page_set r)

-- `rotateSIDCC`
unfoldable pub rotate_sidcc : Outside → World → Text → Text → World × Result Renewed
unfolding fetch_rotate_params post_sidcc
rotate_sidcc o w cookie proxy_url =
    post_sidcc o cookie proxy_url (fetch_rotate_params o w cookie proxy_url)
