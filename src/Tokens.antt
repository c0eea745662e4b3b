-- ===== src/Tokens.antt =====
-- internal/app/xsrf.go and bl.go: the tokens of the page /app, cached for each cookie, and the build
-- label of the front end. Each lock of a mutex is one step.
pub mod Same
pub mod Cache
use Prim.Native.Nat.{ℕ, ◌*◌, ◌+◌}
use mathlib.Core.Bool.{Bool, false, not, true, ◌&&◌}
use mathlib.Core.List.{[], ◌++◌, ◌∷◌}
use mathlib.Core.Option.{Option, none, some}
use gemini_web2api_go.Base.Dict.{lookup, put, remove}
use gemini_web2api_go.Base.Int.{int_eq}
use gemini_web2api_go.Base.Lists.{take}
use gemini_web2api_go.Base.Result.{Result, erred, fine}
use gemini_web2api_go.Base.Tests.{if◌then◌else◌, ltb, nat_eq, ◌==◌}
use gemini_web2api_go.Base.Text.{Text, codes, contains, is_empty, text_eq}
use gemini_web2api_go.Config.{RuntimeConfig}
use gemini_web2api_go.Outside.{
  Outside, Reply, Request, World, XsrfEntry, app_page, broken_off, cfb2h, exchange, no_reply,
  now_of, pctx_re, push_id_re, replied, snlm0e,
}

abbrev pub xsrf_ttl : ℕ
xsrf_ttl = 20 * 60

-- `cookieKey`
unfoldable pub cookie_key : Outside → Text → Text
cookie_key o cookie = take 16 (o.sha1_hex cookie)

-- `invalidateXSRF`
unfoldable pub invalidate_xsrf : Outside → World → Text → World
invalidate_xsrf o w cookie =
    if is_empty cookie then w else record w { tokens = remove (cookie_key o cookie) w.tokens }

unfoldable pub page_request : Text → Text → Request
page_request cookie proxy_url =
    let plain =
      (codes "Accept", codes "text/html,application/xhtml+xml,application/xml;q=0.9,*/*;q=0.8")
      ∷ (codes "Accept-Language", codes "en-US,en;q=0.9")
      ∷ [] in
    record {
      endpoint = app_page;
      headers = if is_empty cookie then plain else plain ++ (codes "Cookie", cookie) ∷ [];
      body = [];
      proxy_url = proxy_url;
    }

-- The reading of a page.
unfoldable pub page_of : Outside → Reply → Result Text
page_of o (no_reply e) = erred e
page_of o (broken_off status cookies got e) =
    if status == 200 then erred e else erred (codes "fetch /app: HTTP " ++ o.decimal status)
page_of o (replied status head cookies page) =
    if status == 200 then fine page else erred (codes "fetch /app: HTTP " ++ o.decimal status)

-- `fetchAppPage`
unfoldable pub fetch_app_page : Outside → World → Text → Text → World × Result Text
unfolding exchange
fetch_app_page o w cookie proxy_url =
    let (w', r) = exchange o w (page_request cookie proxy_url) in (w', page_of o r)

abbrev pub or_empty : Option Text → Text
or_empty none = []
or_empty (some t) = t

abbrev pub entry_on : Outside → ℕ → Text → Text → XsrfEntry
entry_on o now page t = record {
  token = t;
  push_id = or_empty (o.find push_id_re page);
  pctx = or_empty (o.find pctx_re page);
  fetched = now;
}

-- The tokens on a page.
unfoldable pub tokens_on : Outside → ℕ → Text → Text → Result XsrfEntry
tokens_on o now cookie page = elim (o.find snlm0e page) [
  | some t ↦ fine (entry_on o now page t)
  | none ↦
      if is_empty cookie
      then fine (entry_on o now page [])
      else erred (codes "no SNlM0e in page (cookie expired or not signed in)")
]

-- `fetchAppTokens`
unfoldable pub fetch_app_tokens : Outside → World → Text → Text → World × Result XsrfEntry
unfolding fetch_app_page tokens_on
fetch_app_tokens o w cookie proxy_url =
    let (w', r) = fetch_app_page o w cookie proxy_url in
    (w', elim r [ erred e ↦ erred e | fine page ↦ tokens_on o (now_of o w') cookie page ])

abbrev pub young_entry : ℕ → Option XsrfEntry → Option XsrfEntry
young_entry now none = none
young_entry now (some e) = if ltb now (e.fetched + xsrf_ttl) then some e else none

-- The entry of a cookie, if it is young enough.
unfoldable pub fresh_entry : Outside → World → Text → Option XsrfEntry
fresh_entry o w cookie = young_entry (now_of o w) (lookup (cookie_key o cookie) w.tokens)

-- `xsrfCache[key] = e`, unless the page had an error.
unfoldable pub remembered : Outside → Text → World × Result XsrfEntry → World × Result XsrfEntry
remembered o cookie (w, erred e) = (w, erred e)
remembered o cookie (w, fine e) =
    (record w { tokens = put (cookie_key o cookie) e w.tokens }, fine e)

-- The part that `getXSRF` and `getUploadTokens` share.
unfoldable pub get_entry : Outside → World → Text → Text → World × Result XsrfEntry
get_entry o w cookie proxy_url = elim (fresh_entry o w cookie) [
  | some e ↦ (w, fine e)
  | none ↦ remembered o cookie (fetch_app_tokens o w cookie proxy_url)
]

abbrev pub token_of : Result XsrfEntry → Result Text
token_of (erred e) = erred e
token_of (fine e) = fine e.token

-- `getXSRF`
unfoldable pub get_xsrf : Outside → World → Text → Text → World × Result Text
get_xsrf o w cookie proxy_url =
    if is_empty cookie
    then (w, fine [])
    else let (w', r) = get_entry o w cookie proxy_url in (w', token_of r)

abbrev pub upload_tokens_of : Result XsrfEntry → Result (Text × Text)
upload_tokens_of (erred e) = erred e
upload_tokens_of (fine e) = fine (e.push_id, e.pctx)

-- `getUploadTokens`
unfoldable pub get_upload_tokens : Outside → World → Text → Text → World × Result (Text × Text)
get_upload_tokens o w cookie proxy_url =
    let (w', r) = get_entry o w cookie proxy_url in (w', upload_tokens_of r)

-- `isXSRFError`
unfoldable pub is_xsrf_error : Text → Bool
is_xsrf_error raw = contains raw (codes "\"xsrf\"")

abbrev pub bl_ttl : ℕ
bl_ttl = 6 * 3600

-- `time.Since(blFetchAt) > blTTL`; nothing was fetched long ago.
abbrev pub is_bl_due : ℕ → Option ℕ → Bool
is_bl_due now none = true
is_bl_due now (some t) = ltb (t + bl_ttl) now

-- `currentBL`: the label, and whether `refreshBL` was started on another thread.
unfoldable pub current_bl : RuntimeConfig → Outside → World → World × (Text × Bool)
current_bl c o w =
    if not c.gemini_bl_auto
    then (w, (c.gemini_bl, false))
    else let due = not w.bl.bl_fetching && is_bl_due (now_of o w) w.bl.bl_fetch_at in
      (
        record w { bl = if due then record w.bl { bl_fetching = true } else w.bl },
        (if is_empty w.bl.bl_fetched then c.gemini_bl else w.bl.bl_fetched, due),
      )

-- The label on a page, if it has the shape of one.
unfoldable pub bl_on : Outside → Text → Text → Text
bl_on o old page = elim (o.find cfb2h page) [
  | none ↦ old
  | some got ↦ if o.is_bl got then got else old
]

-- `refreshBL`
unfoldable pub refresh_bl : Outside → World → Text → World
unfolding fetch_app_page bl_on
refresh_bl o w proxy_url =
    let (w', r) = fetch_app_page o w [] proxy_url in
    record w' {
      bl = record {
        bl_fetched = elim r [
          | erred e ↦ w'.bl.bl_fetched
          | fine page ↦ bl_on o w'.bl.bl_fetched page
        ];
        bl_fetch_at = some (now_of o w');
        bl_fetching = false;
      };
    }
