-- ===== src/Tokens/Same.antt =====
-- Taking tokens and uploading touch neither exits nor accounts.
use mathlib.Core.Logic.{inl, inr}
use mathlib.Core.Option.{Option, none, some}
use mathlib.Core.Path.{refl}
use gemini_web2api_go.Base.Int.{int_eq}
use gemini_web2api_go.Base.Result.{Result, erred, fine}
use gemini_web2api_go.Base.Tests.{Bool-cases, nat_eq}
use gemini_web2api_go.Base.Text.{Text, is_empty, text_eq}
use gemini_web2api_go.Config.{RuntimeConfig}
use gemini_web2api_go.Outside.{Outside, World, XsrfEntry, exchange}
use gemini_web2api_go.Outside.Kept.{Same, Same-refl}
use gemini_web2api_go.Tokens.{
  current_bl, fetch_app_page, fetch_app_tokens, fresh_entry, get_entry, get_upload_tokens, get_xsrf,
  invalidate_xsrf, page_request, remembered,
}

pub get_entry-Same :
    (o : Outside) (w : World) (cookie proxy_url : Text) → Same w (get_entry o w cookie proxy_url).0
unfolding get_entry fetch_app_tokens fetch_app_page exchange remembered page_request
get_entry-Same o w cookie proxy_url = found (fresh_entry o w cookie)
  where
    after : (v : World) (r : Result XsrfEntry) → Same w v → Same w (remembered o cookie (v, r)).0
    after v (erred e) s = s
    after v (fine e) s = record {
      same_exits = s.same_exits;
      same_store = s.same_store;
      same_asked = s.same_asked;
    }

    found :
        (m : Option XsrfEntry)
        → Same w (
            let r : World × Result XsrfEntry = elim m [
              | some e ↦ (w, fine e)
              | none ↦ remembered o cookie (fetch_app_tokens o w cookie proxy_url)
            ] in
            r.0)
    found (some e) = Same-refl w
    found none =
        after (fetch_app_tokens o w cookie proxy_url).0 (fetch_app_tokens o w cookie proxy_url).1
          (record { same_exits = refl; same_store = refl; same_asked = refl })

pub get_xsrf-Same :
    (o : Outside) (w : World) (cookie proxy_url : Text) → Same w (get_xsrf o w cookie proxy_url).0
unfolding get_xsrf
get_xsrf-Same o w cookie proxy_url = elim (Bool-cases (is_empty cookie)) [
  | inl e ↦ rw (e, get_xsrf) (Same-refl w)
  | inr e ↦ rw (e, get_xsrf) (get_entry-Same o w cookie proxy_url)
]

pub get_upload_tokens-Same :
    (o : Outside) (w : World) (cookie proxy_url : Text)
    → Same w (get_upload_tokens o w cookie proxy_url).0
unfolding get_upload_tokens
get_upload_tokens-Same o w cookie proxy_url = get_entry-Same o w cookie proxy_url

pub invalidate-Same :
    (o : Outside) (w : World) (cookie : Text) → Same w (invalidate_xsrf o w cookie)
unfolding invalidate_xsrf
invalidate-Same o w cookie = elim (Bool-cases (is_empty cookie)) [
  | inl e ↦ rw (e, invalidate_xsrf) (Same-refl w)
  | inr e ↦
      rw (e, invalidate_xsrf) (record { same_exits = refl; same_store = refl; same_asked = refl })
]

pub current_bl-Same : (c : RuntimeConfig) (o : Outside) (w : World) → Same w (current_bl c o w).0
unfolding current_bl
current_bl-Same c o w = elim (Bool-cases c.gemini_bl_auto) [
  | inl e ↦ rw (e, current_bl) (record { same_exits = refl; same_store = refl; same_asked = refl })
  | inr e ↦ rw (e, current_bl) (Same-refl w)
]
