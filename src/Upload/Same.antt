-- ===== src/Upload/Same.antt =====
-- Uploads touch neither exits nor accounts.
use Prim.Native.Nat.{ℕ}
use mathlib.Core.Bool.{◌||◌}
use mathlib.Core.List.{List}
use mathlib.Core.Logic.{inl, inr}
use gemini_web2api_go.Base.Int.{int_eq}
use gemini_web2api_go.Base.Lists.{length}
use gemini_web2api_go.Base.Result.{Result, erred, fine}
use gemini_web2api_go.Base.Tests.{Bool-cases, leb, nat_eq, ◌==◌}
use gemini_web2api_go.Base.Text.{Text, is_empty, text_eq}
use gemini_web2api_go.Cookie.{Pair}
use gemini_web2api_go.Outside.{Outside, World, exchange}
use gemini_web2api_go.Outside.Kept.{Same, Same-refl}
use gemini_web2api_go.Tokens.Same.{get_upload_tokens-Same}
use gemini_web2api_go.Upload.{
  as_attachment, base_headers, context_file_name, finalize, prepare_context_file, put_request,
  start_request, upload_bytes, upload_with,
}

finalize-Same :
    (o : Outside) (base : List Pair) (proxy_url content : Text) (w v : World) (r : Result Text)
    → Same w v
    → Same w (finalize o base proxy_url content (v, r)).0
unfolding finalize exchange put_request
finalize-Same o base proxy_url content w v (erred e) s = s
finalize-Same o base proxy_url content w v (fine u) s = record {
  same_exits = s.same_exits;
  same_store = s.same_store;
  same_asked = s.same_asked;
}

upload_with-Same :
    (o : Outside) (cookie proxy_url content name : Text) (w v : World) (r : Result (Text × Text))
    → Same w v
    → Same w (upload_with o cookie proxy_url content name (v, r)).0
unfolding upload_with exchange start_request
upload_with-Same o cookie proxy_url content name w v (erred e) s = s
upload_with-Same o cookie proxy_url content name w v (fine (push_id, pctx)) s =
    elim (Bool-cases (is_empty push_id)) [
      | inl e ↦ rw e s
      | inr e ↦ rw e (
          finalize-Same o (base_headers cookie push_id pctx) proxy_url content w _ _ (record {
            same_exits = s.same_exits;
            same_store = s.same_store;
            same_asked = s.same_asked;
          }))
    ]

pub upload_bytes-Same :
    (o : Outside) (w : World) (cookie proxy_url content name : Text)
    → Same w (upload_bytes o w cookie proxy_url content name).0
unfolding upload_bytes
upload_bytes-Same o w cookie proxy_url content name =
    upload_with-Same o cookie proxy_url content name w _ _
      (get_upload_tokens-Same o w cookie proxy_url)

as_attachment-Same :
    (latest : Text) (budget : ℕ) (w v : World) (r : Result Text)
    → Same w v
    → Same w (as_attachment latest budget (v, r)).0
unfolding as_attachment
as_attachment-Same latest budget w v (erred e) s = s
as_attachment-Same latest budget w v (fine r) s = s

pub prepare-Same :
    (o : Outside) (w : World) (prompt latest : Text) (budget : ℕ) (cookie proxy_url : Text)
    → Same w (prepare_context_file o w prompt latest budget cookie proxy_url).0
unfolding prepare_context_file
prepare-Same o w prompt latest budget cookie proxy_url =
    elim (Bool-cases (budget == 0 || leb (length prompt) budget)) [
      | inl e ↦ rw (e, prepare_context_file) (Same-refl w)
      | inr e ↦ elim (Bool-cases (is_empty cookie)) [
        | inl d ↦ rw (e, d, prepare_context_file) (Same-refl w)
        | inr d ↦
            rw (e, d, prepare_context_file)
              (as_attachment-Same latest budget w _ _
                (upload_bytes-Same o w cookie proxy_url prompt context_file_name))
      ]
    ]
