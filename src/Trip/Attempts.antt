-- ===== src/Trip/Attempts.antt =====
-- The attempts through one exit, with the one renewal of the token that does not count as one.
use Prim.Native.Nat.{suc, zero, ℕ}
use mathlib.Core.Bool.{Bool, false, not, true, ◌&&◌, ◌||◌}
use mathlib.Core.List.{List, [], ◌++◌}
use mathlib.Core.Option.{Option, none, some}
use gemini_web2api_go.Accounts.{update_account_cookie}
use gemini_web2api_go.Base.Int.{int_eq, is_positive}
use gemini_web2api_go.Base.Lists.{length, take}
use gemini_web2api_go.Base.Result.{Result, erred, fine}
use gemini_web2api_go.Base.Tests.{if◌then◌else◌, nat_eq, ◌==◌}
use gemini_web2api_go.Base.Text.{Text, codes, is_empty, text_eq}
use gemini_web2api_go.Config.{RuntimeConfig}
use gemini_web2api_go.Cookie.{Pair, merge_set_cookie}
use gemini_web2api_go.Frames.{extract_reasoning, has_content_frame}
use gemini_web2api_go.Outside.{
  Outside, Reply, Request, World, broken_off, clean_gemini_text, exchange, no_reply, now_of,
  replied, stream_generate,
}
use gemini_web2api_go.Payload.{Value, Writers, build_body, request_headers}
use gemini_web2api_go.Stream.Feed.{body_lines, feed_lines}
use gemini_web2api_go.Tokens.{get_xsrf, invalidate_xsrf, is_xsrf_error}
use gemini_web2api_go.Trip.{
  Asked, StreamResult, Trip, attrib, has_emitted, mark_account, report, with_store,
}
use gemini_web2api_go.Trip.Attach.{is_none_left}

-- The request as it is sent; the headers keep the cookie that they were made with.
pub record Dispatch : Type 0 where
  pub bl_label : Text
  pub reqid : Text
  pub inner : Value
  pub model_header : Text
  pub session_header : Text
  pub sent_headers : List Pair
  pub sent_body : Text

-- What came back to an attempt: an error, or a status and a body.
pub data Seen : Type 0 where
  crashed : Text → Seen
  came : ℕ → Text → Seen

-- `mergeSetCookie` and `updateAccountCookie`
unfoldable pub take_cookies : Outside → Trip → List Text → Trip
take_cookies o t cookies =
    let merged = merge_set_cookie o.order t.cookie_str cookies in
    if is_none_left cookies || not (is_positive t.cookie_id) || merged == t.cookie_str
    then t
    else record t {
      cookie_str = merged;
      world = with_store t.world (update_account_cookie t.world.store t.cookie_id merged);
    }

-- The lines of a body have gone to the client as they came.
unfoldable pub fed : Outside → Asked → Trip → Text → Trip
fed o q t got = record t {
  feed = feed_lines o.parse (clean_gemini_text o) q.callbacks t.feed (body_lines got);
}

unfoldable pub take_reply : Outside → Asked → Trip → Reply → Trip × Seen
unfolding fed
take_reply o q t (no_reply e) = (t, crashed e)
take_reply o q t (broken_off status cookies got e) =
    (take_cookies o (fed o q t got) cookies, crashed e)
take_reply o q t (replied status head cookies got) =
    (take_cookies o (fed o q t got) cookies, came status got)

abbrev pub generate_request : Trip → Dispatch → Request
generate_request t d = record {
  endpoint = stream_generate d.bl_label d.reqid;
  headers = d.sent_headers;
  body = d.sent_body;
  proxy_url = t.picked.url;
}

-- `doGeminiRequest`, and the cookies that came with the answer.
unfoldable pub send_once : Outside → Asked → Trip → Dispatch → Trip × Seen
unfolding take_reply exchange
send_once o q t d =
    let (w, r) = exchange o t.world (generate_request t d) in
    take_reply o q (record t { world = w }) r

-- How one attempt ends: with the answer, with `break`, or with `continue`.
pub data Turn : Type 0 where
  delivered : StreamResult → Turn
  broke : Turn
  again : Turn

-- `lastErr = err`, and the report to the exit.
unfoldable pub fail_with : RuntimeConfig → Outside → Trip → Text → Trip × Turn
fail_with c o t err =
    let t' = report c o (record t { last_err = some err }) false err in
    (t', if has_emitted t then broke else again)

unfoldable pub stream_result : Outside → Trip → Text → StreamResult
stream_result o t raw = record {
  emitted_text = t.feed.emitted;
  emitted_thought = t.feed.emitted_reasoning;
  raw = raw;
  reasoning = extract_reasoning o.parse (clean_gemini_text o) raw;
  served_by = elim (o.upstream_model raw) [ none ↦ [] | some m ↦ m ];
  attribution = attrib t;
}

unfoldable pub complete : RuntimeConfig → Outside → Trip → Text → Trip × Turn
complete c o t raw =
    let t' = mark_account o (report c o t true []) t.cookie_id 200 [] in
    (t', delivered (stream_result o t raw))

unfoldable pub handle : RuntimeConfig → Outside → Trip → Seen → Trip × Turn
unfolding fail_with complete
handle c o t (crashed e) = fail_with c o t e
handle c o t (came status raw) =
    if not (status == 200)
    then fail_with c o (record t { last_status = status })
        (codes "upstream HTTP " ++ (o.decimal status ++ (codes ": " ++ take 200 raw)))
    else if not (has_content_frame o.parse raw)
    then fail_with c o t (
        codes "upstream returned no content frame (raw "
        ++ (o.decimal (length raw) ++ codes " bytes)"))
    else complete c o t raw

abbrev pub unless_over :
    Trip × Turn → (Trip → Trip × Option StreamResult) → Trip × Option StreamResult
unless_over (t, delivered r) f = (t, some r)
unless_over (t, broke) f = (t, none)
unless_over (t, again) f = f t

abbrev pub handled : RuntimeConfig → Outside → Trip × Seen → Trip × Turn
unfolding handle
handled c o (t, s) = handle c o t s

-- The loop after the token was renewed, with `n` attempts left.
unfoldable pub attempts_renewed :
    RuntimeConfig → Outside → Asked → Dispatch → ℕ → Trip → Trip × Option StreamResult
unfolding send_once handle
attempts_renewed c o q d zero t = (t, none)
attempts_renewed c o q d (suc n) t =
    unless_over (handled c o (send_once o q t d)) (attempts_renewed c o q d n)

-- `statusCode == 400 && isXSRFError(string(raw)) && cookieStr != ""`
unfoldable pub is_stale_token : Trip → Seen → Bool
is_stale_token t (crashed e) = false
is_stale_token t (came status raw) =
    status == 400 && (is_xsrf_error raw && not (is_empty t.cookie_str))

-- The request with another token and the cookie of now.
unfoldable pub redispatch : Outside → Writers → Asked → Trip → Dispatch → Text → Dispatch
redispatch o k q t d token = record d {
  sent_headers =
      request_headers o (now_of o t.world) t.cookie_str t.sapisid q.model.hex_id d.model_header
        d.session_header;
  sent_body = build_body k d.inner token;
}

-- The renewal: with a new token the attempt is made again, without one it counts.
unfoldable pub renew_token :
    RuntimeConfig
    → Outside
    → Writers
    → Asked
    → Dispatch
    → ℕ
    → Trip
    → Seen
    → World × Result Text
    → Trip × Option StreamResult
unfolding attempts_renewed handle
renew_token c o k q d n t s (w, fine token) =
    let t' = record t { world = w } in
    attempts_renewed c o q (redispatch o k q t' d token) (suc n) t'
renew_token c o k q d n t s (w, erred e) =
    unless_over (handle c o (record t { world = w }) s) (attempts_renewed c o q d n)

-- The loop before the token was renewed, with `n` attempts left.
unfoldable pub attempt_loop :
    RuntimeConfig → Outside → Writers → Asked → Dispatch → ℕ → Trip → Trip × Option StreamResult
unfolding send_once handle renew_token is_stale_token
attempt_loop c o k q d zero t = (t, none)
attempt_loop c o k q d (suc n) t =
    let (t', s) = send_once o q t d in
    let rest = attempt_loop c o k q d n in
    if is_stale_token t' s
    then renew_token c o k q d n t' s
        (get_xsrf o (invalidate_xsrf o t'.world t'.cookie_str) t'.cookie_str t'.picked.url)
    else unless_over (handle c o t' s) rest
