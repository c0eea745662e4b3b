-- ===== src/Talk/Attempts.antt =====
-- The attempts of one turn through one exit.
use Prim.Native.Nat.{suc, zero, ℕ, ◌%◌, ◌*◌, ◌+◌}
use mathlib.Core.Bool.{not, true, ◌||◌}
use mathlib.Core.List.{List, [], ◌++◌}
use mathlib.Core.Option.{Option, none, some}
use gemini_web2api_go.Base.Int.{int_eq}
use gemini_web2api_go.Base.Lists.{length, take}
use gemini_web2api_go.Base.Result.{utf8}
use gemini_web2api_go.Base.Tests.{if◌then◌else◌, nat_eq, ◌==◌}
use gemini_web2api_go.Base.Text.{Text, codes, is_empty, text_eq}
use gemini_web2api_go.Config.{RuntimeConfig}
use gemini_web2api_go.Conversation.{ConvState}
use gemini_web2api_go.Cookie.{merge_set_cookie}
use gemini_web2api_go.Frames.{has_content_frame}
use gemini_web2api_go.Models.{ModelConfig}
use gemini_web2api_go.Outside.{
  Outside, Reply, broken_off, exchange, no_reply, now_of, replied, sent_count,
}
use gemini_web2api_go.Payload.{
  Writers, build_body, build_model_header, request_headers, thinking_extended, thinking_normal,
}
use gemini_web2api_go.Talk.{Talk, continued, conv_payload}
use gemini_web2api_go.Talk.Settle.{conv_attribution, in_world}
use gemini_web2api_go.Tokens.{current_bl}
use gemini_web2api_go.Trip.{Asked, StreamResult, Trip, report}
use gemini_web2api_go.Trip.Attach.{is_none_left}
use gemini_web2api_go.Trip.Attempts.{
  Dispatch, Seen, Turn, again, broke, came, crashed, delivered, fail_with, fed, generate_request,
  stream_result,
}

-- The request of one round, and the state after `currentBL`. `nanos` is the clock in nanoseconds.
unfoldable pub conv_dispatch :
    RuntimeConfig → Outside → Writers → (ℕ → ℕ) → ModelConfig → Text → Talk → Talk × Dispatch
conv_dispatch c o k nanos mc prompt s =
    let sent = sent_count s.trip.world in
    let think = if mc.thinking then thinking_extended else thinking_normal in
    let inner = conv_payload mc prompt s.conv (o.uuid (2 * sent)) in
    let model_header = build_model_header o mc.hex_id mc.mode think (o.uuid (2 * sent + 1)) in
    let session_header = codes "[\"" ++ (o.uuid (2 * sent) ++ codes "\",1]") in
    let (w, (label, started)) = current_bl c o s.trip.world in
    (
      in_world s w,
      record {
        bl_label = label;
        reqid = o.decimal (nanos sent % 1000000);
        inner = inner;
        model_header = model_header;
        session_header = session_header;
        sent_headers =
            request_headers o (now_of o s.trip.world) s.conv.cookie s.conv.sapisid mc.hex_id
              model_header session_header;
        sent_body = build_body k inner s.trip.xsrf_token;
      },
    )

-- `mergeSetCookie` into the conversation alone.
unfoldable pub conv_cookies : Outside → ConvState → List Text → ConvState
conv_cookies o v cookies =
    if is_none_left cookies || is_empty v.cookie
    then v
    else record v { cookie = merge_set_cookie o.order v.cookie cookies }

unfoldable pub conv_reply : Outside → Asked → Talk → Reply → Talk × Seen
unfolding fed conv_cookies
conv_reply o q k (no_reply e) = (k, crashed e)
conv_reply o q k (broken_off status cookies got e) =
    (record { trip = fed o q k.trip got; conv = conv_cookies o k.conv cookies }, crashed e)
conv_reply o q k (replied status head cookies got) =
    (record { trip = fed o q k.trip got; conv = conv_cookies o k.conv cookies }, came status got)

unfoldable pub conv_send : Outside → Asked → Talk → Dispatch → Talk × Seen
unfolding exchange conv_reply
conv_send o q k d =
    let (w, r) = exchange o k.trip.world (generate_request k.trip d) in
    conv_reply o q (in_world k w) r

abbrev pub put_trip : Talk → Trip × Turn → Talk × Turn
put_trip k (t, n) = (record k { trip = t }, n)

unfoldable pub conv_answer : RuntimeConfig → Outside → Talk → Text → Talk × Turn
conv_answer c o k raw =
    let t = report c o k.trip true [] in
    (
      record { trip = t; conv = continued o k.conv raw },
      delivered (record (stream_result o t raw) {
        attribution = conv_attribution k.conv.account_id t.picked;
      }),
    )

unfoldable pub conv_handle : RuntimeConfig → Outside → Talk × Seen → Talk × Turn
unfolding fail_with conv_answer
conv_handle c o (k, crashed e) = put_trip k (fail_with c o k.trip e)
conv_handle c o (k, came status raw) =
    if not (status == 200)
    then put_trip k (
        fail_with c o k.trip
          (codes "upstream HTTP " ++ (o.decimal status ++ (codes ": " ++ take 160 raw))))
    else if not (has_content_frame o.parse raw)
    then put_trip k (
        fail_with c o k.trip
          (utf8 "续接无内容帧（会话可能已失效，raw " ++ (o.decimal (length raw) ++ utf8 " 字节）")))
    else conv_answer c o k raw

abbrev pub conv_unless_over :
    Talk × Turn → (Talk → Talk × Option StreamResult) → Talk × Option StreamResult
conv_unless_over (k, delivered r) f = (k, some r)
conv_unless_over (k, broke) f = (k, none)
conv_unless_over (k, again) f = f k

-- The loop over attempts, with `n` left.
unfoldable pub conv_attempts :
    RuntimeConfig → Outside → Asked → Dispatch → ℕ → Talk → Talk × Option StreamResult
unfolding conv_send conv_handle
conv_attempts c o q d zero k = (k, none)
conv_attempts c o q d (suc n) k =
    conv_unless_over (conv_handle c o (conv_send o q k d)) (conv_attempts c o q d n)
