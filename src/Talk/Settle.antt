-- ===== src/Talk/Settle.antt =====
-- What a turn does between its exit and its attempts: the anonymous session, and the token.
use mathlib.Core.Bool.{Bool, not, ◌&&◌}
use mathlib.Core.List.{[], ◌++◌}
use mathlib.Core.Option.{some}
use gemini_web2api_go.Base.Int.{int_eq, pos, ℤ}
use gemini_web2api_go.Base.Result.{Result, erred, fine, utf8}
use gemini_web2api_go.Base.Tests.{if◌then◌else◌, nat_eq, ◌==◌}
use gemini_web2api_go.Base.Text.{Text, is_empty, text_eq}
use gemini_web2api_go.Config.{RuntimeConfig}
use gemini_web2api_go.Outside.{Outside, World}
use gemini_web2api_go.Proxy.{Proxy}
use gemini_web2api_go.Talk.{Talk, get_anon_session}
use gemini_web2api_go.Tokens.{get_xsrf}
use gemini_web2api_go.Trip.{
  Attribution, Flow, cool_down, exclude_picked, gave_up, go_on, leave, next_exit, release_current,
}

abbrev pub conv_attribution : ℤ → Proxy → Attribution
conv_attribution i p = record {
  account_id = i;
  account_label = [];
  used_proxy = p.id;
  proxy_name = p.name;
}

-- What follows an error before the attempts; `i` is the account that the error names.
unfoldable pub fail_setup : RuntimeConfig → Outside → Bool → ℤ → Text → Talk → Talk × Flow
fail_setup c o more i err k =
    let t = cool_down c o (record k.trip { last_err = some err }) err in
    if more
    then (record k { trip = release_current (exclude_picked t) }, next_exit)
    else (record k { trip = t }, leave (gave_up (conv_attribution i t.picked) err))

abbrev pub in_world : Talk → World → Talk
in_world k w = record k { trip = record k.trip { world = w } }

unfoldable pub after_session :
    RuntimeConfig → Outside → Bool → Talk → World × Result Text → Talk × Flow
unfolding fail_setup
after_session c o more k (w, erred e) =
    fail_setup c o more (pos 0) (utf8 "建匿名会话失败: " ++ e) (in_world k w)
after_session c o more k (w, fine session) =
    let k' = in_world k w in (record k' { conv = record k'.conv { cookie = session } }, go_on)

-- The exit of the conversation, and the cookie of an anonymous one.
unfoldable pub settle : RuntimeConfig → Outside → Bool → Bool → Talk → Talk × Flow
unfolding after_session
settle c o is_first more k =
    if is_first && not (k.conv.turn == 0)
    then (k, go_on)
    else let p = k.trip.picked in
      let k' = record k { conv = record k.conv { proxy_id = p.id; proxy_url = p.url } } in
      if is_empty k.conv.cookie && not k.conv.is_login
      then after_session c o more k' (get_anon_session o k.trip.world p.url)
      else (k', go_on)

unfoldable pub after_xsrf :
    RuntimeConfig → Outside → Bool → Talk → World × Result Text → Talk × Flow
unfolding fail_setup
after_xsrf c o more k (w, erred e) =
    fail_setup c o more k.conv.account_id (utf8 "取 XSRF 失败: " ++ e) (in_world k w)
after_xsrf c o more k (w, fine token) =
    (record k { trip = record k.trip { world = w; xsrf_token = token } }, go_on)

-- The token of a signed-in conversation.
unfoldable pub authorise : RuntimeConfig → Outside → Bool → Talk → Talk × Flow
unfolding after_xsrf
authorise c o more k =
    if k.conv.is_login && not (is_empty k.conv.cookie)
    then after_xsrf c o more k (get_xsrf o k.trip.world k.conv.cookie k.trip.picked.url)
    else (record k { trip = record k.trip { xsrf_token = [] } }, go_on)
