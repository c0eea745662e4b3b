-- ===== src/Tests/Requests.antt =====
-- Whole requests on a concrete network, and the theorems about them applied.
use Prim.Native.Nat.{ℕ, ◌*◌, ◌+◌, ◌≤◌}
use mathlib.Core.Bool.{false, true}
use mathlib.Core.List.{List, [], ◌∷◌}
use mathlib.Core.Option.{Option, none, some}
use mathlib.Core.Path.{refl, ◌≡◌}
use native.Mathlib.Omega.{arith}
use gemini_web2api_go.Accounts.{CookieAccount}
use gemini_web2api_go.Acquire.Remote.{unreachable}
use gemini_web2api_go.Acquire.WellFormed.{IsWellFormed}
use gemini_web2api_go.Base.Dict.{lookup, put}
use gemini_web2api_go.Base.Int.{int_beq, int_eq, pos, pos_part}
use gemini_web2api_go.Base.Lists.{All, length}
use gemini_web2api_go.Base.Result.{fine}
use gemini_web2api_go.Base.Tests.{nat_eq, ◌==◌}
use gemini_web2api_go.Base.Text.{
  Text, codes, contains, cut_at, has_byte, is_empty, split_on, text_beq, text_eq, trim_space,
}
use gemini_web2api_go.Cookie.{collect, cookie_value, pair_of, split_cookie_pairs, value_in}
use gemini_web2api_go.Frames.{
  Parser, any_content, has_content_frame, longest_reasoning, newline, parts_in_line,
  reasoning_in_line, texts_in_line,
}
use gemini_web2api_go.Frames.Content.{no_frame-feeds_nothing}
use gemini_web2api_go.Frames.Longest.{Found, reasoning-longest}
use gemini_web2api_go.Models.{hex_pro31}
use gemini_web2api_go.Outside.{
  Outside, Pattern, Reply, Request, World, app_page, cfb2h, exchange, no_reply, now_of, pctx_re,
  push_id_re, rcid_re, replied, rotate_cookies, rotate_page, snlm0e, stream_generate, upload_host,
  upload_put,
}
use gemini_web2api_go.Outside.Kept.{Restored, asked_in}
use gemini_web2api_go.Payload.{Writers}
use gemini_web2api_go.Proxy.{is_excluded}
use gemini_web2api_go.Rotation.{
  allow_1psidts_rotate, is_uncounted, note_1psidts_attempt, psidts_of, rotate_1psidts,
  rotate_1psidts_request, try_rotate_1psidts,
}
use gemini_web2api_go.Rotation.Account.{rotate_account}
use gemini_web2api_go.Rotation.Kept.{rotate_account-Restored}
use gemini_web2api_go.Rotation.Pacing.{Between, attempt-rests, elapse, elapse_one, sends, tries}
use gemini_web2api_go.Rotation.Sidcc.{rotate_page_request}
use gemini_web2api_go.Stream.Feed.{body_lines, empty_feed, feed_lines}
use gemini_web2api_go.Stream.Feed.Faithful.{IsFaithful}
use gemini_web2api_go.Tests.{account_at, strict_config, two_accounts, two_proxies}
use gemini_web2api_go.Tokens.{
  cookie_key, fetch_app_page, fetch_app_tokens, fresh_entry, get_entry, get_xsrf, page_of,
  page_request, remembered, tokens_on,
}
use gemini_web2api_go.Tokens.Cache.{get_xsrf-again, within_ttl}
use gemini_web2api_go.Trip.{Asked, Trip}
use gemini_web2api_go.Trip.Bound.{asked_by, request-asked_bound}
use gemini_web2api_go.Trip.Enough.{sign_in-enough}
use gemini_web2api_go.Trip.Panic.{is_panicked, request-no_panic}
use gemini_web2api_go.Trip.SignIn.{max_cookie_tries, sign_in}
use gemini_web2api_go.Trip.Slots.{request-IsFaithful, request-Restored}
use gemini_web2api_go.Trip.Switches.{setting_out, stream_generate_with_files}

-- The page gives a token, the first renewal works, and an answer never comes.
abbrev replies : ℕ → Request → Reply
replies n q = elim q.endpoint [
  | app_page ↦ replied 200 [] [] (codes "page")
  | rotate_page ↦ no_reply (codes "timeout")
  | rotate_cookies ↦ replied 200 [] (codes "__Secure-1PSIDTS=new" ∷ []) []
  | upload_host ↦ no_reply (codes "timeout")
  | upload_put u ↦ no_reply (codes "timeout")
  | stream_generate bl reqid ↦ replied 503 [] [] (codes "busy")
]

abbrev found_on_page : Pattern → Text → Option Text
found_on_page snlm0e t = some (codes "token-of-page")
found_on_page push_id_re t = none
found_on_page pctx_re t = none
found_on_page cfb2h t = none
found_on_page rcid_re t = none

abbrev no_json : Parser
no_json t = none

abbrev pub test_outside : Outside
test_outside = record {
  reply = replies;
  clock = λ n. 1000 + n;
  remote = λ n k u. unreachable;
  written = λ n. true;
  find = found_on_page;
  is_bl = λ t. false;
  find_init = λ t. none;
  thousandths = λ t. none;
  sha1_hex = λ t. t;
  decimal = λ n. [];
  uuid = λ n. codes "uuid";
  order = λ m. m;
  parse = no_json;
  strip = λ t. t;
  upstream_model = λ t. none;
}

abbrev pub plain_writers : Writers
plain_writers = record { marshal = λ v. codes "json"; encode_form = λ ps. codes "form" }

abbrev pub test_world : World
test_world = record {
  exits = two_proxies;
  store = two_accounts;
  tokens = [];
  psidts_last_at = [];
  bl = record { bl_fetched = []; bl_fetch_at = none; bl_fetching = false };
  log = [];
}

abbrev pub test_asked : Asked
test_asked = record {
  prompt = codes "hello";
  latest = codes "hello";
  model = record { hex_id = hex_pro31; mode = 3; thinking = false; tool = 0 };
  pending = [];
  callbacks = record { on_delta = true; on_reasoning = true };
}

abbrev session_account : CookieAccount
session_account = record (account_at 1 0 0) { cookie = codes "__Secure-1PSID=a; SAPISID=b" }

pub test_exits-IsWellFormed : IsWellFormed test_world.exits
test_exits-IsWellFormed = record {
  pool_ids = (refl, (refl, tt));
  next_negative = refl;
  ids_negative = tt;
  urls_negative = tt;
}

request-Restored_example :
    let t : Trip =
      (stream_generate_with_files strict_config test_outside plain_writers test_world
        test_asked).0 in
    Restored test_world t.world
request-Restored_example =
    request-Restored strict_config test_outside plain_writers test_asked test_world
      test_exits-IsWellFormed

request-IsFaithful_example :
    let t : Trip =
      (stream_generate_with_files strict_config test_outside plain_writers test_world
        test_asked).0 in
    IsFaithful t.feed × (length t.tried ≤ max_cookie_tries)
request-IsFaithful_example =
    request-IsFaithful strict_config test_outside plain_writers test_asked test_world
      test_exits-IsWellFormed

-- One attachment, whose upload fails.
abbrev with_upload : Asked
with_upload = record test_asked {
  pending =
      record { content = codes "x"; file_name = codes "a.png"; kind = 1; mime = codes "image/png" }
      ∷ [];
}

request-no_panic_example :
    is_panicked
      (stream_generate_with_files strict_config test_outside plain_writers test_world with_upload).1
    ≡ false
request-no_panic_example =
    request-no_panic strict_config test_outside plain_writers with_upload refl test_world

rotate_account-Restored_example :
    Restored test_world (rotate_account strict_config test_outside test_world session_account).0
rotate_account-Restored_example =
    rotate_account-Restored strict_config test_outside test_world session_account
      test_exits-IsWellFormed

got_token : (get_xsrf test_outside test_world (codes "SID=a") []).1 ≡ fine (codes "token-of-page")
unfolding get_xsrf get_entry fresh_entry lookup cookie_key fetch_app_tokens fetch_app_page exchange
    page_request page_of tokens_on remembered
got_token = refl

none_held : fresh_entry test_outside test_world (codes "SID=a") ≡ none
unfolding fresh_entry lookup cookie_key
none_held = refl

-- The same network, more than an hour later.
abbrev an_hour_later : Outside
an_hour_later = record test_outside { clock = λ n. 5000 + n }

same_key : cookie_key an_hour_later (codes "SID=a") ≡ cookie_key test_outside (codes "SID=a")
unfolding cookie_key
same_key = refl

get_xsrf-again_example :
    let v = (get_xsrf test_outside test_world (codes "SID=a") []).0 in
    get_xsrf an_hour_later v (codes "SID=a") (codes "http://p")
    ≡ within_ttl an_hour_later v
        (codes "SID=a")
        (codes "http://p")
        (now_of test_outside v)
        (codes "token-of-page")
get_xsrf-again_example =
    get_xsrf-again test_outside an_hour_later test_world
      (get_xsrf test_outside test_world (codes "SID=a") []).0 (codes "SID=a") [] (codes "http://p")
      (codes "token-of-page") refl none_held got_token same_key refl

abbrev session_cookie : Text
session_cookie = codes "__Secure-1PSID=a"

has_session : is_empty (cookie_value session_cookie (codes "__Secure-1PSID")) ≡ false
unfolding cookie_value split_cookie_pairs split_on collect trim_space pair_of cut_at value_in
    text_beq
has_session = refl

may_start : allow_1psidts_rotate test_outside test_world (pos 1) ≡ true
unfolding allow_1psidts_rotate lookup
may_start = refl

counted :
    is_uncounted (try_rotate_1psidts test_outside test_world (pos 1) session_cookie []).1 ≡ false
unfolding try_rotate_1psidts rotate_1psidts exchange psidts_of rotate_1psidts_request
counted = rw (has_session, may_start, try_rotate_1psidts)

-- A try of the second account and a request of another kind.
abbrev meanwhile : List Between
meanwhile = tries (pos 2) session_cookie [] ∷ sends (rotate_page_request session_cookie []) ∷ []

three_sent :
    now_of test_outside (
      elapse test_outside
        (try_rotate_1psidts test_outside test_world (pos 1) session_cookie []).0
        meanwhile)
    ≡ 1003
unfolding elapse elapse_one try_rotate_1psidts rotate_1psidts exchange allow_1psidts_rotate
    note_1psidts_attempt psidts_of rotate_1psidts_request lookup put cookie_value split_cookie_pairs
    split_on collect trim_space pair_of cut_at value_in text_beq int_beq
three_sent = refl

second_is_other : (pos 2 == pos 1) ≡ false
unfolding int_beq
second_is_other = refl

attempt-rests_example :
    let v =
      elapse test_outside
        (try_rotate_1psidts test_outside test_world (pos 1) session_cookie []).0
        meanwhile in
    try_rotate_1psidts test_outside v (pos 1) (codes "SID=b") (codes "http://p")
    ≡ (v, fine (codes "SID=b", []))
attempt-rests_example =
    attempt-rests test_outside test_world (pos 1) session_cookie [] (codes "SID=b")
      (codes "http://p") meanwhile has_session may_start counted (second_is_other, (tt, tt))
      (rw three_sent (omega arith))

abbrev two_lines : Text
two_lines = codes "a\nb"

nothing_there : has_content_frame no_json two_lines ≡ false
unfolding has_content_frame split_on any_content texts_in_line reasoning_in_line parts_in_line
    contains
nothing_there = refl

no_return : has_byte 13 two_lines ≡ false
unfolding has_byte
no_return = refl

no_frame-feeds_nothing_example :
    feed_lines no_json
      (λ t. t)
      (record { on_delta = true; on_reasoning = true })
      empty_feed
      (body_lines two_lines)
    ≡ empty_feed
no_frame-feeds_nothing_example =
    no_frame-feeds_nothing no_json (λ t. t) (record { on_delta = true; on_reasoning = true })
      empty_feed two_lines no_return nothing_there

reasoning-longest_example :
    let best = longest_reasoning no_json [] (split_on newline two_lines) in
    All (λ l. length (reasoning_in_line no_json l) ≤ length best) (split_on newline two_lines)
    × Found no_json best (split_on newline two_lines)
reasoning-longest_example = reasoning-longest no_json two_lines

not_yet : is_excluded session_account.id [] ≡ false
unfolding is_excluded
not_yet = refl

sign_in-enough_example :
    sign_in strict_config test_outside 3 (setting_out test_world (some session_account))
    ≡ sign_in strict_config test_outside 5 (setting_out test_world (some session_account))
sign_in-enough_example =
    sign_in-enough strict_config test_outside 3 5 (setting_out test_world (some session_account))
      not_yet (omega arith) (omega arith)

request-asked_bound_example :
    asked_by
      (stream_generate_with_files strict_config test_outside plain_writers test_world test_asked).0
    ≤ asked_in test_world.log
      + (pos_part strict_config.proxy_retry_attempts + 1)
        * (pos_part strict_config.retry_attempts + 1)
request-asked_bound_example =
    request-asked_bound strict_config test_outside plain_writers test_asked test_world
      test_exits-IsWellFormed
