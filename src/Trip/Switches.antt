-- ===== src/Trip/Switches.antt =====
-- The loop over exits, and the whole request.
use Prim.Native.Nat.{suc, zero, ℕ, ◌%◌, ◌*◌, ◌+◌}
use mathlib.Core.Bool.{Bool, false, not, true}
use mathlib.Core.List.{[], ◌++◌}
use mathlib.Core.Option.{Option, none, some}
use gemini_web2api_go.Accounts.{CookieAccount}
use gemini_web2api_go.Accounts.Pick.{pick_cookie_account}
use gemini_web2api_go.Acquire.{Outcome, acquire_slot_except, refusal_text, refused, taken}
use gemini_web2api_go.Acquire.Remote.{made_proxy}
use gemini_web2api_go.Base.Int.{int_eq, pos, pos_part, ℤ}
use gemini_web2api_go.Base.Tests.{if◌then◌else◌, nat_eq}
use gemini_web2api_go.Base.Text.{Text, codes, text_eq}
use gemini_web2api_go.Config.{RuntimeConfig}
use gemini_web2api_go.Models.{anon_first_eligible}
use gemini_web2api_go.Outside.{Outside, World, now_of, sent_count}
use gemini_web2api_go.Payload.{
  Writers, build_body, build_model_header, inner_payload, request_headers, thinking_extended,
  thinking_normal,
}
use gemini_web2api_go.Proxy.{Exits, Proxy}
use gemini_web2api_go.Stream.Feed.{empty_feed}
use gemini_web2api_go.Tokens.{current_bl}
use gemini_web2api_go.Trip.{
  Asked, Ending, Flow, StreamResult, Trip, attrib, cool_down, exclude_picked, gave_up, go_on,
  has_emitted, leave, mark_account, next_exit, panicked, picked_ok, release_current, stop,
  succeeded, with_exits, with_store, ◌then_on◌,
}
use gemini_web2api_go.Trip.Attach.{Prepared, is_none_left, prepare, ready, unready, upload_pending}
use gemini_web2api_go.Trip.Attempts.{Dispatch, attempt_loop}
use gemini_web2api_go.Trip.SignIn.{with_account}

-- The request of one round, and the state after `currentBL`.
unfoldable pub dispatch : RuntimeConfig → Outside → Writers → Asked → Trip → Text → Trip × Dispatch
dispatch c o k q t prompt =
    let n = 2 * sent_count t.world in
    let now = now_of o t.world in
    let think = if q.model.thinking then thinking_extended else thinking_normal in
    let inner = inner_payload q.model prompt t.files (o.uuid n) in
    let model_header = build_model_header o q.model.hex_id q.model.mode think (o.uuid (n + 1)) in
    let session_header = codes "[\"" ++ (o.uuid n ++ codes "\",1]") in
    let (w, (label, started)) = current_bl c o t.world in
    (
      record t { world = w },
      record {
        bl_label = label;
        reqid = o.decimal (now % 1000000);
        inner = inner;
        model_header = model_header;
        session_header = session_header;
        sent_headers =
            request_headers o now t.cookie_str t.sapisid q.model.hex_id model_header session_header;
        sent_body = build_body k inner t.xsrf_token;
      },
    )

-- What follows the attempts without an answer.
unfoldable pub after_attempts :
    RuntimeConfig → Outside → Bool → Trip × Option StreamResult → Trip × Flow
after_attempts c o more (t, some r) = (t, leave (succeeded r))
after_attempts c o more (t, none) =
    if has_emitted t
    then (t, stop)
    else if not more
    then (t, next_exit)
    else let t' = exclude_picked t in
      if picked_ok t
      then elim t.last_err [
        | none ↦ (t', leave panicked)
        | some e ↦ (release_current (cool_down c o t' e), next_exit)
      ]
      else (release_current t', next_exit)

-- `rtCfg().RetryAttempts` attempts with a prompt.
unfoldable pub try_prompt :
    RuntimeConfig → Outside → Writers → Asked → Bool → Trip × Prepared → Trip × Flow
unfolding dispatch attempt_loop after_attempts
try_prompt c o k q more (t, unready e) = (t, leave e)
try_prompt c o k q more (t, ready prompt) =
    let (t', d) = dispatch c o k q t prompt in
    after_attempts c o more (attempt_loop c o k q d (pos_part c.retry_attempts) t')

-- One round after its exit is taken.
unfoldable pub through_exit : RuntimeConfig → Outside → Writers → Asked → Bool → Trip → Trip × Flow
unfolding with_account upload_pending try_prompt
through_exit c o k q more t =
    with_account c o t
    then_on upload_pending c o q more
    then_on (λ t'. try_prompt c o k q more (prepare c o q t'))

-- An exit is taken: the slot of the last one is given back if it is still held.
unfoldable pub board : Trip → Exits → Proxy → Trip
board t x p = record (release_current (record t { world = with_exits t.world x })) {
  picked = p;
  slot_held = true;
}

-- The exit of a round.
unfoldable pub with_exit :
    RuntimeConfig → Outside → Writers → Asked → Bool → Bool → Trip → Exits × Outcome → Trip × Flow
unfolding through_exit
with_exit c o k q is_first more t (x, refused e) =
    let t' = record t { world = with_exits t.world x } in
    if is_first then (t', leave (gave_up (attrib t') (refusal_text e))) else (t', stop)
with_exit c o k q is_first more t (x, taken p) = through_exit c o k q more (board t x p)

-- One round of the loop.
unfoldable pub one_round :
    RuntimeConfig → Outside → Writers → Asked → ℤ → Bool → Bool → Trip → Trip × Flow
unfolding with_exit
one_round c o k q prefer is_first more t = with_exit c o k q is_first more t (
    acquire_slot_except c (now_of o t.world) (o.remote (sent_count t.world)) t.world.exits
      (if is_first then prefer else pos 0) t.excluded_ids t.excluded_urls)

unfoldable pub conclude_with : Outside → Trip → Option Text → Trip × Ending
conclude_with o t none = (t, gave_up (attrib t) (codes "request failed"))
conclude_with o t (some e) = (mark_account o t t.cookie_id t.last_status e, gave_up (attrib t) e)

-- The end of the function, after the loop.
unfoldable pub conclude : Outside → Trip → Trip × Ending
unfolding conclude_with
conclude o t = conclude_with o t t.last_err

abbrev pub after_round : Outside → Trip × Flow → (Trip → Trip × Ending) → Trip × Ending
after_round o (t, go_on) f = f t
after_round o (t, next_exit) f = f t
after_round o (t, stop) f = conclude o t
after_round o (t, leave e) f = (t, e)

-- The loop, with `n` rounds after this one.
unfoldable pub exit_rounds :
    RuntimeConfig → Outside → Writers → Asked → ℤ → Bool → ℕ → Trip → Trip × Ending
unfolding one_round conclude
exit_rounds c o k q prefer is_first zero t =
    after_round o (one_round c o k q prefer is_first false t) (conclude o)
exit_rounds c o k q prefer is_first (suc n) t =
    after_round o (one_round c o k q prefer is_first true t) (exit_rounds c o k q prefer false n)

abbrev pub no_proxy : Proxy
no_proxy = made_proxy (pos 0) [] [] false

abbrev pub setting_out : World → Option CookieAccount → Trip
setting_out w a = record {
  world = w;
  account = a;
  cookie_id = pos 0;
  cookie_label = [];
  picked = no_proxy;
  slot_held = false;
  excluded_ids = [];
  excluded_urls = [];
  cookie_str = [];
  sapisid = [];
  xsrf_token = [];
  last_cookie_err = none;
  tried = [];
  rotated_once = [];
  feed = empty_feed;
  last_err = none;
  last_status = 0;
  files = [];
}

-- The account that the request sets out with.
unfoldable pub first_account : RuntimeConfig → Outside → World → Asked → Trip
first_account c o w q =
    if anon_first_eligible c q.model (not (is_none_left q.pending))
    then setting_out w none
    else let (s, a) = pick_cookie_account (now_of o w) w.store in setting_out (with_store w s) a

abbrev pub bound_exit : Option CookieAccount → ℤ
bound_exit none = pos 0
bound_exit (some a) = a.proxy_id

-- `streamGenerateWithFiles`, with its deferred release.
unfoldable pub stream_generate_with_files :
    RuntimeConfig → Outside → Writers → World → Asked → Trip × Ending
unfolding first_account exit_rounds
stream_generate_with_files c o k w q =
    let t = first_account c o w q in
    let (t', e) =
      exit_rounds c o k q (bound_exit t.account) true (pos_part c.proxy_retry_attempts) t in
    (release_current t', e)
