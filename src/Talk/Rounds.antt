-- ===== src/Talk/Rounds.antt =====
-- The exits of one turn of a conversation.
use Prim.Native.Nat.{suc, zero, ℕ}
use mathlib.Core.Bool.{Bool, false, not, true, ◌&&◌, ◌||◌}
use mathlib.Core.List.{[]}
use mathlib.Core.Option.{none, some}
use gemini_web2api_go.Acquire.{Outcome, acquire_slot_except, refusal_text, refused, taken}
use gemini_web2api_go.Base.Int.{int_eq, pos, pos_part, ℤ}
use gemini_web2api_go.Base.Tests.{if◌then◌else◌, nat_eq}
use gemini_web2api_go.Base.Text.{is_empty, text_eq}
use gemini_web2api_go.Config.{RuntimeConfig}
use gemini_web2api_go.Conversation.{ConvState}
use gemini_web2api_go.Outside.{Outside, World, now_of, sent_count}
use gemini_web2api_go.Payload.{Writers}
use gemini_web2api_go.Proxy.{Exits}
use gemini_web2api_go.Proxy.Dynamic.{is_dynamic_proxy_cooling}
use gemini_web2api_go.Talk.{Talk}
use gemini_web2api_go.Talk.Attempts.{conv_attempts, conv_dispatch}
use gemini_web2api_go.Talk.Settle.{authorise, conv_attribution, in_world, settle}
use gemini_web2api_go.Trip.{
  Asked, Attribution, Ending, Flow, Trip, gave_up, go_on, leave, next_exit, release_current, stop,
  succeeded, with_exits,
}
use gemini_web2api_go.Trip.Switches.{after_attempts, board, setting_out}

abbrev pub with_trip : Talk → Trip × Flow → Talk × Flow
with_trip k (t, f) = (record k { trip = t }, f)

infixl 5 ◌and_then◌
abbrev pub ◌and_then◌ : Talk × Flow → (Talk → Talk × Flow) → Talk × Flow
(k, go_on) and_then f = f k
(k, next_exit) and_then f = (k, next_exit)
(k, stop) and_then f = (k, stop)
(k, leave e) and_then f = (k, leave e)

-- The attempts of one round, and what follows them.
unfoldable pub converse :
    RuntimeConfig → Outside → Writers → (ℕ → ℕ) → Asked → Bool → Talk → Talk × Flow
unfolding conv_dispatch conv_attempts
converse c o k nanos q more s =
    let (s', d) = conv_dispatch c o k nanos q.model q.prompt s in
    let (s'', r) = conv_attempts c o q d (pos_part c.retry_attempts) s' in
    with_trip s'' (after_attempts c o more (s''.trip, r))

-- One round after its exit is taken.
unfoldable pub conv_through :
    RuntimeConfig → Outside → Writers → (ℕ → ℕ) → Asked → Bool → Bool → Talk → Talk × Flow
unfolding settle authorise converse
conv_through c o k nanos q is_first more s =
    settle c o is_first more s and_then authorise c o more and_then converse c o k nanos q more

abbrev no_attribution : Attribution
no_attribution = record {
  account_id = pos 0;
  account_label = [];
  used_proxy = pos 0;
  proxy_name = [];
}

unfoldable pub conv_with_exit :
    RuntimeConfig
    → Outside
    → Writers
    → (ℕ → ℕ)
    → Asked
    → Bool
    → Bool
    → Talk
    → Exits × Outcome
    → Talk × Flow
unfolding conv_through
conv_with_exit c o k nanos q is_first more s (x, refused e) =
    let s' = in_world s (with_exits s.trip.world x) in
    if is_first then (s', leave (gave_up no_attribution (refusal_text e))) else (s', stop)
conv_with_exit c o k nanos q is_first more s (x, taken p) =
    conv_through c o k nanos q is_first more (record s { trip = board s.trip x p })

-- `curPrefer`
unfoldable pub conv_prefer : RuntimeConfig → Outside → Bool → Talk → ℤ
conv_prefer c o is_first s =
    if not is_first
      || (not (is_empty s.conv.proxy_url)
          && is_dynamic_proxy_cooling c (now_of o s.trip.world) s.trip.world.exits s.conv.proxy_url)
    then pos 0
    else s.conv.proxy_id

unfoldable pub conv_round :
    RuntimeConfig → Outside → Writers → (ℕ → ℕ) → Asked → Bool → Bool → Talk → Talk × Flow
unfolding conv_with_exit conv_prefer
conv_round c o k nanos q is_first more s = conv_with_exit c o k nanos q is_first more s (
    acquire_slot_except c (now_of o s.trip.world) (o.remote (sent_count s.trip.world))
      s.trip.world.exits (conv_prefer c o is_first s) s.trip.excluded_ids s.trip.excluded_urls)

-- `return &StreamResult{…}, lastErr`, where `lastErr` may be nil.
unfoldable pub conv_conclude : Talk → Talk × Ending
conv_conclude s =
    let a : Attribution = record (conv_attribution s.conv.account_id s.trip.picked) {
      proxy_name = [];
    } in
    elim s.trip.last_err [
      | some e ↦ (s, gave_up a e)
      | none ↦ (
        s,
        succeeded (record {
          emitted_text = [];
          emitted_thought = [];
          raw = [];
          reasoning = [];
          served_by = [];
          attribution = a;
        }),
      )
    ]

abbrev pub conv_after : Talk × Flow → (Talk → Talk × Ending) → Talk × Ending
conv_after (s, go_on) f = f s
conv_after (s, next_exit) f = f s
conv_after (s, stop) f = conv_conclude s
conv_after (s, leave e) f = (s, e)

-- The loop over exits, with `n` rounds after this one.
unfoldable pub conv_rounds :
    RuntimeConfig → Outside → Writers → (ℕ → ℕ) → Asked → Bool → ℕ → Talk → Talk × Ending
unfolding conv_round conv_conclude
conv_rounds c o k nanos q is_first zero s =
    conv_after (conv_round c o k nanos q is_first false s) conv_conclude
conv_rounds c o k nanos q is_first (suc n) s =
    conv_after (conv_round c o k nanos q is_first true s) (conv_rounds c o k nanos q false n)

-- `streamGenerateConv`, with its deferred release.
unfoldable pub stream_generate_conv :
    RuntimeConfig → Outside → Writers → (ℕ → ℕ) → World → Asked → ConvState → Talk × Ending
unfolding conv_rounds
stream_generate_conv c o k nanos w q v =
    let (s, e) =
      conv_rounds c o k nanos q true (pos_part c.proxy_retry_attempts)
        (record { trip = setting_out w none; conv = v }) in
    (record s { trip = release_current s.trip }, e)
