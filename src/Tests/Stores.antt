-- ===== src/Tests/Stores.antt =====
-- The pool's table, conversations and percentiles, on concrete inputs.
use Prim.Native.Nat.{ℕ, ◌≤◌}
use mathlib.Core.Bool.{false, true, ◌||◌}
use mathlib.Core.List.{List, [], ◌++◌, ◌∷◌}
use mathlib.Core.Option.{Option, none, some}
use mathlib.Core.Path.{refl, ◌≡◌}
use native.Mathlib.Omega.{arith}
use gemini_web2api_go.Base.Int.{int_beq, int_eq, pos, ℤ}
use gemini_web2api_go.Base.Tests.{nat_eq, ◌==◌}
use gemini_web2api_go.Base.Text.{
  Text, codes, has_prefix, is_empty, lower_byte, text_eq, to_lower, trim_end, trim_left, trim_space,
}
use gemini_web2api_go.Conversation.{
  ConvState, ConvStore, Message, assistant, conv_child_key, conv_parent_key, conv_put,
}
use gemini_web2api_go.Conversation.Bound.{Bounded, IsStoreWalk, conv_put-Bounded, parent-child}
use gemini_web2api_go.Proxy.{empty_exits, pool_has_proxy_url}
use gemini_web2api_go.Proxy.Edit.{Database, ProxyStore, validate_proxy_url}
use gemini_web2api_go.Proxy.Record.{force_proxy_cooldown, record_proxy_result}
use gemini_web2api_go.Proxy.Seed.{seeded_proxy_url_key, setting, sync_seeded_proxy}
use gemini_web2api_go.Proxy.SeedLaws.{sync_proxy-settles}
use gemini_web2api_go.Proxy.Synced.{Synced, outcomes-Synced}
use gemini_web2api_go.Stats.{insert_latency, p95_index, percentiles, sort_latencies}
use gemini_web2api_go.Stats.Percentiles.{Occurs, percentiles-ordered}
use gemini_web2api_go.Stream.Chunks.{run_gate-enough}
use gemini_web2api_go.Stream.Fence.{ToolFenceGate, cut_text, fence_open, push_gate, run_gate}
use gemini_web2api_go.Stream.Resume.{push_gate-append}
use gemini_web2api_go.Tests.{strict_config, two_proxies}

abbrev working : Database
working = record { takes = true; reads = true }

abbrev empty_store : ProxyStore
empty_store = record { exits = empty_exits; kv = []; next_proxy = 1 }

abbrev no_id : Text → Option ℤ
no_id t = none

abbrev one_digit : ℤ → Text
one_digit i = codes "1"

abbrev socks_url : Text
socks_url = codes "SOCKS5://h:1"

known_scheme : validate_proxy_url (trim_space socks_url) ≡ true
unfolding validate_proxy_url trim_space trim_left trim_end to_lower lower_byte has_prefix
known_scheme = refl

sync_proxy-settles_example :
    let t = sync_seeded_proxy no_id one_digit working 5 socks_url empty_store in
    let url = trim_space socks_url in
    (((url == setting empty_store seeded_proxy_url_key)
        || is_empty url
        || pool_has_proxy_url t.exits.cache url)
      ≡ true)
    × (sync_seeded_proxy no_id one_digit working 9 socks_url t ≡ t)
sync_proxy-settles_example =
    sync_proxy-settles no_id one_digit socks_url working working 5 9 empty_store known_scheme refl
      refl

apart : (pos 2 == pos 1) ≡ false
unfolding int_beq
apart = refl

outcomes-Synced_example :
    Synced (record_proxy_result strict_config 50 true two_proxies (pos 1) false (codes "e"))
    × Synced (force_proxy_cooldown strict_config 50 true two_proxies (pos 1) (codes "e"))
outcomes-Synced_example =
    outcomes-Synced strict_config 50 two_proxies (pos 1) false (codes "e")
      (refl, ((apart, tt), (tt, tt)))

percentiles_run : percentiles (30 ∷ 10 ∷ 20 ∷ []) ≡ some (20, 30)
unfolding percentiles sort_latencies insert_latency p95_index
percentiles_run = refl

percentiles-ordered_example :
    (p50 : ℕ) × (p95 : ℕ) × (percentiles (30 ∷ 10 ∷ 20 ∷ []) ≡ some (p50, p95))
    × (p50 ≤ p95)
    × Occurs p50 (30 ∷ 10 ∷ 20 ∷ [])
    × Occurs p95 (30 ∷ 10 ∷ 20 ∷ [])
percentiles-ordered_example = percentiles-ordered 30 (10 ∷ 20 ∷ [])

abbrev as_stored : ConvStore → ConvStore
as_stored m = m

any_walk : IsStoreWalk as_stored
any_walk = record { same_length = λ m. refl; same_names = λ m n. n }

abbrev new_conv : ConvState
new_conv = record {
  cid = codes "c";
  rid = codes "r";
  rcid = [];
  tok26 = [];
  turn = 1;
  cookie = [];
  sapisid = [];
  is_login = false;
  account_id = pos 0;
  proxy_id = pos 0;
  proxy_url = [];
  updated = 0;
}

conv_put-Bounded_example : Bounded (conv_put as_stored 7 [] (codes "k") new_conv)
conv_put-Bounded_example =
    conv_put-Bounded as_stored 7 [] (codes "k") new_conv any_walk (omega arith, tt)

abbrev hello : List Message
hello = record { role = codes "user"; content = codes "hi" } ∷ []

abbrev no_hash : Text → Text
no_hash t = t

parent-child_example :
    conv_parent_key no_hash ((hello ++ assistant (codes "yo") ∷ []) ++ assistant (codes "?") ∷ [])
    ≡ conv_child_key no_hash hello (codes "yo")
parent-child_example = parent-child no_hash hello (codes "yo") (assistant (codes "?"))

abbrev new_gate : ToolFenceGate
new_gate = record { buf = []; sent = []; in_fence = false }

push_gate-append_example :
    push_gate (push_gate new_gate (codes "a``")) (codes "`tool_call{}```b")
    ≡ push_gate new_gate (codes "a``" ++ codes "`tool_call{}```b")
push_gate-append_example = push_gate-append new_gate (codes "a``") (codes "`tool_call{}```b")

no_fence : cut_text fence_open (codes "a``") ≡ none
unfolding cut_text has_prefix
no_fence = refl

run_gate-enough_example : run_gate 4 false (codes "a``") ≡ run_gate 9 false (codes "a``")
run_gate-enough_example = run_gate-enough 4 9 false (codes "a``") (omega arith) (omega arith)
