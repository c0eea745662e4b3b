-- ===== src/Tests/Routing.antt =====
-- The limiter, the proxies and the choice of an exit, on concrete inputs.
use Prim.Native.Nat.{ℕ}
use mathlib.Core.Bool.{Bool, false, true, ◌&&◌}
use mathlib.Core.List.{List, [], ◌∷◌}
use mathlib.Core.Option.{none}
use mathlib.Core.Path.{refl, ◌≡◌}
use native.Mathlib.Omega.{arith}
use gemini_web2api_go.Acquire.{
  Outcome, acquire_in_mode, acquire_slot_except, proxy_mode_of, release_slot, taken, try_static,
}
use gemini_web2api_go.Acquire.Choice.{acquire_slot_except-Acquired}
use gemini_web2api_go.Acquire.Guarantees.{acquire-release, never_direct}
use gemini_web2api_go.Acquire.Laws.{Acquired, Allowed}
use gemini_web2api_go.Acquire.Remote.{Answer, unreachable}
use gemini_web2api_go.Acquire.Ways.{lets_direct, ways}
use gemini_web2api_go.Acquire.WellFormed.{IsWellFormed}
use gemini_web2api_go.Base.Dict.{lookup, put}
use gemini_web2api_go.Base.Int.{int_beq, int_eq, pos}
use gemini_web2api_go.Base.Lists.{All, length}
use gemini_web2api_go.Base.Tests.{nat_eq, ◌==◌}
use gemini_web2api_go.Base.Text.{Text, codes, has_prefix, text_beq, text_eq}
use gemini_web2api_go.Config.{
  RuntimeConfig, first_out_of_range, one_of, save_runtime_config, saved, validate_runtime_config,
}
use gemini_web2api_go.Config.Validate.{Saves, save-Saves}
use gemini_web2api_go.Proxy.{
  Exits, find_first, is_excluded, proxy_fail_threshold, proxy_usable, set_sticky_proxy,
}
use gemini_web2api_go.Proxy.Choice.{Eligible, may_use, pick-Search, pick-full}
use gemini_web2api_go.Proxy.Pick.{
  acquire_exit, advance, attempt_exit, pick_from, pick_proxy_preferring_except, preferred, stick,
  stuck_to, take_turns, try_found, usable_pool,
}
use gemini_web2api_go.Proxy.PickLaws.{Search}
use gemini_web2api_go.Proxy.Room.{has_room}
use gemini_web2api_go.RateLimit.{
  acquire_in, admit, get_slot, prune_timestamps, release_in, slot_release, try_slot_acquire,
}
use gemini_web2api_go.RateLimit.Bounds.{exceeds, history_bounds}
use gemini_web2api_go.RateLimit.Pacing.{
  Event, attempts, empty_log, finishes, granted_within, happen, history,
}
use gemini_web2api_go.RateLimit.Slots.{inflight_of}
use gemini_web2api_go.Tests.{proxy_at, strict_config, two_proxies}

abbrev busy_minute : List (ℕ × Event)
busy_minute =
    (10, attempts (pos 1))
    ∷ (11, attempts (pos 1))
    ∷ (12, finishes (pos 1))
    ∷ (71, attempts (pos 1))
    ∷ []

two_granted : length (history strict_config empty_log busy_minute).grants ≡ 2
unfolding history happen try_slot_acquire slot_release acquire_in release_in admit get_slot
    prune_timestamps lookup put int_beq
two_granted = refl

history_bounds_example :
    let l = history strict_config empty_log busy_minute in
    (exceeds (pos 1) (granted_within (pos 1) 20 60 l.grants) ≡ false)
    × (exceeds (pos 2) (granted_within (pos 1) 20 3600 l.grants) ≡ false)
    × (exceeds (pos 1) (inflight_of l.slots (pos 1)) ≡ false)
history_bounds_example =
    history_bounds strict_config (pos 1) busy_minute 20
      (omega arith, (omega arith, (omega arith, (omega arith, tt))))

abbrev silent : ℕ → Text → Answer
silent n u = unreachable

well : IsWellFormed two_proxies
well = record {
  pool_ids = (refl, (refl, tt));
  next_negative = refl;
  ids_negative = tt;
  urls_negative = tt;
}

abbrev chosen : Exits × Outcome
chosen = acquire_slot_except strict_config 100 silent two_proxies (pos 1) [] []

second_chosen : chosen ≡ (chosen.0, taken (proxy_at 2 0))
unfolding acquire_slot_except acquire_in_mode proxy_mode_of try_static pick_proxy_preferring_except
    usable_pool proxy_usable proxy_fail_threshold pick_from preferred stuck_to try_found
    attempt_exit acquire_exit take_turns advance stick try_slot_acquire acquire_in admit
    prune_timestamps get_slot lookup put int_beq text_beq find_first is_excluded set_sticky_proxy
second_chosen = refl

acquire_slot_except-Acquired_example :
    Acquired
      (Allowed (ways strict_config two_proxies) strict_config 100 two_proxies [] [])
      two_proxies
      chosen
acquire_slot_except-Acquired_example =
    acquire_slot_except-Acquired strict_config 100 silent [] [] two_proxies (pos 1) well

no_direct : lets_direct strict_config two_proxies ≡ false
unfolding text_beq
no_direct = refl

never_direct_example : ((proxy_at 2 0).id == pos 0) ≡ false
never_direct_example =
    never_direct strict_config 100 silent [] [] two_proxies chosen.0 (pos 1) (proxy_at 2 0) well
      no_direct second_chosen

acquire-release_example :
    inflight_of (release_slot chosen.0 (pos 2)).slots (pos 2)
    ≡ inflight_of two_proxies.slots (pos 2)
acquire-release_example =
    acquire-release strict_config 100 silent [] [] two_proxies chosen.0 (pos 1) (proxy_at 2 0)
      (pos 2) well second_chosen

pick-Search_example :
    Search strict_config 100
      (Eligible strict_config 100 [] two_proxies.cache)
      two_proxies
      (pick_proxy_preferring_except strict_config 100 two_proxies (pos 1) [])
pick-Search_example = pick-Search strict_config 100 [] two_proxies (pos 1)

none_left :
    (pick_proxy_preferring_except strict_config 100 two_proxies (pos 1) (pos 2 ∷ [])).1 ≡ none
unfolding pick_proxy_preferring_except usable_pool proxy_usable proxy_fail_threshold is_excluded
    int_beq
none_left = refl

pick-full_example :
    All
      (λ p.
        (may_use strict_config 100 (pos 2 ∷ []) p && has_room strict_config 100 [] p.id) ≡ false)
      (proxy_at 1 2 ∷ proxy_at 2 0 ∷ [])
pick-full_example = pick-full strict_config 100 (pos 2 ∷ []) two_proxies (pos 1) none_left

abbrev two_failures : List (ℕ × Bool × Text)
two_failures = (100, true, codes "e") ∷ (101, true, codes "e") ∷ []

abbrev known_model : Text → Bool
known_model t = true

abbrev plain_code : RuntimeConfig → Text
plain_code c = c.proxy_mode

save-Saves_example :
    Saves known_model plain_code true
      (strict_config, [])
      (record strict_config { retention_days = pos 30 })
      (save_runtime_config known_model plain_code true
        (strict_config, [])
        (record strict_config { retention_days = pos 30 }))
save-Saves_example =
    save-Saves known_model plain_code true (strict_config, [])
      (record strict_config { retention_days = pos 30 })

thirty_saved :
    save_runtime_config known_model plain_code true
      (strict_config, [])
      (record strict_config { retention_days = pos 30 })
    ≡ ((record strict_config { retention_days = pos 30 }, codes "static_only"), saved)
unfolding save_runtime_config validate_runtime_config first_out_of_range one_of text_beq has_prefix
thirty_saved = refl
