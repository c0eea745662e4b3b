-- ===== src/Tests/Anonymous.antt =====
-- Requests without an account on a concrete network, and the theorems about them applied.
use Prim.Native.Nat.{suc, zero, ℕ}
use mathlib.Core.Bool.{false, true}
use mathlib.Core.List.{[], ◌++◌, ◌∷◌}
use mathlib.Core.Option.{some}
use mathlib.Core.Path.{refl, ◌≡◌}
use native.Mathlib.Omega.{arith}
use gemini_web2api_go.Acquire.{
  Outcome, acquire_in_mode, acquire_slot_except, proxy_mode_of, taken, try_static,
}
use gemini_web2api_go.Base.Dict.{lookup, put}
use gemini_web2api_go.Base.Int.{int_beq, int_eq, pos}
use gemini_web2api_go.Base.Tests.{nat_eq}
use gemini_web2api_go.Base.Text.{Text, codes, contains, has_prefix, split_on, text_beq, text_eq}
use gemini_web2api_go.Frames.{
  Items, any_content, array_at, array_value, candidate_texts, has_content_frame, item, item_at,
  no_items, other_value, parts_in_line, text_value, texts_in_line, texts_of,
}
use gemini_web2api_go.Models.{anon_first_eligible, model_needs_login}
use gemini_web2api_go.Outside.{Outside, Reply, Request, no_reply, replied}
use gemini_web2api_go.Proxy.{
  Exits, find_first, is_excluded, proxy_fail_threshold, proxy_usable, set_sticky_proxy,
}
use gemini_web2api_go.Proxy.Pick.{
  acquire_exit, advance, attempt_exit, pick_from, pick_proxy_preferring_except, preferred, stick,
  stuck_to, take_turns, try_found, usable_pool,
}
use gemini_web2api_go.RateLimit.{acquire_in, admit, get_slot, prune_timestamps, try_slot_acquire}
use gemini_web2api_go.Tests.{proxy_at, strict_config, two_proxies}
use gemini_web2api_go.Tests.Requests.{plain_writers, test_asked, test_outside, test_world}
use gemini_web2api_go.Trip.{Asked, Trip}
use gemini_web2api_go.Trip.Anonymous.{Unsigned}
use gemini_web2api_go.Trip.Answered.{Ends, request-Ends}
use gemini_web2api_go.Trip.NoAccount.{request-Unsigned}
use gemini_web2api_go.Trip.Switches.{stream_generate_with_files}

abbrev anonymous_asked : Asked
anonymous_asked = record test_asked {
  model = record { hex_id = codes "flash"; mode = 1; thinking = false; tool = 0 };
}

abbrev pub spaces : ℕ → Text
spaces zero = []
spaces (suc n) = 32 ∷ spaces n

-- A line of the shape that carries a text, and what it reads as.
abbrev good_frame : Text
good_frame = codes "\"wrb.fr\"" ++ spaces 200

abbrev pub one_part : Items
one_part =
    item
      (array_value
        (item other_value (item (array_value (item (text_value (codes "hi")) no_items)) no_items)))
      no_items

abbrev frame_items : Items
frame_items =
    item
      (array_value (item other_value (item other_value (item (text_value (spaces 60)) no_items))))
      (item other_value
        (item other_value (item other_value (item (array_value one_part) no_items))))

-- The first request gets no reply, and every later one an answer.
abbrev late_replies : ℕ → Request → Reply
late_replies zero r = no_reply (codes "timeout")
late_replies (suc n) r = replied 200 [] [] good_frame

abbrev late_outside : Outside
late_outside = record test_outside { reply = late_replies; parse = λ t. some frame_items }

may_go : anon_first_eligible strict_config anonymous_asked.model false ≡ true
unfolding anon_first_eligible model_needs_login text_beq
may_go = refl

request-Unsigned_example :
    let t : Trip =
      (stream_generate_with_files strict_config late_outside plain_writers test_world
        anonymous_asked).0 in
    Unsigned [] t.world.log × (t.world.store ≡ test_world.store)
request-Unsigned_example =
    request-Unsigned strict_config late_outside plain_writers anonymous_asked test_world may_go

abbrev first_exit : Exits × Outcome
first_exit =
    acquire_slot_except strict_config 1000 (late_outside.remote 0) two_proxies (pos 0) [] []

exit_free : first_exit ≡ (first_exit.0, taken (proxy_at 1 2))
unfolding acquire_slot_except acquire_in_mode proxy_mode_of try_static pick_proxy_preferring_except
    usable_pool proxy_usable proxy_fail_threshold pick_from preferred stuck_to try_found
    attempt_exit acquire_exit take_turns advance stick try_slot_acquire acquire_in admit
    prune_timestamps get_slot lookup put int_beq text_beq find_first is_excluded set_sticky_proxy
exit_free = refl

has_text : has_content_frame late_outside.parse good_frame ≡ true
unfolding has_content_frame split_on any_content texts_in_line parts_in_line contains has_prefix
    item_at array_at candidate_texts texts_of
has_text = refl

request-Ends_example :
    Ends good_frame
      (stream_generate_with_files strict_config late_outside plain_writers test_world
        anonymous_asked).1
request-Ends_example =
    request-Ends strict_config late_outside plain_writers anonymous_asked good_frame has_text
      test_world may_go refl first_exit.0 (proxy_at 1 2) 1 exit_free (omega arith)
      (codes "timeout", λ r. refl, ([], [], λ r. refl))
