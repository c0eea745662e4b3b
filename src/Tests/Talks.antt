-- ===== src/Tests/Talks.antt =====
-- A turn of a conversation on a concrete network, and the theorems about it applied.
use Prim.Native.Nat.{ℕ}
use mathlib.Core.Bool.{false}
use mathlib.Core.List.{[], ◌++◌, ◌∷◌}
use mathlib.Core.Option.{some}
use mathlib.Core.Path.{refl, ◌≡◌}
use gemini_web2api_go.Base.Int.{int_eq, pos}
use gemini_web2api_go.Base.Tests.{nat_eq}
use gemini_web2api_go.Base.Text.{Text, codes, has_prefix, split_on, text_beq, text_eq, trim_space}
use gemini_web2api_go.Conversation.{ConvState}
use gemini_web2api_go.Frames.{
  Items, array_at, array_value, item, item_at, no_items, other_value, text_value,
}
use gemini_web2api_go.Outside.{Outside, Reply, Request, replied}
use gemini_web2api_go.Outside.Kept.{Restored}
use gemini_web2api_go.Stream.Feed.Faithful.{IsFaithful}
use gemini_web2api_go.Talk.{Talk}
use gemini_web2api_go.Talk.Continued.{after_answer, payloads, row_payloads}
use gemini_web2api_go.Talk.Rounds.{stream_generate_conv}
use gemini_web2api_go.Talk.Slots.{turn-Restored}
use gemini_web2api_go.Tests.{strict_config}
use gemini_web2api_go.Tests.Anonymous.{one_part, spaces}
use gemini_web2api_go.Tests.Requests.{
  plain_writers, test_asked, test_exits-IsWellFormed, test_outside, test_world,
}
use gemini_web2api_go.Trip.{Trip}

abbrev new_conversation : ConvState
new_conversation = record {
  cid = [];
  rid = [];
  rcid = [];
  tok26 = [];
  turn = 0;
  cookie = [];
  sapisid = [];
  is_login = false;
  account_id = pos 0;
  proxy_id = pos 0;
  proxy_url = [];
  updated = 0;
}

-- The first answer, with its identifiers and its text.
abbrev talk_line : Text
talk_line = codes "[[\"wrb.fr\"" ++ spaces 200

abbrev two_ids : Items
two_ids = item (text_value (codes "c_1")) (item (text_value (codes "r_1")) no_items)

abbrev talk_row : Items
talk_row =
    item (text_value (codes "wrb.fr")) (item other_value (item (text_value (spaces 60)) no_items))

abbrev talk_items : Items
talk_items = item (array_value talk_row) (
    item (array_value two_ids)
      (item other_value (item other_value (item (array_value one_part) no_items))))

abbrev talk_replies : ℕ → Request → Reply
talk_replies n q = replied 200 [] (codes "NID=1; path=/" ∷ []) talk_line

abbrev talking_outside : Outside
talking_outside = record test_outside { reply = talk_replies; parse = λ t. some talk_items }

abbrev went_on : ConvState
went_on = record new_conversation { cid = codes "c_1"; rid = codes "r_1"; turn = 1 }

given_ids : after_answer talking_outside new_conversation talk_line ≡ went_on
unfolding payloads row_payloads split_on trim_space has_prefix item_at array_at text_beq
given_ids = refl

turn-Restored_example :
    let t : Trip =
      (stream_generate_conv strict_config talking_outside plain_writers
        (λ n. n)
        test_world
        test_asked
        new_conversation).0.trip in
    Restored test_world t.world × IsFaithful t.feed
turn-Restored_example =
    turn-Restored strict_config talking_outside plain_writers (λ n. n) test_asked test_world
      new_conversation test_exits-IsWellFormed
