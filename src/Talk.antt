-- ===== src/Talk.antt =====
-- internal/app/conversation.go: `streamGenerateConv`, one turn of a conversation that the upstream
-- keeps. Its local variables are those of `Trip` that it shares with a single request; the others
-- stay as they were at the start.
pub mod Attempts
pub mod Continued
pub mod Parts
pub mod Progress
pub mod Rounds
pub mod Settle
pub mod Slots
pub mod Ties
use Prim.Native.Nat.{◌+◌}
use mathlib.Core.Bool.{Bool, false, not, true, ◌||◌}
use mathlib.Core.List.{List, [], ◌++◌, ◌∷◌}
use mathlib.Core.Option.{Option, none, some}
use gemini_web2api_go.Base.Dict.{put}
use gemini_web2api_go.Base.Int.{int_eq}
use gemini_web2api_go.Base.Result.{Result, erred, fine, utf8}
use gemini_web2api_go.Base.Tests.{if◌then◌else◌, nat_eq, ◌==◌, ◌>>=◌}
use gemini_web2api_go.Base.Text.{
  Text, before, codes, has_prefix, is_empty, join, split_on, text_eq, trim_space,
}
use gemini_web2api_go.Conversation.{ConvState}
use gemini_web2api_go.Cookie.{equals_sign, semicolon}
use gemini_web2api_go.Frames.{
  Items, Parser, array_at, array_value, as_text, item, item_at, newline, no_items,
}
use gemini_web2api_go.Models.{ModelConfig}
use gemini_web2api_go.Outside.{
  Outside, Reply, Request, World, app_page, broken_off, exchange, no_reply, rcid_re, replied,
}
use gemini_web2api_go.Payload.{
  Value, array, fill_slots, inner_slots, nulls, numeral, quoted, sequence, set_slots,
}
use gemini_web2api_go.Proxy.{is_excluded}
use gemini_web2api_go.Trip.{Trip}

-- The turn on its way, and the conversation that it changes.
pub record Talk : Type 0 where
  pub trip : Trip
  pub conv : ConvState

abbrev web_ua : Text
web_ua =
    codes
      "Mozilla/5.0 (Windows NT 10.0; Win64; x64) AppleWebKit/537.36 (KHTML, like Gecko) Chrome/146.0.0.0 Safari/537.36"

unfoldable pub session_request : Text → Request
session_request proxy_url = record {
  endpoint = app_page;
  headers = if is_empty proxy_url then (codes "User-Agent", web_ua) ∷ [] else [];
  body = [];
  proxy_url = proxy_url;
}

-- The loop of `getAnonSession` over the headers.
unfoldable pub session_pairs : List Text → List Text → List Text
session_pairs seen [] = []
session_pairs seen (h ∷ headers) =
    let nv = before semicolon h in
    let name = trim_space (before equals_sign nv) in
    if is_empty name || is_excluded name seen
    then session_pairs seen headers
    else trim_space nv ∷ session_pairs (name ∷ seen) headers

abbrev session_from : List Text → Result Text
session_from [] = erred (utf8 "匿名 /app 没返回 Set-Cookie")
session_from (p ∷ ps) = fine (join (codes "; ") (p ∷ ps))

-- The status and the body are not looked at.
unfoldable pub session_of : Reply → Result Text
unfolding session_pairs
session_of (no_reply e) = erred e
session_of (broken_off status cookies got e) = session_from (session_pairs [] cookies)
session_of (replied status head cookies got) = session_from (session_pairs [] cookies)

-- `getAnonSession`
unfoldable pub get_anon_session : Outside → World → Text → World × Result Text
unfolding exchange session_of
get_anon_session o w proxy_url =
    let (w', r) = exchange o w (session_request proxy_url) in (w', session_of r)

-- What `parseConvIDs` reads but for the `rcid`.
abbrev pub Ids : Type 0
Ids = Text × (Text × Text)

abbrev pub keep_text : Text → Option Text → Text
keep_text old none = old
keep_text old (some []) = old
keep_text old (some (c ∷ t)) = c ∷ t

abbrev pub has_two : Items → Bool
has_two (item a (item b js)) = true
has_two _ = false

-- The payload of one row.
unfoldable pub ids_in_payload : Items → Ids → Ids
unfolding item_at array_at
ids_in_payload f (cid, (rid, tok)) =
    let tok' = keep_text tok (as_text (item_at 26 f)) in
    elim (array_at 1 f) [
      | none ↦ (cid, (rid, tok'))
      | some meta ↦
          if has_two meta
          then (
            keep_text cid (as_text (item_at 0 meta)),
            (keep_text rid (as_text (item_at 1 meta)), tok'),
          )
          else (cid, (rid, tok'))
    ]

abbrev pub is_frame : Option Text → Bool
is_frame none = false
is_frame (some t) = t == codes "wrb.fr"

-- One row of a line.
unfoldable pub ids_in_row : Parser → Items → Ids → Ids
unfolding item_at ids_in_payload
ids_in_row parse row ids =
    let payload = do
      head ← item_at 0 row
      text ← as_text (item_at 2 row)
      if is_frame (as_text (some head)) then parse text else none
    in elim payload [ none ↦ ids | some f ↦ ids_in_payload f ids ]

unfoldable pub ids_in_rows : Parser → Items → Ids → Ids
unfolding ids_in_row
ids_in_rows parse no_items ids = ids
ids_in_rows parse (item (array_value row) js) ids = ids_in_rows parse js (ids_in_row parse row ids)
ids_in_rows parse (item _ js) ids = ids_in_rows parse js ids

-- The loop over the lines.
unfoldable pub ids_in_lines : Parser → List Text → Ids → Ids
unfolding ids_in_rows
ids_in_lines parse [] ids = ids
ids_in_lines parse (l ∷ lines) ids =
    let line = trim_space l in
    let rest = ids_in_lines parse lines in
    if not (has_prefix line (codes "[["))
    then rest ids
    else elim (parse line) [ none ↦ rest ids | some rows ↦ rest (ids_in_rows parse rows ids) ]

-- `if cid != "" { conv.cid = cid }`
abbrev pub unless_empty : Text → Text → Text
unless_empty old [] = old
unless_empty old (c ∷ t) = c ∷ t

-- `parseConvIDs`, and the conversation after an answer.
unfoldable pub continued : Outside → ConvState → Text → ConvState
unfolding ids_in_lines
continued o v raw =
    let (cid, (rid, tok)) = ids_in_lines o.parse (split_on newline raw) ([], ([], [])) in
    record v {
      cid = unless_empty v.cid cid;
      rid = unless_empty v.rid rid;
      rcid = keep_text v.rcid (o.find rcid_re raw);
      tok26 = tok;
      turn = v.turn + 1;
    }

-- The slots of `inner` that differ from those of a single request.
unfoldable pub conv_payload : ModelConfig → Text → ConvState → Text → Value
unfolding set_slots fill_slots
conv_payload mc prompt v req_uuid =
    let plain = set_slots (record mc { tool = 0 }) prompt [] req_uuid in
    let turn_slot = array (array (numeral v.turn ∷ []) ∷ []) in
    let chain =
      array (quoted v.cid ∷ quoted v.rid ∷ quoted v.rcid ∷ (nulls 6 ++ quoted v.tok26 ∷ [])) in
    let slots = put 17 turn_slot (if v.turn == 0 then plain else put 2 chain plain) in
    sequence (fill_slots slots 0 inner_slots)
