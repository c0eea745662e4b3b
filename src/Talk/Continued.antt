-- ===== src/Talk/Continued.antt =====
-- What an answer gives a conversation, read off its payloads.
use Prim.Native.Nat.{ℕ, ◌+◌}
use mathlib.Core.Bool.{not}
use mathlib.Core.List.{List, [], ◌++◌, ◌∷◌}
use mathlib.Core.Logic.{inl, inr}
use mathlib.Core.Option.{Option, none, some}
use mathlib.Core.Path.{ap, refl, sym, ◌∙◌, ◌≡◌}
use gemini_web2api_go.Base.Int.{int_eq}
use gemini_web2api_go.Base.Tests.{Bool-cases, if◌then◌else◌, nat_eq, ◌==◌, ◌>>=◌}
use gemini_web2api_go.Base.Text.{Text, codes, has_prefix, is_empty, split_on, text_eq, trim_space}
use gemini_web2api_go.Conversation.{ConvState}
use gemini_web2api_go.Frames.{
  Items, Json, Parser, array_at, array_value, as_text, item, item_at, newline, no_items,
  other_value, text_value,
}
use gemini_web2api_go.Outside.{Outside, rcid_re}
use gemini_web2api_go.Talk.{
  Ids, continued, has_two, ids_in_lines, ids_in_payload, ids_in_row, ids_in_rows, is_frame,
  keep_text, unless_empty,
}

-- The payload of a row [[ "wrb.fr", _, payload, … ]] that is a JSON array.
abbrev pub payload_of : Parser → Items → Option Items
payload_of parse row = do
  head ← item_at 0 row
  text ← as_text (item_at 2 row)
  name ← as_text (some head)
  if name == codes "wrb.fr" then parse text else none

abbrev one_or_none : Option Items → List Items
one_or_none none = []
one_or_none (some f) = f ∷ []

unfoldable pub row_payloads : Parser → Items → List Items
row_payloads parse no_items = []
row_payloads parse (item (array_value row) js) =
    one_or_none (payload_of parse row) ++ row_payloads parse js
row_payloads parse (item _ js) = row_payloads parse js

abbrev line_rows : Parser → Text → Items
line_rows parse line =
    if has_prefix (trim_space line) (codes "[[")
    then elim (parse (trim_space line)) [ none ↦ no_items | some rows ↦ rows ]
    else no_items

-- The payloads of an answer in their order.
unfoldable pub payloads : Parser → List Text → List Items
unfolding row_payloads
payloads parse [] = []
payloads parse (l ∷ lines) = row_payloads parse (line_rows parse l) ++ payloads parse lines

abbrev text_of_two : ℕ → Items → Option Text
text_of_two i (item a (item b js)) = as_text (item_at i (item a (item b js)))
text_of_two i _ = none

-- The text at `i` of the part at 1, where that has two entries at least.
abbrev pub meta_at : ℕ → Items → Option Text
meta_at i f = elim (array_at 1 f) [ none ↦ none | some meta ↦ text_of_two i meta ]

abbrev pub token_in : Items → Option Text
token_in f = as_text (item_at 26 f)

-- The text that is there and not empty, or the old one.
abbrev pub newer : Text → Option Text → Text
newer old none = old
newer old (some t) = if is_empty t then old else t

-- The last text of a field that is there and not empty, or the old one.
abbrev pub last_given : (Items → Option Text) → List Items → Text → Text
last_given field [] old = old
last_given field (f ∷ fs) old = last_given field fs (newer old (field f))

-- The conversation after an answer: the identifiers are the last that its payloads give and the old
-- ones where they give none, the token is the last one or none, and there is one turn more.
abbrev pub after_answer : Outside → ConvState → Text → ConvState
after_answer o v raw =
    let fs = payloads o.parse (split_on newline raw) in
    record v {
      cid = last_given (meta_at 0) fs v.cid;
      rid = last_given (meta_at 1) fs v.rid;
      rcid = newer v.rcid (o.find rcid_re raw);
      tok26 = last_given token_in fs [];
      turn = v.turn + 1;
    }

keep-newer : (old : Text) (m : Option Text) → keep_text old m ≡ newer old m
keep-newer old none = refl
keep-newer old (some []) = refl
keep-newer old (some (c ∷ t)) = refl

last_given-append :
    (field : Items → Option Text) (fs gs : List Items) (old : Text)
    → last_given field (fs ++ gs) old ≡ last_given field gs (last_given field fs old)
last_given-append field [] gs old = refl
last_given-append field (f ∷ fs) gs old = last_given-append field fs gs (newer old (field f))

unless-newer :
    (old now : Text) (m : Option Text)
    → newer (unless_empty old now) m ≡ unless_empty old (newer now m)
unless-newer old now none = refl
unless-newer old now (some []) = refl
unless-newer old now (some (c ∷ t)) = refl

unless-given :
    (field : Items → Option Text) (fs : List Items) (old now : Text)
    → unless_empty old (last_given field fs now) ≡ last_given field fs (unless_empty old now)
unless-given field [] old now = refl
unless-given field (f ∷ fs) old now =
    unless-given field fs old (newer now (field f))
    ∙ ap (last_given field fs) (sym (unless-newer old now (field f)))

-- All three at once.
abbrev given : List Items → Ids → Ids
given fs ids = (
  last_given (meta_at 0) fs ids.0,
  (last_given (meta_at 1) fs ids.1.0, last_given token_in fs ids.1.1),
)

given-append : (fs gs : List Items) (ids : Ids) → given (fs ++ gs) ids ≡ given gs (given fs ids)
given-append fs gs (cid, (rid, tok)) = rw (
  last_given-append (meta_at 0) fs gs cid,
  last_given-append (meta_at 1) fs gs rid,
  last_given-append token_in fs gs tok,
)

payload-given : (f : Items) (ids : Ids) → ids_in_payload f ids ≡ given (f ∷ []) ids
unfolding ids_in_payload
payload-given f (cid, (rid, tok)) = go (array_at 1 f)
  where
    go :
        (m : Option Items)
        → (let tok' = keep_text tok (as_text (item_at 26 f)) in
            let r : Ids = elim m [
              | none ↦ (cid, (rid, tok'))
              | some meta ↦
                  if has_two meta
                  then (
                    keep_text cid (as_text (item_at 0 meta)),
                    (keep_text rid (as_text (item_at 1 meta)), tok'),
                  )
                  else (cid, (rid, tok'))
            ] in
            let at = λ (i : ℕ).
              (let t : Option Text = elim m [ none ↦ none | some meta ↦ text_of_two i meta ] in
                t) in
            ◌≡◌ {A = Ids} r (newer cid (at 0), (newer rid (at 1), newer tok (token_in f))))
    go none = rw (keep-newer tok (as_text (item_at 26 f)))
    go (some no_items) = rw (keep-newer tok (as_text (item_at 26 f)))
    go (some (item a no_items)) = rw (keep-newer tok (as_text (item_at 26 f)))
    go (some (item a (item b js))) =
        let meta = item a (item b js) in
        rw (
          keep-newer tok (as_text (item_at 26 f)),
          keep-newer cid (as_text (item_at 0 meta)),
          keep-newer rid (as_text (item_at 1 meta)),
        )

frame-named :
    (head : Json) (m : Option Items)
    → (if is_frame (as_text (some head)) then m else none)
      ≡ (do name ← as_text (some head); if name == codes "wrb.fr" then m else none)
frame-named (text_value t) m = refl
frame-named (array_value js) m = refl
frame-named other_value m = refl

row-given :
    (parse : Parser) (row : Items) (ids : Ids)
    → ids_in_row parse row ids ≡ given (one_or_none (payload_of parse row)) ids
unfolding ids_in_row
row-given parse row ids = go (item_at 0 row) (as_text (item_at 2 row))
  where
    end :
        (m : Option Items)
        → ◌≡◌ {A = Ids}
            (elim m [ none ↦ ids | some f ↦ ids_in_payload f ids ])
            (given (one_or_none m) ids)
    end none = refl
    end (some f) = payload-given f ids

    go :
        (h : Option Json) (t : Option Text)
        → (let coded : Option Items = do
          head ← h
          text ← t
          if is_frame (as_text (some head)) then parse text else none
          in let read : Option Items = do
            head ← h
            text ← t
            name ← as_text (some head)
            if name == codes "wrb.fr" then parse text else none
            in ◌≡◌ {A = Ids}
              (elim coded [ none ↦ ids | some f ↦ ids_in_payload f ids ])
              (given (one_or_none read) ids))
    go none t = refl
    go (some head) none = refl
    go (some head) (some text) = rw (frame-named head (parse text)) (end _)

rows-given :
    (parse : Parser) (rows : Items) (ids : Ids)
    → ids_in_rows parse rows ids ≡ given (row_payloads parse rows) ids
unfolding ids_in_rows row_payloads
rows-given parse no_items ids = refl
rows-given parse (item (array_value row) js) ids =
    rows-given parse js (ids_in_row parse row ids)
    ∙ ap (given (row_payloads parse js)) (row-given parse row ids)
    ∙ sym (given-append (one_or_none (payload_of parse row)) (row_payloads parse js) ids)
rows-given parse (item (text_value t) js) ids = rows-given parse js ids
rows-given parse (item other_value js) ids = rows-given parse js ids

line-given :
    (parse : Parser) (l : Text) (rest : Ids → Ids) (ids : Ids)
    → (let line = trim_space l in
        let r : Ids = if not (has_prefix line (codes "[[")) then rest ids else elim (parse line) [
          | none ↦ rest ids
          | some rows ↦ rest (ids_in_rows parse rows ids)
        ] in
        r ≡ rest (given (row_payloads parse (line_rows parse l)) ids))
unfolding row_payloads
line-given parse l rest ids = elim (Bool-cases (has_prefix (trim_space l) (codes "[["))) [
  | inr e ↦ rw e
  | inl e ↦ rw e (go (parse (trim_space l)))
]
  where
    go :
        (m : Option Items)
        → (let r : Ids = elim m [
          | none ↦ rest ids
          | some rows ↦ rest (ids_in_rows parse rows ids)
        ] in
            let rows : Items = elim m [ none ↦ no_items | some js ↦ js ] in
            r ≡ rest (given (row_payloads parse rows) ids))
    go none = refl
    go (some rows) = ap rest (rows-given parse rows ids)

lines-given :
    (parse : Parser) (ls : List Text) (ids : Ids)
    → ids_in_lines parse ls ids ≡ given (payloads parse ls) ids
unfolding ids_in_lines payloads
lines-given parse [] ids = refl
lines-given parse (l ∷ ls) ids =
    line-given parse l (ids_in_lines parse ls) ids
    ∙ lines-given parse ls (given (row_payloads parse (line_rows parse l)) ids)
    ∙ sym (given-append (row_payloads parse (line_rows parse l)) (payloads parse ls) ids)

pub continued-after :
    (o : Outside) (v : ConvState) (raw : Text) → continued o v raw ≡ after_answer o v raw
unfolding continued
continued-after o v raw =
    let fs = payloads o.parse (split_on newline raw) in
    ap
      (λ (ids : Ids).
        let u : ConvState = record v {
          cid = unless_empty v.cid ids.0;
          rid = unless_empty v.rid ids.1.0;
          rcid = keep_text v.rcid (o.find rcid_re raw);
          tok26 = ids.1.1;
          turn = v.turn + 1;
        } in
        u)
      (lines-given o.parse (split_on newline raw) ([], ([], [])))
    ∙ rw (
      unless-given (meta_at 0) fs v.cid [],
      unless-given (meta_at 1) fs v.rid [],
      keep-newer v.rcid (o.find rcid_re raw),
    )
