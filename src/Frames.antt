-- ===== src/Frames.antt =====
-- internal/app/gemini.go: reading texts and reasoning from the frames of the upstream. `parse` is
-- `json.Unmarshal` into a `[]interface{}`, `none` being its error, and `clean` is
-- `cleanGeminiText`.
pub mod Content
pub mod Longest
use Prim.Native.Nat.{suc, zero, ℕ}
use mathlib.Core.Bool.{Bool, false, not, true, ◌||◌}
use mathlib.Core.List.{List, [], ◌++◌, ◌∷◌}
use mathlib.Core.Option.{Option, none, some}
use gemini_web2api_go.Base.Int.{int_eq}
use gemini_web2api_go.Base.Lists.{length}
use gemini_web2api_go.Base.Tests.{if◌then◌else◌, ltb, nat_eq, ◌>>=◌}
use gemini_web2api_go.Base.Text.{Text, codes, contains, is_empty, split_on, text_eq, trim_space}

-- What the program looks at in a JSON value.
mutual
  pub data Json : Type 0 where
    text_value : Text → Json
    array_value : Items → Json
    other_value : Json

  pub data Items : Type 0 where
    no_items : Items
    item : Json → Items → Items

abbrev pub Parser : Type 0
Parser = Text → Option Items

-- `arr[i]`, if the array is that long.
unfoldable pub item_at : ℕ → Items → Option Json
item_at i no_items = none
item_at zero (item j js) = some j
item_at (suc i) (item j js) = item_at i js

-- `v.([]interface{})`
abbrev pub as_array : Option Json → Option Items
as_array (some (array_value js)) = some js
as_array _ = none

-- `v.(string)`
abbrev pub as_text : Option Json → Option Text
as_text (some (text_value t)) = some t
as_text _ = none

-- The length check and the conversion of the part at `i`.
unfoldable pub array_at : ℕ → Items → Option Items
unfolding item_at
array_at i js = as_array (item_at i js)

-- The start that `reasoningInLine` and `textsInLine` share: `inner[4]`.
unfoldable pub parts_in_line : Parser → Text → Option Items
unfolding array_at item_at
parts_in_line parse line =
    if not (contains line (codes "\"wrb.fr\"")) || ltb (length line) 200 then none else do
      arr ← parse line
      head ← array_at 0 arr
      inner_text ← as_text (item_at 2 head)
      if ltb (length inner_text) 50 then none else parse inner_text >>= array_at 4

-- `reasoningInLine`
unfoldable pub reasoning_in_line : Parser → Text → Text
unfolding array_at item_at
reasoning_in_line parse line =
    let found = do
      parts ← parts_in_line parse line
      p0 ← array_at 0 parts
      lvl1 ← array_at 37 p0
      lvl2 ← array_at 0 lvl1
      as_text (item_at 0 lvl2)
    in elim found [ none ↦ [] | some s ↦ s ]

-- The texts of one candidate that are not empty.
unfoldable pub texts_of : Items → List Text
texts_of no_items = []
texts_of (item (text_value []) js) = texts_of js
texts_of (item (text_value (c ∷ t)) js) = (c ∷ t) ∷ texts_of js
texts_of (item _ js) = texts_of js

-- The loop over the candidates.
unfoldable pub candidate_texts : Items → List Text
unfolding texts_of array_at item_at
candidate_texts no_items = []
candidate_texts (item (array_value p) js) = elim (array_at 1 p) [
  | none ↦ candidate_texts js
  | some tl ↦ texts_of tl ++ candidate_texts js
]
candidate_texts (item _ js) = candidate_texts js

-- `textsInLine`
unfoldable pub texts_in_line : Parser → Text → List Text
texts_in_line parse line = elim (parts_in_line parse line) [
  | none ↦ []
  | some parts ↦ candidate_texts parts
]

abbrev pub newline : ℕ
newline = 10

abbrev pub has_content : Parser → Text → Bool
has_content parse line = elim (texts_in_line parse line) [
  | [] ↦ not (is_empty (reasoning_in_line parse line))
  | t ∷ ts ↦ true
]

unfoldable pub any_content : Parser → List Text → Bool
any_content parse [] = false
any_content parse (line ∷ lines) = has_content parse line || any_content parse lines

-- `hasContentFrame`
unfoldable pub has_content_frame : Parser → Text → Bool
has_content_frame parse raw = any_content parse (split_on newline raw)

unfoldable pub longest_reasoning : Parser → Text → List Text → Text
longest_reasoning parse best [] = best
longest_reasoning parse best (line ∷ lines) =
    let r = reasoning_in_line parse line in
    if ltb (length best) (length r)
    then longest_reasoning parse r lines
    else longest_reasoning parse best lines

-- `extractReasoning`
unfoldable pub extract_reasoning : Parser → (Text → Text) → Text → Text
extract_reasoning parse clean raw = clean (longest_reasoning parse [] (split_on newline raw))

unfoldable pub texts_in_lines : Parser → List Text → List Text
texts_in_lines parse [] = []
texts_in_lines parse (line ∷ lines) = texts_in_line parse line ++ texts_in_lines parse lines

-- The loop from the last text to the first, as the last text that is not blank.
unfoldable pub last_filled : List Text → Option Text
last_filled [] = none
last_filled (t ∷ ts) = elim (last_filled ts) [
  | some u ↦ some u
  | none ↦ if is_empty (trim_space t) then none else some t
]

-- `extractResponseText`; `unmark` is `codeMarkerRe.ReplaceAllString` with the plain fence.
unfoldable pub extract_response_text : Parser → (Text → Text) → (Text → Text) → Text → Text
extract_response_text parse clean unmark raw =
    elim (last_filled (texts_in_lines parse (split_on newline raw))) [
      | none ↦ []
      | some t ↦ if is_empty (clean t) then trim_space (unmark t) else clean t
    ]
