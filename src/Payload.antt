-- ===== src/Payload.antt =====
-- internal/app/gemini.go: the payload and the headers of the request that asks for an answer.
use Prim.Native.Nat.{suc, zero, ℕ, ◌+◌}
use mathlib.Core.List.{List, [], ◌++◌, ◌∷◌}
use mathlib.Core.Option.{Option, none, some}
use gemini_web2api_go.Base.Dict.{lookup, put}
use gemini_web2api_go.Base.Int.{int_eq}
use gemini_web2api_go.Base.Tests.{if◌then◌else◌, ltb, nat_eq, ◌==◌}
use gemini_web2api_go.Base.Text.{Text, codes, is_empty, text_eq}
use gemini_web2api_go.Cookie.{Pair}
use gemini_web2api_go.Models.{ModelConfig}
use gemini_web2api_go.Outside.{Outside}
use gemini_web2api_go.Upload.{FileRef}

-- The values that the program sends as JSON.
mutual
  pub data Value : Type 0 where
    null : Value
    numeral : ℕ → Value
    quoted : Text → Value
    sequence : Values → Value

  pub data Values : Type 0 where
    no_values : Values
    cell : Value → Values → Values

-- The libraries that write the request down: `json.Marshal`, `url.Values.Encode`.
pub record Writers : Type 0 where
  pub marshal : Value → Text
  pub encode_form : List Pair → Text

abbrev pub inner_slots : ℕ
inner_slots = 97

abbrev pub thinking_normal : ℕ
thinking_normal = 1

abbrev pub thinking_extended : ℕ
thinking_extended = 2

abbrev pub tool_video : ℕ
tool_video = 11

-- `[]interface{}{…}`
abbrev pub array : List Value → Value
array vs = sequence (go vs)
  where
    go : List Value → Values
    go [] = no_values
    go (v ∷ vs) = cell v (go vs)

abbrev pub nulls : ℕ → List Value
nulls zero = []
nulls (suc n) = null ∷ nulls n

-- One attachment in the payload.
unfoldable pub file_value : FileRef → Value
file_value f =
    let kind = if f.ref_kind == 0 then 3 else f.ref_kind in
    let mime = if is_empty f.ref_mime then codes "text/plain" else f.ref_mime in
    array (
      array (quoted f.ref ∷ numeral kind ∷ null ∷ quoted mime ∷ [])
      ∷ quoted f.ref_name
      ∷ (nulls 6 ++ array (numeral 0 ∷ []) ∷ []))

abbrev pub file_values : List FileRef → List Value
file_values [] = []
file_values (f ∷ fs) = file_value f ∷ file_values fs

abbrev refs_value : List FileRef → Value
refs_value [] = null
refs_value (f ∷ fs) = array (file_values (f ∷ fs))

-- `inner[0]`
unfoldable pub prompt_value : Text → List FileRef → Value
unfolding file_value
prompt_value prompt files =
    array (quoted prompt ∷ numeral 0 ∷ null ∷ refs_value files ∷ null ∷ null ∷ numeral 0 ∷ [])

-- The slots of `inner` that are set; a later line of the program overwrites an earlier one.
unfoldable pub set_slots : ModelConfig → Text → List FileRef → Text → List (ℕ × Value)
unfolding prompt_value
set_slots mc prompt files req_uuid =
    let plain =
      (0, prompt_value prompt files)
      ∷ (1, array (quoted (codes "en") ∷ []))
      ∷ (2, array (quoted [] ∷ quoted [] ∷ quoted [] ∷ (nulls 6 ++ quoted [] ∷ [])))
      ∷ (6, array (numeral 0 ∷ []))
      ∷ (7, numeral 1)
      ∷ (10, numeral 1)
      ∷ (11, numeral 0)
      ∷ (17, array (array (numeral 0 ∷ []) ∷ []))
      ∷ (18, numeral 0)
      ∷ (27, numeral 1)
      ∷ (30, array (numeral 4 ∷ []))
      ∷ (41, array (numeral 1 ∷ []))
      ∷ (53, numeral 0)
      ∷ (59, quoted req_uuid)
      ∷ (61, array [])
      ∷ (68, numeral 1)
      ∷ (79, numeral mc.mode)
      ∷ (80, numeral (if mc.thinking then thinking_extended else thinking_normal))
      ∷ (91, numeral 0)
      ∷ (96, numeral (if mc.thinking then 1 else 0))
      ∷ [] in
    let tool = if ltb 0 mc.tool then (49, numeral mc.tool) ∷ [] else [] in
    let video =
      if mc.tool == tool_video then (55, array (array (numeral 16 ∷ []) ∷ [])) ∷ [] else [] in
    plain ++ (tool ++ video)

abbrev or_null : Option Value → Value
or_null none = null
or_null (some v) = v

-- The array from slot `i` on, `n` slots long.
unfoldable pub fill_slots : List (ℕ × Value) → ℕ → ℕ → Values
fill_slots slots i zero = no_values
fill_slots slots i (suc n) = cell (or_null (lookup i slots)) (fill_slots slots (i + 1) n)

unfoldable pub inner_payload : ModelConfig → Text → List FileRef → Text → Value
unfolding set_slots fill_slots
inner_payload mc prompt files req_uuid =
    sequence (fill_slots (set_slots mc prompt files req_uuid) 0 inner_slots)

-- `buildBody`
unfoldable pub build_body : Writers → Value → Text → Text
build_body k inner at_token =
    let outer = k.marshal (array (null ∷ quoted (k.marshal inner) ∷ [])) in
    k.encode_form
      ((codes "f.req", outer) ∷ (if is_empty at_token then [] else (codes "at", at_token) ∷ []))

abbrev in_quotes : Text → Text
in_quotes t = codes "\"" ++ (t ++ codes "\"")

-- `buildModelHeader`
unfoldable pub build_model_header : Outside → Text → ℕ → ℕ → Text → Text
build_model_header o hex_id mode think uuid =
    if is_empty uuid
    then codes "[1,null,null,null," ++ (in_quotes hex_id ++ codes "]")
    else codes "[1,null,null,null,"
      ++ (in_quotes hex_id
          ++ (codes ",null,null,0,[4,5,6,8],null,null,1,null,null,"
              ++ (o.decimal mode
                  ++ (codes ","
                      ++ (o.decimal think ++ (codes "," ++ (in_quotes uuid ++ codes "]")))))))

-- `makeSAPISIDHash`
unfoldable pub make_sapisid_hash : Outside → ℕ → Text → Text
make_sapisid_hash o ts sapisid =
    let h =
      o.sha1_hex (o.decimal ts ++ (codes " " ++ (sapisid ++ codes " https://gemini.google.com"))) in
    codes "SAPISIDHASH " ++ (o.decimal ts ++ (codes "_" ++ h))

abbrev pub model_header_name : Text
model_header_name = codes "x-goog-ext-525001261-jspb"

abbrev pub session_header_name : Text
session_header_name = codes "x-goog-ext-525005358-jspb"

-- `buildGeminiHeaders`
unfoldable pub build_gemini_headers : Outside → ℕ → Text → Text → Text → List Pair
build_gemini_headers o ts cookie_str sapisid hex_id =
    (codes "Accept", codes "*/*")
    ∷ (codes "Accept-Language", codes "en-US,en;q=0.9")
    ∷ (codes "Content-Type", codes "application/x-www-form-urlencoded;charset=UTF-8")
    ∷ (codes "Origin", codes "https://gemini.google.com")
    ∷ (codes "Referer", codes "https://gemini.google.com/app")
    ∷ (codes "X-Same-Domain", codes "1")
    ∷ (codes "X-Goog-AuthUser", codes "0")
    ∷ (codes "x-goog-ext-73010989-jspb", codes "[0]")
    ∷ (codes "x-goog-ext-73010990-jspb", codes "[0,0,0]")
    ∷ ((if is_empty hex_id
          then []
          else (model_header_name, build_model_header o hex_id 0 0 []) ∷ [])
        ++ ((if is_empty cookie_str then [] else (codes "Cookie", cookie_str) ∷ [])
            ++ (if is_empty sapisid
                then []
                else (codes "Authorization", make_sapisid_hash o ts sapisid) ∷ [])))

-- The headers of the request, with the two that name the model and the session.
unfoldable pub request_headers : Outside → ℕ → Text → Text → Text → Text → Text → List Pair
request_headers o ts cookie_str sapisid hex_id model_header session_header =
    put session_header_name session_header
      (put model_header_name model_header (build_gemini_headers o ts cookie_str sapisid hex_id))
