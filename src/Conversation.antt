-- ===== src/Conversation.antt =====
-- internal/app/conversation.go: the store of running conversations and the keys that find them.
-- Times are in nanoseconds. `walk` is the order in which the language walks through a map.
pub mod Bound
use Prim.Native.Nat.{ℕ, ◌+◌}
use mathlib.Core.Bool.{Bool, not}
use mathlib.Core.List.{List, [], ◌++◌, ◌∷◌}
use mathlib.Core.Option.{Option, none, some}
use gemini_web2api_go.Base.Dict.{lookup, put, remove}
use gemini_web2api_go.Base.Int.{int_eq, ℤ}
use gemini_web2api_go.Base.Lists.{keep, length}
use gemini_web2api_go.Base.Tests.{if◌then◌else◌, ltb, nat_eq}
use gemini_web2api_go.Base.Text.{Text, codes, is_empty, text_eq}

-- `convState`
pub record ConvState : Type 0 where
  pub cid : Text
  pub rid : Text
  pub rcid : Text
  pub tok26 : Text
  pub turn : ℕ
  pub cookie : Text
  pub sapisid : Text
  pub is_login : Bool
  pub account_id : ℤ
  pub proxy_id : ℤ
  pub proxy_url : Text
  pub updated : ℕ

abbrev pub ConvStore : Type 0
ConvStore = List (Text × ConvState)

-- 90 minutes.
abbrev pub conv_ttl : ℕ
conv_ttl = 5400000000000

abbrev pub conv_max : ℕ
conv_max = 4000

-- `convDelete`
unfoldable pub conv_delete : ConvStore → Text → ConvStore
conv_delete s key = if is_empty key then s else remove key s

-- `time.Since(st.updated) > convTTL`
abbrev pub is_expired : ℕ → ConvState → Bool
is_expired now st = ltb (st.updated + conv_ttl) now

-- `convGet`
unfoldable pub conv_get : ℕ → ConvStore → Text → ConvStore × Option ConvState
conv_get now s key = if is_empty key then (s, none) else elim (lookup key s) [
  | none ↦ (s, none)
  | some st ↦ if is_expired now st then (remove key s, none) else (s, some st)
]

-- The variables `oldestK`, `oldestT` and `first` after the loop over the entries that stay.
unfoldable pub oldest_from : Option (Text × ℕ) → ConvStore → Option (Text × ℕ)
oldest_from o [] = o
oldest_from none ((k, v) ∷ m) = oldest_from (some (k, v.updated)) m
oldest_from (some (k, t)) ((j, v) ∷ m) =
    if ltb v.updated t then oldest_from (some (j, v.updated)) m else oldest_from (some (k, t)) m

-- `delete(convStore, oldestK)`, unless that is empty.
unfoldable pub evict : Option (Text × ℕ) → ConvStore → ConvStore
evict none m = m
evict (some (k, t)) m = if is_empty k then m else remove k m

-- `convPut`
unfoldable pub conv_put : (ConvStore → ConvStore) → ℕ → ConvStore → Text → ConvState → ConvStore
conv_put walk now s key st =
    if is_empty key
    then s
    else let m = put key (record st { updated = now }) s in
      if not (ltb conv_max (length m))
      then m
      else let kept = keep (λ e. not (is_expired now e.1)) (walk m) in
        if ltb conv_max (length kept) then evict (oldest_from none kept) kept else kept

-- What `getStr(m, "role")` and `contentToString(m["content"])` read in a message.
pub record Message : Type 0 where
  pub role : Text
  pub content : Text

-- `canonicalMessages`
unfoldable pub canonical_messages : List Message → Text
canonical_messages [] = []
canonical_messages (m ∷ ms) = m.role ++ (0x1f ∷ (m.content ++ (0x1e ∷ canonical_messages ms)))

-- `messages[:len(messages)-1]`
abbrev pub drop_last : List Message → List Message
drop_last [] = []
drop_last (m ∷ []) = []
drop_last (m ∷ n ∷ ms) = m ∷ drop_last (n ∷ ms)

-- `convParentKey`; `hash` is `hashStr`.
unfoldable pub conv_parent_key : (Text → Text) → List Message → Text
conv_parent_key hash ms = if ltb (length ms) 2 then [] else hash (canonical_messages (drop_last ms))

abbrev pub assistant : Text → Message
assistant response = record { role = codes "assistant"; content = response }

-- `convChildKey`
unfoldable pub conv_child_key : (Text → Text) → List Message → Text → Text
conv_child_key hash ms response = hash (canonical_messages (ms ++ assistant response ∷ []))
