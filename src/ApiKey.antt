-- ===== src/ApiKey.antt =====
-- internal/app/apikey.go: the key of the client interface. `random` is the text that 24 random bytes
-- give, and `stores` whether the database takes the write.
pub mod Sync
pub mod Table
use mathlib.Core.Bool.{Bool, not, true, ◌||◌}
use mathlib.Core.List.{List, [], ◌++◌}
use mathlib.Core.Option.{Option, none, some}
use gemini_web2api_go.Base.Dict.{lookup, put}
use gemini_web2api_go.Base.Int.{int_eq}
use gemini_web2api_go.Base.Lists.{drop, length}
use gemini_web2api_go.Base.Tests.{if◌then◌else◌, ltb, nat_eq, ◌==◌}
use gemini_web2api_go.Base.Text.{Text, codes, has_prefix, is_empty, text_eq, trim_space}

-- `apiKeyLocked`, `apiKeyRuntime` and the table `kv`.
pub record Keys : Type 0 where
  pub is_locked : Bool
  pub runtime_key : Option Text
  pub table : List (Text × Text)

abbrev pub api_key : Text
api_key = codes "api_key"

-- `kvGet("api_key")`
unfoldable pub stored_key : Keys → Text
stored_key s = elim (lookup api_key s.table) [ none ↦ [] | some v ↦ v ]

-- `kvSet("api_key", k)`
unfoldable pub store_key : Keys → Text → Keys
store_key s k = record s { table = put api_key k s.table }

-- `newAPIKey`
abbrev pub new_api_key : Text → Text
new_api_key random = codes "sk-gemini-" ++ random

-- `initAPIKey`, where `env` is the variable `API_KEY`.
unfoldable pub init_api_key : Bool → Text → Keys → Text → Text → Keys
unfolding stored_key store_key
init_api_key stores random s flag_key env =
    if not (is_empty flag_key)
    then record s { is_locked = true; runtime_key = some flag_key }
    else if not (is_empty env)
    then record s { is_locked = true; runtime_key = some env }
    else if is_empty (stored_key s)
    then record (if stores then store_key s (new_api_key random) else s) {
      runtime_key = some (new_api_key random);
    }
    else record s { runtime_key = some (stored_key s) }

-- `getAPIKey`
unfoldable pub get_api_key : Keys → Text
get_api_key s = elim s.runtime_key [ none ↦ [] | some k ↦ k ]

pub data KeyResult : Type 0 where
  accepted : Text → KeyResult
  locked_key : KeyResult
  short_key : KeyResult
  not_stored : KeyResult

-- The write to the table, and after it to the memory.
abbrev pub adopt_key : Bool → Keys → Text → Keys × KeyResult
adopt_key stores s k =
    if not stores
    then (s, not_stored)
    else (record (store_key s k) { runtime_key = some k }, accepted k)

-- `rotateAPIKey`
unfoldable pub rotate_api_key : Bool → Text → Keys → Keys × KeyResult
unfolding store_key
rotate_api_key stores random s =
    if s.is_locked then (s, locked_key) else adopt_key stores s (new_api_key random)

-- `setAPIKey`
unfoldable pub set_api_key : Bool → Keys → Text → Keys × KeyResult
unfolding store_key
set_api_key stores s k =
    if s.is_locked
    then (s, locked_key)
    else if ltb (length k) 20
    then (s, short_key)
    else adopt_key stores s k

-- The headers `Authorization` and `x-api-key` of a request.
pub record Bearer : Type 0 where
  pub authorization : Text
  pub x_api_key : Text

-- The key that a request brings.
unfoldable pub brought_key : Bearer → Text
brought_key r =
    let token =
      if has_prefix r.authorization (codes "Bearer ")
      then trim_space (drop 7 r.authorization)
      else [] in
    if is_empty token then trim_space r.x_api_key else token

-- Whether `requireAPIKey` hands a request on.
unfoldable pub require_api_key : Keys → Bearer → Bool
unfolding get_api_key brought_key
require_api_key s r =
    let key = get_api_key s in
    if is_empty key then true else not (is_empty (brought_key r) || not (brought_key r == key))
