-- ===== src/ApiKey/Sync.antt =====
-- The key in force and the key in the table.
use mathlib.Core.Bool.{Bool, false, not, true, ◌||◌}
use mathlib.Core.List.{List}
use mathlib.Core.Option.{some}
use mathlib.Core.Path.{◌≡◌}
use gemini_web2api_go.ApiKey.{Keys, get_api_key, init_api_key, stored_key}
use gemini_web2api_go.ApiKey.Table.{KeyChange}
use gemini_web2api_go.Base.Int.{int_eq}
use gemini_web2api_go.Base.Tests.{if◌then◌else◌, nat_eq}
use gemini_web2api_go.Base.Text.{Text, is_empty}

-- The key in force is the flag, or else the variable where that is set, or else the key of the table,
-- so that the next start finds it. No key is empty.
pub record IsSettled (flag_key env : Text) (s : Keys) : Type 0 where
  pub locked_by : s.is_locked ≡ (not (is_empty flag_key) || not (is_empty env))
  pub in_force :
      s.runtime_key
      ≡ some (
          if not (is_empty flag_key)
          then flag_key
          else if not (is_empty env)
          then env
          else stored_key s)
  pub has_key : is_empty (get_api_key s) ≡ false

module _ (flag_key env random : Text) (s : Keys) (xs : List KeyChange) where
  started : Keys
  started = init_api_key true random s flag_key env
