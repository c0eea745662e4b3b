-- ===== src/Tests/Pools.antt =====
-- Cookies, accounts, models and streams, on concrete inputs.
use mathlib.Core.Bool.{false, true, ◌||◌}
use mathlib.Core.List.{List, [], ◌∷◌}
use mathlib.Core.Option.{Option, none, some}
use mathlib.Core.Path.{refl, ◌≡◌}
use gemini_web2api_go.Accounts.{kv_get, pool_has_cookie, update_account_cookie}
use gemini_web2api_go.Accounts.HealthLaws.{Answers}
use gemini_web2api_go.Accounts.Identity.{identity_at, update-identity}
use gemini_web2api_go.Accounts.Import.{normalize_cookie}
use gemini_web2api_go.Accounts.Seed.{Labels, seeded_value_key, sync_seeded}
use gemini_web2api_go.Accounts.SeedLaws.{InForm, sync-settles}
use gemini_web2api_go.Base.Dict.{lookup}
use gemini_web2api_go.Base.Int.{int_eq, pos, ℤ}
use gemini_web2api_go.Base.Tests.{nat_eq, ◌==◌}
use gemini_web2api_go.Base.Text.{
  Text, codes, has_prefix, is_empty, text_beq, text_eq, trim_end, trim_left, trim_space,
}
use gemini_web2api_go.Cookie.{Pair, cookie_value, merge_set_cookie, render, split_cookie_pairs}
use gemini_web2api_go.Cookie.Merge.{IsWalk, merge-value, newest}
use gemini_web2api_go.Cookie.Render.{split-render}
use gemini_web2api_go.Cookie.Split.{split-IsClean}
use gemini_web2api_go.Cookie.Updates.{last_set}
use gemini_web2api_go.Models.{
  ModelConfig, all_models, anon_first_eligible, before_text, has_cookie, hex_flash36,
  model_needs_login, resolve_model,
}
use gemini_web2api_go.Models.Gate.{IsMap, gated, resolve-gated}
use gemini_web2api_go.Proxy.{is_excluded}
use gemini_web2api_go.Stream.Delta.{push_frames, push_frames_complete}
use gemini_web2api_go.Tests.{strict_config, two_accounts}

abbrev same_order : List Pair → List Pair
same_order m = m

walk : IsWalk same_order
walk = record { same_entries = λ m k. refl; only_entries = λ P m a. a }

abbrev new_sidcc : List Text
new_sidcc = codes "SIDCC=new; path=/" ∷ codes "NID=1" ∷ []

merge-value_example :
    cookie_value
      (merge_set_cookie same_order (codes "SAPISID=a; SIDCC=old") new_sidcc)
      (codes "SIDCC")
    ≡ newest
        (last_set new_sidcc (codes "SIDCC"))
        (cookie_value (codes "SAPISID=a; SIDCC=old") (codes "SIDCC"))
merge-value_example =
    merge-value (codes "SIDCC") same_order (codes "SAPISID=a; SIDCC=old") new_sidcc walk

split-render_example :
    split_cookie_pairs (render (split_cookie_pairs (codes "A=1;B=2")))
    ≡ split_cookie_pairs (codes "A=1;B=2")
split-render_example =
    split-render (split_cookie_pairs (codes "A=1;B=2")) (split-IsClean (codes "A=1;B=2"))

abbrev three_refusals : Answers
three_refusals = (1, 401, []) ∷ (2, 500, []) ∷ (3, 403, []) ∷ (4, 401, []) ∷ []

update-identity_example :
    identity_at (update_account_cookie two_accounts (pos 1) (codes "SAPISID=b")) (pos 1)
    ≡ identity_at two_accounts (pos 1)
update-identity_example = update-identity two_accounts (pos 1) (pos 1) (codes "SAPISID=b")

abbrev no_json : Text → Option (List Pair)
no_json t = none

abbrev no_number : Text → Option ℤ
no_number t = none

abbrev digits : ℤ → Text
digits i = codes "3"

abbrev labels : Labels
labels = record { legacy_label = []; legacy_note = []; file_label = []; file_note = [] }

abbrev file_cookie : Text
file_cookie = codes "SAPISID=f"

file_form : InForm no_json no_number digits labels 30 file_cookie
unfolding normalize_cookie trim_space trim_left trim_end has_prefix
file_form = (refl, refl)

sync-settles_example :
    let t = sync_seeded no_json no_number digits labels 30 two_accounts file_cookie in
    (((file_cookie == kv_get two_accounts seeded_value_key)
        || is_empty file_cookie
        || pool_has_cookie t.accounts file_cookie)
      ≡ true)
    × (sync_seeded no_json no_number digits labels 30 t file_cookie ≡ t)
sync-settles_example =
    sync-settles no_json no_number digits labels 30 two_accounts file_cookie file_form

abbrev no_cleaning : Text → Text
no_cleaning t = t

push_frames_complete_example :
    (push_frames no_cleaning [] (codes "He" ∷ codes "Hello" ∷ [])).1 ≡ codes "Hello"
unfolding has_prefix
push_frames_complete_example =
    push_frames_complete no_cleaning (codes "Hello" ∷ []) (codes "He") (refl, (refl, tt))

models-IsMap : IsMap all_models
unfolding is_excluded text_beq
models-IsMap = (
  refl,
  (
    refl,
    (
      refl,
      (refl, (refl, (refl, (refl, (refl, (refl, (refl, (refl, (refl, (refl, (refl, tt))))))))))),
    ),
  ),
)

resolve-gated_example :
    resolve_model all_models [] (codes "gemini-3.1-pro@think=2")
    ≡ gated
        (has_cookie [])
        (before_text (codes "@think=") (codes "gemini-3.1-pro@think=2"))
        (lookup (before_text (codes "@think=") (codes "gemini-3.1-pro@think=2")) all_models)
resolve-gated_example = resolve-gated all_models [] (codes "gemini-3.1-pro@think=2") models-IsMap

abbrev flash : ModelConfig
flash = record { hex_id = hex_flash36; mode = 1; thinking = false; tool = 0 }

flash_found :
    lookup (before_text (codes "@think=") (codes "gemini-3.6-flash")) all_models ≡ some flash
unfolding lookup before_text has_prefix text_beq
flash_found = refl

flash_anonymous : anon_first_eligible strict_config flash false ≡ true
unfolding anon_first_eligible model_needs_login text_beq
flash_anonymous = refl
