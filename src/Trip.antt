-- ===== src/Trip.antt =====
-- internal/app/gemini.go: `streamGenerateWithFiles`, one request of a client on its way through
-- accounts, exits and attempts. The configuration does not change on the way. The downloads of
-- media and the deletion of the conversation that may follow an answer are left out.
pub mod SignIn
pub mod Attach
pub mod Attempts
pub mod Switches
pub mod Balance
pub mod Spends
pub mod SignInLaws
pub mod SignedIn
pub mod Through
pub mod Unsigned
pub mod Anonymous
pub mod NoAccount
pub mod Answered
pub mod Failures
pub mod AttachLaws
pub mod AttemptsLaws
pub mod Slots
pub mod Panic
pub mod Enough
pub mod Bound
use Prim.Native.Nat.{ℕ}
use mathlib.Core.Bool.{Bool, false, not, ◌||◌}
use mathlib.Core.List.{List, ◌∷◌}
use mathlib.Core.Option.{Option}
use gemini_web2api_go.Accounts.{CookieAccount, Store}
use gemini_web2api_go.Accounts.Health.{mark_cookie_by_status}
use gemini_web2api_go.Base.Int.{int_eq, pos, ℤ}
use gemini_web2api_go.Base.Tests.{if◌then◌else◌, nat_eq, ◌==◌}
use gemini_web2api_go.Base.Text.{Text, is_empty, text_eq}
use gemini_web2api_go.Config.{RuntimeConfig}
use gemini_web2api_go.Models.{ModelConfig}
use gemini_web2api_go.Outside.{Outside, World, now_of, sent_count}
use gemini_web2api_go.Proxy.{Exits, Proxy}
use gemini_web2api_go.Proxy.Record.{force_proxy_cooldown, record_proxy_result}
use gemini_web2api_go.Rotation.Account.{release_at}
use gemini_web2api_go.Stream.Feed.{Callbacks, Feed}
use gemini_web2api_go.Upload.{FileRef, PendingUpload}

-- The parameters of `streamGenerateWithFiles`.
pub record Asked : Type 0 where
  pub prompt : Text
  pub latest : Text
  pub model : ModelConfig
  pub pending : List PendingUpload
  pub callbacks : Callbacks

-- The local variables of `streamGenerateWithFiles`, with the state that requests share.
pub record Trip : Type 0 where
  pub world : World
  pub account : Option CookieAccount
  pub cookie_id : ℤ
  pub cookie_label : Text
  pub picked : Proxy
  pub slot_held : Bool
  pub excluded_ids : List ℤ
  pub excluded_urls : List Text
  pub cookie_str : Text
  pub sapisid : Text
  pub xsrf_token : Text
  pub last_cookie_err : Option Text
  pub tried : List ℤ
  pub rotated_once : List ℤ
  pub feed : Feed
  pub last_err : Option Text
  pub last_status : ℕ
  pub files : List FileRef

-- What an error carries: which account and which exit were used.
pub record Attribution : Type 0 where
  pub account_id : ℤ
  pub account_label : Text
  pub used_proxy : ℤ
  pub proxy_name : Text

-- `StreamResult`, without its times and its media.
pub record StreamResult : Type 0 where
  pub emitted_text : Text
  pub emitted_thought : Text
  pub raw : Text
  pub reasoning : Text
  pub served_by : Text
  pub attribution : Attribution

-- How a request ends. `panicked` is the call of `lastErr.Error()` on a `lastErr` that is nil.
pub data Ending : Type 0 where
  succeeded : StreamResult → Ending
  gave_up : Attribution → Text → Ending
  too_long : Attribution → ℕ → ℕ → Bool → Ending
  panicked : Ending

-- How one round of the loop over exits ends, and how its parts do.
pub data Flow : Type 0 where
  go_on : Flow
  next_exit : Flow
  stop : Flow
  leave : Ending → Flow

-- `attrib`
unfoldable pub attrib : Trip → Attribution
attrib t = record {
  account_id = t.cookie_id;
  account_label = t.cookie_label;
  used_proxy = t.picked.id;
  proxy_name = t.picked.name;
}

-- `picked.ID != 0`
abbrev pub picked_ok : Trip → Bool
picked_ok t = not (t.picked.id == pos 0)

-- `tracker.emitted != "" || rtracker.emitted != ""`
abbrev pub has_emitted : Trip → Bool
has_emitted t = not (is_empty t.feed.emitted) || not (is_empty t.feed.emitted_reasoning)

abbrev pub with_exits : World → Exits → World
with_exits w x = record w { exits = x }

abbrev pub with_store : World → Store → World
with_store w s = record w { store = s }

-- `releaseCurrentSlot`
unfoldable pub release_current : Trip → Trip
release_current t =
    if t.slot_held
    then record t { world = release_at t.world t.picked.id; slot_held = false }
    else t

-- `if pickedOK { forceProxyCooldown(picked.ID, err) }`
unfoldable pub cool_down : RuntimeConfig → Outside → Trip → Text → Trip
cool_down c o t err =
    if picked_ok t
    then record t {
      world = with_exits t.world (
          force_proxy_cooldown c (now_of o t.world) (o.written (sent_count t.world)) t.world.exits
            t.picked.id err);
    }
    else t

-- `if pickedOK { recordProxyResult(picked.ID, success, err) }`
unfoldable pub report : RuntimeConfig → Outside → Trip → Bool → Text → Trip
report c o t success err =
    if picked_ok t
    then record t {
      world = with_exits t.world (
          record_proxy_result c (now_of o t.world) (o.written (sent_count t.world)) t.world.exits
            t.picked.id success err);
    }
    else t

-- The exit is not to be used again by this request.
unfoldable pub exclude_picked : Trip → Trip
exclude_picked t = record t {
  excluded_ids = t.picked.id ∷ t.excluded_ids;
  excluded_urls = if is_empty t.picked.url then t.excluded_urls else t.picked.url ∷ t.excluded_urls;
}

-- `markCookieByStatus`
unfoldable pub mark_account : Outside → Trip → ℤ → ℕ → Text → Trip
mark_account o t i status err = record t {
  world = with_store t.world (mark_cookie_by_status (now_of o t.world) t.world.store i status err);
}

-- A part of a round, and what follows it unless the round has ended.
infixl 5 ◌then_on◌
abbrev pub ◌then_on◌ : Trip × Flow → (Trip → Trip × Flow) → Trip × Flow
(t, go_on) then_on f = f t
(t, next_exit) then_on f = (t, next_exit)
(t, stop) then_on f = (t, stop)
(t, leave e) then_on f = (t, leave e)
