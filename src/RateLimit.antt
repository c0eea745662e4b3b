-- ===== src/RateLimit.antt =====
-- internal/app/ratelimit.go: one slot for each exit address, with the requests in flight and two
-- sliding windows of start times. Times are Unix seconds; a call reads the clock once. Each
-- operation holds the slot's mutex throughout, so it is one step here. `now - 60` stops at 0,
-- below which there is no time stamp to drop either way.
pub mod Windows
pub mod Slots
pub mod Pacing
pub mod Bounds
use Prim.Native.Nat.{ℕ, ◌+◌, ◌-◌}
use mathlib.Core.Bool.{Bool, ◌&&◌}
use mathlib.Core.List.{List, [], ◌++◌, ◌∷◌}
use mathlib.Core.Option.{Option, none, some}
use gemini_web2api_go.Base.Dict.{lookup, put}
use gemini_web2api_go.Base.Int.{int_eq, is_positive, pos_part, ℤ}
use gemini_web2api_go.Base.Lists.{length}
use gemini_web2api_go.Base.Tests.{if◌then◌else◌, leb, ltb, nat_eq}
use gemini_web2api_go.Base.Text.{text_eq}
use gemini_web2api_go.Config.{RuntimeConfig}

-- `ipSlot`
pub record IpSlot : Type 0 where
  pub inflight : ℕ
  pub minute_win : List ℕ
  pub hour_win : List ℕ

abbrev pub fresh_slot : IpSlot
fresh_slot = record { inflight = 0; minute_win = []; hour_win = [] }

-- The map `slots`, from a proxy's identifier to its slot; 0 is the direct connection.
abbrev pub Slots : Type 0
Slots = List (ℤ × IpSlot)

abbrev pub or_fresh : Option IpSlot → IpSlot
or_fresh none = fresh_slot
or_fresh (some s) = s

-- `getSlot`: a missing slot is made on first use; the callers below write it back.
unfoldable pub get_slot : Slots → ℤ → IpSlot
get_slot slots id = or_fresh (lookup id slots)

-- The reason codes, with the one that `acquireSlotExcept` adds.
pub data Reason : Type 0 where
  concurrent rpm rph excluded : Reason

pub data Verdict : Type 0 where
  granted : Verdict
  denied : Reason → Verdict

-- `pruneTimestamps`
unfoldable pub prune_timestamps : List ℕ → ℕ → List ℕ
prune_timestamps [] cutoff = []
prune_timestamps (t ∷ ts) cutoff = if ltb t cutoff then prune_timestamps ts cutoff else t ∷ ts

-- `limit > 0 && used >= limit`
abbrev pub limit_reached : ℤ → ℕ → Bool
limit_reached limit used = is_positive limit && leb (pos_part limit) used

-- The two windows after `now - 60` and `now - 3600` have been cut off.
abbrev pub pruned : ℕ → IpSlot → IpSlot
pruned now s = record s {
  minute_win = prune_timestamps s.minute_win (now - 60);
  hour_win = prune_timestamps s.hour_win (now - 3600);
}

-- The body of `trySlotAcquire` behind the prune.
unfoldable pub admit : RuntimeConfig → ℕ → IpSlot → IpSlot × Verdict
admit c now s =
    if limit_reached c.per_ip_concurrent s.inflight
    then (s, denied concurrent)
    else if limit_reached c.per_ip_rpm (length s.minute_win)
    then (s, denied rpm)
    else if limit_reached c.per_ip_rph (length s.hour_win)
    then (s, denied rph)
    else (
      record s {
        inflight = s.inflight + 1;
        minute_win = s.minute_win ++ now ∷ [];
        hour_win = s.hour_win ++ now ∷ [];
      },
      granted,
    )

-- `trySlotAcquire` on the slot that it locks.
unfoldable pub acquire_in : RuntimeConfig → ℕ → IpSlot → IpSlot × Verdict
acquire_in c now s = admit c now (pruned now s)

-- `trySlotAcquire`
unfoldable pub try_slot_acquire : RuntimeConfig → ℕ → Slots → ℤ → Slots × Verdict
try_slot_acquire c now slots id =
    let (s, v) = acquire_in c now (get_slot slots id) in (put id s slots, v)

-- `slotRelease` on the slot that it locks.
unfoldable pub release_in : IpSlot → IpSlot
release_in s = if ltb 0 s.inflight then record s { inflight = s.inflight - 1 } else s

-- `slotRelease`
unfoldable pub slot_release : Slots → ℤ → Slots
slot_release slots id = put id (release_in (get_slot slots id)) slots

-- `SlotUsage`
pub record SlotUsage : Type 0 where
  pub proxy_id : ℤ
  pub used_inflight : ℕ
  pub used_rpm : ℕ
  pub used_rph : ℕ
  pub limit_conc : ℤ
  pub limit_rpm : ℤ
  pub limit_rph : ℤ

-- `slotUsage`
unfoldable pub slot_usage : RuntimeConfig → ℕ → Slots → ℤ → Slots × SlotUsage
slot_usage c now slots id =
    let s = pruned now (get_slot slots id) in
    (
      put id s slots,
      record {
        proxy_id = id;
        used_inflight = s.inflight;
        used_rpm = length s.minute_win;
        used_rph = length s.hour_win;
        limit_conc = c.per_ip_concurrent;
        limit_rpm = c.per_ip_rpm;
        limit_rph = c.per_ip_rph;
      },
    )
