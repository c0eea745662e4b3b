-- ===== src/RateLimit/Slots.antt =====
-- The table of slots: what each operation does to the requests in flight of every slot.
use Prim.Native.Nat.{ℕ, ◌+◌, ◌-◌}
use mathlib.Core.Bool.{Bool, false, true, ◌&&◌}
use mathlib.Core.Path.{◌≡◌}
use native.Mathlib.Omega.{arith}
use gemini_web2api_go.Base.Dict.{lookup-put, put}
use gemini_web2api_go.Base.Int.{int_beq_iff, int_eq, ℤ}
use gemini_web2api_go.Base.Tests.{if◌then◌else◌, nat_eq, ◌==◌}
use gemini_web2api_go.Base.Text.{text_eq}
use gemini_web2api_go.Config.{RuntimeConfig}
use gemini_web2api_go.RateLimit.{
  IpSlot, Slots, Verdict, acquire_in, admit, denied, get_slot, granted, release_in, slot_release,
  try_slot_acquire,
}

pub get_slot-put :
    (k j : ℤ) (s : IpSlot) (slots : Slots)
    → get_slot (put k s slots) j ≡ (if k == j then s else get_slot slots j)
unfolding get_slot
get_slot-put k j s slots = ground (arith, lookup-put k j s slots)

-- The requests in flight on a slot.
abbrev pub inflight_of : Slots → ℤ → ℕ
inflight_of slots id = (get_slot slots id).inflight

abbrev pub is_granted : Verdict → Bool
is_granted granted = true
is_granted (denied r) = false

abbrev pub one_if : Bool → ℕ
one_if b = if b then 1 else 0

acquire_in-inflight :
    (c : RuntimeConfig) (now : ℕ) (s : IpSlot)
    → (acquire_in c now s).0.inflight ≡ s.inflight + one_if (is_granted (acquire_in c now s).1)
unfolding acquire_in admit
acquire_in-inflight c now s = ground arith

-- An attempt adds one request to its own slot if it is granted, and nothing anywhere else.
pub try_slot_acquire-inflight :
    (c : RuntimeConfig) (now : ℕ) (slots : Slots) (id j : ℤ)
    → let (after, v) = try_slot_acquire c now slots id in
      inflight_of after j ≡ inflight_of slots j + one_if (id == j && is_granted v)
unfolding try_slot_acquire
try_slot_acquire-inflight c now slots id j = ground (
  arith,
  int_beq_iff id j,
  get_slot-put id j (acquire_in c now (get_slot slots id)).0 slots,
  acquire_in-inflight c now (get_slot slots id),
)

-- A release takes one request off its own slot, never below zero, and nothing off the others.
pub slot_release-inflight :
    (slots : Slots) (id j : ℤ)
    → inflight_of (slot_release slots id) j ≡ inflight_of slots j - one_if (id == j)
unfolding slot_release release_in
slot_release-inflight slots id j =
    ground (arith, int_beq_iff id j, get_slot-put id j (release_in (get_slot slots id)) slots)
