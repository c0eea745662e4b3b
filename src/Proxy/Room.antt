-- ===== src/Proxy/Room.antt =====
-- Room in the slots: what an attempt that is turned away leaves behind.
use Prim.Native.Nat.{ℕ, ◌-◌}
use mathlib.Core.Bool.{Bool, false}
use mathlib.Core.List.{List, [], ◌∷◌}
use mathlib.Core.Logic.{inl, inr}
use mathlib.Core.Path.{refl, sym, ◌∙◌, ◌≡◌}
use native.Mathlib.Omega.{arith}
use gemini_web2api_go.Base.Int.{int_beq_iff, int_eq, ℤ}
use gemini_web2api_go.Base.Tests.{Bool-cases, ltb, nat_eq, ◌==◌}
use gemini_web2api_go.Base.Text.{text_eq}
use gemini_web2api_go.Config.{RuntimeConfig}
use gemini_web2api_go.RateLimit.{
  IpSlot, Slots, acquire_in, admit, get_slot, prune_timestamps, pruned, try_slot_acquire,
}
use gemini_web2api_go.RateLimit.Slots.{get_slot-put, is_granted}

-- `trySlotAcquire` would grant the slot.
abbrev pub has_room : RuntimeConfig → ℕ → Slots → ℤ → Bool
has_room c now slots i = is_granted (try_slot_acquire c now slots i).1

prune_idem :
    (cut : ℕ) (ts : List ℕ)
    → prune_timestamps (prune_timestamps ts cut) cut ≡ prune_timestamps ts cut
unfolding prune_timestamps
prune_idem cut [] = refl
prune_idem cut (t ∷ ts) = elim (Bool-cases (ltb t cut)) [
  | inl old ↦ rw old (prune_idem cut ts)
  | inr new ↦ rw (new, new)
]

pruned_idem : (now : ℕ) (s : IpSlot) → pruned now (pruned now s) ≡ pruned now s
pruned_idem now s = rw (prune_idem (now - 60) s.minute_win, prune_idem (now - 3600) s.hour_win)

admit-denied :
    (c : RuntimeConfig) (now : ℕ) (s : IpSlot)
    → is_granted (admit c now s).1 ≡ false
    → (admit c now s).0 ≡ s
unfolding admit
admit-denied c now s h = ground arith

acquire_in_again :
    (c : RuntimeConfig) (now : ℕ) (s : IpSlot)
    → is_granted (acquire_in c now s).1 ≡ false
    → is_granted (acquire_in c now (acquire_in c now s).0).1 ≡ false
unfolding acquire_in
acquire_in_again c now s h = rw (admit-denied c now (pruned now s) h, pruned_idem now s) h

-- An attempt that is denied leaves every slot with the room that it had.
pub denied-has_room :
    (c : RuntimeConfig) (now : ℕ) (slots : Slots) (i j : ℤ)
    → has_room c now slots i ≡ false
    → has_room c now (try_slot_acquire c now slots i).0 j ≡ has_room c now slots j
unfolding try_slot_acquire
denied-has_room c now slots i j h =
    let s = (acquire_in c now (get_slot slots i)).0 in
    elim (Bool-cases (i == j)) [
      | inl e ↦
          rw (get_slot-put i j s slots, e)
            (rw (← (int_beq_iff i j).0 e) (acquire_in_again c now (get_slot slots i) h ∙ sym h))
      | inr e ↦ rw (get_slot-put i j s slots, e)
    ]
