-- ===== src/Proxy/Usage.antt =====
-- internal/app/ratelimit.go: the usage of every slot, for the panel.
use Prim.Native.Nat.{ℕ}
use mathlib.Core.Bool.{Bool, false, not, true, ◌&&◌}
use mathlib.Core.List.{List, [], ◌++◌, ◌∷◌}
use mathlib.Core.Path.{refl, ◌∙◌, ◌≡◌}
use native.Mathlib.Omega.{arith}
use gemini_web2api_go.Base.Int.{int_beq_iff, int_eq, ltb_ℤ, pos, ℤ}
use gemini_web2api_go.Base.Tests.{if◌then◌else◌, nat_eq, ◌==◌}
use gemini_web2api_go.Base.Text.{text_eq}
use gemini_web2api_go.Config.{RuntimeConfig}
use gemini_web2api_go.Proxy.{Exits, Proxy, is_excluded}
use gemini_web2api_go.RateLimit.{SlotUsage, Slots, get_slot, pruned, slot_usage}
use gemini_web2api_go.RateLimit.Slots.{get_slot-put, inflight_of}

unfoldable pub enabled_ids : List Proxy → List ℤ
enabled_ids [] = []
enabled_ids (p ∷ ps) = if p.enabled then p.id ∷ enabled_ids ps else enabled_ids ps

-- The slots in use that are not listed yet: the direct one only where no proxy is enabled.
unfoldable pub other_ids : Bool → List ℤ → Slots → List ℤ
other_ids has_proxies seen [] = []
other_ids has_proxies seen ((i, s) ∷ rest) =
    if not (is_excluded i seen) && (if i == pos 0 then not has_proxies else has_proxies)
    then i ∷ other_ids has_proxies seen rest
    else other_ids has_proxies seen rest

unfoldable pub insert_id : ℤ → List ℤ → List ℤ
insert_id i [] = i ∷ []
insert_id i (j ∷ js) = if ltb_ℤ j i then j ∷ insert_id i js else i ∷ j ∷ js

-- `sort.Slice(ids, …)`; the identifiers are distinct, so every sort gives the same.
unfoldable pub sort_ids : List ℤ → List ℤ
sort_ids [] = []
sort_ids (i ∷ js) = insert_id i (sort_ids js)

unfoldable pub usage_ids : Exits → List ℤ
usage_ids x = elim (enabled_ids x.cache) [
  | [] ↦ sort_ids (pos 0 ∷ other_ids false (pos 0 ∷ []) x.slots)
  | i ∷ js ↦ sort_ids ((i ∷ js) ++ other_ids true (i ∷ js) x.slots)
]

unfoldable pub usages : RuntimeConfig → ℕ → List ℤ → Slots → Slots × List SlotUsage
usages c now [] slots = (slots, [])
usages c now (i ∷ js) slots =
    let (next, u) = slot_usage c now slots i in
    let (last, us) = usages c now js next in (last, u ∷ us)

-- `allSlotUsage`
unfoldable pub all_slot_usage : RuntimeConfig → ℕ → Exits → Exits × List SlotUsage
all_slot_usage c now x =
    let (slots, us) = usages c now (usage_ids x) x.slots in (record x { slots = slots }, us)

one_read :
    (c : RuntimeConfig) (now : ℕ) (slots : Slots) (i j : ℤ)
    → inflight_of (slot_usage c now slots i).0 j ≡ inflight_of slots j
unfolding slot_usage
one_read c now slots i j =
    ground (arith, int_beq_iff i j, get_slot-put i j (pruned now (get_slot slots i)) slots)

usages-inflight :
    (c : RuntimeConfig) (now : ℕ) (ids : List ℤ) (slots : Slots) (j : ℤ)
    → inflight_of (usages c now ids slots).0 j ≡ inflight_of slots j
unfolding usages slot_usage
usages-inflight c now [] slots j = refl
usages-inflight c now (i ∷ js) slots j =
    usages-inflight c now js (slot_usage c now slots i).0 j ∙ one_read c now slots i j

-- What the panel reads changes nothing in flight: after `allSlotUsage` every slot has the requests
-- in flight that it had before, and the pool is the same.
pub all_slot_usage-inflight :
    (c : RuntimeConfig) (now : ℕ) (x : Exits) (j : ℤ)
    → let y = (all_slot_usage c now x).0 in
      (inflight_of y.slots j ≡ inflight_of x.slots j) × (y.cache ≡ x.cache)
unfolding all_slot_usage
all_slot_usage-inflight c now x j = (usages-inflight c now (usage_ids x) x.slots j, refl)
