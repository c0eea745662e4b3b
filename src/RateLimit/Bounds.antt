-- ===== src/RateLimit/Bounds.antt =====
-- The limits hold over every history of a slot table.
use Prim.Native.Nat.{ℕ, ◌+◌, ◌-◌, ◌≤◌}
use mathlib.Core.Bool.{Bool, false, true, ◌&&◌}
use mathlib.Core.List.{List, [], ◌++◌, ◌∷◌}
use mathlib.Core.Logic.{inl, inr, ◌⊎◌}
use mathlib.Core.Path.{refl, ◌≡◌}
use native.Mathlib.Omega.{arith}
use gemini_web2api_go.Base.Dict.{lookup, put}
use gemini_web2api_go.Base.Int.{int_beq_iff, int_eq, is_positive, pos_part, ℤ}
use gemini_web2api_go.Base.Lists.{length}
use gemini_web2api_go.Base.Tests.{Bool-cases, ltb, nat_eq, ◌==◌}
use gemini_web2api_go.Base.Text.{text_eq}
use gemini_web2api_go.Config.{RuntimeConfig}
use gemini_web2api_go.RateLimit.{
  IpSlot, Reason, Slots, Verdict, acquire_in, admit, concurrent, denied, get_slot, granted,
  limit_reached, prune_timestamps, pruned, release_in, rph, rpm, slot_release, slot_usage,
  try_slot_acquire,
}
use gemini_web2api_go.RateLimit.Pacing.{
  Chronological, Event, Log, Mirrors, attempts, empty_log, finishes, granted_since-anti,
  granted_within, granted_within-le-since, happen, history, inspects, keep-Mirrors, length-Mirrors,
  noted, other-Mirrors, prune-Mirrors, push-Mirrors,
}
use gemini_web2api_go.RateLimit.Slots.{get_slot-put, inflight_of}

pub record Held (c : RuntimeConfig) (id : ℤ) (now : ℕ) (s : IpSlot) (g : List (ℤ × ℕ))
    : Type 0 where
  pub minute : Mirrors s.minute_win 60 now id g
  pub hour : Mirrors s.hour_win 3600 now id g
  pub paced_minute :
      (lo : ℕ) → is_positive c.per_ip_rpm ≡ true → granted_within id lo 60 g ≤ pos_part c.per_ip_rpm
  pub paced_hour :
      (lo : ℕ)
      → is_positive c.per_ip_rph ≡ true
      → granted_within id lo 3600 g ≤ pos_part c.per_ip_rph
  pub bounded : is_positive c.per_ip_concurrent ≡ true → s.inflight ≤ pos_part c.per_ip_concurrent

abbrev pushed : ℕ → IpSlot → IpSlot
pushed now s = record s {
  inflight = s.inflight + 1;
  minute_win = s.minute_win ++ now ∷ [];
  hour_win = s.hour_win ++ now ∷ [];
}

-- The four ways through `trySlotAcquire`.
admit-cases :
    (c : RuntimeConfig) (now : ℕ) (s : IpSlot)
    → ((r : Reason) × (admit c now s ≡ (s, denied r)))
      ⊎ ((limit_reached c.per_ip_concurrent s.inflight ≡ false)
          × (limit_reached c.per_ip_rpm (length s.minute_win) ≡ false)
          × (limit_reached c.per_ip_rph (length s.hour_win) ≡ false)
          × (admit c now s ≡ (pushed now s, granted)))
unfolding admit
admit-cases c now s = elim (Bool-cases (limit_reached c.per_ip_concurrent s.inflight)) [
  | inl a ↦ inl (concurrent, rw (a, admit))
  | inr a ↦ elim (Bool-cases (limit_reached c.per_ip_rpm (length s.minute_win))) [
    | inl b ↦ inl (rpm, rw (a, b, admit))
    | inr b ↦ elim (Bool-cases (limit_reached c.per_ip_rph (length s.hour_win))) [
      | inl d ↦ inl (rph, rw (a, b, d, admit))
      | inr d ↦ inr (a, b, d, rw (a, b, d, admit))
    ]
  ]
]

module _ (c : RuntimeConfig) (id : ℤ) (now later : ℕ) (s : IpSlot) (g : List (ℤ × ℕ)) where
  Held-later : now ≤ later → Held c id now s g → Held c id later s g
  Held-later h k = record {
    minute = keep-Mirrors 60 now later id g h s.minute_win k.minute;
    hour = keep-Mirrors 3600 now later id g h s.hour_win k.hour;
    paced_minute = k.paced_minute;
    paced_hour = k.paced_hour;
    bounded = k.bounded;
  }

  Held-pruned : now ≤ later → Held c id now s g → Held c id later (pruned later s) g
  Held-pruned h k = record {
    minute = prune-Mirrors 60 now later id g h s.minute_win k.minute;
    hour = prune-Mirrors 3600 now later id g h s.hour_win k.hour;
    paced_minute = k.paced_minute;
    paced_hour = k.paced_hour;
    bounded = k.bounded;
  }

-- One more grant stays within the limit of a span, if the pruned window was below it.
granted_within-push :
    (limit : ℤ) (span now lo : ℕ) (id : ℤ) (win : List ℕ) (g : List (ℤ × ℕ))
    → Mirrors win span now id g
    → limit_reached limit (length (prune_timestamps win (now - span))) ≡ false
    → is_positive limit ≡ true
    → granted_within id lo span g ≤ pos_part limit
    → granted_within id lo span ((id, now) ∷ g) ≤ pos_part limit
granted_within-push limit span now lo id win g m free on old = ground (
  arith,
  int_beq_iff id id,
  length-Mirrors span now id g win m,
  granted_within-le-since id lo span g,
  granted_since-anti id (now - span) lo g,
)

module _ (c : RuntimeConfig) (id : ℤ) (now : ℕ) (s : IpSlot) (g : List (ℤ × ℕ)) where
  Held-pushed :
      Held c id now s g
      → limit_reached c.per_ip_concurrent s.inflight ≡ false
      → limit_reached c.per_ip_rpm (length (pruned now s).minute_win) ≡ false
      → limit_reached c.per_ip_rph (length (pruned now s).hour_win) ≡ false
      → Held c id now (pushed now (pruned now s)) ((id, now) ∷ g)
  Held-pushed k a b d = record {
    minute =
        push-Mirrors 60 now id g _
          (prune-Mirrors 60 now now id g (omega arith) s.minute_win k.minute);
    hour =
        push-Mirrors 3600 now id g _
          (prune-Mirrors 3600 now now id g (omega arith) s.hour_win k.hour);
    paced_minute = λ lo on.
        granted_within-push c.per_ip_rpm 60 now lo id s.minute_win g k.minute b on
          (k.paced_minute lo on);
    paced_hour = λ lo on.
        granted_within-push c.per_ip_rph 3600 now lo id s.hour_win g k.hour d on
          (k.paced_hour lo on);
    bounded = λ on. ground arith;
  }

  Held-acquire :
      Held c id now s g
      → Held c id now (acquire_in c now s).0 (noted id now (acquire_in c now s).1 g)
  unfolding acquire_in
  Held-acquire k = elim (admit-cases c now (pruned now s)) [
    | inl (r, e) ↦ rw e (Held-pruned c id now now s g (omega arith) k)
    | inr (a, b, d, e) ↦ rw e (Held-pushed k a b d)
  ]

  Held-other :
      (j : ℤ) (v : Verdict)
      → (j == id) ≡ false
      → Held c id now s g
      → Held c id now s (noted j now v g)
  Held-other j granted ne k = record {
    minute = other-Mirrors 60 now id g s.minute_win j now ne k.minute;
    hour = other-Mirrors 3600 now id g s.hour_win j now ne k.hour;
    paced_minute = λ lo on. ground (arith, k.paced_minute lo on);
    paced_hour = λ lo on. ground (arith, k.paced_hour lo on);
    bounded = k.bounded;
  }
  Held-other j (denied r) ne k = k

  Held-release : Held c id now s g → Held c id now (release_in s) g
  unfolding release_in
  Held-release k = elim (Bool-cases (ltb 0 s.inflight)) [
    | inl e ↦ rw e (record {
      minute = k.minute;
      hour = k.hour;
      paced_minute = k.paced_minute;
      paced_hour = k.paced_hour;
      bounded = λ on. omega (arith, k.bounded on);
    })
    | inr e ↦ rw e k
  ]

abbrev HeldIn : RuntimeConfig → ℤ → ℕ → Log → Type 0
HeldIn c id now l = Held c id now (get_slot l.slots id) l.grants

-- A write to one slot, read at `id`.
Held-put :
    (c : RuntimeConfig) (id j : ℤ) (now : ℕ) (s : IpSlot) (slots : Slots) (g : List (ℤ × ℕ))
    → ((j == id) ≡ true → Held c id now s g)
    → ((j == id) ≡ false → Held c id now (get_slot slots id) g)
    → Held c id now (get_slot (put j s slots) id) g
Held-put c id j now s slots g hit miss = elim (Bool-cases (j == id)) [
  | inl e ↦ rw (get_slot-put j id s slots, e) (hit e)
  | inr e ↦ rw (get_slot-put j id s slots, e) (miss e)
]

happen-Held :
    (c : RuntimeConfig) (id : ℤ) (now : ℕ) (l : Log) (e : Event)
    → HeldIn c id now l
    → HeldIn c id now (happen c l (now, e))
unfolding happen try_slot_acquire slot_release slot_usage
happen-Held c id now l (attempts j) k =
    Held-put c id j now _ l.slots _
      (λ e.
        let same = (int_beq_iff j id).0 e in
        rw same (Held-acquire c id now (get_slot l.slots id) l.grants k))
      (λ e. Held-other c id now (get_slot l.slots id) l.grants j _ e k)
happen-Held c id now l (finishes j) k =
    Held-put c id j now _ l.slots _
      (λ e.
        let same = (int_beq_iff j id).0 e in
        rw same (Held-release c id now (get_slot l.slots id) l.grants k))
      (λ e. k)
happen-Held c id now l (inspects j) k =
    Held-put c id j now _ l.slots _
      (λ e.
        let same = (int_beq_iff j id).0 e in
        rw same (Held-pruned c id now now (get_slot l.slots id) l.grants (omega arith) k))
      (λ e. k)

history-Held :
    (c : RuntimeConfig) (id : ℤ) (now : ℕ) (l : Log) (es : List (ℕ × Event))
    → Chronological now es
    → HeldIn c id now l
    → (later : ℕ) × HeldIn c id later (history c l es)
unfolding history
history-Held c id now l [] h k = (now, k)
history-Held c id now l ((t, e) ∷ es) h k =
    history-Held c id t _ es h.1
      (happen-Held c id t l e (Held-later c id now t (get_slot l.slots id) l.grants h.0 k))

empty-Held : (c : RuntimeConfig) (id : ℤ) → HeldIn c id 0 empty_log
unfolding get_slot lookup
empty-Held c id = record {
  minute = record { ascends = tt; past = tt; same = λ w h. refl };
  hour = record { ascends = tt; past = tt; same = λ w h. refl };
  paced_minute = λ lo on. omega arith;
  paced_hour = λ lo on. omega arith;
  bounded = λ on. omega arith;
}

-- `used` is more than a limit that is in force.
abbrev pub exceeds : ℤ → ℕ → Bool
exceeds limit used = is_positive limit && ltb (pos_part limit) used

not-exceeds :
    (limit : ℤ) (used : ℕ)
    → (is_positive limit ≡ true → used ≤ pos_part limit)
    → exceeds limit used ≡ false
not-exceeds limit used h = elim (Bool-cases (is_positive limit)) [
  | inl e ↦ let bound = h e in ground arith
  | inr e ↦ rw e
]

-- Whatever the requests do, from the empty table and with a clock that does not go back, no slot
-- is ever granted more than the limit per minute within a second `lo` and the 60 seconds behind
-- it, nor more than the limit per hour within `lo` and the 3600 behind it, nor has it more
-- requests in flight than the limit on those; a limit that is not positive is none.
pub history_bounds :
    (c : RuntimeConfig) (id : ℤ) (es : List (ℕ × Event)) (lo : ℕ)
    → Chronological 0 es
    → let l = history c empty_log es in
      (exceeds c.per_ip_rpm (granted_within id lo 60 l.grants) ≡ false)
      × (exceeds c.per_ip_rph (granted_within id lo 3600 l.grants) ≡ false)
      × (exceeds c.per_ip_concurrent (inflight_of l.slots id) ≡ false)
history_bounds c id es lo h =
    let (later, k) = history-Held c id 0 empty_log es h (empty-Held c id) in
    let g = (history c empty_log es).grants in
    (
      not-exceeds c.per_ip_rpm (granted_within id lo 60 g) (k.paced_minute lo),
      not-exceeds c.per_ip_rph (granted_within id lo 3600 g) (k.paced_hour lo),
      not-exceeds c.per_ip_concurrent (inflight_of (history c empty_log es).slots id) k.bounded,
    )
