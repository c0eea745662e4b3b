-- ===== src/RateLimit/Pacing.antt =====
-- Histories of one slot table: attempts, releases and looks at the usage, in the order in which
-- the slots' mutexes let them through. What the limits promise over any history.
use Prim.Native.Nat.{ℕ, ◌+◌, ◌-◌, ◌≤◌}
use mathlib.Core.Bool.{false, ◌&&◌}
use mathlib.Core.List.{List, [], ◌++◌, ◌∷◌}
use mathlib.Core.Path.{◌∙◌, ◌≡◌}
use native.Mathlib.Omega.{arith}
use gemini_web2api_go.Base.Int.{int_beq_iff, int_eq, ℤ}
use gemini_web2api_go.Base.Lists.{All, length}
use gemini_web2api_go.Base.Tests.{leb, nat_eq, ◌==◌}
use gemini_web2api_go.Base.Text.{text_eq}
use gemini_web2api_go.Config.{RuntimeConfig}
use gemini_web2api_go.RateLimit.{
  Slots, Verdict, denied, granted, prune_timestamps, slot_release, slot_usage, try_slot_acquire,
}
use gemini_web2api_go.RateLimit.Slots.{one_if}
use gemini_web2api_go.RateLimit.Windows.{
  All-append_one, All-up, Ascending, Ascending-append_one, count_since, count_since-append,
  count_since-prune, length-prune, prune-All, prune-Ascending,
}

pub data Event : Type 0 where
  attempts finishes inspects : ℤ → Event

-- The table with every request granted so far, latest first: its slot and its time.
pub record Log : Type 0 where
  pub slots : Slots
  pub grants : List (ℤ × ℕ)

abbrev pub noted : ℤ → ℕ → Verdict → List (ℤ × ℕ) → List (ℤ × ℕ)
noted id now granted g = (id, now) ∷ g
noted id now (denied r) g = g

unfoldable pub happen : RuntimeConfig → Log → ℕ × Event → Log
happen c l (now, attempts id) =
    let (after, v) = try_slot_acquire c now l.slots id in
    record { slots = after; grants = noted id now v l.grants }
happen c l (now, finishes id) = record l { slots = slot_release l.slots id }
happen c l (now, inspects id) = record l { slots = (slot_usage c now l.slots id).0 }

unfoldable pub history : RuntimeConfig → Log → List (ℕ × Event) → Log
unfolding happen
history c l [] = l
history c l (e ∷ es) = history c (happen c l e) es

-- The clock does not go back.
abbrev pub Chronological : ℕ → List (ℕ × Event) → Type 0
Chronological now [] = Unit {0}
Chronological now ((t, e) ∷ es) = (now ≤ t) × Chronological t es

abbrev pub empty_log : Log
empty_log = record { slots = []; grants = [] }

-- How many requests the slot was granted from `lo` on, and from `lo` to `lo + span`.
abbrev pub granted_since : ℤ → ℕ → List (ℤ × ℕ) → ℕ
granted_since id lo [] = 0
granted_since id lo ((j, t) ∷ g) = one_if (j == id && leb lo t) + granted_since id lo g

abbrev pub granted_within : ℤ → ℕ → ℕ → List (ℤ × ℕ) → ℕ
granted_within id lo span [] = 0
granted_within id lo span ((j, t) ∷ g) =
    one_if (j == id && (leb lo t && leb t (lo + span))) + granted_within id lo span g

pub granted_within-le-since :
    (id : ℤ) (lo span : ℕ) (g : List (ℤ × ℕ)) → granted_within id lo span g ≤ granted_since id lo g
granted_within-le-since id lo span [] = omega arith
granted_within-le-since id lo span ((j, t) ∷ g) =
    ground (arith, granted_within-le-since id lo span g)

pub granted_since-anti :
    (id : ℤ) (lo hi : ℕ) (g : List (ℤ × ℕ))
    → lo ≤ hi
    → granted_since id hi g ≤ granted_since id lo g
granted_since-anti id lo hi [] h = omega arith
granted_since-anti id lo hi ((j, t) ∷ g) h = ground (arith, granted_since-anti id lo hi g h)

-- A window holds the grants of its slot that are not older than its span, oldest first.
pub record Mirrors (win : List ℕ) (span now : ℕ) (id : ℤ) (g : List (ℤ × ℕ)) : Type 0 where
  pub ascends : Ascending win
  pub past : All (λ u. u ≤ now) win
  pub same : (w : ℕ) → now - span ≤ w → count_since w win ≡ granted_since id w g

module _ (span now later : ℕ) (id : ℤ) (g : List (ℤ × ℕ)) (step : now ≤ later) where
  pub prune-Mirrors :
      (win : List ℕ)
      → Mirrors win span now id g
      → Mirrors (prune_timestamps win (later - span)) span later id g
  prune-Mirrors win m = record {
    ascends = prune-Ascending (later - span) win m.ascends;
    past = prune-All (λ u. u ≤ later) (later - span) win (All-up now later win step m.past);
    same = λ w h. count_since-prune (later - span) w win h ∙ m.same w (omega arith);
  }

  pub keep-Mirrors : (win : List ℕ) → Mirrors win span now id g → Mirrors win span later id g
  keep-Mirrors win m = record {
    ascends = m.ascends;
    past = All-up now later win step m.past;
    same = λ w h. m.same w (omega arith);
  }

module _ (span now : ℕ) (id : ℤ) (g : List (ℤ × ℕ)) where
  pub push-Mirrors :
      (win : List ℕ)
      → Mirrors win span now id g
      → Mirrors (win ++ now ∷ []) span now id ((id, now) ∷ g)
  push-Mirrors win m = record {
    ascends = Ascending-append_one now win m.ascends m.past;
    past = All-append_one _ now win m.past (omega arith);
    same = λ w h. ground (arith, count_since-append w now win, m.same w h, int_beq_iff id id);
  }

  pub other-Mirrors :
      (win : List ℕ) (j : ℤ) (t : ℕ)
      → (j == id) ≡ false
      → Mirrors win span now id g
      → Mirrors win span now id ((j, t) ∷ g)
  other-Mirrors win j t ne m = record {
    ascends = m.ascends;
    past = m.past;
    same = λ w h. ground (arith, m.same w h);
  }

  -- A window that is full to the limit is what stops a span from getting more.
  pub length-Mirrors :
      (win : List ℕ)
      → Mirrors win span now id g
      → length (prune_timestamps win (now - span)) ≡ granted_since id (now - span) g
  length-Mirrors win m = length-prune (now - span) win m.ascends ∙ m.same (now - span) (omega arith)
