-- ===== src/Trip/Spends.antt =====
-- How often a part of a request asks for an answer.
use Prim.Native.Nat.{ℕ, ◌+◌, ◌≤◌}
use mathlib.Core.List.{List}
use mathlib.Core.Path.{refl}
use native.Mathlib.Omega.{arith}
use gemini_web2api_go.Base.Int.{int_eq}
use gemini_web2api_go.Base.Tests.{nat_eq}
use gemini_web2api_go.Base.Text.{text_eq}
use gemini_web2api_go.Outside.{Request, World}
use gemini_web2api_go.Outside.Kept.{asked_in}
use gemini_web2api_go.Trip.{Trip}
use gemini_web2api_go.Trip.Balance.{Balanced, Holds, Holds-Balanced, Holds-trans}

abbrev pub with_log : Trip → List Request → Trip
with_log t l = record t { world = record t.world { log = l } }

-- At most `n` requests for an answer were sent; but for the log, all is left as by a part that sends
-- none.
pub record Spends (n : ℕ) (t u : Trip) : Type 0 where
  pub log_then : List Request
  pub within : asked_in log_then ≤ asked_in t.world.log + n
  pub holds : Holds (with_log t log_then) u

pub Holds-Spends : (n : ℕ) (t u : Trip) → Holds t u → Spends n t u
Holds-Spends n t u h = record { log_then = t.world.log; within = omega arith; holds = h }

pub Spends-more : (n m : ℕ) (t u : Trip) → n ≤ m → Spends n t u → Spends m t u
Spends-more n m t u le s = record {
  log_then = s.log_then;
  within = omega (arith, s.within);
  holds = s.holds;
}

-- What does not ask does not depend on the log.
relogged :
    (t u : Trip) (l k : List Request) → Holds (with_log t l) u → Holds (with_log t k) (with_log u k)
relogged t u l k h = record {
  world_kept = record {
    slots_kept = h.world_kept.slots_kept;
    well_kept = h.world_kept.well_kept;
    identity_kept = h.world_kept.identity_kept;
    asked_kept = refl;
  };
  same_picked = h.same_picked;
  same_held = h.same_held;
  feed_kept = h.feed_kept;
  few_kept = h.few_kept;
  err_kept = h.err_kept;
}

pub Spends-then : (n : ℕ) (t u v : Trip) → Spends n t u → Holds u v → Spends n t v
Spends-then n t u v s h = record {
  log_then = s.log_then;
  within = s.within;
  holds = Holds-trans (with_log t s.log_then) u v s.holds h;
}

pub Spends-trans :
    (n m k : ℕ) (t u v : Trip) → n + m ≤ k → Spends n t u → Spends m u v → Spends k t v
Spends-trans n m k t u v le a b = record {
  log_then = b.log_then;
  within = omega (arith, a.within, b.within, a.holds.world_kept.asked_kept);
  holds =
      Holds-trans (with_log t b.log_then) (with_log u b.log_then) v
        (relogged t u a.log_then b.log_then a.holds) b.holds;
}

pub Spends-asked :
    (n : ℕ) (t u : Trip) → Spends n t u → asked_in u.world.log ≤ asked_in t.world.log + n
Spends-asked n t u s = omega (arith, s.within, s.holds.world_kept.asked_kept)

pub Spends-Balanced : (n : ℕ) (w : World) (t u : Trip) → Spends n t u → Balanced w t → Balanced w u
Spends-Balanced n w t u s b = Holds-Balanced w (with_log t s.log_then) u s.holds (record {
  counts = b.counts;
  well = b.well;
  faithful = b.faithful;
  few = b.few;
  identity = b.identity;
})
