-- ===== src/Acquire/Laws.antt =====
-- What `acquireSlotExcept` promises: which exit it may return, and that it occupies the slot of
-- that exit and no other.
use Prim.Native.Nat.{ℕ, ◌+◌}
use mathlib.Core.Bool.{false, true, ◌&&◌}
use mathlib.Core.List.{List}
use mathlib.Core.Logic.{inl, inr}
use mathlib.Core.Option.{Option, none, some}
use mathlib.Core.Path.{refl, ◌≡◌}
use native.Mathlib.Omega.{arith}
use gemini_web2api_go.Acquire.{
  Outcome, direct, give_up, or_else, refuse, refused, take_direct, taken,
}
use gemini_web2api_go.Acquire.RemoteLaws.{Remote}
use gemini_web2api_go.Acquire.Ways.{Ways}
use gemini_web2api_go.Acquire.WellFormed.{IsWellFormed, acquire_exit-IsWellFormed}
use gemini_web2api_go.Base.Int.{int_eq, pos, ℤ}
use gemini_web2api_go.Base.Tests.{Bool-cases, nat_eq, ◌==◌}
use gemini_web2api_go.Base.Text.{Text, text_eq}
use gemini_web2api_go.Config.{RuntimeConfig}
use gemini_web2api_go.Proxy.{Exits, Proxy, is_excluded}
use gemini_web2api_go.Proxy.Choice.{Eligible}
use gemini_web2api_go.Proxy.Pick.{acquire_exit}
use gemini_web2api_go.Proxy.PickLaws.{Search}
use gemini_web2api_go.RateLimit.{Verdict, denied, granted}
use gemini_web2api_go.RateLimit.Slots.{inflight_of, is_granted, one_if, try_slot_acquire-inflight}

-- The requests that an outcome added to slot `j`.
abbrev pub outcome_taken : Outcome → ℤ → ℕ
outcome_taken (taken p) j = one_if (p.id == j)
outcome_taken (refused e) j = 0

abbrev pub OnTaken : (Proxy → Type 0) → Outcome → Type 0
OnTaken S (taken p) = S p
OnTaken S (refused e) = Unit {0}

pub record Acquired (S : Proxy → Type 0) (x : Exits) (r : Exits × Outcome) : Type 0 where
  pub adds : (j : ℤ) → inflight_of r.0.slots j ≡ inflight_of x.slots j + outcome_taken r.1 j
  pub well : IsWellFormed r.0
  pub safe : OnTaken S r.1

-- The exits that a call may return: one of the static pool or one of the remote pool where the mode
-- lets requests out through such a one, or the direct connection where the configuration allows it
-- and the caller has not excluded it.
pub data Allowed (lets : Ways) (c : RuntimeConfig) (now : ℕ) (x : Exits) (excl : List ℤ)
    (excl_urls : List Text) (p : Proxy) : Type 0 where
  static :
      Eligible c now excl x.cache p
      → lets.lets_static ≡ true
      → Allowed lets c now x excl excl_urls p
  dynamic :
      Remote c now x.dynamic_stats excl_urls p
      → lets.lets_dynamic ≡ true
      → Allowed lets c now x excl excl_urls p
  directly :
      p ≡ direct
      → lets.lets_out_directly ≡ true
      → is_excluded (pos 0) excl ≡ false
      → Allowed lets c now x excl excl_urls p

module _ (S : Proxy → Type 0) where
  pub give_up-Acquired : (x : Exits) → IsWellFormed x → Acquired S x (give_up x)
  give_up-Acquired x w = record { adds = λ j. omega arith; well = w; safe = tt }

  pub or_else-Acquired :
      (c : RuntimeConfig) (now : ℕ) (P : Proxy → Type 0) (x : Exits) (s : Exits × Option Proxy)
      (next : Exits → Exits × Outcome)
      → Search c now P x s
      → IsWellFormed s.0
      → ((p : Proxy) → P p → S p)
      → ((y : Exits)
          → IsWellFormed y
          → y.cache ≡ x.cache
          → y.dynamic_stats ≡ x.dynamic_stats
          → Acquired S y (next y))
      → Acquired S x (or_else s next)
  or_else-Acquired c now P x (y, some p) next k w f l = record {
    adds = k.counts;
    well = w;
    safe = f p k.found;
  }
  or_else-Acquired c now P x (y, none) next k w f l =
      let a = l y w k.same_cache k.same_stats in
      record { adds = λ j. omega (arith, k.counts j, a.adds j); well = a.well; safe = a.safe }

module _ (c : RuntimeConfig) (now : ℕ) (excl : List ℤ) where
  pub take_direct-Acquired :
      (S : Proxy → Type 0) (x : Exits)
      → IsWellFormed x
      → (is_excluded (pos 0) excl ≡ false → S direct)
      → Acquired S x (take_direct c now x excl)
  unfolding take_direct
  take_direct-Acquired S x w f = elim (Bool-cases (is_excluded (pos 0) excl)) [
    | inl e ↦ rw (e, take_direct) (record { adds = λ j. omega arith; well = w; safe = tt })
    | inr e ↦ rw (e, take_direct) (go (acquire_exit c now x (pos 0)).1 refl e)
  ]
    where
      y : Exits
      y = (acquire_exit c now x (pos 0)).0

      counted :
          (v : Verdict)
          → (acquire_exit c now x (pos 0)).1 ≡ v
          → (j : ℤ)
          → inflight_of y.slots j ≡ inflight_of x.slots j + one_if (pos 0 == j && is_granted v)
      counted v g j =
          rw (← g) (unfold acquire_exit in try_slot_acquire-inflight c now x.slots (pos 0) j)

      go :
          (v : Verdict)
          → (acquire_exit c now x (pos 0)).1 ≡ v
          → is_excluded (pos 0) excl ≡ false
          → Acquired S x (y, elim v [ granted ↦ taken direct | denied r ↦ refuse r (pos 0) ])
      go granted g e = record {
        adds = λ j. ground (arith, counted granted g j);
        well = acquire_exit-IsWellFormed c now x (pos 0) w;
        safe = f e;
      }
      go (denied r) g e = record {
        adds = λ j. ground (arith, counted (denied r) g j);
        well = acquire_exit-IsWellFormed c now x (pos 0) w;
        safe = tt;
      }
