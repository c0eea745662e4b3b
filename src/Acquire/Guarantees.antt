-- ===== src/Acquire/Guarantees.antt =====
-- What callers of `acquireSlotExcept` and `releaseSlot` rely on.
use Prim.Native.Nat.{ℕ}
use mathlib.Core.Bool.{false, true}
use mathlib.Core.List.{List, [], ◌∷◌}
use mathlib.Core.Path.{refl, subst, ◌≡◌}
use native.Mathlib.Omega.{arith}
use gemini_web2api_go.Acquire.{acquire_slot_except, release_slot, taken}
use gemini_web2api_go.Acquire.Choice.{acquire_slot_except-Acquired}
use gemini_web2api_go.Acquire.Laws.{Acquired, Allowed, directly, dynamic, static}
use gemini_web2api_go.Acquire.Remote.{Answer}
use gemini_web2api_go.Acquire.Ways.{lets_direct, ways}
use gemini_web2api_go.Acquire.WellFormed.{IsWellFormed}
use gemini_web2api_go.Base.Int.{int_beq, int_eq, is_negative, is_positive, negsuc, pos, ℤ}
use gemini_web2api_go.Base.Lists.{All}
use gemini_web2api_go.Base.Tests.{nat_eq, ◌==◌}
use gemini_web2api_go.Base.Text.{Text, text_eq}
use gemini_web2api_go.Config.{RuntimeConfig}
use gemini_web2api_go.Proxy.{Exits, Proxy}
use gemini_web2api_go.Proxy.Choice.{Among, beyond, first}
use gemini_web2api_go.RateLimit.Slots.{inflight_of, slot_release-inflight}

module _ (c : RuntimeConfig) (now : ℕ) (net : ℕ → Text → Answer) (excl : List ℤ)
    (excl_urls : List Text) (x y : Exits) (prefer : ℤ) (p : Proxy) where
  taken-Acquired :
      IsWellFormed x
      → acquire_slot_except c now net x prefer excl excl_urls ≡ (y, taken p)
      → Acquired (Allowed (ways c x) c now x excl excl_urls) x (y, taken p)
  taken-Acquired w e =
      subst (λ r. Acquired (Allowed (ways c x) c now x excl excl_urls) x r) e
        (acquire_slot_except-Acquired c now net excl excl_urls x prefer w)

  Among-positive :
      (ps : List Proxy)
      → All (λ q. is_positive q.id ≡ true) ps
      → Among p ps
      → is_positive p.id ≡ true
  Among-positive [] a m = elim m [ ]
  Among-positive (q ∷ ps) a (first e) = rw e a.0
  Among-positive (q ∷ ps) a (beyond m) = Among-positive ps a.1 m

  positive-nonzero : (i : ℤ) → is_positive i ≡ true → (i == pos 0) ≡ false
  unfolding int_beq
  positive-nonzero (pos n) e = ground arith
  positive-nonzero (negsuc n) e = refl

  negative-nonzero : (i : ℤ) → is_negative i ≡ true → (i == pos 0) ≡ false
  unfolding int_beq
  negative-nonzero (pos n) e = ground arith
  negative-nonzero (negsuc n) e = refl

  Allowed-nonzero :
      IsWellFormed x
      → lets_direct c x ≡ false
      → Allowed (ways c x) c now x excl excl_urls p
      → (p.id == pos 0) ≡ false
  Allowed-nonzero w l (static h m) = positive-nonzero p.id (Among-positive x.cache w.pool_ids h.0)
  Allowed-nonzero w l (dynamic h m) = negative-nonzero p.id h.0
  Allowed-nonzero w l (directly e g h) = cc

  -- From a well-formed state in which the configuration does not let requests out directly (mode
  -- `static_only`, `dynamic_only` or `pool_only`, or `auto` with a pool and without
  -- `fallback_direct`), no call returns the direct connection.
  pub never_direct :
      IsWellFormed x
      → lets_direct c x ≡ false
      → acquire_slot_except c now net x prefer excl excl_urls ≡ (y, taken p)
      → (p.id == pos 0) ≡ false
  never_direct w l e = Allowed-nonzero w l (taken-Acquired w e).safe

  -- Releasing the exit that a call returned, from a well-formed state, leaves every slot with the
  -- requests in flight that it had before the call.
  pub acquire-release :
      (j : ℤ)
      → IsWellFormed x
      → acquire_slot_except c now net x prefer excl excl_urls ≡ (y, taken p)
      → inflight_of (release_slot y p.id).slots j ≡ inflight_of x.slots j
  unfolding release_slot
  acquire-release j w e =
      omega (arith, (taken-Acquired w e).adds j, slot_release-inflight y.slots p.id j)
