-- ===== src/Proxy/PickLaws.antt =====
-- What a search for an exit does to the state: one slot taken where an exit was found, and no
-- room lost where none was.
use Prim.Native.Nat.{ℕ, ◌+◌}
use mathlib.Core.Bool.{false, true}
use mathlib.Core.Option.{Option, none, some}
use mathlib.Core.Path.{refl, ◌∙◌, ◌≡◌}
use native.Mathlib.Omega.{arith}
use gemini_web2api_go.Base.Int.{int_eq, ℤ}
use gemini_web2api_go.Base.Tests.{nat_eq, ◌==◌}
use gemini_web2api_go.Base.Text.{text_eq}
use gemini_web2api_go.Config.{RuntimeConfig}
use gemini_web2api_go.Proxy.{Exits, Proxy}
use gemini_web2api_go.Proxy.Pick.{acquire_exit, attempt_exit, ◌orelse◌}
use gemini_web2api_go.Proxy.Room.{denied-has_room, has_room}
use gemini_web2api_go.RateLimit.{Verdict, denied, granted}
use gemini_web2api_go.RateLimit.Slots.{inflight_of, is_granted, one_if, try_slot_acquire-inflight}

-- How many requests a search added to slot `j`.
abbrev pub one_taken : Option Proxy → ℤ → ℕ
one_taken none j = 0
one_taken (some p) j = one_if (p.id == j)

abbrev pub OnSome : (Proxy → Type 0) → Option Proxy → Type 0
OnSome P none = Unit {0}
OnSome P (some p) = P p

-- A search from state `x` ended in state `r.0` with the exit `r.1`.
pub record Search (c : RuntimeConfig) (now : ℕ) (P : Proxy → Type 0) (x : Exits)
    (r : Exits × Option Proxy) : Type 0 where
  pub counts : (j : ℤ) → inflight_of r.0.slots j ≡ inflight_of x.slots j + one_taken r.1 j
  pub room : (j : ℤ) → r.1 ≡ none → has_room c now r.0.slots j ≡ has_room c now x.slots j
  pub same_cache : r.0.cache ≡ x.cache
  pub same_table : r.0.table ≡ x.table
  pub same_stats : r.0.dynamic_stats ≡ x.dynamic_stats
  pub found : OnSome P r.1

module _ (c : RuntimeConfig) (now : ℕ) (P : Proxy → Type 0) where
  -- A state that differs in neither slots nor pools.
  pub Search-none :
      (x y : Exits)
      → y.slots ≡ x.slots
      → y.cache ≡ x.cache
      → y.table ≡ x.table
      → y.dynamic_stats ≡ x.dynamic_stats
      → Search c now P x (y, none)
  Search-none x y s a b d = record {
    counts = λ j. rw s (omega arith);
    room = λ j e. rw s;
    same_cache = a;
    same_table = b;
    same_stats = d;
    found = tt;
  }

  pub Search-from :
      (x y : Exits) (r : Exits × Option Proxy)
      → y.slots ≡ x.slots
      → y.cache ≡ x.cache
      → y.table ≡ x.table
      → y.dynamic_stats ≡ x.dynamic_stats
      → Search c now P y r
      → Search c now P x r
  Search-from x y r s a b d k = record {
    counts = λ j. rw (← s) (k.counts j);
    room = λ j e. rw (← s) (k.room j e);
    same_cache = k.same_cache ∙ a;
    same_table = k.same_table ∙ b;
    same_stats = k.same_stats ∙ d;
    found = k.found;
  }

  pub Search-then :
      (x x' : Exits) (r : Exits × Option Proxy)
      → Search c now P x (x', none)
      → Search c now P x' r
      → Search c now P x r
  Search-then x x' r k l = record {
    counts = λ j. omega (arith, k.counts j, l.counts j);
    room = λ j e. l.room j e ∙ k.room j refl;
    same_cache = l.same_cache ∙ k.same_cache;
    same_table = l.same_table ∙ k.same_table;
    same_stats = l.same_stats ∙ k.same_stats;
    found = l.found;
  }

  pub Search-orelse :
      (x : Exits) (r : Exits × Option Proxy) (next : Exits → Exits × Option Proxy)
      → Search c now P x r
      → ((x' : Exits) → r ≡ (x', none) → Search c now P x' (next x'))
      → Search c now P x (r orelse next)
  Search-orelse x (x', some p) next k l = k
  Search-orelse x (x', none) next k l = Search-then x x' (next x') k (l x' refl)

  denied-Search :
      (x : Exits) (i : ℤ)
      → is_granted (acquire_exit c now x i).1 ≡ false
      → Search c now P x ((acquire_exit c now x i).0, none)
  unfolding acquire_exit
  denied-Search x i e = record {
    counts = λ j. ground (arith, try_slot_acquire-inflight c now x.slots i j);
    room = λ j h. denied-has_room c now x.slots i j e;
    same_cache = refl;
    same_table = refl;
    same_stats = refl;
    found = tt;
  }

  granted-Search :
      (x y : Exits) (p : Proxy)
      → is_granted (acquire_exit c now x p.id).1 ≡ true
      → y.slots ≡ (acquire_exit c now x p.id).0.slots
      → y.cache ≡ x.cache
      → y.table ≡ x.table
      → y.dynamic_stats ≡ x.dynamic_stats
      → P p
      → Search c now P x (y, some p)
  unfolding acquire_exit
  granted-Search x y p e s a b d h = record {
    counts = λ j. rw s (ground (arith, try_slot_acquire-inflight c now x.slots p.id j));
    room = λ j n. cc;
    same_cache = a;
    same_table = b;
    same_stats = d;
    found = h;
  }

  -- An attempt on one exit, with what follows in either case.
  pub attempt-Search :
      (x : Exits) (p : Proxy) (won : Exits → Exits) (lost : Exits → Exits × Option Proxy)
      → ((y : Exits)
          → ((won y).slots ≡ y.slots)
            × ((won y).cache ≡ y.cache)
            × ((won y).table ≡ y.table)
            × ((won y).dynamic_stats ≡ y.dynamic_stats))
      → P p
      → ((y : Exits) → Search c now P x (y, none) → Search c now P x (lost y))
      → Search c now P x (attempt_exit c now x p won lost)
  unfolding attempt_exit
  attempt-Search x p won lost frame h l = go (acquire_exit c now x p.id).1 refl
    where
      y : Exits
      y = (acquire_exit c now x p.id).0

      go :
          (v : Verdict)
          → (acquire_exit c now x p.id).1 ≡ v
          → Search c now P x (elim v [ granted ↦ (won y, some p) | denied r ↦ lost y ])
      go granted e =
          granted-Search x (won y) p (rw e) (frame y).0 ((frame y).1 ∙ unfold acquire_exit in refl)
            ((frame y).2 ∙ unfold acquire_exit in refl) ((frame y).3 ∙ unfold acquire_exit in refl)
            h
      go (denied r) e = l y (denied-Search x p.id (rw e))
