-- ===== src/Acquire/WellFormed.antt =====
-- The identifiers of exits: those of the table are positive, those of the remote pool negative,
-- and 0 is the direct connection alone.
use Prim.Native.Nat.{ℕ}
use mathlib.Core.Bool.{true}
use mathlib.Core.Logic.{inl, inr}
use mathlib.Core.Option.{Option, none, some}
use mathlib.Core.Path.{refl, ◌≡◌}
use native.Mathlib.Omega.{arith}
use gemini_web2api_go.Base.Dict.{lookup, lookup-All, put-All}
use gemini_web2api_go.Base.Int.{int_eq, is_negative, is_positive, negsuc, pos, pred_neg, ℤ}
use gemini_web2api_go.Base.Lists.{All}
use gemini_web2api_go.Base.Tests.{Bool-cases, Option-cases, nat_eq}
use gemini_web2api_go.Base.Text.{Text, text_eq}
use gemini_web2api_go.Config.{RuntimeConfig}
use gemini_web2api_go.Proxy.{Exits, Proxy, empty_exits, set_sticky_proxy}
use gemini_web2api_go.Proxy.Dynamic.{get_dynamic_slot_id, is_dynamic_slot}
use gemini_web2api_go.Proxy.Pick.{acquire_exit, attempt_exit, is_sticky, stick, ◌orelse◌}
use gemini_web2api_go.RateLimit.{Verdict, denied, granted}

pub record IsWellFormed (x : Exits) : Type 0 where
  pub pool_ids : All (λ p. is_positive p.id ≡ true) x.cache
  pub next_negative : is_negative x.next_dynamic ≡ true
  pub ids_negative : All (λ e. is_negative e.1 ≡ true) x.dynamic_ids
  pub urls_negative : All (λ e. is_negative e.0 ≡ true) x.dynamic_urls

abbrev pub Negative : ℤ → Type 0
Negative i = is_negative i ≡ true

pub empty-IsWellFormed : IsWellFormed empty_exits
empty-IsWellFormed = record {
  pool_ids = tt;
  next_negative = refl;
  ids_negative = tt;
  urls_negative = tt;
}

pub same-IsWellFormed :
    (x y : Exits)
    → y.cache ≡ x.cache
    → y.next_dynamic ≡ x.next_dynamic
    → y.dynamic_ids ≡ x.dynamic_ids
    → y.dynamic_urls ≡ x.dynamic_urls
    → IsWellFormed x
    → IsWellFormed y
same-IsWellFormed x y a b d e w = record {
  pool_ids = rw a w.pool_ids;
  next_negative = rw b w.next_negative;
  ids_negative = rw d w.ids_negative;
  urls_negative = rw e w.urls_negative;
}

pred_neg-Negative : (i : ℤ) → Negative (pred_neg i)
pred_neg-Negative (pos n) = refl
pred_neg-Negative (negsuc n) = ground arith

-- A remote exit gets a negative identifier, the one that it had before if there was one.
pub get_dynamic_slot_id-IsWellFormed :
    (x : Exits) (u : Text)
    → IsWellFormed x
    → IsWellFormed (get_dynamic_slot_id x u).0 × Negative (get_dynamic_slot_id x u).1
unfolding get_dynamic_slot_id
get_dynamic_slot_id-IsWellFormed x u w = elim (Option-cases (lookup u x.dynamic_ids)) [
  | inl e ↦
      rw (e, get_dynamic_slot_id)
        (
          record {
            pool_ids = w.pool_ids;
            next_negative = pred_neg-Negative x.next_dynamic;
            ids_negative =
                put-All (λ k v. Negative v) u x.next_dynamic x.dynamic_ids w.ids_negative
                  w.next_negative;
            urls_negative =
                put-All (λ k v. Negative k) x.next_dynamic u x.dynamic_urls w.urls_negative
                  w.next_negative;
          },
          w.next_negative,
        )
  | inr (i, e) ↦
      rw (e, get_dynamic_slot_id)
        (w, lookup-All (λ k v. Negative v) u i x.dynamic_ids w.ids_negative e)
]

pub is_dynamic_slot-Negative :
    (x : Exits) (i : ℤ) (u : Text) → IsWellFormed x → is_dynamic_slot x i ≡ some u → Negative i
unfolding is_dynamic_slot
is_dynamic_slot-Negative x i u w e =
    lookup-All (λ k v. Negative k) i u x.dynamic_urls w.urls_negative e

module _ (c : RuntimeConfig) (now : ℕ) where
  pub acquire_exit-IsWellFormed :
      (x : Exits) (i : ℤ) → IsWellFormed x → IsWellFormed (acquire_exit c now x i).0
  unfolding acquire_exit
  acquire_exit-IsWellFormed x i w = same-IsWellFormed x _ refl refl refl refl w

  pub attempt_exit-IsWellFormed :
      (x : Exits) (p : Proxy) (won : Exits → Exits) (lost : Exits → Exits × Option Proxy)
      → ((y : Exits) → IsWellFormed y → IsWellFormed (won y))
      → ((y : Exits) → IsWellFormed y → IsWellFormed (lost y).0)
      → IsWellFormed x
      → IsWellFormed (attempt_exit c now x p won lost).0
  unfolding attempt_exit
  attempt_exit-IsWellFormed x p won lost f g w =
      go (acquire_exit c now x p.id).1 (acquire_exit-IsWellFormed x p.id w)
    where
      y : Exits
      y = (acquire_exit c now x p.id).0

      go :
          (v : Verdict)
          → IsWellFormed y
          → (let r : Exits × Option Proxy = elim v [
            | granted ↦ (won y, some p)
            | denied r ↦ lost y
          ] in
              IsWellFormed r.0)
      go granted w' = f y w'
      go (denied r) w' = g y w'

  pub stick-IsWellFormed : (p : Proxy) (y : Exits) → IsWellFormed y → IsWellFormed (stick c y p)
  unfolding stick set_sticky_proxy
  stick-IsWellFormed p y w = elim (Bool-cases (is_sticky c)) [
    | inl e ↦ rw e (same-IsWellFormed y _ refl refl refl refl w)
    | inr e ↦ rw e w
  ]

  pub orelse-IsWellFormed :
      (r : Exits × Option Proxy) (next : Exits → Exits × Option Proxy)
      → IsWellFormed r.0
      → ((y : Exits) → IsWellFormed y → IsWellFormed (next y).0)
      → IsWellFormed (r orelse next).0
  orelse-IsWellFormed (x, some p) next w f = w
  orelse-IsWellFormed (x, none) next w f = f x w
