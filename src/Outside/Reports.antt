-- ===== src/Outside/Reports.antt =====
-- The reports of outcomes to exits and accounts: no slot is touched, and no account becomes another.
use Prim.Native.Nat.{ℕ, ◌+◌}
use mathlib.Core.Bool.{Bool, false, not, true, ◌||◌}
use mathlib.Core.List.{List, [], ◌∷◌}
use mathlib.Core.Logic.{inl, inr}
use mathlib.Core.Option.{Option, none, some}
use mathlib.Core.Path.{ap, refl, subst, sym, ◌∙◌, ◌≡◌}
use gemini_web2api_go.Accounts.{CookieAccount, Store, enabled_status, update_store}
use gemini_web2api_go.Accounts.Health.{
  auto_disable_if_dead, disabled_if_dead, mark_account_result, mark_cookie_by_status,
  max_cookie_auth_failures,
}
use gemini_web2api_go.Accounts.Pick.{order_rows, pick_cookie_account_except}
use gemini_web2api_go.Acquire.WellFormed.{IsWellFormed, same-IsWellFormed}
use gemini_web2api_go.Base.Int.{int_eq, is_positive, pos, ℤ}
use gemini_web2api_go.Base.Lists.{All, keep, take}
use gemini_web2api_go.Base.Tests.{Bool-cases, if◌then◌else◌, ltb, nat_eq, ◌==◌}
use gemini_web2api_go.Base.Text.{Text, is_empty, text_eq}
use gemini_web2api_go.Config.{RuntimeConfig}
use gemini_web2api_go.Outside.{World}
use gemini_web2api_go.Outside.Kept.{Kept, Kept-trans, Same-Kept, Same-refl, update-Kept}
use gemini_web2api_go.Proxy.{
  Exits, Proxy, clear_sticky_proxy, find_first, is_excluded, proxy_fail_threshold,
}
use gemini_web2api_go.Proxy.Dynamic.{
  force_dynamic_proxy_cooldown, is_dynamic_slot, record_dynamic_proxy_result,
}
use gemini_web2api_go.Proxy.Record.{
  cooled_proxy, force_proxy_cooldown, noted_proxy, record_proxy_result, update_exit, update_first,
}
use gemini_web2api_go.RateLimit.Slots.{inflight_of}
use gemini_web2api_go.Trip.{with_exits, with_store}

record Steady (x y : Exits) : Type 0 where
  same_slots : y.slots ≡ x.slots
  well : IsWellFormed x → IsWellFormed y

update_first-positive :
    (f : Proxy → Proxy) (keeps : (p : Proxy) → (f p).id ≡ p.id) (i : ℤ) (ps : List Proxy)
    → All (λ p. is_positive p.id ≡ true) ps
    → All (λ p. is_positive p.id ≡ true) (update_first f i ps)
unfolding update_first
update_first-positive f keeps i [] a = tt
update_first-positive f keeps i (p ∷ ps) a = elim (Bool-cases (p.id == i)) [
  | inl e ↦ rw e (subst (λ (k : ℤ). is_positive k ≡ true) (sym (keeps p)) a.0, a.1)
  | inr e ↦ rw e (a.0, update_first-positive f keeps i ps a.1)
]

module _ (x : Exits) where
  edited-Steady :
      (written : Bool) (f : Proxy → Proxy) (keeps : (p : Proxy) → (f p).id ≡ p.id) (i : ℤ)
      (y : Exits)
      → Steady x y
      → Steady x (update_exit written f i y)
  unfolding update_exit
  edited-Steady written f keeps i y s = record {
    same_slots = s.same_slots;
    well = λ h.
        let k = s.well h in
        record {
          pool_ids = update_first-positive f keeps i y.cache k.pool_ids;
          next_negative = k.next_negative;
          ids_negative = k.ids_negative;
          urls_negative = k.urls_negative;
        };
  }

  -- A state that differs in what neither the slots nor the identifiers depend on.
  touched-Steady :
      (y z : Exits)
      → z.slots ≡ y.slots
      → z.cache ≡ y.cache
      → z.next_dynamic ≡ y.next_dynamic
      → z.dynamic_ids ≡ y.dynamic_ids
      → z.dynamic_urls ≡ y.dynamic_urls
      → Steady x y
      → Steady x z
  touched-Steady y z e a b d f s = record {
    same_slots = e ∙ s.same_slots;
    well = λ h. same-IsWellFormed y z a b d f (s.well h);
  }

  recorded-Steady :
      (c : RuntimeConfig) (now : ℕ) (y : Exits) (u : Text) (success : Bool) (err : Text)
      → Steady x y
      → Steady x (record_dynamic_proxy_result c now y u success err)
  unfolding record_dynamic_proxy_result
  recorded-Steady c now y u success err s = elim (Bool-cases (is_empty u)) [
    | inl e ↦ rw (e, record_dynamic_proxy_result) s
    | inr e ↦ rw (e, record_dynamic_proxy_result) (touched-Steady y _ refl refl refl refl refl s)
  ]

  forced-Steady :
      (c : RuntimeConfig) (now : ℕ) (y : Exits) (u err : Text)
      → Steady x y
      → Steady x (force_dynamic_proxy_cooldown c now y u err)
  unfolding force_dynamic_proxy_cooldown
  forced-Steady c now y u err s = elim (Bool-cases (is_empty u)) [
    | inl e ↦ rw (e, force_dynamic_proxy_cooldown) s
    | inr e ↦ rw (e, force_dynamic_proxy_cooldown) (touched-Steady y _ refl refl refl refl refl s)
  ]

  same-Steady : Steady x x
  same-Steady = record { same_slots = refl; well = λ h. h }

  cleared-Steady : Steady x (clear_sticky_proxy x)
  unfolding clear_sticky_proxy
  cleared-Steady = touched-Steady x _ refl refl refl refl refl same-Steady

  unless_success-Steady : (b : Bool) → Steady x (if b then x else clear_sticky_proxy x)
  unless_success-Steady true = same-Steady
  unless_success-Steady false = cleared-Steady

  record-Steady :
      (c : RuntimeConfig) (now : ℕ) (written : Bool) (i : ℤ) (success : Bool) (err : Text)
      → Steady x (record_proxy_result c now written x i success err)
  unfolding record_proxy_result
  record-Steady c now written i success err = elim (Bool-cases (i == pos 0)) [
    | inl e ↦ rw (e, record_proxy_result) same-Steady
    | inr e ↦
        let y : Exits = if success then x else clear_sticky_proxy x in
        rw (e, record_proxy_result) (go y (unless_success-Steady success) (is_dynamic_slot y i))
  ]
    where
      noted_id : (p : Proxy) → (noted_proxy now success err p).id ≡ p.id
      noted_id p = elim (Bool-cases success) [
        | inl e ↦ rw (e, noted_proxy)
        | inr e ↦ rw (e, noted_proxy)
      ]

      go :
          (y : Exits)
          → Steady x y
          → (m : Option Text)
          → (let z : Exits = elim m [
            | some u ↦ record_dynamic_proxy_result c now y u success err
            | none ↦ update_exit written (noted_proxy now success err) i y
          ] in
              Steady x z)
      go y s (some u) = recorded-Steady c now y u success err s
      go y s none = edited-Steady written (noted_proxy now success err) noted_id i y s

  force-Steady :
      (c : RuntimeConfig) (now : ℕ) (written : Bool) (i : ℤ) (err : Text)
      → Steady x (force_proxy_cooldown c now written x i err)
  unfolding force_proxy_cooldown cooled_proxy
  force-Steady c now written i err = elim (Bool-cases (i == pos 0)) [
    | inl e ↦ rw (e, force_proxy_cooldown) same-Steady
    | inr e ↦
        let y : Exits = clear_sticky_proxy x in
        rw (e, force_proxy_cooldown) (go y cleared-Steady (is_dynamic_slot y i))
  ]
    where
      cooled_id : (p : Proxy) → (cooled_proxy (proxy_fail_threshold c) now err p).id ≡ p.id
      cooled_id p = refl

      go :
          (y : Exits)
          → Steady x y
          → (m : Option Text)
          → (let z : Exits = elim m [
            | some u ↦ force_dynamic_proxy_cooldown c now y u err
            | none ↦ update_exit written (cooled_proxy (proxy_fail_threshold c) now err) i y
          ] in
              Steady x z)
      go y s (some u) = forced-Steady c now y u err s
      go y s none = edited-Steady written _ cooled_id i y s

Steady-Kept : (w : World) (y : Exits) → Steady w.exits y → Kept w (with_exits w y)
Steady-Kept w y s = record {
  slots_kept = λ j. ap (λ k. inflight_of k j) s.same_slots;
  well_kept = s.well;
  identity_kept = λ j. refl;
  asked_kept = refl;
}

pub record-Kept :
    (c : RuntimeConfig) (now : ℕ) (written : Bool) (w : World) (i : ℤ) (success : Bool) (err : Text)
    → Kept w (with_exits w (record_proxy_result c now written w.exits i success err))
record-Kept c now written w i success err =
    Steady-Kept w _ (record-Steady w.exits c now written i success err)

pub force-Kept :
    (c : RuntimeConfig) (now : ℕ) (written : Bool) (w : World) (i : ℤ) (err : Text)
    → Kept w (with_exits w (force_proxy_cooldown c now written w.exits i err))
force-Kept c now written w i err = Steady-Kept w _ (force-Steady w.exits c now written i err)

-- The health of an account is no part of who it is.
result-Kept :
    (now : ℕ) (w : World) (i : ℤ) (good : Bool) (err : Text)
    → Kept w (with_store w (mark_account_result now w.store i good err))
unfolding mark_account_result auto_disable_if_dead disabled_if_dead
result-Kept now w i good err = elim (Bool-cases (is_positive i)) [
  | inl e ↦ elim (Bool-cases good) [
    | inl g ↦ rw (e, g, mark_account_result) (update-Kept w _ i (λ a. refl) (λ a. refl))
    | inr g ↦
        let failing : CookieAccount → CookieAccount =
          λ a. record a { fail_count = a.fail_count + 1; last_error = take 200 err } in
        let v = with_store w (update_store failing i w.store) in
        rw (e, g, mark_account_result)
          (Kept-trans w v _ (update-Kept w failing i (λ a. refl) (λ a. refl))
            (update-Kept v disabled_if_dead i dead_id dead_cookie))
  ]
  | inr e ↦ rw (e, mark_account_result) (Same-Kept w w (Same-refl w))
]
  where
    dead_id : (a : CookieAccount) → (disabled_if_dead a).id ≡ a.id
    dead_id a =
        elim (Bool-cases
          (not (a.status == enabled_status) || ltb a.fail_count max_cookie_auth_failures)) [
            | inl e ↦ rw (e, disabled_if_dead)
            | inr e ↦ rw (e, disabled_if_dead)
          ]

    dead_cookie : (a : CookieAccount) → (disabled_if_dead a).cookie ≡ a.cookie
    dead_cookie a =
        elim (Bool-cases
          (not (a.status == enabled_status) || ltb a.fail_count max_cookie_auth_failures)) [
            | inl e ↦ rw (e, disabled_if_dead)
            | inr e ↦ rw (e, disabled_if_dead)
          ]

pub mark-Kept :
    (now : ℕ) (w : World) (i : ℤ) (status : ℕ) (err : Text)
    → Kept w (with_store w (mark_cookie_by_status now w.store i status err))
unfolding mark_cookie_by_status
mark-Kept now w i status err = elim (Bool-cases (status == 200)) [
  | inl e ↦ rw (e, mark_cookie_by_status) (result-Kept now w i true [])
  | inr e ↦ elim (Bool-cases (status == 401 || status == 403)) [
    | inl d ↦ rw (e, d, mark_cookie_by_status) (result-Kept now w i false err)
    | inr d ↦ rw (e, d, mark_cookie_by_status) (Same-Kept w w (Same-refl w))
  ]
]

pub pick-Kept :
    (now : ℕ) (w : World) (skip : List ℤ)
    → Kept w (with_store w (pick_cookie_account_except now w.store skip).0)
unfolding pick_cookie_account_except
pick-Kept now w skip = go (
    find_first (λ a. not (is_excluded a.id skip))
      (order_rows (keep (λ a. a.status == enabled_status) w.store.accounts)))
  where
    go :
        (m : Option CookieAccount)
        → (let r : Store × Option CookieAccount = elim m [
          | none ↦ (w.store, none)
          | some a ↦ (update_store (λ b. record b { last_used_at = now }) a.id w.store, some a)
        ] in
            Kept w (with_store w r.0))
    go none = Same-Kept w w (Same-refl w)
    go (some a) = update-Kept w _ a.id (λ b. refl) (λ b. refl)
