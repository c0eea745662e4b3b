-- ===== src/Acquire/RemoteLaws.antt =====
-- What the remote search promises: an exit with a negative identifier, whose address is neither
-- excluded nor cooling, in a slot that had room.
use Prim.Native.Nat.{suc, zero, ℕ, ◌+◌}
use mathlib.Core.Bool.{Bool, false, not, ◌&&◌, ◌||◌}
use mathlib.Core.List.{List}
use mathlib.Core.Logic.{inl, inr}
use mathlib.Core.Option.{Option, none, some}
use mathlib.Core.Path.{refl, subst, sym, ◌∙◌, ◌≡◌}
use native.Mathlib.Omega.{arith}
use gemini_web2api_go.Acquire.Remote.{
  Answer, dynamic_name, fetch_or_sticky_remote_proxy_except, fetch_remote_proxy, fetch_turns,
  is_barred, max_fetch_attempts, remote_proxy, stick_remote, try_remote,
}
use gemini_web2api_go.Acquire.WellFormed.{
  IsWellFormed, Negative, attempt_exit-IsWellFormed, get_dynamic_slot_id-IsWellFormed,
  is_dynamic_slot-Negative, same-IsWellFormed, stick-IsWellFormed,
}
use gemini_web2api_go.Base.Int.{int_eq, ℤ}
use gemini_web2api_go.Base.Tests.{Bool-cases, Option-cases, nat_eq}
use gemini_web2api_go.Base.Text.{Text, is_empty, text_eq}
use gemini_web2api_go.Config.{RuntimeConfig}
use gemini_web2api_go.Proxy.{
  DynamicStat, Exits, Proxy, clear_sticky_proxy, empty_exits, is_excluded, set_sticky_proxy,
}
use gemini_web2api_go.Proxy.Dynamic.{get_dynamic_slot_id, is_dynamic_proxy_cooling, is_dynamic_slot}
use gemini_web2api_go.Proxy.Pick.{is_sticky, stick, try_found, ◌orelse◌}
use gemini_web2api_go.Proxy.PickLaws.{Search, Search-from, Search-none, Search-then, attempt-Search}
use gemini_web2api_go.Proxy.Turns.{try_found-Search}

abbrev pub Remote : RuntimeConfig → ℕ → List (Text × DynamicStat) → List Text → Proxy → Type 0
Remote c now stats excl_urls p =
    Negative p.id
    × (is_excluded p.url excl_urls ≡ false)
    × (is_dynamic_proxy_cooling c now (record empty_exits { dynamic_stats = stats }) p.url ≡ false)

cooling-stats :
    (c : RuntimeConfig) (now : ℕ) (x : Exits) (u : Text)
    → is_dynamic_proxy_cooling c now x u
      ≡ is_dynamic_proxy_cooling c now (record empty_exits { dynamic_stats = x.dynamic_stats }) u
unfolding is_dynamic_proxy_cooling
cooling-stats c now x u = refl

or_false : (a b : Bool) → (a || b) ≡ false → (a ≡ false) × (b ≡ false)
or_false a b h = ground arith

module _ (c : RuntimeConfig) (now : ℕ) (excl_urls : List Text) where
  -- A search of the remote pool from a well-formed state.
  abbrev pub Finds : Exits → Exits × Option Proxy → Type 0
  Finds x r = Search c now (Remote c now x.dynamic_stats excl_urls) x r × IsWellFormed r.0

  not_barred :
      (x : Exits) (i : ℤ) (n u : Text)
      → Negative i
      → is_barred c now x excl_urls u ≡ false
      → Remote c now x.dynamic_stats excl_urls (remote_proxy i n u)
  not_barred x i n u neg h =
      let (a, b) = or_false _ _ h in (neg, a, sym (cooling-stats c now x u) ∙ b)

  clear-Finds : (x : Exits) → IsWellFormed x → Finds x (clear_sticky_proxy x, none)
  unfolding clear_sticky_proxy
  clear-Finds x w =
      (Search-none c now _ x _ refl refl refl refl, same-IsWellFormed x _ refl refl refl refl w)

  none-Finds : (x : Exits) → IsWellFormed x → Finds x (x, none)
  none-Finds x w = (Search-none c now _ x x refl refl refl refl, w)

  try_found-Finds :
      (x : Exits) (p : Proxy)
      → IsWellFormed x
      → Remote c now x.dynamic_stats excl_urls p
      → Finds x (try_found c now x (some p))
  unfolding try_found
  try_found-Finds x p w h = (
    unfold try_found in try_found-Search c now _ x (some p) h,
    attempt_exit-IsWellFormed c now x p (λ y. y) (λ y. (y, none)) (λ y v. v) (λ y v. v) w,
  )

  stick_remote-Finds : (x : Exits) → IsWellFormed x → Finds x (stick_remote c now x excl_urls)
  unfolding stick_remote
  stick_remote-Finds x w = elim (Bool-cases (is_sticky c && not (is_empty x.sticky.sticky_url))) [
    | inr e ↦ rw (e, stick_remote) (none-Finds x w)
    | inl e ↦ elim (Option-cases (is_dynamic_slot x x.sticky.sticky_id)) [
      | inl f ↦ rw (e, f, stick_remote) (none-Finds x w)
      | inr (u, f) ↦ elim (Bool-cases (is_barred c now x excl_urls x.sticky.sticky_url)) [
        | inl g ↦ rw (e, f, g, stick_remote) (clear-Finds x w)
        | inr g ↦
            rw (e, f, g, stick_remote)
              (try_found-Finds x _ w (
                not_barred x x.sticky.sticky_id x.sticky.sticky_name x.sticky.sticky_url
                  (is_dynamic_slot-Negative x x.sticky.sticky_id u w f) g))
      ]
    ]
  ]

  slot_id-frame :
      (x : Exits) (u : Text)
      → let y = (get_dynamic_slot_id x u).0 in
        (y.slots ≡ x.slots)
        × (y.cache ≡ x.cache)
        × (y.table ≡ x.table)
        × (y.dynamic_stats ≡ x.dynamic_stats)
  unfolding get_dynamic_slot_id
  slot_id-frame x u = ground arith

  try_remote-Finds :
      (x : Exits) (u : Text)
      → IsWellFormed x
      → is_barred c now x excl_urls u ≡ false
      → Finds x (try_remote c now x u)
  unfolding try_remote stick set_sticky_proxy
  try_remote-Finds x u w h =
      let y : Exits = (get_dynamic_slot_id x u).0 in
      let i : ℤ = (get_dynamic_slot_id x u).1 in
      let (w', neg) = get_dynamic_slot_id-IsWellFormed x u w in
      let p = remote_proxy i (dynamic_name u) u in
      let (a, b, d, f) = slot_id-frame x u in
      (
        Search-from c now _ x y _ a b d f (
            attempt-Search c now _ y p (λ z. stick c z p) (λ z. (z, none))
              (λ z. (ground arith, ground arith, ground arith, ground arith))
              (not_barred x i (dynamic_name u) u neg h) (λ z k. k)),
        attempt_exit-IsWellFormed c now y p (λ z. stick c z p) (λ z. (z, none))
            (stick-IsWellFormed c now p) (λ z v. v) w',
      )

  -- The second search starts where the first one left off, with the same statistics.
  Finds-orelse :
      (x : Exits) (r : Exits × Option Proxy) (next : Exits → Exits × Option Proxy)
      → Finds x r
      → ((y : Exits) → IsWellFormed y → Finds y (next y))
      → Finds x (r orelse next)
  Finds-orelse x (y, some p) next k l = k
  Finds-orelse x (y, none) next k l =
      let (s, w) = l y k.1 in
      (
        Search-then c now _ x y (next y) k.0 (
            subst
              (λ (m : List (Text × DynamicStat)).
                Search c now (Remote c now m excl_urls) y (next y))
              k.0.same_stats s),
        w,
      )

  fetch_turns-Finds :
      (net : ℕ → Text → Answer) (pool_url : Text) (k rounds : ℕ) (x : Exits)
      → IsWellFormed x
      → Finds x (fetch_turns c now net pool_url excl_urls k rounds x)
  unfolding fetch_turns
  fetch_turns-Finds net pool_url k zero x w = none-Finds x w
  fetch_turns-Finds net pool_url k (suc rounds) x w =
      elim (Option-cases (fetch_remote_proxy (net k) pool_url)) [
        | inl e ↦ rw (e, fetch_turns) (none-Finds x w)
        | inr (u, e) ↦ elim (Bool-cases (is_empty u)) [
          | inl f ↦ rw (e, f, fetch_turns) (none-Finds x w)
          | inr f ↦ elim (Bool-cases (is_barred c now x excl_urls u)) [
            | inl g ↦ rw (e, f, g, fetch_turns) (fetch_turns-Finds net pool_url (k + 1) rounds x w)
            | inr g ↦
                rw (e, f, g, fetch_turns)
                  (Finds-orelse x _ _ (try_remote-Finds x u w g)
                    (fetch_turns-Finds net pool_url (k + 1) rounds))
          ]
        ]
      ]

  pub fetch-Finds :
      (net : ℕ → Text → Answer) (pool_url : Text) (x : Exits)
      → IsWellFormed x
      → Finds x (fetch_or_sticky_remote_proxy_except c now net x pool_url excl_urls)
  unfolding fetch_or_sticky_remote_proxy_except
  fetch-Finds net pool_url x w =
      Finds-orelse x _ _ (stick_remote-Finds x w)
        (fetch_turns-Finds net pool_url 0 max_fetch_attempts)
