-- ===== src/Proxy/Breaker.antt =====
-- The circuit breaker of the exits: which outcomes put a proxy aside, and until when.
use Prim.Native.Nat.{ℕ, ◌*◌, ◌+◌}
use mathlib.Core.Bool.{Bool, false, true, ◌&&◌, ◌||◌}
use mathlib.Core.List.{List, [], ◌∷◌}
use mathlib.Core.Logic.{inl, inr}
use mathlib.Core.Option.{Option, none, some}
use mathlib.Core.Path.{refl, ◌≡◌}
use native.Mathlib.Omega.{arith}
use gemini_web2api_go.Base.Dict.{lookup}
use gemini_web2api_go.Base.Int.{int_beq, int_beq_iff, int_eq, is_positive, negsuc, pos, pos_part, ℤ}
use gemini_web2api_go.Base.Tests.{Bool-cases, if◌then◌else◌, leb, ltb, nat_eq, ◌==◌}
use gemini_web2api_go.Base.Text.{Text, text_eq}
use gemini_web2api_go.Config.{RuntimeConfig}
use gemini_web2api_go.Proxy.{
  Exits, Proxy, clear_sticky_proxy, find_first, proxy_by_id, proxy_fail_threshold, proxy_usable,
  proxy_usable_by_id,
}
use gemini_web2api_go.Proxy.Dynamic.{is_dynamic_slot}
use gemini_web2api_go.Proxy.Record.{
  cooled_proxy, force_proxy_cooldown, noted_proxy, record_proxy_result, update_exit, update_first,
}

abbrev on_some : (Proxy → Proxy) → Option Proxy → Option Proxy
on_some f none = none
on_some f (some p) = some (f p)

module _ (f : Proxy → Proxy) (keeps : (p : Proxy) → (f p).id ≡ p.id) (i j : ℤ) where
  find-update_first :
      (ps : List Proxy)
      → find_first (λ p. p.id == j) (update_first f i ps)
        ≡ (let old = find_first (λ p. p.id == j) ps in if i == j then on_some f old else old)
  unfolding find_first update_first
  find-update_first [] = elim (Bool-cases (i == j)) [ inl e ↦ rw e | inr e ↦ rw e ]
  find-update_first (p ∷ ps) = elim (Bool-cases (p.id == i)) [
    | inl e ↦ elim (Bool-cases (i == j)) [
      | inl h ↦
          let old : (p.id == j) ≡ true =
            ground (arith, int_beq_iff p.id i, int_beq_iff i j, int_beq_iff p.id j) in
          let new : ((f p).id == j) ≡ true = rw (keeps p) old in rw (e, h, find_first, new, old)
      | inr h ↦
          let old : (p.id == j) ≡ false =
            ground (arith, int_beq_iff p.id i, int_beq_iff i j, int_beq_iff p.id j) in
          let new : ((f p).id == j) ≡ false = rw (keeps p) old in rw (e, h, find_first, new, old)
    ]
    | inr e ↦ elim (Bool-cases (p.id == j)) [
      | inl h ↦
          let same = (int_beq_iff p.id j).0 h in
          let apart : (i == j) ≡ false = ground (arith, int_beq_iff p.id i, int_beq_iff i j) in
          rw (e, find_first, h, apart)
      | inr h ↦ rw (e, find_first, h, find-update_first ps)
    ]
  ]

  -- A write to the proxy `i`, read at `j`.
  pub proxy_by_id-update_first :
      (ps : List Proxy)
      → proxy_by_id (update_first f i ps) j
        ≡ (let old = proxy_by_id ps j in if i == j then on_some f old else old)
  unfolding proxy_by_id
  proxy_by_id-update_first ps = elim (Bool-cases (is_positive j)) [
    | inl e ↦ rw (e, proxy_by_id) (find-update_first ps)
    | inr e ↦ rw (e, proxy_by_id) (elim (Bool-cases (i == j)) [ inl h ↦ rw h | inr h ↦ rw h ])
  ]

positive-nonzero : (i : ℤ) → is_positive i ≡ true → (i == pos 0) ≡ false
unfolding int_beq
positive-nonzero (pos n) e = ground arith
positive-nonzero (negsuc n) e = refl

by_id-positive :
    (ps : List Proxy) (i : ℤ) (p : Proxy) → proxy_by_id ps i ≡ some p → is_positive i ≡ true
unfolding proxy_by_id
by_id-positive ps i p e = elim (Bool-cases (is_positive i)) [
  | inl h ↦ h
  | inr h ↦ cc (rw (h, proxy_by_id) at e)
]

-- Where the proxy `i` stands in the pool, and is not an exit of the remote pool.
pub record Pooled (x : Exits) (i : ℤ) (p : Proxy) : Type 0 where
  pub found : proxy_by_id x.cache i ≡ some p
  pub static : lookup i x.dynamic_urls ≡ none

-- How long a broken proxy rests: for good without a cooldown.
abbrev pub rested : RuntimeConfig → ℕ → ℕ → Bool
rested c since now =
    is_positive c.proxy_cooldown_min && leb (since + pos_part c.proxy_cooldown_min * 60) now

abbrev pub fold_failures : RuntimeConfig → ℤ → List (ℕ × Bool × Text) → Exits → Exits
fold_failures c i [] x = x
fold_failures c i ((t, written, err) ∷ fs) x =
    fold_failures c i fs (record_proxy_result c t written x i false err)

abbrev pub last_time : ℕ → List (ℕ × Bool × Text) → ℕ
last_time t [] = t
last_time t ((u, written, err) ∷ fs) = last_time u fs

module _ (c : RuntimeConfig) (i : ℤ) where
  update_exit-Pooled :
      (written : Bool) (f : Proxy → Proxy) (x : Exits) (p : Proxy)
      → ((q : Proxy) → (f q).id ≡ q.id)
      → Pooled x i p
      → Pooled (update_exit written f i x) i (f p)
  unfolding update_exit
  update_exit-Pooled written f x p keeps h = record {
    found = rw (proxy_by_id-update_first f keeps i i x.cache, (int_beq_iff i i).1 refl, h.found);
    static = h.static;
  }

  record-Pooled :
      (now : ℕ) (written : Bool) (x : Exits) (success : Bool) (err : Text) (p : Proxy)
      → Pooled x i p
      → Pooled (record_proxy_result c now written x i success err) i (noted_proxy now success err p)
  unfolding record_proxy_result is_dynamic_slot clear_sticky_proxy noted_proxy
  record-Pooled now written x true err p h =
      let nz = positive-nonzero i (by_id-positive x.cache i p h.found) in
      rw (nz, record_proxy_result, h.static)
        (update_exit-Pooled written (noted_proxy now true err) x p (λ q. refl) h)
  record-Pooled now written x false err p h =
      let nz = positive-nonzero i (by_id-positive x.cache i p h.found) in
      rw (nz, record_proxy_result, h.static)
        (update_exit-Pooled written (noted_proxy now false err) (clear_sticky_proxy x) p (λ q. refl)
          (record { found = h.found; static = h.static }))

  force-Pooled :
      (now : ℕ) (written : Bool) (x : Exits) (err : Text) (p : Proxy)
      → Pooled x i p
      → Pooled
          (force_proxy_cooldown c now written x i err)
          i
          (cooled_proxy (proxy_fail_threshold c) now err p)
  unfolding force_proxy_cooldown is_dynamic_slot clear_sticky_proxy cooled_proxy
  force-Pooled now written x err p h =
      let nz = positive-nonzero i (by_id-positive x.cache i p h.found) in
      rw (nz, force_proxy_cooldown, h.static)
        (update_exit-Pooled written (cooled_proxy (proxy_fail_threshold c) now err)
          (clear_sticky_proxy x) p (λ q. refl) (record { found = h.found; static = h.static }))

  usable-Pooled :
      (now : ℕ) (x : Exits) (p : Proxy)
      → Pooled x i p
      → proxy_usable_by_id c now x.cache i
        ≡ (p.enabled && (ltb p.fail_count (proxy_fail_threshold c) || rested c p.last_used now))
  unfolding proxy_usable_by_id proxy_usable
  usable-Pooled now x p h = rw (h.found, proxy_usable_by_id) (ground arith)

  -- `forceProxyCooldown` puts a proxy of the pool aside at once: it may be used again exactly if it
  -- is enabled and a cooldown is set and has passed.
  pub force-opens :
      (x : Exits) (p : Proxy) (at : ℕ) (written : Bool) (err : Text) (now : ℕ)
      → Pooled x i p
      → proxy_usable_by_id c now (force_proxy_cooldown c at written x i err).cache i
        ≡ (p.enabled && rested c at now)
  unfolding cooled_proxy
  force-opens x p at written err now h =
      rw (usable-Pooled now _ _ (force-Pooled at written x err p h)) (ground arith)

  -- A success closes the breaker: whatever the failures before, an enabled proxy of the pool may
  -- be used at any time after it.
  pub success-closes :
      (x : Exits) (p : Proxy) (at : ℕ) (written : Bool) (err : Text) (now : ℕ)
      → Pooled x i p
      → proxy_usable_by_id c now (record_proxy_result c at written x i true err).cache i ≡ p.enabled
  unfolding noted_proxy proxy_fail_threshold
  success-closes x p at written err now h =
      rw (usable-Pooled now _ _ (record-Pooled at written x true err p h)) (ground arith)
