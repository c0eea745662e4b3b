-- ===== src/Proxy/Synced.antt =====
-- The pool in memory and the table `proxies`.
use Prim.Native.Nat.{ℕ}
use mathlib.Core.Bool.{Bool, false, true}
use mathlib.Core.List.{List, [], ◌∷◌}
use mathlib.Core.Logic.{inl, inr}
use mathlib.Core.Option.{Option, none, some}
use mathlib.Core.Path.{ap, refl, subst, sym, ◌∙◌, ◌≡◌}
use gemini_web2api_go.Base.Int.{int_beq_iff, int_eq, pos, ℤ}
use gemini_web2api_go.Base.Lists.{All}
use gemini_web2api_go.Base.Tests.{Bool-cases, if◌then◌else◌, nat_eq, ◌==◌}
use gemini_web2api_go.Base.Text.{Text, is_empty, text_eq}
use gemini_web2api_go.Config.{RuntimeConfig}
use gemini_web2api_go.Proxy.{Exits, Proxy, clear_sticky_proxy, proxy_fail_threshold}
use gemini_web2api_go.Proxy.Dynamic.{
  force_dynamic_proxy_cooldown, is_dynamic_slot, record_dynamic_proxy_result,
}
use gemini_web2api_go.Proxy.Record.{
  cooled_proxy, force_proxy_cooldown, noted_proxy, record_proxy_result, update_exit, update_first,
  update_where,
}

-- No identifier occurs twice.
abbrev pub DistinctIds : List Proxy → Type 0
DistinctIds [] = Unit {0}
DistinctIds (p ∷ ps) = All (λ q. (q.id == p.id) ≡ false) ps × DistinctIds ps

update_where-absent :
    (f : Proxy → Proxy) (i : ℤ) (ps : List Proxy)
    → All (λ q. (q.id == i) ≡ false) ps
    → update_where f i ps ≡ ps
unfolding update_where
update_where-absent f i [] a = refl
update_where-absent f i (p ∷ ps) a = rw (update_where, a.0, update_where-absent f i ps a.1)

update_first-update_where :
    (f : Proxy → Proxy) (i : ℤ) (ps : List Proxy)
    → DistinctIds ps
    → update_first f i ps ≡ update_where f i ps
unfolding update_first update_where
update_first-update_where f i [] d = refl
update_first-update_where f i (p ∷ ps) d = elim (Bool-cases (p.id == i)) [
  | inl e ↦
      let same = (int_beq_iff p.id i).0 e in
      let rest =
        update_where-absent f i ps (subst (λ j. All (λ q. (q.id == j) ≡ false) ps) same d.0) in
      rw (update_first, e, rest)
  | inr e ↦ rw (update_first, e, update_first-update_where f i ps d.1)
]

abbrev pub Synced : Exits → Type 0
Synced x = (x.cache ≡ x.table) × DistinctIds x.table

module _ (f : Proxy → Proxy) (keeps : (p : Proxy) → (f p).id ≡ p.id) (i : ℤ) where
  absent-update :
      (j : ℤ) (ps : List Proxy)
      → All (λ q. (q.id == j) ≡ false) ps
      → All (λ q. (q.id == j) ≡ false) (update_where f i ps)
  unfolding update_where
  absent-update j [] a = tt
  absent-update j (p ∷ ps) a = elim (Bool-cases (p.id == i)) [
    | inl e ↦ rw (e, keeps p) (a.0, absent-update j ps a.1)
    | inr e ↦ rw e (a.0, absent-update j ps a.1)
  ]

  DistinctIds-update : (ps : List Proxy) → DistinctIds ps → DistinctIds (update_where f i ps)
  unfolding update_where
  DistinctIds-update [] d = tt
  DistinctIds-update (p ∷ ps) d = elim (Bool-cases (p.id == i)) [
    | inl e ↦ rw (e, keeps p) (absent-update p.id ps d.0, DistinctIds-update ps d.1)
    | inr e ↦ rw e (absent-update p.id ps d.0, DistinctIds-update ps d.1)
  ]

  update_exit-Synced : (x : Exits) → Synced x → Synced (update_exit true f i x)
  unfolding update_exit
  update_exit-Synced x s = (
    update_first-update_where f i x.cache (subst DistinctIds (sym s.0) s.1)
        ∙ ap (update_where f i) s.0,
    DistinctIds-update x.table s.1,
  )

same-Synced : (x y : Exits) → y.cache ≡ x.cache → y.table ≡ x.table → Synced x → Synced y
same-Synced x y a b s = (a ∙ s.0 ∙ sym b, subst DistinctIds (sym b) s.1)

noted-id :
    (now : ℕ) (success : Bool) (err : Text) (p : Proxy) → (noted_proxy now success err p).id ≡ p.id
unfolding noted_proxy
noted-id now true err p = refl
noted-id now false err p = refl

cooled-id :
    (threshold now : ℕ) (err : Text) (p : Proxy) → (cooled_proxy threshold now err p).id ≡ p.id
unfolding cooled_proxy
cooled-id threshold now err p = refl

module _ (c : RuntimeConfig) (now : ℕ) where
  record_dynamic-Synced :
      (x : Exits) (u : Text) (success : Bool) (err : Text)
      → Synced x
      → Synced (record_dynamic_proxy_result c now x u success err)
  unfolding record_dynamic_proxy_result
  record_dynamic-Synced x u success err s = elim (Bool-cases (is_empty u)) [
    | inl e ↦ rw (e, record_dynamic_proxy_result) s
    | inr e ↦ rw (e, record_dynamic_proxy_result) s
  ]

  force_dynamic-Synced :
      (x : Exits) (u err : Text) → Synced x → Synced (force_dynamic_proxy_cooldown c now x u err)
  unfolding force_dynamic_proxy_cooldown
  force_dynamic-Synced x u err s = elim (Bool-cases (is_empty u)) [
    | inl e ↦ rw (e, force_dynamic_proxy_cooldown) s
    | inr e ↦ rw (e, force_dynamic_proxy_cooldown) s
  ]

  clear-Synced : (x : Exits) → Synced x → Synced (clear_sticky_proxy x)
  unfolding clear_sticky_proxy
  clear-Synced x s = s

  cleared-Synced :
      (success : Bool) (x : Exits) → Synced x → Synced (if success then x else clear_sticky_proxy x)
  cleared-Synced true x s = s
  cleared-Synced false x s = clear-Synced x s

  record-Synced :
      (x : Exits) (i : ℤ) (success : Bool) (err : Text)
      → Synced x
      → Synced (record_proxy_result c now true x i success err)
  unfolding record_proxy_result
  record-Synced x i success err s = elim (Bool-cases (i == pos 0)) [
    | inl e ↦ rw (e, record_proxy_result) s
    | inr e ↦
        let y : Exits = if success then x else clear_sticky_proxy x in
        rw (e, record_proxy_result) (go y (cleared-Synced success x s) (is_dynamic_slot y i))
  ]
    where
      go :
          (y : Exits)
          → Synced y
          → (o : Option Text)
          → (let z : Exits = elim o [
            | some u ↦ record_dynamic_proxy_result c now y u success err
            | none ↦ update_exit true (noted_proxy now success err) i y
          ] in
              Synced z)
      go y t (some u) = record_dynamic-Synced y u success err t
      go y t none =
          update_exit-Synced (noted_proxy now success err) (noted-id now success err) i y t

  force-Synced :
      (x : Exits) (i : ℤ) (err : Text) → Synced x → Synced (force_proxy_cooldown c now true x i err)
  unfolding force_proxy_cooldown
  force-Synced x i err s = elim (Bool-cases (i == pos 0)) [
    | inl e ↦ rw (e, force_proxy_cooldown) s
    | inr e ↦
        rw (e, force_proxy_cooldown)
          (go (clear_sticky_proxy x) (clear-Synced x s) (is_dynamic_slot (clear_sticky_proxy x) i))
  ]
    where
      go :
          (y : Exits)
          → Synced y
          → (o : Option Text)
          → (let z : Exits = elim o [
            | some u ↦ force_dynamic_proxy_cooldown c now y u err
            | none ↦ update_exit true (cooled_proxy (proxy_fail_threshold c) now err) i y
          ] in
              Synced z)
      go y t (some u) = force_dynamic-Synced y u err t
      go y t none =
          update_exit-Synced (cooled_proxy (proxy_fail_threshold c) now err)
            (cooled-id (proxy_fail_threshold c) now err) i y t

-- As long as the database takes the updates, reporting an outcome and forcing a cooldown keep the
-- pool in memory equal to the table, whose identifiers stay distinct.
pub outcomes-Synced :
    (c : RuntimeConfig) (now : ℕ) (x : Exits) (i : ℤ) (success : Bool) (err : Text)
    → Synced x
    → Synced (record_proxy_result c now true x i success err)
      × Synced (force_proxy_cooldown c now true x i err)
outcomes-Synced c now x i success err s =
    (record-Synced c now x i success err s, force-Synced c now x i err s)
