-- ===== src/Acquire/Ways.antt =====
-- The kinds of exits that each mode of `acquireSlotExcept` goes through.
use mathlib.Core.Bool.{Bool, false, not, true, ◌&&◌, ◌||◌}
use mathlib.Core.Logic.{inl, inr}
use mathlib.Core.Path.{refl, subst, sym, ◌∙◌, ◌≡◌}
use gemini_web2api_go.Acquire.{
  ProxyMode, auto, direct_only, dynamic_only, has_pool, pool_only, proxy_mode_of, static_only,
}
use gemini_web2api_go.Base.Int.{int_eq}
use gemini_web2api_go.Base.Tests.{Bool-cases, nat_eq, ◌==◌}
use gemini_web2api_go.Base.Text.{Text, codes, text_beq, text_beq_iff, text_eq}
use gemini_web2api_go.Config.{RuntimeConfig}
use gemini_web2api_go.Proxy.{Exits}

abbrev mode_lets_direct : ProxyMode → RuntimeConfig → Exits → Bool
mode_lets_direct direct_only c x = true
mode_lets_direct auto c x = not (has_pool c x) || c.fallback_direct
mode_lets_direct _ c x = false

-- The configuration lets a request out directly: always in direct_only, never in static_only,
-- dynamic_only and pool_only, and otherwise without a pool or with `fallback_direct`.
abbrev pub lets_direct : RuntimeConfig → Exits → Bool
lets_direct c x =
    c.proxy_mode == codes "direct_only"
    || not (
        c.proxy_mode == codes "static_only"
        || c.proxy_mode == codes "dynamic_only"
        || c.proxy_mode == codes "pool_only")
      && (not (has_pool c x) || c.fallback_direct)

-- The kinds of exits that a mode lets requests out through.
pub record Ways : Type 0 where
  pub lets_static : Bool
  pub lets_dynamic : Bool
  pub lets_out_directly : Bool

abbrev mode_lets_static : ProxyMode → Bool
mode_lets_static static_only = true
mode_lets_static pool_only = true
mode_lets_static auto = true
mode_lets_static _ = false

abbrev mode_lets_dynamic : ProxyMode → Bool
mode_lets_dynamic dynamic_only = true
mode_lets_dynamic pool_only = true
mode_lets_dynamic auto = true
mode_lets_dynamic _ = false

abbrev pub ways_of : ProxyMode → RuntimeConfig → Exits → Ways
ways_of m c x = record {
  lets_static = mode_lets_static m;
  lets_dynamic = mode_lets_dynamic m;
  lets_out_directly = mode_lets_direct m c x;
}

-- The static pool is left out in dynamic_only and direct_only, the remote one in static_only and
-- direct_only.
abbrev pub ways : RuntimeConfig → Exits → Ways
ways c x = record {
  lets_static = not (c.proxy_mode == codes "dynamic_only" || c.proxy_mode == codes "direct_only");
  lets_dynamic = not (c.proxy_mode == codes "static_only" || c.proxy_mode == codes "direct_only");
  lets_out_directly = lets_direct c x;
}

abbrev named : Text → Bool → Ways
named m free = record {
  lets_static = not (m == codes "dynamic_only" || m == codes "direct_only");
  lets_dynamic = not (m == codes "static_only" || m == codes "direct_only");
  lets_out_directly =
      m == codes "direct_only"
      || not (m == codes "static_only" || m == codes "dynamic_only" || m == codes "pool_only")
        && free;
}

abbrev mode_free : ProxyMode → Bool → Bool
mode_free direct_only free = true
mode_free auto free = free
mode_free _ free = false

abbrev of_mode : ProxyMode → Bool → Ways
of_mode m free = record {
  lets_static = mode_lets_static m;
  lets_dynamic = mode_lets_dynamic m;
  lets_out_directly = mode_free m free;
}

known :
    (m name : Text) (free : Bool)
    → (m == name) ≡ true
    → of_mode (proxy_mode_of name) free ≡ named name free
    → of_mode (proxy_mode_of m) free ≡ named m free
known m name free e h =
    subst (λ t. of_mode (proxy_mode_of t) free ≡ named t free) (sym ((text_beq_iff m name).0 e)) h

of_mode-named : (m : Text) (free : Bool) → of_mode (proxy_mode_of m) free ≡ named m free
unfolding proxy_mode_of text_beq
of_mode-named m free = elim (Bool-cases (m == codes "direct_only")) [
  | inl e ↦ known m (codes "direct_only") free e refl
  | inr e ↦ elim (Bool-cases (m == codes "static_only")) [
    | inl f ↦ known m (codes "static_only") free f refl
    | inr f ↦ elim (Bool-cases (m == codes "dynamic_only")) [
      | inl g ↦ known m (codes "dynamic_only") free g refl
      | inr g ↦ elim (Bool-cases (m == codes "pool_only")) [
        | inl h ↦ known m (codes "pool_only") free h refl
        | inr h ↦ rw (e, f, g, h)
      ]
    ]
  ]
]

ways_of-mode :
    (m : ProxyMode) (c : RuntimeConfig) (x : Exits)
    → ways_of m c x ≡ of_mode m (not (has_pool c x) || c.fallback_direct)
ways_of-mode direct_only c x = refl
ways_of-mode static_only c x = refl
ways_of-mode dynamic_only c x = refl
ways_of-mode pool_only c x = refl
ways_of-mode auto c x = refl

pub ways-named :
    (c : RuntimeConfig) (x : Exits) → ways_of (proxy_mode_of c.proxy_mode) c x ≡ ways c x
ways-named c x =
    ways_of-mode (proxy_mode_of c.proxy_mode) c x
    ∙ of_mode-named c.proxy_mode (not (has_pool c x) || c.fallback_direct)
