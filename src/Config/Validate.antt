-- ===== src/Config/Validate.antt =====
-- What a configuration that `validateRuntimeConfig` accepts guarantees, and that nothing else is
-- ever in force after a save.
use Prim.Native.Nat.{ℕ, ◌≤◌}
use mathlib.Core.Bool.{Bool, false, true, ◌||◌}
use mathlib.Core.List.{List, [], ◌∷◌}
use mathlib.Core.Logic.{inl, inr}
use mathlib.Core.Option.{none}
use mathlib.Core.Path.{refl, ◌≡◌}
use native.Mathlib.Omega.{arith}
use gemini_web2api_go.Base.Int.{int_eq, neg_part, negsuc, pos, pos_part, ℤ}
use gemini_web2api_go.Base.Tests.{Bool-cases, Option-cases, nat_eq, ◌==◌}
use gemini_web2api_go.Base.Text.{Text, before, codes, has_prefix, is_empty, text_beq, text_eq}
use gemini_web2api_go.Config.{
  RangeCheck, RuntimeConfig, SaveResult, first_out_of_range, not_written, one_of, out_of_range,
  range_checks, rejected, save_runtime_config, saved, validate_runtime_config,
}

-- `lo <= v && v <= hi`
abbrev pub Within : ℤ → ℕ → ℕ → Type 0
Within v lo hi = (lo ≤ pos_part v) × (pos_part v ≤ hi) × (neg_part v ≡ 0)

abbrev pub AllWithin : List RangeCheck → Type 0
AllWithin [] = Unit {0}
AllWithin ((v, lo, hi) ∷ rs) = Within v lo hi × AllWithin rs

out_of_range-Within : (v : ℤ) (lo hi : ℕ) → out_of_range (v, lo, hi) ≡ false → Within v lo hi
out_of_range-Within (pos n) lo hi h = ground arith
out_of_range-Within (negsuc n) lo hi h = ground arith

first_out_of_range-AllWithin : (rs : List RangeCheck) → first_out_of_range rs ≡ false → AllWithin rs
unfolding first_out_of_range
first_out_of_range-AllWithin [] h = tt
first_out_of_range-AllWithin ((v, lo, hi) ∷ rs) h = elim (Bool-cases (out_of_range (v, lo, hi))) [
  | inl e ↦ cc (rw e at h)
  | inr e ↦ (out_of_range-Within v lo hi e, first_out_of_range-AllWithin rs (rw e at h))
]

-- The numeric settings with their bounds.
abbrev pub InRange : RuntimeConfig → Type 0
InRange c =
    Within c.retry_attempts 1 10
    × Within c.retry_delay_sec 0 60
    × Within c.proxy_retry_attempts 0 10
    × Within c.request_timeout 5 600
    × Within c.per_ip_concurrent 0 1000
    × Within c.per_ip_rpm 0 10000
    × Within c.per_ip_rph 0 100000
    × Within c.retention_days 1 3650
    × Within c.proxy_cooldown_min 0 10080
    × Within c.max_prompt_bytes 0 10000000

abbrev pub known_mode : Text → Bool
known_mode m =
    is_empty m
    || m == codes "auto"
    || m == codes "pool_only"
    || m == codes "dynamic_only"
    || m == codes "static_only"
    || m == codes "direct_only"

abbrev pub known_strategy : Text → Bool
known_strategy t = is_empty t || t == codes "sticky" || t == codes "round_robin"

-- Every numeric setting of an accepted configuration lies in its range, the model is known, and
-- the texts that requests are built from are there and of a known form.
pub record IsAccepted (known : Bool) (c : RuntimeConfig) : Type 0 where
  pub ranges : InRange c
  pub model_known : known ≡ true
  pub has_impersonate : is_empty c.impersonate ≡ false
  pub has_gemini_bl : is_empty c.gemini_bl ≡ false
  pub pool_url_form :
      (is_empty c.proxy_pool_url
        || has_prefix c.proxy_pool_url (codes "http://")
        || has_prefix c.proxy_pool_url (codes "https://"))
      ≡ true
  pub mode_known : known_mode c.proxy_mode ≡ true
  pub strategy_known : known_strategy c.proxy_strategy ≡ true

module _ (known : Bool) (c : RuntimeConfig) (h : validate_runtime_config known c ≡ none) where
  in_range : first_out_of_range (range_checks c) ≡ false
  unfolding validate_runtime_config
  in_range = ground arith

  known_model : known ≡ true
  unfolding validate_runtime_config
  known_model = ground arith

  impersonate_set : is_empty c.impersonate ≡ false
  unfolding validate_runtime_config
  impersonate_set = ground arith

  bl_set : is_empty c.gemini_bl ≡ false
  unfolding validate_runtime_config
  bl_set = ground arith

  pool_url_checked :
      (is_empty c.proxy_pool_url
        || has_prefix c.proxy_pool_url (codes "http://")
        || has_prefix c.proxy_pool_url (codes "https://"))
      ≡ true
  unfolding validate_runtime_config
  pool_url_checked = ground arith

  mode_listed : known_mode c.proxy_mode ≡ true
  unfolding validate_runtime_config one_of text_beq
  mode_listed = ground arith

  strategy_listed : known_strategy c.proxy_strategy ≡ true
  unfolding validate_runtime_config one_of text_beq
  strategy_listed = ground arith

  in_ranges : InRange c
  in_ranges =
      let (a, (b, (d, (e, (f, (g, (i, (j, (k, (l, u)))))))))) =
        first_out_of_range-AllWithin (range_checks c) in_range in
      (a, b, d, e, f, g, i, j, k, l)

  pub validate-IsAccepted : IsAccepted known c
  validate-IsAccepted = record {
    ranges = in_ranges;
    model_known = known_model;
    has_impersonate = impersonate_set;
    has_gemini_bl = bl_set;
    pool_url_form = pool_url_checked;
    mode_known = mode_listed;
    strategy_known = strategy_listed;
  }

Within-in_range : (v : ℤ) (lo hi : ℕ) → Within v lo hi → out_of_range (v, lo, hi) ≡ false
Within-in_range (pos n) lo hi h = let (a, b, c) = h in ground arith
Within-in_range (negsuc n) lo hi h = let (a, b, c) = h in ground arith

AllWithin-in_range : (rs : List RangeCheck) → AllWithin rs → first_out_of_range rs ≡ false
unfolding first_out_of_range
AllWithin-in_range [] h = refl
AllWithin-in_range ((v, lo, hi) ∷ rs) h =
    rw (Within-in_range v lo hi h.0) (AllWithin-in_range rs h.1)

accepted-validates :
    (known : Bool) (c : RuntimeConfig) → IsAccepted known c → validate_runtime_config known c ≡ none
unfolding validate_runtime_config one_of text_beq
accepted-validates known c h =
    let (a, b, d, e, f, g, i, j, k, l) = h.ranges in
    let fits =
      AllWithin-in_range (range_checks c) (a, (b, (d, (e, (f, (g, (i, (j, (k, (l, tt)))))))))) in
    ground (
      arith, fits, h.model_known, h.has_impersonate, h.has_gemini_bl, h.pool_url_form, h.mode_known,
      h.strategy_known,
    )

-- What `saveRuntimeConfig` does: it saves a configuration whose settings are as they should be and
-- whose write succeeds, in memory and in the table alike, and otherwise it changes neither.
abbrev pub Saves :
    (Text → Bool)
    → (RuntimeConfig → Text)
    → Bool
    → RuntimeConfig × Text
    → RuntimeConfig
    → (RuntimeConfig × Text) × SaveResult
    → Type 0
Saves known encode written before next (after, saved) =
    (after ≡ (next, encode next)) × IsAccepted (known next.default_model) next × (written ≡ true)
Saves known encode written before next (after, rejected e) =
    (after ≡ before) × ¬ (IsAccepted (known next.default_model) next)
Saves known encode written before next (after, not_written) =
    (after ≡ before) × IsAccepted (known next.default_model) next × (written ≡ false)

-- For every check of the model's name, encoding of a configuration, and outcome of the write: a
-- save succeeds exactly if every setting of the new configuration is in its range and the write
-- succeeds, and then puts that configuration in memory and its encoding in the table; a save that
-- does not succeed leaves both as they were, and is a rejection exactly if a setting is out of its
-- range.
pub save-Saves :
    (known : Text → Bool) (encode : RuntimeConfig → Text) (written : Bool)
    (before : RuntimeConfig × Text) (next : RuntimeConfig)
    → Saves known encode written before next (save_runtime_config known encode written before next)
unfolding save_runtime_config
save-Saves known encode written (current, kv) next =
    elim (Option-cases (validate_runtime_config (known next.default_model) next)) [
      | inl e ↦ elim (Bool-cases written) [
        | inl w ↦
            rw (e, w, save_runtime_config)
              (refl, validate-IsAccepted (known next.default_model) next e, refl)
        | inr w ↦
            rw (e, w, save_runtime_config)
              (refl, validate-IsAccepted (known next.default_model) next e, refl)
      ]
      | inr (x, e) ↦
          rw (e, save_runtime_config)
            (refl, λ h. (let k = accepted-validates (known next.default_model) next h in cc))
    ]
