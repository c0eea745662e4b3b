-- ===== src/Trip/Balance.antt =====
-- One request holds one slot at most: what each part of a round leaves.
use Prim.Native.Nat.{ℕ, ◌+◌, ◌≤◌}
use mathlib.Core.Bool.{Bool, false, true, ◌&&◌}
use mathlib.Core.Logic.{inl, inr}
use mathlib.Core.Option.{Option, none, some}
use mathlib.Core.Path.{refl, ◌∙◌, ◌≡◌}
use native.Mathlib.Omega.{arith}
use gemini_web2api_go.Accounts.Identity.{identity_at}
use gemini_web2api_go.Acquire.{release_slot}
use gemini_web2api_go.Acquire.WellFormed.{IsWellFormed, same-IsWellFormed}
use gemini_web2api_go.Base.Int.{int_eq, pos, ℤ}
use gemini_web2api_go.Base.Lists.{length}
use gemini_web2api_go.Base.Tests.{Bool-cases, if◌then◌else◌, nat_eq, ◌==◌}
use gemini_web2api_go.Base.Text.{Text, text_eq}
use gemini_web2api_go.Config.{RuntimeConfig}
use gemini_web2api_go.Outside.{Outside, World}
use gemini_web2api_go.Outside.Kept.{Kept, Kept-trans, Same-Kept, Same-refl}
use gemini_web2api_go.Outside.Reports.{force-Kept, mark-Kept, record-Kept}
use gemini_web2api_go.RateLimit.Slots.{inflight_of, one_if, slot_release-inflight}
use gemini_web2api_go.Rotation.Account.{release_at}
use gemini_web2api_go.Stream.Feed.Faithful.{IsFaithful}
use gemini_web2api_go.Trip.{Trip, cool_down, mark_account, release_current, report}
use gemini_web2api_go.Trip.SignIn.{max_cookie_tries}

abbrev pub is_some {ℓ} : {A : Type ℓ} → Option A → Bool
is_some none = false
is_some (some a) = true

-- A part that neither takes nor gives back a slot.
pub record Holds (t u : Trip) : Type 0 where
  pub world_kept : Kept t.world u.world
  pub same_picked : u.picked ≡ t.picked
  pub same_held : u.slot_held ≡ t.slot_held
  pub feed_kept : IsFaithful t.feed → IsFaithful u.feed
  pub few_kept : length t.tried ≤ max_cookie_tries → length u.tried ≤ max_cookie_tries
  pub err_kept : is_some t.last_err ≡ true → is_some u.last_err ≡ true

pub Holds-world : (t : Trip) (w : World) → Kept t.world w → Holds t (record t { world = w })
Holds-world t w k = record {
  world_kept = k;
  same_picked = refl;
  same_held = refl;
  feed_kept = λ f. f;
  few_kept = λ f. f;
  err_kept = λ f. f;
}

pub Holds-refl : (t : Trip) → Holds t t
Holds-refl t = Holds-world t t.world (Same-Kept t.world t.world (Same-refl t.world))

pub Holds-trans : (t u v : Trip) → Holds t u → Holds u v → Holds t v
Holds-trans t u v a b = record {
  world_kept = Kept-trans t.world u.world v.world a.world_kept b.world_kept;
  same_picked = b.same_picked ∙ a.same_picked;
  same_held = b.same_held ∙ a.same_held;
  feed_kept = λ f. b.feed_kept (a.feed_kept f);
  few_kept = λ f. b.few_kept (a.few_kept f);
  err_kept = λ f. b.err_kept (a.err_kept f);
}

-- The slots are as in `w` but for the one that the request holds; the exits are well-formed, and
-- the accounts are who they were.
pub record Balanced (w : World) (t : Trip) : Type 0 where
  pub counts :
      (j : ℤ)
      → inflight_of t.world.exits.slots j
        ≡ inflight_of w.exits.slots j + one_if (t.slot_held && t.picked.id == j)
  pub well : IsWellFormed t.world.exits
  pub faithful : IsFaithful t.feed
  pub few : length t.tried ≤ max_cookie_tries
  pub identity : (j : ℤ) → identity_at t.world.store j ≡ identity_at w.store j

pub Holds-Balanced : (w : World) (t u : Trip) → Holds t u → Balanced w t → Balanced w u
Holds-Balanced w t u h b = record {
  counts = λ j. rw (h.same_held, h.same_picked) (h.world_kept.slots_kept j ∙ b.counts j);
  well = h.world_kept.well_kept b.well;
  faithful = h.feed_kept b.faithful;
  few = h.few_kept b.few;
  identity = λ j. h.world_kept.identity_kept j ∙ b.identity j;
}

-- After the release nothing is held.
pub release-Balanced :
    (w : World) (t : Trip)
    → Balanced w t
    → Balanced w (release_current t) × ((release_current t).slot_held ≡ false)
unfolding release_current release_slot
release-Balanced w t b = go t.slot_held refl
  where
    go :
        (h : Bool)
        → t.slot_held ≡ h
        → (let u : Trip =
              if h
              then record t { world = release_at t.world t.picked.id; slot_held = false }
              else t in
            Balanced w u × (u.slot_held ≡ false))
    go false e = (b, e)
    go true e = (
      record {
        counts = λ j.
            ground (arith, e, b.counts j, slot_release-inflight t.world.exits.slots t.picked.id j);
        well = same-IsWellFormed t.world.exits _ refl refl refl refl b.well;
        faithful = b.faithful;
        few = b.few;
        identity = b.identity;
      },
      refl,
    )

pub cool_down-Holds :
    (c : RuntimeConfig) (o : Outside) (t : Trip) (err : Text) → Holds t (cool_down c o t err)
unfolding cool_down
cool_down-Holds c o t err = elim (Bool-cases (t.picked.id == pos 0)) [
  | inl e ↦ rw (e, cool_down) (Holds-refl t)
  | inr e ↦ rw (e, cool_down) (Holds-world t _ (force-Kept c _ _ t.world t.picked.id err))
]

pub report-Holds :
    (c : RuntimeConfig) (o : Outside) (t : Trip) (good : Bool) (err : Text)
    → Holds t (report c o t good err)
unfolding report
report-Holds c o t good err = elim (Bool-cases (t.picked.id == pos 0)) [
  | inl e ↦ rw (e, report) (Holds-refl t)
  | inr e ↦ rw (e, report) (Holds-world t _ (record-Kept c _ _ t.world t.picked.id good err))
]

pub mark_account-Holds :
    (o : Outside) (t : Trip) (i : ℤ) (status : ℕ) (err : Text)
    → Holds t (mark_account o t i status err)
unfolding mark_account
mark_account-Holds o t i status err = Holds-world t _ (mark-Kept _ t.world i status err)
