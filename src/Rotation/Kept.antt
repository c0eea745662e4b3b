-- ===== src/Rotation/Kept.antt =====
-- A rotation gives back the slot that it took, and leaves every account who it was.
use Prim.Native.Nat.{ℕ, ◌+◌}
use mathlib.Core.List.{List, []}
use mathlib.Core.Logic.{inl, inr}
use mathlib.Core.Path.{refl, ◌∙◌, ◌≡◌}
use native.Mathlib.Omega.{arith}
use gemini_web2api_go.Accounts.{CookieAccount, update_account_cookie}
use gemini_web2api_go.Acquire.{Outcome, acquire_slot, refused, release_slot, taken}
use gemini_web2api_go.Acquire.Choice.{acquire_slot_except-Acquired}
use gemini_web2api_go.Acquire.Laws.{outcome_taken}
use gemini_web2api_go.Acquire.WellFormed.{IsWellFormed, same-IsWellFormed}
use gemini_web2api_go.Base.Int.{int_eq, ℤ}
use gemini_web2api_go.Base.Result.{Result, erred, fine}
use gemini_web2api_go.Base.Tests.{Bool-cases, if◌then◌else◌, nat_eq, ◌==◌}
use gemini_web2api_go.Base.Text.{Text, codes, is_empty, text_eq}
use gemini_web2api_go.Config.{RuntimeConfig}
use gemini_web2api_go.Cookie.{cookie_value}
use gemini_web2api_go.Outside.{Outside, World, exchange, now_of, sent_count}
use gemini_web2api_go.Outside.Kept.{
  Kept, Kept-trans, Restored, Same, Same-Kept, Same-refl, Same-trans, cookie-Kept,
}
use gemini_web2api_go.Proxy.{Exits, Proxy}
use gemini_web2api_go.RateLimit.Slots.{inflight_of, one_if, slot_release-inflight}
use gemini_web2api_go.Rotation.{
  allow_1psidts_rotate, is_uncounted, note_1psidts_attempt, rotate_1psidts, rotate_1psidts_request,
  try_rotate_1psidts,
}
use gemini_web2api_go.Rotation.Account.{release_at, renew, rotate_account, rotate_through}
use gemini_web2api_go.Rotation.Sidcc.{
  fetch_rotate_params, post_sidcc, rotate_page_request, rotate_sidcc, sidcc_request,
}
use gemini_web2api_go.Tokens.{invalidate_xsrf}
use gemini_web2api_go.Tokens.Same.{invalidate-Same}
use gemini_web2api_go.Trip.{with_exits, with_store}

note-Same :
    (o : Outside) (w v : World) (i : ℤ) (r : Result (Text × List Text))
    → Same w v
    → Same w (note_1psidts_attempt o v i r)
unfolding note_1psidts_attempt
note-Same o w v i r s = elim (Bool-cases (is_uncounted r)) [
  | inl e ↦ rw (e, note_1psidts_attempt) s
  | inr e ↦
      rw (e, note_1psidts_attempt)
        (record { same_exits = s.same_exits; same_store = s.same_store; same_asked = s.same_asked })
]

try_rotate-Same :
    (o : Outside) (w : World) (i : ℤ) (cookie proxy_url : Text)
    → Same w (try_rotate_1psidts o w i cookie proxy_url).0
unfolding try_rotate_1psidts rotate_1psidts exchange rotate_1psidts_request
try_rotate-Same o w i cookie proxy_url =
    elim (Bool-cases (is_empty (cookie_value cookie (codes "__Secure-1PSID")))) [
      | inl e ↦ rw (e, try_rotate_1psidts) (Same-refl w)
      | inr e ↦ elim (Bool-cases (allow_1psidts_rotate o w i)) [
        | inl d ↦
            rw (e, d, try_rotate_1psidts)
              (note-Same o w _ i _
                (record { same_exits = refl; same_store = refl; same_asked = refl }))
        | inr d ↦ rw (e, d, try_rotate_1psidts) (Same-refl w)
      ]
    ]

post_sidcc-Same :
    (o : Outside) (cookie proxy_url : Text) (w v : World) (r : Result (Text × (ℕ × List Text)))
    → Same w v
    → Same w (post_sidcc o cookie proxy_url (v, r)).0
unfolding post_sidcc exchange sidcc_request
post_sidcc-Same o cookie proxy_url w v (erred e) s = s
post_sidcc-Same o cookie proxy_url w v (fine (i, (iv, page_set))) s = record {
  same_exits = s.same_exits;
  same_store = s.same_store;
  same_asked = s.same_asked;
}

rotate_sidcc-Same :
    (o : Outside) (w : World) (cookie proxy_url : Text)
    → Same w (rotate_sidcc o w cookie proxy_url).0
unfolding rotate_sidcc fetch_rotate_params exchange rotate_page_request
rotate_sidcc-Same o w cookie proxy_url =
    post_sidcc-Same o cookie proxy_url w _ _
      (record { same_exits = refl; same_store = refl; same_asked = refl })

-- The renewals through an exit write to the account alone.
pub renew-Kept :
    (o : Outside) (w : World) (a : CookieAccount) (proxy_url : Text)
    → Kept w (renew o w a proxy_url).0 × ((renew o w a proxy_url).0.exits ≡ w.exits)
unfolding renew
renew-Kept o w a proxy_url =
    written _
      (Same-trans w _ _ (try_rotate-Same o w a.id a.cookie proxy_url)
        (rotate_sidcc-Same o _ _ proxy_url))
      _
  where
    written :
        (v : World)
        → Same w v
        → (t : Text)
        → (let after : World =
              if t == a.cookie
              then v
              else invalidate_xsrf o
                  (record v { store = update_account_cookie v.store a.id t })
                  a.cookie in
            Kept w after × (after.exits ≡ w.exits))
    written v s t = elim (Bool-cases (t == a.cookie)) [
      | inl e ↦ rw e (Same-Kept w v s, s.same_exits)
      | inr e ↦
          let u = with_store v (update_account_cookie v.store a.id t) in
          let i = invalidate-Same o u a.cookie in
          rw e (
            Kept-trans w v _ (Same-Kept w v s)
                (Kept-trans v u _ (cookie-Kept v a.id t) (Same-Kept u _ i)),
            i.same_exits ∙ s.same_exits,
          )
    ]

-- What an acquisition and its release leave.
pub borrowed-Kept :
    (w v : World) (x : Exits) (p : Proxy)
    → ((j : ℤ) → inflight_of x.slots j ≡ inflight_of w.exits.slots j + one_if (p.id == j))
    → (IsWellFormed w.exits → IsWellFormed x)
    → Kept (with_exits w x) v
    → Kept w (release_at v p.id)
unfolding release_slot
borrowed-Kept w v x p adds well k = record {
  slots_kept =
      λ j. omega (arith, adds j, k.slots_kept j, slot_release-inflight v.exits.slots p.id j);
  well_kept = λ h. same-IsWellFormed v.exits _ refl refl refl refl (k.well_kept (well h));
  identity_kept = k.identity_kept;
  asked_kept = k.asked_kept;
}

rotate_through-Kept :
    (o : Outside) (w : World) (a : CookieAccount) (x : Exits) (out : Outcome)
    → ((j : ℤ) → inflight_of x.slots j ≡ inflight_of w.exits.slots j + outcome_taken out j)
    → (IsWellFormed w.exits → IsWellFormed x)
    → Kept w (rotate_through o (with_exits w x) a out).0
unfolding rotate_through
rotate_through-Kept o w a x (refused e) adds well = record {
  slots_kept = λ j. omega (arith, adds j);
  well_kept = well;
  identity_kept = λ j. refl;
  asked_kept = refl;
}
rotate_through-Kept o w a x (taken p) adds well =
    borrowed-Kept w _ x p adds well (renew-Kept o (with_exits w x) a p.url).0

pub rotate_account-Kept :
    (c : RuntimeConfig) (o : Outside) (w : World) (a : CookieAccount)
    → IsWellFormed w.exits
    → Kept w (rotate_account c o w a).0
unfolding rotate_account acquire_slot
rotate_account-Kept c o w a h =
    let r =
      acquire_slot_except-Acquired c (now_of o w) (o.remote (sent_count w)) [] [] w.exits a.proxy_id
        h in
    rotate_through-Kept o w a _ _ r.adds (λ u. r.well)

-- From well-formed exits a rotation leaves every slot with the requests in flight that it had, the
-- exits well-formed, and every account with the identity that its cookie had, whatever is answered.
pub rotate_account-Restored :
    (c : RuntimeConfig) (o : Outside) (w : World) (a : CookieAccount)
    → IsWellFormed w.exits
    → Restored w (rotate_account c o w a).0
rotate_account-Restored c o w a h =
    let k = rotate_account-Kept c o w a h in
    record {
      slots_restored = k.slots_kept;
      well_restored = k.well_kept;
      identity_restored = k.identity_kept;
    }
