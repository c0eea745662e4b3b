-- ===== src/Trip/Slots.antt =====
-- A request gives back every slot that it took.
use Prim.Native.Nat.{suc, zero, ℕ, ◌+◌, ◌≤◌}
use mathlib.Core.Bool.{Bool, false, not, true}
use mathlib.Core.List.{[]}
use mathlib.Core.Logic.{inl, inr}
use mathlib.Core.Option.{Option, none, some}
use mathlib.Core.Path.{refl, ◌≡◌}
use native.Mathlib.Omega.{arith}
use gemini_web2api_go.Accounts.{CookieAccount, Store}
use gemini_web2api_go.Accounts.Identity.{identity_at}
use gemini_web2api_go.Accounts.Pick.{pick_cookie_account}
use gemini_web2api_go.Acquire.{Outcome, RateLimitError, refused, release_slot, taken}
use gemini_web2api_go.Acquire.Choice.{acquire_slot_except-Acquired}
use gemini_web2api_go.Acquire.Laws.{outcome_taken}
use gemini_web2api_go.Acquire.WellFormed.{IsWellFormed, same-IsWellFormed}
use gemini_web2api_go.Base.Int.{int_eq, pos, pos_part, ℤ}
use gemini_web2api_go.Base.Lists.{length}
use gemini_web2api_go.Base.Tests.{Bool-cases, if◌then◌else◌, nat_eq, ◌==◌}
use gemini_web2api_go.Base.Text.{Text, text_eq}
use gemini_web2api_go.Config.{RuntimeConfig}
use gemini_web2api_go.Models.{anon_first_eligible}
use gemini_web2api_go.Outside.{Outside, World, now_of, sent_count}
use gemini_web2api_go.Outside.Kept.{Restored}
use gemini_web2api_go.Outside.Reports.{pick-Kept}
use gemini_web2api_go.Payload.{Writers}
use gemini_web2api_go.Proxy.{Exits, Proxy}
use gemini_web2api_go.RateLimit.Slots.{inflight_of, one_if, slot_release-inflight}
use gemini_web2api_go.Rotation.Account.{release_at}
use gemini_web2api_go.Stream.Feed.Faithful.{IsFaithful}
use gemini_web2api_go.Trip.{
  Asked, Ending, Flow, Trip, go_on, leave, next_exit, release_current, stop, with_exits, with_store,
}
use gemini_web2api_go.Trip.Attach.{is_none_left}
use gemini_web2api_go.Trip.Balance.{Balanced, Holds-Balanced, mark_account-Holds, release-Balanced}
use gemini_web2api_go.Trip.SignIn.{max_cookie_tries}
use gemini_web2api_go.Trip.Switches.{
  after_round, board, bound_exit, conclude, conclude_with, exit_rounds, first_account, one_round,
  setting_out, stream_generate_with_files, with_exit,
}
use gemini_web2api_go.Trip.Through.{through_exit-Balanced}

module _ (c : RuntimeConfig) (o : Outside) (k : Writers) (q : Asked) (w : World) where
  -- The exit of the round is taken before the last one is given back.
  pub taken-Balanced :
      (t : Trip) (x : Exits) (p : Proxy)
      → Balanced w t
      → ((j : ℤ) → inflight_of x.slots j ≡ inflight_of t.world.exits.slots j + one_if (p.id == j))
      → IsWellFormed x
      → Balanced w (board t x p)
  unfolding board release_current release_slot
  taken-Balanced t x p h adds well = go t.slot_held refl
    where
      v : Trip
      v = record t { world = with_exits t.world x }

      go :
          (b : Bool)
          → t.slot_held ≡ b
          → (let u : Trip =
                if b
                then record v { world = release_at v.world v.picked.id; slot_held = false }
                else v in
              Balanced w (record u { picked = p; slot_held = true }))
      go false e = record {
        counts = λ j. ground (arith, e, adds j, h.counts j);
        well = well;
        faithful = h.faithful;
        few = h.few;
        identity = h.identity;
      }
      go true e = record {
        counts =
            λ j. ground (arith, e, adds j, h.counts j, slot_release-inflight x.slots t.picked.id j);
        well = same-IsWellFormed x _ refl refl refl refl well;
        faithful = h.faithful;
        few = h.few;
        identity = h.identity;
      }

  pub refused-Balanced :
      (t : Trip) (x : Exits) (e : RateLimitError)
      → Balanced w t
      → ((j : ℤ)
          → inflight_of x.slots j ≡ inflight_of t.world.exits.slots j + outcome_taken (refused e) j)
      → IsWellFormed x
      → Balanced w (record t { world = with_exits t.world x })
  refused-Balanced t x e h adds well = record {
    counts = λ j. omega (arith, adds j, h.counts j);
    well = well;
    faithful = h.faithful;
    few = h.few;
    identity = h.identity;
  }

  with_exit-Balanced :
      (is_first more : Bool) (t : Trip) (x : Exits) (out : Outcome)
      → Balanced w t
      → ((j : ℤ) → inflight_of x.slots j ≡ inflight_of t.world.exits.slots j + outcome_taken out j)
      → IsWellFormed x
      → Balanced w (with_exit c o k q is_first more t (x, out)).0
  unfolding with_exit
  with_exit-Balanced is_first more t x (taken p) h adds well =
      through_exit-Balanced c o k q w more _ (taken-Balanced t x p h adds well)
  with_exit-Balanced true more t x (refused e) h adds well = refused-Balanced t x e h adds well
  with_exit-Balanced false more t x (refused e) h adds well = refused-Balanced t x e h adds well

  pub one_round-Balanced :
      (prefer : ℤ) (is_first more : Bool) (t : Trip)
      → Balanced w t
      → Balanced w (one_round c o k q prefer is_first more t).0
  unfolding one_round
  one_round-Balanced prefer is_first more t h =
      let r =
        acquire_slot_except-Acquired c (now_of o t.world) (o.remote (sent_count t.world))
          t.excluded_ids t.excluded_urls t.world.exits (if is_first then prefer else pos 0)
          h.well in
      with_exit-Balanced is_first more t _ _ h r.adds r.well

  conclude_with-Balanced :
      (t : Trip) (m : Option Text) → Balanced w t → Balanced w (conclude_with o t m).0
  unfolding conclude_with
  conclude_with-Balanced t none h = h
  conclude_with-Balanced t (some e) h =
      Holds-Balanced w t _ (mark_account-Holds o t t.cookie_id t.last_status e) h

  conclude-Balanced : (t : Trip) → Balanced w t → Balanced w (conclude o t).0
  unfolding conclude
  conclude-Balanced t h = conclude_with-Balanced t t.last_err h

  after_round-Balanced :
      (t : Trip) (f : Flow) (g : Trip → Trip × Ending)
      → Balanced w t
      → (Balanced w t → Balanced w (g t).0)
      → Balanced w (after_round o (t, f) g).0
  after_round-Balanced t go_on g h l = l h
  after_round-Balanced t next_exit g h l = l h
  after_round-Balanced t stop g h l = conclude-Balanced t h
  after_round-Balanced t (leave e) g h l = h

  rounds-Balanced :
      (prefer : ℤ) (is_first : Bool) (n : ℕ) (t : Trip)
      → Balanced w t
      → Balanced w (exit_rounds c o k q prefer is_first n t).0
  unfolding exit_rounds
  rounds-Balanced prefer is_first zero t h =
      let r = one_round c o k q prefer is_first false t in
      after_round-Balanced r.0 r.1 (conclude o) (one_round-Balanced prefer is_first false t h)
        (λ i. conclude-Balanced r.0 i)
  rounds-Balanced prefer is_first (suc n) t h =
      let r = one_round c o k q prefer is_first true t in
      after_round-Balanced r.0 r.1 (exit_rounds c o k q prefer false n)
        (one_round-Balanced prefer is_first true t h) (λ i. rounds-Balanced prefer false n r.0 i)

  pub setting_out-Balanced :
      (s : Store) (a : Option CookieAccount)
      → IsWellFormed w.exits
      → ((j : ℤ) → identity_at s j ≡ identity_at w.store j)
      → Balanced w (setting_out (with_store w s) a)
  setting_out-Balanced s a h same = record {
    counts = λ j. omega arith;
    well = h;
    faithful = record { text_sent = refl; thought_sent = refl };
    few = omega arith;
    identity = same;
  }

  pub first-Balanced : IsWellFormed w.exits → Balanced w (first_account c o w q)
  unfolding first_account pick_cookie_account
  first-Balanced h =
      elim (Bool-cases (anon_first_eligible c q.model (not (is_none_left q.pending)))) [
        | inl e ↦ rw (e, first_account) (setting_out-Balanced w.store none h (λ j. refl))
        | inr e ↦
            rw (e, first_account)
              (setting_out-Balanced _ _ h (pick-Kept (now_of o w) w []).identity_kept)
      ]

  request-Balanced :
      IsWellFormed w.exits
      → (let t : Trip = (stream_generate_with_files c o k w q).0 in
          Balanced w t × (t.slot_held ≡ false))
  unfolding stream_generate_with_files
  request-Balanced h =
      let t = first_account c o w q in
      let n = pos_part c.proxy_retry_attempts in
      release-Balanced w _ (rounds-Balanced (bound_exit t.account) true n t (first-Balanced h))

  -- From well-formed exits, whatever happens to the request outside and however it ends, it leaves
  -- every slot with the requests in flight that it had, the exits well-formed, and every account with
  -- the identity that its cookie had.
  pub request-Restored :
      IsWellFormed w.exits → Restored w (stream_generate_with_files c o k w q).0.world
  request-Restored h =
      let (b, e) = request-Balanced h in
      record {
        slots_restored = λ j. ground (arith, e, b.counts j);
        well_restored = λ i. b.well;
        identity_restored = b.identity;
      }

  -- From well-formed exits, over all accounts, exits and attempts of a request, the client received
  -- exactly the text and the reasoning that the trackers hold as sent, and at most three accounts
  -- were tried.
  pub request-IsFaithful :
      IsWellFormed w.exits
      → (let t : Trip = (stream_generate_with_files c o k w q).0 in
          IsFaithful t.feed × (length t.tried ≤ max_cookie_tries))
  request-IsFaithful h = let (b, e) = request-Balanced h in (b.faithful, b.few)
