-- ===== src/Talk/Slots.antt =====
-- A turn of a conversation gives back every slot that it took.
use Prim.Native.Nat.{suc, zero, ℕ, ◌+◌}
use mathlib.Core.Bool.{Bool, false, true}
use mathlib.Core.Logic.{inl, inr}
use mathlib.Core.Option.{none}
use mathlib.Core.Path.{refl, subst, sym, ◌≡◌}
use native.Mathlib.Omega.{arith}
use gemini_web2api_go.Acquire.{Outcome, refused, taken}
use gemini_web2api_go.Acquire.Choice.{acquire_slot_except-Acquired}
use gemini_web2api_go.Acquire.Laws.{outcome_taken}
use gemini_web2api_go.Acquire.WellFormed.{IsWellFormed}
use gemini_web2api_go.Base.Int.{int_eq, pos_part, ℤ}
use gemini_web2api_go.Base.Tests.{Option-cases, nat_eq}
use gemini_web2api_go.Base.Text.{text_eq}
use gemini_web2api_go.Config.{RuntimeConfig}
use gemini_web2api_go.Conversation.{ConvState}
use gemini_web2api_go.Outside.{Outside, World, now_of, sent_count}
use gemini_web2api_go.Outside.Kept.{Restored}
use gemini_web2api_go.Payload.{Writers}
use gemini_web2api_go.Proxy.{Exits}
use gemini_web2api_go.RateLimit.Slots.{inflight_of}
use gemini_web2api_go.Stream.Feed.Faithful.{IsFaithful}
use gemini_web2api_go.Talk.{Talk}
use gemini_web2api_go.Talk.Attempts.{conv_attempts, conv_dispatch}
use gemini_web2api_go.Talk.Parts.{
  authorise-Balanced, conv_attempts-Spends, in_world-Balanced, settle-Balanced,
}
use gemini_web2api_go.Talk.Rounds.{
  conv_after, conv_conclude, conv_prefer, conv_round, conv_rounds, conv_through, conv_with_exit,
  converse, stream_generate_conv, ◌and_then◌,
}
use gemini_web2api_go.Talk.Settle.{authorise, settle}
use gemini_web2api_go.Tokens.Same.{current_bl-Same}
use gemini_web2api_go.Trip.{Asked, Ending, Flow, Trip, go_on, leave, next_exit, stop}
use gemini_web2api_go.Trip.Balance.{Balanced, release-Balanced}
use gemini_web2api_go.Trip.Slots.{refused-Balanced, setting_out-Balanced, taken-Balanced}
use gemini_web2api_go.Trip.Spends.{Spends-Balanced}
use gemini_web2api_go.Trip.Switches.{board, setting_out}
use gemini_web2api_go.Trip.Through.{after_attempts-Balanced}

module _ (c : RuntimeConfig) (o : Outside) (k : Writers) (nanos : ℕ → ℕ) (q : Asked)
    (w : World) where
  converse-Balanced :
      (more : Bool) (s : Talk)
      → Balanced w s.trip
      → Balanced w (converse c o k nanos q more s).0.trip
  unfolding converse conv_dispatch
  converse-Balanced more s b =
      let d = (conv_dispatch c o k nanos q.model q.prompt s).1 in
      let u = (conv_dispatch c o k nanos q.model q.prompt s).0 in
      let n = pos_part c.retry_attempts in
      let r = conv_attempts c o q d n u in
      after_attempts-Balanced c o k q w more r.0.trip r.1 (
        Spends-Balanced n w u.trip r.0.trip (conv_attempts-Spends c o k nanos q w d n u)
          (in_world-Balanced w s _ (current_bl-Same c o s.trip.world) b))

  and_then-Balanced :
      (s : Talk) (f : Flow) (g : Talk → Talk × Flow)
      → Balanced w s.trip
      → (Balanced w s.trip → Balanced w (g s).0.trip)
      → Balanced w ((s, f) and_then g).0.trip
  and_then-Balanced s go_on g h l = l h
  and_then-Balanced s next_exit g h l = h
  and_then-Balanced s stop g h l = h
  and_then-Balanced s (leave e) g h l = h

  conv_with_exit-Balanced :
      (is_first more : Bool) (s : Talk) (x : Exits) (out : Outcome)
      → Balanced w s.trip
      → ((j : ℤ)
          → inflight_of x.slots j ≡ inflight_of s.trip.world.exits.slots j + outcome_taken out j)
      → IsWellFormed x
      → Balanced w (conv_with_exit c o k nanos q is_first more s (x, out)).0.trip
  unfolding conv_with_exit conv_through
  conv_with_exit-Balanced is_first more s x (taken p) b adds well =
      let u = record s { trip = board s.trip x p } in
      let a = settle c o is_first more u in
      let m = a and_then authorise c o more in
      and_then-Balanced m.0 m.1 (converse c o k nanos q more)
        (and_then-Balanced a.0 a.1 (authorise c o more)
          (settle-Balanced c o k nanos q w is_first more u
            (taken-Balanced c o k q w s.trip x p b adds well))
          (authorise-Balanced c o k nanos q w more a.0))
        (converse-Balanced more m.0)
  conv_with_exit-Balanced true more s x (refused e) b adds well =
      refused-Balanced c o k q w s.trip x e b adds well
  conv_with_exit-Balanced false more s x (refused e) b adds well =
      refused-Balanced c o k q w s.trip x e b adds well

  conv_round-Balanced :
      (is_first more : Bool) (s : Talk)
      → Balanced w s.trip
      → Balanced w (conv_round c o k nanos q is_first more s).0.trip
  unfolding conv_round
  conv_round-Balanced is_first more s b =
      let r =
        acquire_slot_except-Acquired c (now_of o s.trip.world) (o.remote (sent_count s.trip.world))
          s.trip.excluded_ids s.trip.excluded_urls s.trip.world.exits (conv_prefer c o is_first s)
          b.well in
      conv_with_exit-Balanced is_first more s _ _ b r.adds r.well

  conv_conclude-trip : (s : Talk) → (conv_conclude s).0 ≡ s
  unfolding conv_conclude
  conv_conclude-trip s = elim (Option-cases s.trip.last_err) [
    | inl e ↦ simp (e, conv_conclude)
    | inr (m, e) ↦ simp (e, conv_conclude)
  ]

  conclude-Balanced : (s : Talk) → Balanced w s.trip → Balanced w (conv_conclude s).0.trip
  conclude-Balanced s b = subst (λ (u : Talk). Balanced w u.trip) (sym (conv_conclude-trip s)) b

  conv_after-Balanced :
      (s : Talk) (f : Flow) (g : Talk → Talk × Ending)
      → Balanced w s.trip
      → (Balanced w s.trip → Balanced w (g s).0.trip)
      → Balanced w (conv_after (s, f) g).0.trip
  conv_after-Balanced s go_on g h l = l h
  conv_after-Balanced s next_exit g h l = l h
  conv_after-Balanced s stop g h l = conclude-Balanced s h
  conv_after-Balanced s (leave e) g h l = h

  conv_rounds-Balanced :
      (is_first : Bool) (n : ℕ) (s : Talk)
      → Balanced w s.trip
      → Balanced w (conv_rounds c o k nanos q is_first n s).0.trip
  unfolding conv_rounds
  conv_rounds-Balanced is_first zero s b =
      let r = conv_round c o k nanos q is_first false s in
      conv_after-Balanced r.0 r.1 conv_conclude (conv_round-Balanced is_first false s b)
        (conclude-Balanced r.0)
  conv_rounds-Balanced is_first (suc n) s b =
      let r = conv_round c o k nanos q is_first true s in
      conv_after-Balanced r.0 r.1 (conv_rounds c o k nanos q false n)
        (conv_round-Balanced is_first true s b) (conv_rounds-Balanced false n r.0)

  -- From well-formed exits, whatever happens to a turn of a conversation outside and however it
  -- ends, every slot has the requests in flight that it had, the exits are well-formed, every account
  -- has the identity that its cookie had, and the client received exactly the text and the reasoning
  -- that the trackers hold as sent.
  pub turn-Restored :
      (v : ConvState)
      → IsWellFormed w.exits
      → (let t : Trip = (stream_generate_conv c o k nanos w q v).0.trip in
          Restored w t.world × IsFaithful t.feed)
  unfolding stream_generate_conv
  turn-Restored v h =
      let s : Talk = record { trip = setting_out w none; conv = v } in
      let start = setting_out-Balanced c o k q w w.store none h (λ j. refl) in
      let (b, e) =
        release-Balanced w _
          (conv_rounds-Balanced true (pos_part c.proxy_retry_attempts) s start) in
      (
        record {
          slots_restored = λ j. ground (arith, e, b.counts j);
          well_restored = λ i. b.well;
          identity_restored = b.identity;
        },
        b.faithful,
      )
