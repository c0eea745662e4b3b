-- ===== src/Talk/Parts.antt =====
-- The parts of a turn keep the account of slots, feeds and identities.
use Prim.Native.Nat.{suc, zero, ℕ, ◌+◌}
use mathlib.Core.Bool.{Bool, false, not, true, ◌&&◌}
use mathlib.Core.List.{[], ◌++◌, ◌∷◌}
use mathlib.Core.Logic.{inl, inr}
use mathlib.Core.Option.{Option, some}
use mathlib.Core.Path.{refl}
use native.Mathlib.Omega.{arith}
use gemini_web2api_go.Base.Int.{int_eq, pos, ℤ}
use gemini_web2api_go.Base.Result.{Result, erred, fine, utf8}
use gemini_web2api_go.Base.Tests.{Bool-cases, if◌then◌else◌, nat_eq, ◌==◌}
use gemini_web2api_go.Base.Text.{Text, is_empty, text_eq}
use gemini_web2api_go.Config.{RuntimeConfig}
use gemini_web2api_go.Frames.{has_content_frame}
use gemini_web2api_go.Outside.{
  Outside, Reply, World, broken_off, exchange, no_reply, replied, sent_count,
}
use gemini_web2api_go.Outside.Kept.{Same, Same-Kept, Same-refl}
use gemini_web2api_go.Payload.{Writers}
use gemini_web2api_go.Talk.{Talk, get_anon_session, session_request}
use gemini_web2api_go.Talk.Attempts.{
  conv_answer, conv_attempts, conv_handle, conv_reply, conv_send, conv_unless_over,
}
use gemini_web2api_go.Talk.Settle.{
  after_session, after_xsrf, authorise, conv_attribution, fail_setup, in_world, settle,
}
use gemini_web2api_go.Tokens.{get_xsrf}
use gemini_web2api_go.Tokens.Same.{get_xsrf-Same}
use gemini_web2api_go.Trip.{
  Asked, Flow, StreamResult, Trip, cool_down, exclude_picked, gave_up, leave, next_exit,
  release_current,
}
use gemini_web2api_go.Trip.AttachLaws.{exclude-Holds}
use gemini_web2api_go.Trip.Attempts.{
  Dispatch, Seen, Turn, again, broke, came, crashed, delivered, generate_request,
}
use gemini_web2api_go.Trip.AttemptsLaws.{fail_with-Holds, fed-Holds}
use gemini_web2api_go.Trip.Balance.{
  Balanced, Holds, Holds-Balanced, Holds-refl, Holds-world, cool_down-Holds, release-Balanced,
  report-Holds,
}
use gemini_web2api_go.Trip.Spends.{
  Holds-Spends, Spends, Spends-more, Spends-then, Spends-trans, with_log,
}

session-Same :
    (o : Outside) (w : World) (proxy_url : Text) → Same w (get_anon_session o w proxy_url).0
unfolding get_anon_session exchange session_request
session-Same o w proxy_url = record { same_exits = refl; same_store = refl; same_asked = refl }

-- What happens outside in a part of a round.
pub in_world-Balanced :
    (w : World) (s : Talk) (v : World)
    → Same s.trip.world v
    → Balanced w s.trip
    → Balanced w (in_world s v).trip
in_world-Balanced w s v h b =
    Holds-Balanced w s.trip _ (Holds-world s.trip v (Same-Kept s.trip.world v h)) b

module _ (c : RuntimeConfig) (o : Outside) (k : Writers) (nanos : ℕ → ℕ) (q : Asked)
    (w : World) where
  fail_setup-Balanced :
      (more : Bool) (i : ℤ) (err : Text) (s : Talk)
      → Balanced w s.trip
      → Balanced w (fail_setup c o more i err s).0.trip
  unfolding fail_setup
  fail_setup-Balanced more i err s h = go more
    where
      t : Trip
      t = record s.trip { last_err = some err }

      noted : Holds s.trip t
      noted = record {
        world_kept = Same-Kept s.trip.world s.trip.world (Same-refl s.trip.world);
        same_picked = refl;
        same_held = refl;
        feed_kept = λ f. f;
        few_kept = λ f. f;
        err_kept = λ f. refl;
      }

      cooled : Balanced w (cool_down c o t err)
      cooled = Holds-Balanced w t _ (cool_down-Holds c o t err) (Holds-Balanced w s.trip t noted h)

      go :
          (m : Bool)
          → (let u : Trip = cool_down c o t err in
              let r : Talk × Flow =
                if m
                then (record s { trip = release_current (exclude_picked u) }, next_exit)
                else (record s { trip = u }, leave (gave_up (conv_attribution i u.picked) err)) in
              Balanced w r.0.trip)
      go false = cooled
      go true =
          (release-Balanced w _
            (Holds-Balanced w _ _ (exclude-Holds (cool_down c o t err)) cooled)).0

  after_session-Balanced :
      (more : Bool) (s : Talk) (v : World) (r : Result Text)
      → Same s.trip.world v
      → Balanced w s.trip
      → Balanced w (after_session c o more s (v, r)).0.trip
  unfolding after_session
  after_session-Balanced more s v (erred e) h b =
      fail_setup-Balanced more (pos 0) (utf8 "建匿名会话失败: " ++ e) (in_world s v)
        (in_world-Balanced w s v h b)
  after_session-Balanced more s v (fine session) h b = in_world-Balanced w s v h b

  pub settle-Balanced :
      (is_first more : Bool) (s : Talk)
      → Balanced w s.trip
      → Balanced w (settle c o is_first more s).0.trip
  unfolding settle
  settle-Balanced is_first more s b = elim (Bool-cases (is_first && not (s.conv.turn == 0))) [
    | inl e ↦ rw (e, settle) b
    | inr e ↦ elim (Bool-cases (is_empty s.conv.cookie && not s.conv.is_login)) [
      | inr d ↦ rw (e, d, settle) b
      | inl d ↦
          let p = s.trip.picked in
          let r = get_anon_session o s.trip.world p.url in
          rw (e, d, settle)
            (after_session-Balanced more
              (record s { conv = record s.conv { proxy_id = p.id; proxy_url = p.url } }) r.0 r.1
              (session-Same o s.trip.world p.url) b)
    ]
  ]

  after_xsrf-Balanced :
      (more : Bool) (s : Talk) (v : World) (r : Result Text)
      → Same s.trip.world v
      → Balanced w s.trip
      → Balanced w (after_xsrf c o more s (v, r)).0.trip
  unfolding after_xsrf
  after_xsrf-Balanced more s v (erred e) h b =
      fail_setup-Balanced more s.conv.account_id (utf8 "取 XSRF 失败: " ++ e) (in_world s v)
        (in_world-Balanced w s v h b)
  after_xsrf-Balanced more s v (fine token) h b =
      let i = in_world-Balanced w s v h b in
      record {
        counts = i.counts;
        well = i.well;
        faithful = i.faithful;
        few = i.few;
        identity = i.identity;
      }

  pub authorise-Balanced :
      (more : Bool) (s : Talk) → Balanced w s.trip → Balanced w (authorise c o more s).0.trip
  unfolding authorise
  authorise-Balanced more s b =
      elim (Bool-cases (s.conv.is_login && not (is_empty s.conv.cookie))) [
        | inl e ↦
            let r = get_xsrf o s.trip.world s.conv.cookie s.trip.picked.url in
            rw (e, authorise)
              (after_xsrf-Balanced more s r.0 r.1
                (get_xsrf-Same o s.trip.world s.conv.cookie s.trip.picked.url) b)
        | inr e ↦
            rw (e, authorise)
              (record {
                counts = b.counts;
                well = b.well;
                faithful = b.faithful;
                few = b.few;
                identity = b.identity;
              })
      ]

  conv_reply-Holds : (s : Talk) (r : Reply) → Holds s.trip (conv_reply o q s r).0.trip
  unfolding conv_reply
  conv_reply-Holds s (no_reply e) = Holds-refl s.trip
  conv_reply-Holds s (broken_off status cookies got e) = fed-Holds o q s.trip got
  conv_reply-Holds s (replied status head cookies got) = fed-Holds o q s.trip got

  conv_send-Spends : (s : Talk) (d : Dispatch) → Spends 1 s.trip (conv_send o q s d).0.trip
  unfolding conv_send exchange
  conv_send-Spends s d =
      let l = generate_request s.trip d ∷ s.trip.world.log in
      record {
        log_then = l;
        within = omega arith;
        holds =
            conv_reply-Holds (record s { trip = with_log s.trip l })
              (o.reply (sent_count s.trip.world) (generate_request s.trip d));
      }

  conv_handle-Holds : (s : Talk) (r : Seen) → Holds s.trip (conv_handle c o (s, r)).0.trip
  unfolding conv_handle conv_answer
  conv_handle-Holds s (crashed e) = fail_with-Holds c o s.trip e
  conv_handle-Holds s (came status raw) = elim (Bool-cases (status == 200)) [
    | inr e ↦ rw e (fail_with-Holds c o s.trip _)
    | inl e ↦ elim (Bool-cases (has_content_frame o.parse raw)) [
      | inl d ↦ rw (e, d) (report-Holds c o s.trip true [])
      | inr d ↦ rw (e, d) (fail_with-Holds c o s.trip _)
    ]
  ]

  conv_unless_over-Spends :
      (n m : ℕ) (t : Trip) (u : Talk) (r : Turn) (f : Talk → Talk × Option StreamResult)
      → Spends n t u.trip
      → Spends m u.trip (f u).0.trip
      → Spends (n + m) t (conv_unless_over (u, r) f).0.trip
  conv_unless_over-Spends n m t u (delivered r) f h l =
      Spends-more n (n + m) t u.trip (omega arith) h
  conv_unless_over-Spends n m t u broke f h l = Spends-more n (n + m) t u.trip (omega arith) h
  conv_unless_over-Spends n m t u again f h l =
      Spends-trans n m (n + m) t u.trip (f u).0.trip (omega arith) h l

  pub conv_attempts-Spends :
      (d : Dispatch) (n : ℕ) (s : Talk) → Spends n s.trip (conv_attempts c o q d n s).0.trip
  unfolding conv_attempts
  conv_attempts-Spends d zero s = Holds-Spends 0 s.trip s.trip (Holds-refl s.trip)
  conv_attempts-Spends d (suc n) s =
      let p = conv_send o q s d in
      let r = conv_handle c o p in
      Spends-more (1 + n) (suc n) s.trip _ (omega arith) (
        conv_unless_over-Spends 1 n s.trip r.0 r.1 (conv_attempts c o q d n)
          (Spends-then 1 s.trip p.0.trip r.0.trip (conv_send-Spends s d)
            (conv_handle-Holds p.0 p.1))
          (conv_attempts-Spends d n r.0))
