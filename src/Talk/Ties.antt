-- ===== src/Talk/Ties.antt =====
-- What the parts of a turn leave of the state that the next turn goes on from.
use Prim.Native.Nat.{ℕ}
use mathlib.Core.Bool.{Bool, false, not, true, ◌&&◌, ◌||◌}
use mathlib.Core.List.{List, [], ◌∷◌}
use mathlib.Core.Logic.{inl, inr}
use mathlib.Core.Option.{Option, none, some}
use mathlib.Core.Path.{ap, refl, ◌≡◌}
use gemini_web2api_go.Base.Int.{int_eq, pos, ℤ}
use gemini_web2api_go.Base.Result.{Result, erred, fine}
use gemini_web2api_go.Base.Tests.{Bool-cases, if◌then◌else◌, nat_eq, ◌==◌}
use gemini_web2api_go.Base.Text.{Text, is_empty, text_eq}
use gemini_web2api_go.Config.{RuntimeConfig}
use gemini_web2api_go.Conversation.{ConvState}
use gemini_web2api_go.Frames.{has_content_frame}
use gemini_web2api_go.Outside.{
  Outside, Reply, World, broken_off, exchange, no_reply, replied, sent_count,
}
use gemini_web2api_go.Payload.{Writers}
use gemini_web2api_go.Rotation.Account.{release_at}
use gemini_web2api_go.Talk.{Talk, continued, get_anon_session}
use gemini_web2api_go.Talk.Attempts.{
  conv_answer, conv_cookies, conv_handle, conv_reply, conv_send, put_trip,
}
use gemini_web2api_go.Talk.Continued.{after_answer}
use gemini_web2api_go.Talk.Settle.{
  after_session, after_xsrf, authorise, fail_setup, in_world, settle,
}
use gemini_web2api_go.Tokens.{get_xsrf}
use gemini_web2api_go.Trip.{
  Asked, Ending, Flow, StreamResult, Trip, exclude_picked, go_on, has_emitted, leave, next_exit,
  release_current, report, stop, succeeded,
}
use gemini_web2api_go.Trip.Attach.{is_none_left}
use gemini_web2api_go.Trip.Attempts.{
  Dispatch, Seen, Turn, again, broke, came, crashed, delivered, fail_with, generate_request,
  stream_result,
}
use gemini_web2api_go.Trip.Balance.{cool_down-Holds, is_some, report-Holds}

-- The account of a conversation and its place at the upstream.
abbrev Ties : Type 0
Ties = (Bool × (ℤ × Text)) × ((Text × (Text × (Text × Text))) × ℕ)

abbrev ties : ConvState → Ties
ties v = ((v.is_login, (v.account_id, v.sapisid)), ((v.cid, (v.rid, (v.rcid, v.tok26))), v.turn))

-- The second conversation has the account and the place of the first one.
unfoldable pub Stays : ConvState → ConvState → Type 0
Stays v u = ties u ≡ ties v

-- After an answer the conversation goes on from it, and after any other end from where it was.
unfoldable pub GoesOn : Outside → ConvState → ConvState → Ending → Type 0
GoesOn o v u (succeeded r) = Stays (after_answer o v r.raw) u
GoesOn o v u _ = Stays v u

-- A turn that is not over, with an error that is there.
abbrev pub Waits : ConvState → Talk → Type 0
Waits v k = Stays v k.conv × (is_some k.trip.last_err ≡ true)

abbrev pub Handled : Outside → ConvState → Talk × Turn → Type 0
Handled o v (k, delivered r) = Stays (continued o v r.raw) k.conv
Handled o v (k, _) = Waits v k

abbrev pub Attempted : Outside → ConvState → Talk × Option StreamResult → Type 0
Attempted o v (k, some r) = Stays (continued o v r.raw) k.conv
Attempted o v (k, none) = Waits v k

abbrev pub Done : Outside → ConvState → Talk × Flow → Type 0
Done o v (k, leave e) = GoesOn o v k.conv e
Done o v (k, _) = Waits v k

-- A part of a round before its attempts.
abbrev pub Begun : Outside → ConvState → Talk × Flow → Type 0
Begun o v (k, go_on) = Stays v k.conv
Begun o v (k, f) = Done o v (k, f)

-- A conversation with such ties.
abbrev tied : Ties → ConvState
tied t = record {
  cid = t.1.0.0;
  rid = t.1.0.1.0;
  rcid = t.1.0.1.1.0;
  tok26 = t.1.0.1.1.1;
  turn = t.1.1;
  cookie = [];
  sapisid = t.0.1.1;
  is_login = t.0.0;
  account_id = t.0.1.0;
  proxy_id = pos 0;
  proxy_url = [];
  updated = 0;
}

continued-Stays :
    (o : Outside) (v u : ConvState) (raw : Text)
    → Stays v u
    → Stays (continued o v raw) (continued o u raw)
unfolding continued Stays
continued-Stays o v u raw h = ap (λ t. ties (continued o (tied t) raw)) h

conv_cookies-Stays :
    (o : Outside) (v u : ConvState) (cookies : List Text)
    → Stays v u
    → Stays v (conv_cookies o u cookies)
unfolding conv_cookies Stays
conv_cookies-Stays o v u cookies h = elim (Bool-cases (is_none_left cookies || is_empty u.cookie)) [
  | inl e ↦ rw (e, conv_cookies) h
  | inr e ↦ rw (e, conv_cookies) h
]

pub release-is_some :
    (t : Trip) → is_some t.last_err ≡ true → is_some (release_current t).last_err ≡ true
unfolding release_current
release-is_some t h = go t.slot_held
  where
    go :
        (b : Bool)
        → (let u : Trip =
              if b
              then record t { world = release_at t.world t.picked.id; slot_held = false }
              else t in
            is_some u.last_err ≡ true)
    go true = h
    go false = h

module _ (c : RuntimeConfig) (o : Outside) (k : Writers) (nanos : ℕ → ℕ) (q : Asked)
    (v : ConvState) where
  fail_setup-Done :
      (more : Bool) (i : ℤ) (err : Text) (s : Talk)
      → Stays v s.conv
      → Done o v (fail_setup c o more i err s)
  unfolding fail_setup GoesOn exclude_picked
  fail_setup-Done true i err s h =
      let t = record s.trip { last_err = some err } in
      (h, release-is_some _ ((cool_down-Holds c o t err).err_kept refl))
  fail_setup-Done false i err s h = h

  Done-Begun : (s : Talk) (f : Flow) → Done o v (s, f) → Begun o v (s, f)
  Done-Begun s go_on h = h.0
  Done-Begun s next_exit h = h
  Done-Begun s stop h = h
  Done-Begun s (leave e) h = h

  failed-Begun :
      (more : Bool) (i : ℤ) (err : Text) (s : Talk)
      → Stays v s.conv
      → Begun o v (fail_setup c o more i err s)
  failed-Begun more i err s h =
      let r = fail_setup c o more i err s in Done-Begun r.0 r.1 (fail_setup-Done more i err s h)

  after_session-Begun :
      (more : Bool) (s : Talk) (w : World) (r : Result Text)
      → Stays v s.conv
      → Begun o v (after_session c o more s (w, r))
  unfolding after_session Stays
  after_session-Begun more s w (erred e) h = failed-Begun more (pos 0) _ (in_world s w) h
  after_session-Begun more s w (fine session) h = h

  pub settle-Begun :
      (is_first more : Bool) (s : Talk) → Stays v s.conv → Begun o v (settle c o is_first more s)
  unfolding settle Stays
  settle-Begun is_first more s h = elim (Bool-cases (is_first && not (s.conv.turn == 0))) [
    | inl e ↦ rw (e, settle) h
    | inr e ↦ elim (Bool-cases (is_empty s.conv.cookie && not s.conv.is_login)) [
      | inr d ↦ rw (e, d, settle) h
      | inl d ↦
          let p = s.trip.picked in
          let r = get_anon_session o s.trip.world p.url in
          rw (e, d, settle)
            (after_session-Begun more
              (record s { conv = record s.conv { proxy_id = p.id; proxy_url = p.url } }) r.0 r.1 h)
    ]
  ]

  after_xsrf-Begun :
      (more : Bool) (s : Talk) (w : World) (r : Result Text)
      → Stays v s.conv
      → Begun o v (after_xsrf c o more s (w, r))
  unfolding after_xsrf
  after_xsrf-Begun more s w (erred e) h = failed-Begun more s.conv.account_id _ (in_world s w) h
  after_xsrf-Begun more s w (fine token) h = h

  pub authorise-Begun : (more : Bool) (s : Talk) → Stays v s.conv → Begun o v (authorise c o more s)
  unfolding authorise
  authorise-Begun more s h = elim (Bool-cases (s.conv.is_login && not (is_empty s.conv.cookie))) [
    | inl e ↦
        let r = get_xsrf o s.trip.world s.conv.cookie s.trip.picked.url in
        rw (e, authorise) (after_xsrf-Begun more s r.0 r.1 h)
    | inr e ↦ rw (e, authorise) h
  ]

  pub conv_send-Stays :
      (s : Talk) (d : Dispatch) → Stays v s.conv → Stays v (conv_send o q s d).0.conv
  unfolding conv_send exchange conv_reply
  conv_send-Stays s d h = go (o.reply (sent_count s.trip.world) (generate_request s.trip d))
    where
      u : Talk
      u = in_world s (record s.trip.world { log = generate_request s.trip d ∷ s.trip.world.log })

      go : (r : Reply) → Stays v (conv_reply o q u r).0.conv
      go (no_reply e) = h
      go (broken_off status cookies got e) = conv_cookies-Stays o v s.conv cookies h
      go (replied status head cookies got) = conv_cookies-Stays o v s.conv cookies h

  failed-Handled :
      (s : Talk) (err : Text) → Stays v s.conv → Handled o v (put_trip s (fail_with c o s.trip err))
  unfolding fail_with
  failed-Handled s err h = go (has_emitted s.trip)
    where
      u : Trip
      u = record s.trip { last_err = some err }

      noted : is_some (report c o u false err).last_err ≡ true
      noted = (report-Holds c o u false err).err_kept refl

      go :
          (b : Bool) → Handled o v (put_trip s (report c o u false err, if b then broke else again))
      go true = (h, noted)
      go false = (h, noted)

  pub conv_handle-Handled :
      (s : Talk) (r : Seen) → Stays v s.conv → Handled o v (conv_handle c o (s, r))
  unfolding conv_handle conv_answer stream_result
  conv_handle-Handled s (crashed e) h = failed-Handled s e h
  conv_handle-Handled s (came status raw) h = elim (Bool-cases (status == 200)) [
    | inr e ↦ rw e (failed-Handled s _ h)
    | inl e ↦ elim (Bool-cases (has_content_frame o.parse raw)) [
      | inl d ↦ rw (e, d) (continued-Stays o v s.conv raw h)
      | inr d ↦ rw (e, d) (failed-Handled s _ h)
    ]
  ]
