-- ===== src/Trip/Answered.antt =====
-- A request whose attempts come to an answer in time ends with it.
use Prim.Native.Nat.{suc, zero, ℕ, ◌<◌}
use mathlib.Core.Bool.{Bool, false, not, true, ◌&&◌}
use mathlib.Core.List.{List, [], ◌∷◌}
use mathlib.Core.Logic.{inl, inr}
use mathlib.Core.Option.{Option, none, some}
use mathlib.Core.Path.{ap, refl, subst, sym, ◌∙◌, ◌≡◌}
use native.Mathlib.Omega.{arith}
use gemini_web2api_go.Acquire.{acquire_slot_except, taken}
use gemini_web2api_go.Base.Int.{int_eq, pos, pos_part}
use gemini_web2api_go.Base.Lists.{length}
use gemini_web2api_go.Base.Tests.{Bool-cases, if◌then◌else◌, ltb, nat_eq, some-eq-some, ◌==◌}
use gemini_web2api_go.Base.Text.{Text, text_eq}
use gemini_web2api_go.Config.{RuntimeConfig}
use gemini_web2api_go.Cookie.{Pair}
use gemini_web2api_go.Frames.{has_content_frame}
use gemini_web2api_go.Models.{anon_first_eligible}
use gemini_web2api_go.Outside.{
  Outside, Request, World, exchange, no_reply, now_of, replied, sent_count,
}
use gemini_web2api_go.Payload.{Writers}
use gemini_web2api_go.Proxy.{Exits, Proxy}
use gemini_web2api_go.Tokens.{get_xsrf, invalidate_xsrf}
use gemini_web2api_go.Trip.{
  Asked, Ending, Flow, StreamResult, Trip, go_on, has_emitted, leave, next_exit, release_current,
  report, stop, succeeded,
}
use gemini_web2api_go.Trip.Anonymous.{Sight, current_bl-log, report-Alike}
use gemini_web2api_go.Trip.Attach.{is_none_left, ready, within_budget}
use gemini_web2api_go.Trip.Attempts.{
  Dispatch, Seen, again, attempt_loop, broke, came, complete, crashed, fail_with, fed,
  generate_request, handle, is_stale_token, renew_token, send_once, stream_result, take_cookies,
  take_reply, unless_over,
}
use gemini_web2api_go.Trip.NoAccount.{eligible-files}
use gemini_web2api_go.Trip.Switches.{
  after_attempts, after_round, board, conclude, dispatch, exit_rounds, first_account, one_round,
  setting_out, stream_generate_with_files, through_exit, try_prompt, with_exit,
}
use gemini_web2api_go.Trip.Unsigned.{prepare-same, upload_pending-same, with_account-same}

-- The requests from number `m` on: `i` of them get no reply, and the next one gets the body `raw`.
abbrev pub AnswersIn : Outside → Text → ℕ → ℕ → Type 0
AnswersIn o raw m zero =
    (head : List Pair) × (cookies : List Text) × ((r : Request)
      → o.reply m r ≡ replied 200 head cookies raw)
AnswersIn o raw m (suc i) =
    (e : Text) × ((r : Request) → o.reply m r ≡ no_reply e) × AnswersIn o raw (suc m) i

abbrev Gives : Text → Option StreamResult → Type 0
Gives raw m = (r : StreamResult) × (m ≡ some r) × (r.raw ≡ raw)

abbrev Leaves : Text → Flow → Type 0
Leaves raw f = (r : StreamResult) × (f ≡ leave (succeeded r)) × (r.raw ≡ raw)

abbrev pub Ends : Text → Ending → Type 0
Ends raw e = (r : StreamResult) × (e ≡ succeeded r) × (r.raw ≡ raw)

Leaves-Ends :
    (o : Outside) (raw : Text) (t : Trip) (f : Flow) (g : Trip → Trip × Ending)
    → Leaves raw f
    → Ends raw (after_round o (t, f) g).1
Leaves-Ends o raw t go_on g (r, e, same) = cc
Leaves-Ends o raw t next_exit g (r, e, same) = cc
Leaves-Ends o raw t stop g (r, e, same) = cc
Leaves-Ends o raw t (leave f) g (r, e, same) = (r, cc, same)

module _ (c : RuntimeConfig) (o : Outside) (k : Writers) (q : Asked) (raw : Text) where
  report-has_emitted :
      (t : Trip) (b : Bool) (err : Text) → has_emitted (report c o t b err) ≡ has_emitted t
  unfolding report
  report-has_emitted t b err = elim (Bool-cases (t.picked.id == pos 0)) [
    | inl e ↦ rw (e, report)
    | inr e ↦ rw (e, report)
  ]

  unheard :
      (d : Dispatch) (t : Trip) (e : Text)
      → ((r : Request) → o.reply (sent_count t.world) r ≡ no_reply e)
      → send_once o q t d ≡ (
        record t { world = record t.world { log = generate_request t d ∷ t.world.log } },
        crashed e,
      )
  unfolding send_once exchange take_reply
  unheard d t e h =
      ap
        (take_reply o q
          (record t { world = record t.world { log = generate_request t d ∷ t.world.log } }))
        (h (generate_request t d))

  heard :
      (d : Dispatch) (t : Trip) (head : List Pair) (cookies : List Text)
      → ((r : Request) → o.reply (sent_count t.world) r ≡ replied 200 head cookies raw)
      → (u : Trip) × (send_once o q t d ≡ (u, came 200 raw))
  unfolding send_once exchange take_reply
  heard d t head cookies h =
      let u = record t { world = record t.world { log = generate_request t d ∷ t.world.log } } in
      (take_cookies o (fed o q u raw) cookies, ap (take_reply o q u) (h (generate_request t d)))

  module _ (content : has_content_frame o.parse raw ≡ true) where
    handle-Gives :
        (t : Trip) (f : Trip → Trip × Option StreamResult)
        → Gives raw (unless_over (handle c o t (came 200 raw)) f).1
    unfolding handle complete stream_result
    handle-Gives t f = rw content (stream_result o t raw, refl, refl)

    -- What an attempt does with what came back.
    abbrev after_sending : Dispatch → ℕ → Trip × Seen → Trip × Option StreamResult
    unfolding is_stale_token renew_token attempt_loop handle
    after_sending d n p =
        if is_stale_token p.0 p.1
        then renew_token c o k q d n p.0 p.1
            (get_xsrf o (invalidate_xsrf o p.0.world p.0.cookie_str) p.0.cookie_str p.0.picked.url)
        else unless_over (handle c o p.0 p.1) (attempt_loop c o k q d n)

    -- The state after an attempt without a reply.
    abbrev noted : Dispatch → Trip → Text → Trip
    noted d t e = record t {
      world = record t.world { log = generate_request t d ∷ t.world.log };
      last_err = some e;
    }

    noted-count :
        (d : Dispatch) (t : Trip) (e : Text)
        → sent_count (report c o (noted d t e) false e).world ≡ suc (sent_count t.world)
    noted-count d t e =
        ap (λ (s : Sight × List Request). length s.1) (report-Alike c o (noted d t e) false e)

    goes-again :
        (b : Bool) (t : Trip) (f : Trip → Trip × Option StreamResult)
        → b ≡ false
        → Gives raw (f t).1
        → Gives raw (unless_over (t, if b then broke else again) f).1
    goes-again true t f e h = cc
    goes-again false t f e h = h

    attempts-Gives :
        (d : Dispatch) (i n : ℕ) (t : Trip)
        → i < n
        → has_emitted t ≡ false
        → AnswersIn o raw (sent_count t.world) i
        → Gives raw (attempt_loop c o k q d n t).1
    unfolding attempt_loop is_stale_token after_sending handle fail_with
    attempts-Gives d i zero t l h a = elim (l) [ ]
    attempts-Gives d zero (suc n) t l h (head, cookies, a) =
        let (u, e) = heard d t head cookies a in
        subst (λ p. Gives raw (after_sending d n p).1) (sym e)
          (handle-Gives u (attempt_loop c o k q d n))
    attempts-Gives d (suc i) (suc n) t l h (e, fails, a) =
        let u = report c o (noted d t e) false e in
        subst (λ p. Gives raw (after_sending d n p).1) (sym (unheard d t e fails))
          (goes-again (has_emitted t) u (attempt_loop c o k q d n) h (
            attempts-Gives d i n u (omega arith) (report-has_emitted (noted d t e) false e ∙ h)
              (subst (λ m. AnswersIn o raw m i) (sym (noted-count d t e)) a)))

    after_attempts-Leaves :
        (more : Bool) (t : Trip) (m : Option StreamResult)
        → Gives raw m
        → Leaves raw (after_attempts c o more (t, m)).1
    unfolding after_attempts
    after_attempts-Leaves more t none (r, e, same) = cc
    after_attempts-Leaves more t (some s) (r, e, same) =
        (r, ap (λ x. leave (succeeded x)) (some-eq-some s r e), same)

    dispatched-Leaves :
        (more : Bool) (i : ℕ) (t : Trip) (prompt : Text)
        → i < pos_part c.retry_attempts
        → has_emitted t ≡ false
        → AnswersIn o raw (sent_count t.world) i
        → Leaves raw (try_prompt c o k q more (t, ready prompt)).1
    unfolding try_prompt dispatch
    dispatched-Leaves more i t prompt l h a =
        let u = (dispatch c o k q t prompt).0 in
        let d = (dispatch c o k q t prompt).1 in
        let n = pos_part c.retry_attempts in
        after_attempts-Leaves more (attempt_loop c o k q d n u).0 (attempt_loop c o k q d n u).1 (
          attempts-Gives d i n u l h
            (subst (λ l'. AnswersIn o raw (length l') i) (sym (current_bl-log c o t.world)) a))

    -- A request without an account and attachments, whose prompt is not too long.
    module _ (w : World)
        (free : anon_first_eligible c q.model (not (is_none_left q.pending)) ≡ true)
        (fits : (ltb 0 (pos_part c.max_prompt_bytes)
            && ltb (pos_part c.max_prompt_bytes) (length q.prompt))
          ≡ false) where
      boarded-Leaves :
          (more : Bool) (i : ℕ) (x : Exits) (p : Proxy)
          → i < pos_part c.retry_attempts
          → AnswersIn o raw (sent_count w) i
          → Leaves raw (through_exit c o k q more (board (setting_out w none) x p)).1
      unfolding through_exit within_budget board release_current
      boarded-Leaves more i x p l a =
          let t = board (setting_out w none) x p in
          rw
            (
              with_account-same c o t refl refl,
              upload_pending-same c o q more t (eligible-files c o k q w free),
              prepare-same c o q t refl,
              fits,
            )
            (dispatched-Leaves more i t q.prompt l refl a)

      module _ (x : Exits) (p : Proxy) (i : ℕ)
          (exit_taken : acquire_slot_except c
              (now_of o w)
              (o.remote (sent_count w))
              w.exits
              (pos 0)
              []
              []
            ≡ (x, taken p))
          (in_time : i < pos_part c.retry_attempts)
          (answers : AnswersIn o raw (sent_count w) i) where
        round-Leaves :
            (more : Bool) → Leaves raw (one_round c o k q (pos 0) true more (setting_out w none)).1
        unfolding one_round with_exit
        round-Leaves more =
            subst (λ r. Leaves raw (with_exit c o k q true more (setting_out w none) r).1)
              (sym exit_taken) (boarded-Leaves more i x p in_time answers)

        rounds-Ends : (n : ℕ) → Ends raw (exit_rounds c o k q (pos 0) true n (setting_out w none)).1
        unfolding exit_rounds
        rounds-Ends zero =
            let r = one_round c o k q (pos 0) true false (setting_out w none) in
            Leaves-Ends o raw r.0 r.1 (conclude o) (round-Leaves false)
        rounds-Ends (suc n) =
            let r = one_round c o k q (pos 0) true true (setting_out w none) in
            Leaves-Ends o raw r.0 r.1 (exit_rounds c o k q (pos 0) false n) (round-Leaves true)

        -- Where an exit has room, some of the attempts through it get no reply, and the next one,
        -- which is within the configured attempts, gets an answer with content: a request that may
        -- go out without an account, and whose prompt is not too long, succeeds with that answer.
        pub request-Ends : Ends raw (stream_generate_with_files c o k w q).1
        unfolding stream_generate_with_files first_account
        request-Ends = rw (free, first_account) (rounds-Ends (pos_part c.proxy_retry_attempts))
