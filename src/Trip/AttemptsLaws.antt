-- ===== src/Trip/AttemptsLaws.antt =====
-- The attempts take no slot, and make no account another.
use Prim.Native.Nat.{suc, zero, ℕ, ◌+◌}
use mathlib.Core.Bool.{false, not, true, ◌||◌}
use mathlib.Core.List.{List, [], ◌++◌, ◌∷◌}
use mathlib.Core.Logic.{inl, inr}
use mathlib.Core.Option.{Option, some}
use mathlib.Core.Path.{refl}
use native.Mathlib.Omega.{arith}
use gemini_web2api_go.Base.Int.{int_eq, is_positive}
use gemini_web2api_go.Base.Lists.{take}
use gemini_web2api_go.Base.Result.{Result, erred, fine}
use gemini_web2api_go.Base.Tests.{Bool-cases, nat_eq, ◌==◌}
use gemini_web2api_go.Base.Text.{Text, codes, text_eq}
use gemini_web2api_go.Config.{RuntimeConfig}
use gemini_web2api_go.Cookie.{merge_set_cookie}
use gemini_web2api_go.Frames.{has_content_frame}
use gemini_web2api_go.Outside.{
  Outside, Reply, World, broken_off, clean_gemini_text, exchange, no_reply, replied, sent_count,
}
use gemini_web2api_go.Outside.Kept.{Kept, Kept-trans, Same-Kept, Same-refl, Same-trans, cookie-Kept}
use gemini_web2api_go.Payload.{Writers}
use gemini_web2api_go.Stream.Feed.{body_lines}
use gemini_web2api_go.Stream.Feed.Faithful.{lines-IsFaithful}
use gemini_web2api_go.Tokens.{get_xsrf, invalidate_xsrf}
use gemini_web2api_go.Tokens.Same.{get_xsrf-Same, invalidate-Same}
use gemini_web2api_go.Trip.{Asked, StreamResult, Trip, report}
use gemini_web2api_go.Trip.Attach.{is_none_left}
use gemini_web2api_go.Trip.Attempts.{
  Dispatch, Seen, Turn, again, attempt_loop, attempts_renewed, broke, came, complete, crashed,
  delivered, fail_with, fed, generate_request, handle, is_stale_token, redispatch, renew_token,
  send_once, take_cookies, take_reply, unless_over,
}
use gemini_web2api_go.Trip.Balance.{
  Holds, Holds-refl, Holds-trans, Holds-world, mark_account-Holds, report-Holds,
}
use gemini_web2api_go.Trip.Spends.{
  Holds-Spends, Spends, Spends-more, Spends-then, Spends-trans, with_log,
}

take_cookies-Holds :
    (o : Outside) (t u : Trip) (cookies : List Text)
    → Holds t u
    → Holds t (take_cookies o u cookies)
unfolding take_cookies
take_cookies-Holds o t u cookies h =
    elim (Bool-cases (
      is_none_left cookies
      || not (is_positive u.cookie_id)
      || merge_set_cookie o.order u.cookie_str cookies == u.cookie_str)) [
        | inl e ↦ rw (e, take_cookies) h
        | inr e ↦
            rw (e, take_cookies)
              (record {
                world_kept =
                    Kept-trans t.world u.world _ h.world_kept (cookie-Kept u.world u.cookie_id _);
                same_picked = h.same_picked;
                same_held = h.same_held;
                feed_kept = h.feed_kept;
                few_kept = h.few_kept;
                err_kept = h.err_kept;
              })
      ]

pub fed-Holds : (o : Outside) (q : Asked) (t : Trip) (got : Text) → Holds t (fed o q t got)
unfolding fed
fed-Holds o q t got = record {
  world_kept = Same-Kept t.world t.world (Same-refl t.world);
  same_picked = refl;
  same_held = refl;
  feed_kept = lines-IsFaithful o.parse (clean_gemini_text o) q.callbacks t.feed (body_lines got);
  few_kept = λ f. f;
  err_kept = λ f. f;
}

take_reply-Holds : (o : Outside) (q : Asked) (t : Trip) (r : Reply) → Holds t (take_reply o q t r).0
unfolding take_reply
take_reply-Holds o q t (no_reply e) = Holds-refl t
take_reply-Holds o q t (broken_off status cookies got e) =
    take_cookies-Holds o t (fed o q t got) cookies (fed-Holds o q t got)
take_reply-Holds o q t (replied status head cookies got) =
    take_cookies-Holds o t (fed o q t got) cookies (fed-Holds o q t got)

send_once-Spends :
    (o : Outside) (q : Asked) (t : Trip) (d : Dispatch) → Spends 1 t (send_once o q t d).0
unfolding send_once exchange
send_once-Spends o q t d =
    let l = generate_request t d ∷ t.world.log in
    record {
      log_then = l;
      within = omega arith;
      holds =
          take_reply-Holds o q (with_log t l) (o.reply (sent_count t.world) (generate_request t d));
    }

pub fail_with-Holds :
    (c : RuntimeConfig) (o : Outside) (t : Trip) (err : Text) → Holds t (fail_with c o t err).0
unfolding fail_with
fail_with-Holds c o t err =
    let h = report-Holds c o (record t { last_err = some err }) false err in
    record {
      world_kept = h.world_kept;
      same_picked = h.same_picked;
      same_held = h.same_held;
      feed_kept = h.feed_kept;
      few_kept = h.few_kept;
      err_kept = λ f. h.err_kept refl;
    }

complete-Holds :
    (c : RuntimeConfig) (o : Outside) (t : Trip) (raw : Text) → Holds t (complete c o t raw).0
unfolding complete
complete-Holds c o t raw =
    Holds-trans t _ _ (report-Holds c o t true [])
      (mark_account-Holds o (report c o t true []) t.cookie_id 200 [])

handle-Holds : (c : RuntimeConfig) (o : Outside) (t : Trip) (s : Seen) → Holds t (handle c o t s).0
unfolding handle
handle-Holds c o t (crashed e) = fail_with-Holds c o t e
handle-Holds c o t (came status raw) = elim (Bool-cases (status == 200)) [
  | inr e ↦
      let h =
        fail_with-Holds c o (record t { last_status = status })
          (codes "upstream HTTP " ++ (o.decimal status ++ (codes ": " ++ take 200 raw))) in
      rw e (record {
        world_kept = h.world_kept;
        same_picked = h.same_picked;
        same_held = h.same_held;
        feed_kept = h.feed_kept;
        few_kept = h.few_kept;
        err_kept = h.err_kept;
      })
  | inl e ↦ elim (Bool-cases (has_content_frame o.parse raw)) [
    | inl d ↦ rw (e, d) (complete-Holds c o t raw)
    | inr d ↦ rw (e, d) (fail_with-Holds c o t _)
  ]
]

unless_over-Spends :
    (n m : ℕ) (t u : Trip) (r : Turn) (f : Trip → Trip × Option StreamResult)
    → Spends n t u
    → Spends m u (f u).0
    → Spends (n + m) t (unless_over (u, r) f).0
unless_over-Spends n m t u (delivered r) f h k = Spends-more n (n + m) t u (omega arith) h
unless_over-Spends n m t u broke f h k = Spends-more n (n + m) t u (omega arith) h
unless_over-Spends n m t u again f h k = Spends-trans n m (n + m) t u (f u).0 (omega arith) h k

pub renewed-Spends :
    (c : RuntimeConfig) (o : Outside) (q : Asked) (d : Dispatch) (n : ℕ) (t : Trip)
    → Spends n t (attempts_renewed c o q d n t).0
unfolding attempts_renewed
renewed-Spends c o q d zero t = Holds-Spends 0 t t (Holds-refl t)
renewed-Spends c o q d (suc n) t =
    let u = (send_once o q t d).0 in
    let s = (send_once o q t d).1 in
    let r = handle c o u s in
    Spends-more (1 + n) (suc n) t _ (omega arith) (
      unless_over-Spends 1 n t r.0 r.1 (attempts_renewed c o q d n)
        (Spends-then 1 t u r.0 (send_once-Spends o q t d) (handle-Holds c o u s))
        (renewed-Spends c o q d n r.0))

renew_token-Spends :
    (c : RuntimeConfig) (o : Outside) (k : Writers) (q : Asked) (d : Dispatch) (n : ℕ) (t : Trip)
    (s : Seen) (w : World) (r : Result Text)
    → Kept t.world w
    → Spends (suc n) t (renew_token c o k q d n t s (w, r)).0
unfolding renew_token
renew_token-Spends c o k q d n t s w (fine token) h =
    let u = record t { world = w } in
    Spends-trans 0 (suc n) (suc n) t u _ (omega arith) (Holds-Spends 0 t u (Holds-world t w h))
      (renewed-Spends c o q (redispatch o k q u d token) (suc n) u)
renew_token-Spends c o k q d n t s w (erred e) h =
    let u = record t { world = w } in
    let r = handle c o u s in
    Spends-more (0 + n) (suc n) t _ (omega arith) (
      unless_over-Spends 0 n t r.0 r.1 (attempts_renewed c o q d n)
        (Holds-Spends 0 t r.0 (Holds-trans t u r.0 (Holds-world t w h) (handle-Holds c o u s)))
        (renewed-Spends c o q d n r.0))

pub attempts-Spends :
    (c : RuntimeConfig) (o : Outside) (k : Writers) (q : Asked) (d : Dispatch) (n : ℕ) (t : Trip)
    → Spends (suc n) t (attempt_loop c o k q d n t).0
unfolding attempt_loop
attempts-Spends c o k q d zero t = Holds-Spends 1 t t (Holds-refl t)
attempts-Spends c o k q d (suc n) t =
    let u = (send_once o q t d).0 in
    let s = (send_once o q t d).1 in
    let h = send_once-Spends o q t d in
    let w = invalidate_xsrf o u.world u.cookie_str in
    let x = get_xsrf o w u.cookie_str u.picked.url in
    let r = handle c o u s in
    elim (Bool-cases (is_stale_token u s)) [
      | inl e ↦ rw e (
          Spends-trans 1 (suc n) (suc (suc n)) t u _ (omega arith) h (
            renew_token-Spends c o k q d n u s x.0 x.1 (
              Same-Kept u.world _ (
                Same-trans u.world w _ (invalidate-Same o u.world u.cookie_str)
                  (get_xsrf-Same o w u.cookie_str u.picked.url)))))
      | inr e ↦ rw e (
          Spends-more (1 + suc n) (suc (suc n)) t _ (omega arith) (
            unless_over-Spends 1 (suc n) t r.0 r.1 (attempt_loop c o k q d n)
              (Spends-then 1 t u r.0 h (handle-Holds c o u s)) (attempts-Spends c o k q d n r.0)))
    ]
