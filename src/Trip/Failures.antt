-- ===== src/Trip/Failures.antt =====
-- Attempts that end without an answer leave an error.
use Prim.Native.Nat.{suc, ℕ}
use mathlib.Core.Bool.{Bool, false, true}
use mathlib.Core.Logic.{inl, inr}
use mathlib.Core.Option.{Option, none, some}
use mathlib.Core.Path.{refl, ◌≡◌}
use gemini_web2api_go.Base.Int.{int_eq}
use gemini_web2api_go.Base.Result.{Result, erred, fine}
use gemini_web2api_go.Base.Tests.{Bool-cases, if◌then◌else◌, nat_eq, ◌==◌}
use gemini_web2api_go.Base.Text.{Text, text_eq}
use gemini_web2api_go.Config.{RuntimeConfig}
use gemini_web2api_go.Frames.{has_content_frame}
use gemini_web2api_go.Outside.{Outside, World}
use gemini_web2api_go.Payload.{Writers}
use gemini_web2api_go.Tokens.{get_xsrf, invalidate_xsrf}
use gemini_web2api_go.Trip.{Asked, StreamResult, Trip, has_emitted, report}
use gemini_web2api_go.Trip.Attempts.{
  Dispatch, Seen, Turn, again, attempt_loop, attempts_renewed, broke, came, complete, crashed,
  delivered, fail_with, handle, is_stale_token, redispatch, renew_token, send_once, unless_over,
}
use gemini_web2api_go.Trip.AttemptsLaws.{attempts-Spends, renewed-Spends}
use gemini_web2api_go.Trip.Balance.{is_some, report-Holds}

-- An attempt that failed has left its error.
abbrev Left : Trip × Turn → Type 0
Left (t, delivered r) = Unit {0}
Left (t, n) = is_some t.last_err ≡ true

-- Attempts without an answer have left an error.
unfoldable pub Noted : Trip × Option StreamResult → Type 0
Noted (t, some r) = Unit {0}
Noted (t, none) = is_some t.last_err ≡ true

is_some-Noted : (t : Trip) (r : Option StreamResult) → is_some t.last_err ≡ true → Noted (t, r)
unfolding Noted
is_some-Noted t none h = h
is_some-Noted t (some r) h = tt

fail_with-Left :
    (c : RuntimeConfig) (o : Outside) (t : Trip) (err : Text) → Left (fail_with c o t err)
unfolding fail_with
fail_with-Left c o t err = go (has_emitted t)
  where
    u : Trip
    u = record t { last_err = some err }

    noted : is_some (report c o u false err).last_err ≡ true
    noted = (report-Holds c o u false err).err_kept refl

    go : (b : Bool) → Left (report c o u false err, if b then broke else again)
    go true = noted
    go false = noted

handle-Left : (c : RuntimeConfig) (o : Outside) (t : Trip) (s : Seen) → Left (handle c o t s)
unfolding handle complete
handle-Left c o t (crashed e) = fail_with-Left c o t e
handle-Left c o t (came status raw) = elim (Bool-cases (status == 200)) [
  | inr e ↦ rw (e, handle) (fail_with-Left c o (record t { last_status = status }) _)
  | inl e ↦ elim (Bool-cases (has_content_frame o.parse raw)) [
    | inl d ↦ rw (e, d, handle) tt
    | inr d ↦ rw (e, d, handle) (fail_with-Left c o t _)
  ]
]

unless_over-Noted :
    (t : Trip) (n : Turn) (f : Trip → Trip × Option StreamResult)
    → Left (t, n)
    → (is_some t.last_err ≡ true → is_some (f t).0.last_err ≡ true)
    → Noted (unless_over (t, n) f)
unfolding Noted
unless_over-Noted t (delivered r) f h k = tt
unless_over-Noted t broke f h k = h
unless_over-Noted t again f h k = is_some-Noted (f t).0 (f t).1 (k h)

renewed-Noted :
    (c : RuntimeConfig) (o : Outside) (q : Asked) (d : Dispatch) (n : ℕ) (t : Trip)
    → Noted (attempts_renewed c o q d (suc n) t)
unfolding attempts_renewed
renewed-Noted c o q d n t =
    let (u, s) = send_once o q t d in
    unless_over-Noted _ (handle c o u s).1 (attempts_renewed c o q d n) (handle-Left c o u s)
      (renewed-Spends c o q d n _).holds.err_kept

renew_token-Noted :
    (c : RuntimeConfig) (o : Outside) (k : Writers) (q : Asked) (d : Dispatch) (n : ℕ) (t : Trip)
    (s : Seen) (w : World) (r : Result Text)
    → Noted (renew_token c o k q d n t s (w, r))
unfolding renew_token
renew_token-Noted c o k q d n t s w (fine token) =
    let u = record t { world = w } in renewed-Noted c o q (redispatch o k q u d token) n u
renew_token-Noted c o k q d n t s w (erred e) =
    let u = record t { world = w } in
    unless_over-Noted _ (handle c o u s).1 (attempts_renewed c o q d n) (handle-Left c o u s)
      (renewed-Spends c o q d n _).holds.err_kept

module _ (c : RuntimeConfig) (o : Outside) (k : Writers) (q : Asked) where
  pub attempts-Noted : (d : Dispatch) (n : ℕ) (t : Trip) → Noted (attempt_loop c o k q d (suc n) t)
  unfolding attempt_loop
  attempts-Noted d n t =
      let u = (send_once o q t d).0 in
      let s = (send_once o q t d).1 in
      let w = invalidate_xsrf o u.world u.cookie_str in
      elim (Bool-cases (is_stale_token u s)) [
        | inl e ↦ rw e (
            renew_token-Noted c o k q d n u s (get_xsrf o w u.cookie_str u.picked.url).0
              (get_xsrf o w u.cookie_str u.picked.url).1)
        | inr e ↦ rw e (
            unless_over-Noted _ (handle c o u s).1 (attempt_loop c o k q d n) (handle-Left c o u s)
              (attempts-Spends c o k q d n _).holds.err_kept)
      ]
