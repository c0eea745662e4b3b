-- ===== src/Trip/Anonymous.antt =====
-- A request that sets out without an account goes without one to its end.
use mathlib.Core.Bool.{Bool, false, true}
use mathlib.Core.List.{List, [], ◌++◌, ◌∷◌}
use mathlib.Core.Logic.{inl, inr}
use mathlib.Core.Option.{Option, none, some}
use mathlib.Core.Path.{ap, refl, subst, sym, ◌∙◌, ◌≡◌}
use gemini_web2api_go.Accounts.{CookieAccount, Store}
use gemini_web2api_go.Base.Int.{int_eq, pos, ℤ}
use gemini_web2api_go.Base.Lists.{All}
use gemini_web2api_go.Base.Tests.{Bool-cases, if◌then◌else◌, nat_eq, ◌==◌}
use gemini_web2api_go.Base.Text.{Text, text_eq}
use gemini_web2api_go.Config.{RuntimeConfig}
use gemini_web2api_go.Frames.{has_content_frame}
use gemini_web2api_go.Outside.{
  Outside, Reply, Request, World, broken_off, exchange, no_reply, replied, sent_count,
}
use gemini_web2api_go.Payload.{Writers}
use gemini_web2api_go.Tokens.{current_bl}
use gemini_web2api_go.Trip.{
  Asked, Trip, cool_down, mark_account, picked_ok, release_current, report,
}
use gemini_web2api_go.Trip.Attempts.{
  Dispatch, Seen, came, complete, crashed, fail_with, fed, generate_request, handle, send_once,
  take_cookies, take_reply,
}
use gemini_web2api_go.Trip.Unsigned.{IsUnsigned, mark_account-same, take_cookies-same}

-- The requests that were sent since, none of which names an account.
pub record Unsigned (old new : List Request) : Type 0 where
  pub sent_since : List Request
  pub since_before : new ≡ sent_since ++ old
  pub all_unsigned : All (λ r. IsUnsigned r.headers) sent_since

-- What a request knows of accounts: its own account, cookie, SAPISID and identifier, the error of the
-- last account, and the pool.
abbrev pub Sight : Type 0
Sight = Option CookieAccount × Text × Text × ℤ × Option Text × Store

abbrev pub sight : Trip → Sight
sight t = (t.account, t.cookie_str, t.sapisid, t.cookie_id, t.last_cookie_err, t.world.store)

abbrev pub nobody : Store → Sight
nobody s = (none, [], [], pos 0, none, s)

pub record IsAnonymous (w : World) (t : Trip) : Type 0 where
  pub sees_nobody : sight t ≡ nobody w.store
  pub unsigned : Unsigned w.log t.world.log

-- Two states with the same sight, between which nothing was sent.
abbrev pub Alike : Trip → Trip → Type 0
Alike t u = ◌≡◌ {A = Sight × List Request} (sight u, u.world.log) (sight t, t.world.log)

pub Alike-IsAnonymous : (w : World) (t u : Trip) → Alike t u → IsAnonymous w t → IsAnonymous w u
Alike-IsAnonymous w t u l h = record {
  sees_nobody = ap (λ (s : Sight × List Request). s.0) l ∙ h.sees_nobody;
  unsigned = subst (Unsigned w.log) (sym (ap (λ (s : Sight × List Request). s.1) l)) h.unsigned;
}

if-Alike : (b : Bool) (t u : Trip) → Alike t u → Alike t (if b then u else t)
if-Alike true t u h = h
if-Alike false t u h = refl

pub release-Alike : (t : Trip) → Alike t (release_current t)
unfolding release_current
release-Alike t = if-Alike t.slot_held t _ refl

pub cool_down-Alike :
    (c : RuntimeConfig) (o : Outside) (t : Trip) (err : Text) → Alike t (cool_down c o t err)
unfolding cool_down
cool_down-Alike c o t err = if-Alike (picked_ok t) t _ refl

pub report-Alike :
    (c : RuntimeConfig) (o : Outside) (t : Trip) (b : Bool) (err : Text)
    → Alike t (report c o t b err)
unfolding report
report-Alike c o t b err = if-Alike (picked_ok t) t _ refl

pub current_bl-log :
    (c : RuntimeConfig) (o : Outside) (w : World) → (current_bl c o w).0.log ≡ w.log
unfolding current_bl
current_bl-log c o w = elim (Bool-cases c.gemini_bl_auto) [ inl e ↦ rw e | inr e ↦ rw e ]

pub current_bl-store :
    (c : RuntimeConfig) (o : Outside) (w : World) → (current_bl c o w).0.store ≡ w.store
unfolding current_bl
current_bl-store c o w = elim (Bool-cases c.gemini_bl_auto) [ inl e ↦ rw e | inr e ↦ rw e ]

Unsigned-push :
    (old new : List Request) (r : Request)
    → IsUnsigned r.headers
    → Unsigned old new
    → Unsigned old (r ∷ new)
Unsigned-push old new r u h = record {
  sent_since = r ∷ h.sent_since;
  since_before = ap (λ l. r ∷ l) h.since_before;
  all_unsigned = (u, h.all_unsigned);
}

module _ (c : RuntimeConfig) (o : Outside) (k : Writers) (q : Asked) (w : World) where
  pub id_of : (t : Trip) → IsAnonymous w t → t.cookie_id ≡ pos 0
  id_of t h = ap (λ (s : Sight). s.3) h.sees_nobody

  fed-IsAnonymous :
      (t : Trip) (got : Text) (cookies : List Text)
      → IsAnonymous w t
      → IsAnonymous w (take_cookies o (fed o q t got) cookies)
  unfolding fed
  fed-IsAnonymous t got cookies h =
      subst (IsAnonymous w) (sym (take_cookies-same o (fed o q t got) cookies (id_of t h)))
        (Alike-IsAnonymous w t (fed o q t got) refl h)

  take_reply-IsAnonymous :
      (t : Trip) (r : Reply) → IsAnonymous w t → IsAnonymous w (take_reply o q t r).0
  unfolding take_reply
  take_reply-IsAnonymous t (no_reply e) h = h
  take_reply-IsAnonymous t (broken_off status cookies got e) h = fed-IsAnonymous t got cookies h
  take_reply-IsAnonymous t (replied status head cookies got) h = fed-IsAnonymous t got cookies h

  pub send_once-IsAnonymous :
      (t : Trip) (d : Dispatch)
      → IsUnsigned d.sent_headers
      → IsAnonymous w t
      → IsAnonymous w (send_once o q t d).0
  unfolding send_once exchange
  send_once-IsAnonymous t d u h =
      let r = generate_request t d in
      let l = r ∷ t.world.log in
      take_reply-IsAnonymous (record t { world = record t.world { log = l } })
        (o.reply (sent_count t.world) r)
        (record {
          sees_nobody = h.sees_nobody;
          unsigned = Unsigned-push w.log t.world.log r u h.unsigned;
        })

  fail_with-Alike : (t : Trip) (err : Text) → Alike t (fail_with c o t err).0
  unfolding fail_with
  fail_with-Alike t err = report-Alike c o (record t { last_err = some err }) false err

  complete-IsAnonymous :
      (t : Trip) (raw : Text) → IsAnonymous w t → IsAnonymous w (complete c o t raw).0
  unfolding complete
  complete-IsAnonymous t raw h =
      let u = report c o t true [] in
      let i = Alike-IsAnonymous w t u (report-Alike c o t true []) h in
      subst (λ j. IsAnonymous w (mark_account o u j 200 [])) (id_of u i ∙ sym (id_of t h))
        (subst (IsAnonymous w) (sym (mark_account-same o u 200 [] (id_of u i))) i)

  pub handle-IsAnonymous :
      (t : Trip) (s : Seen) → IsAnonymous w t → IsAnonymous w (handle c o t s).0
  unfolding handle
  handle-IsAnonymous t (crashed e) h = Alike-IsAnonymous w t _ (fail_with-Alike t e) h
  handle-IsAnonymous t (came status raw) h = elim (Bool-cases (status == 200)) [
    | inr e ↦
        rw e (Alike-IsAnonymous w t _ (fail_with-Alike (record t { last_status = status }) _) h)
    | inl e ↦ elim (Bool-cases (has_content_frame o.parse raw)) [
      | inl d ↦ rw (e, d) (complete-IsAnonymous t raw h)
      | inr d ↦ rw (e, d) (Alike-IsAnonymous w t _ (fail_with-Alike t _) h)
    ]
  ]
