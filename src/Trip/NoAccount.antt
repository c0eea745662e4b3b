-- ===== src/Trip/NoAccount.antt =====
-- The loops of a request that sets out without an account.
use Prim.Native.Nat.{suc, zero, ℕ, ◌*◌, ◌+◌}
use mathlib.Core.Bool.{Bool, false, not, true}
use mathlib.Core.List.{[], ◌++◌}
use mathlib.Core.Logic.{inl, inr}
use mathlib.Core.Option.{Option, none, some}
use mathlib.Core.Path.{ap, refl, subst, sym, ◌∙◌, ◌≡◌}
use native.Mathlib.Omega.{arith}
use gemini_web2api_go.Acquire.{Outcome, refused, taken}
use gemini_web2api_go.Base.Int.{int_eq, pos, pos_part, ℤ}
use gemini_web2api_go.Base.Tests.{Bool-cases, if◌then◌else◌, nat_eq, ◌==◌}
use gemini_web2api_go.Base.Text.{Text, codes, text_eq}
use gemini_web2api_go.Config.{RuntimeConfig}
use gemini_web2api_go.Models.{anon_first_eligible}
use gemini_web2api_go.Outside.{Outside, World, now_of, sent_count}
use gemini_web2api_go.Payload.{
  Writers, build_model_header, request_headers, thinking_extended, thinking_normal,
}
use gemini_web2api_go.Proxy.{Exits, Proxy}
use gemini_web2api_go.Trip.{
  Asked, Ending, Flow, StreamResult, Trip, cool_down, exclude_picked, go_on, has_emitted, leave,
  next_exit, panicked, release_current, stop, with_exits,
}
use gemini_web2api_go.Trip.Anonymous.{
  Alike-IsAnonymous, IsAnonymous, Sight, Unsigned, cool_down-Alike, current_bl-log,
  current_bl-store, handle-IsAnonymous, id_of, release-Alike, send_once-IsAnonymous,
}
use gemini_web2api_go.Trip.Attach.{Prepared, is_none_left, ready, unready, within_budget}
use gemini_web2api_go.Trip.Attempts.{
  Dispatch, Turn, again, attempt_loop, broke, delivered, handle, send_once, unless_over,
}
use gemini_web2api_go.Trip.Switches.{
  after_attempts, after_round, board, conclude, conclude_with, dispatch, exit_rounds, first_account,
  one_round, setting_out, stream_generate_with_files, through_exit, try_prompt, with_exit,
}
use gemini_web2api_go.Trip.Unsigned.{
  IsUnsigned, is_stale_token-never, mark_account-same, prepare-same, request_headers-IsUnsigned,
  upload_pending-same, with_account-same,
}

module _ (c : RuntimeConfig) (o : Outside) (k : Writers) (q : Asked) (w : World) where
  unless_over-IsAnonymous :
      (t : Trip) (r : Turn) (f : Trip → Trip × Option StreamResult)
      → IsAnonymous w t
      → (IsAnonymous w t → IsAnonymous w (f t).0)
      → IsAnonymous w (unless_over (t, r) f).0
  unless_over-IsAnonymous t (delivered r) f h l = h
  unless_over-IsAnonymous t broke f h l = h
  unless_over-IsAnonymous t again f h l = l h

  attempts-IsAnonymous :
      (d : Dispatch) (n : ℕ) (t : Trip)
      → IsUnsigned d.sent_headers
      → IsAnonymous w t
      → IsAnonymous w (attempt_loop c o k q d n t).0
  unfolding attempt_loop
  attempts-IsAnonymous d zero t u h = h
  attempts-IsAnonymous d (suc n) t u h =
      let p = send_once o q t d in
      let i = send_once-IsAnonymous c o k q w t d u h in
      let r = handle c o p.0 p.1 in
      rw (is_stale_token-never p.0 p.1 (ap (λ (s : Sight). s.1) i.sees_nobody)) (
        unless_over-IsAnonymous r.0 r.1 (attempt_loop c o k q d n)
          (handle-IsAnonymous c o k q w p.0 p.1 i) (λ j. attempts-IsAnonymous d n r.0 u j))

  after_attempts-IsAnonymous :
      (more : Bool) (t : Trip) (r : Option StreamResult)
      → IsAnonymous w t
      → IsAnonymous w (after_attempts c o more (t, r)).0
  unfolding after_attempts exclude_picked
  after_attempts-IsAnonymous more t (some r) h = h
  after_attempts-IsAnonymous more t none h = elim (Bool-cases (has_emitted t)) [
    | inl e ↦ rw e h
    | inr e ↦ elim (Bool-cases more) [
      | inr m ↦ rw (e, m) h
      | inl m ↦ elim (Bool-cases (t.picked.id == pos 0)) [
        | inl p ↦ rw (e, m, p) (Alike-IsAnonymous w t _ (release-Alike (exclude_picked t)) h)
        | inr p ↦ rw (e, m, p) (cooled t.last_err)
      ]
    ]
  ]
    where
      u : Trip
      u = exclude_picked t

      cooled :
          (m : Option Text)
          → (let f : Trip × Flow = elim m [
            | none ↦ (u, leave panicked)
            | some e ↦ (release_current (cool_down c o u e), next_exit)
          ] in
              IsAnonymous w f.0)
      cooled none = Alike-IsAnonymous w t u refl h
      cooled (some e) =
          Alike-IsAnonymous w t _ (release-Alike (cool_down c o u e) ∙ cool_down-Alike c o u e) h

  dispatch-IsAnonymous :
      (t : Trip) (prompt : Text) → IsAnonymous w t → IsAnonymous w (dispatch c o k q t prompt).0
  unfolding dispatch
  dispatch-IsAnonymous t prompt h = record {
    sees_nobody =
        ap (λ s. (t.account, t.cookie_str, t.sapisid, t.cookie_id, t.last_cookie_err, s))
          (current_bl-store c o t.world)
        ∙ h.sees_nobody;
    unsigned = subst (Unsigned w.log) (sym (current_bl-log c o t.world)) h.unsigned;
  }

  dispatch-IsUnsigned :
      (t : Trip) (prompt : Text)
      → IsAnonymous w t
      → IsUnsigned (dispatch c o k q t prompt).1.sent_headers
  unfolding dispatch
  dispatch-IsUnsigned t prompt h =
      let n = 2 * sent_count t.world in
      let think = if q.model.thinking then thinking_extended else thinking_normal in
      let model_header = build_model_header o q.model.hex_id q.model.mode think (o.uuid (n + 1)) in
      let session_header = codes "[\"" ++ (o.uuid n ++ codes "\",1]") in
      subst
        (λ (s : Sight).
          IsUnsigned (
            request_headers o (now_of o t.world) s.1 s.2 q.model.hex_id model_header
              session_header))
        (sym h.sees_nobody)
        (request_headers-IsUnsigned o (now_of o t.world) q.model.hex_id model_header session_header)

  try_prompt-IsAnonymous :
      (more : Bool) (t : Trip) (p : Prepared)
      → IsAnonymous w t
      → IsAnonymous w (try_prompt c o k q more (t, p)).0
  unfolding try_prompt
  try_prompt-IsAnonymous more t (unready e) h = h
  try_prompt-IsAnonymous more t (ready prompt) h =
      let u = (dispatch c o k q t prompt).0 in
      let d = (dispatch c o k q t prompt).1 in
      let r = attempt_loop c o k q d (pos_part c.retry_attempts) u in
      after_attempts-IsAnonymous more r.0 r.1 (
        attempts-IsAnonymous d (pos_part c.retry_attempts) u (dispatch-IsUnsigned t prompt h)
          (dispatch-IsAnonymous t prompt h))

  through_exit-IsAnonymous :
      (more : Bool) (t : Trip)
      → is_none_left q.pending ≡ true
      → IsAnonymous w t
      → IsAnonymous w (through_exit c o k q more t).0
  unfolding through_exit
  through_exit-IsAnonymous more t p h =
      let account = ap (λ (s : Sight). s.0) h.sees_nobody in
      let cookie = ap (λ (s : Sight). s.1) h.sees_nobody in
      let cookie_err = ap (λ (s : Sight). s.4) h.sees_nobody in
      rw
        (
          with_account-same c o t account cookie_err,
          upload_pending-same c o q more t p,
          prepare-same c o q t cookie,
        )
        (try_prompt-IsAnonymous more t (within_budget t (pos_part c.max_prompt_bytes) q.prompt) h)

  board-IsAnonymous :
      (t : Trip) (x : Exits) (p : Proxy) → IsAnonymous w t → IsAnonymous w (board t x p)
  unfolding board
  board-IsAnonymous t x p h =
      Alike-IsAnonymous w t (board t x p)
        (release-Alike (record t { world = with_exits t.world x })) h

  module _ (without_files : is_none_left q.pending ≡ true) where
    with_exit-IsAnonymous :
        (is_first more : Bool) (t : Trip) (x : Exits) (out : Outcome)
        → IsAnonymous w t
        → IsAnonymous w (with_exit c o k q is_first more t (x, out)).0
    unfolding with_exit
    with_exit-IsAnonymous is_first more t x (taken p) h =
        through_exit-IsAnonymous more (board t x p) without_files (board-IsAnonymous t x p h)
    with_exit-IsAnonymous true more t x (refused e) h = Alike-IsAnonymous w t _ refl h
    with_exit-IsAnonymous false more t x (refused e) h = Alike-IsAnonymous w t _ refl h

    one_round-IsAnonymous :
        (prefer : ℤ) (is_first more : Bool) (t : Trip)
        → IsAnonymous w t
        → IsAnonymous w (one_round c o k q prefer is_first more t).0
    unfolding one_round
    one_round-IsAnonymous prefer is_first more t h = with_exit-IsAnonymous is_first more t _ _ h

    conclude-IsAnonymous : (t : Trip) → IsAnonymous w t → IsAnonymous w (conclude o t).0
    unfolding conclude conclude_with
    conclude-IsAnonymous t h = go t.last_err
      where
        go : (m : Option Text) → IsAnonymous w (conclude_with o t m).0
        go none = h
        go (some e) =
            subst (IsAnonymous w)
              (sym (mark_account-same o t t.last_status e (id_of c o k q w t h))) h

    after_round-IsAnonymous :
        (t : Trip) (f : Flow) (g : Trip → Trip × Ending)
        → IsAnonymous w t
        → (IsAnonymous w t → IsAnonymous w (g t).0)
        → IsAnonymous w (after_round o (t, f) g).0
    after_round-IsAnonymous t go_on g h l = l h
    after_round-IsAnonymous t next_exit g h l = l h
    after_round-IsAnonymous t stop g h l = conclude-IsAnonymous t h
    after_round-IsAnonymous t (leave e) g h l = h

    rounds-IsAnonymous :
        (prefer : ℤ) (is_first : Bool) (n : ℕ) (t : Trip)
        → IsAnonymous w t
        → IsAnonymous w (exit_rounds c o k q prefer is_first n t).0
    unfolding exit_rounds
    rounds-IsAnonymous prefer is_first zero t h =
        let r = one_round c o k q prefer is_first false t in
        after_round-IsAnonymous r.0 r.1 (conclude o)
          (one_round-IsAnonymous prefer is_first false t h) (conclude-IsAnonymous r.0)
    rounds-IsAnonymous prefer is_first (suc n) t h =
        let r = one_round c o k q prefer is_first true t in
        after_round-IsAnonymous r.0 r.1 (exit_rounds c o k q prefer false n)
          (one_round-IsAnonymous prefer is_first true t h) (rounds-IsAnonymous prefer false n r.0)

  pub eligible-files :
      anon_first_eligible c q.model (not (is_none_left q.pending)) ≡ true
      → is_none_left q.pending ≡ true
  unfolding anon_first_eligible
  eligible-files h = ground arith

  -- A request that may go out without an account, as the configuration lets it: whatever is answered,
  -- none of the requests that it sends carries a Cookie or an Authorization header, and the pool of
  -- accounts is as it was.
  pub request-Unsigned :
      anon_first_eligible c q.model (not (is_none_left q.pending)) ≡ true
      → (let t : Trip = (stream_generate_with_files c o k w q).0 in
          Unsigned w.log t.world.log × (t.world.store ≡ w.store))
  unfolding stream_generate_with_files first_account
  request-Unsigned h =
      let t = setting_out w none in
      let n = pos_part c.proxy_retry_attempts in
      let start : IsAnonymous w t = record {
        sees_nobody = refl;
        unsigned = record { sent_since = []; since_before = refl; all_unsigned = tt };
      } in
      let r = exit_rounds c o k q (pos 0) true n t in
      let i =
        Alike-IsAnonymous w r.0 (release_current r.0) (release-Alike r.0)
          (rounds-IsAnonymous (eligible-files h) (pos 0) true n t start) in
      rw (h, first_account) (i.unsigned, ap (λ (s : Sight). s.5) i.sees_nobody)
