-- ===== src/Trip/Panic.antt =====
-- When `lastErr.Error()` is called on an error that is there.
use Prim.Native.Nat.{suc, zero, ℕ}
use mathlib.Core.Bool.{Bool, false, not, true, ◌&&◌, ◌||◌}
use mathlib.Core.List.{List, [], ◌∷◌}
use mathlib.Core.Logic.{inl, inr}
use mathlib.Core.Option.{Option, none, some}
use mathlib.Core.Path.{refl, ◌≡◌}
use gemini_web2api_go.Acquire.{Outcome, acquire_slot_except, refused, taken}
use gemini_web2api_go.Base.Int.{int_eq, is_positive, pos, pos_part, ℤ}
use gemini_web2api_go.Base.Lists.{length}
use gemini_web2api_go.Base.Result.{Result, erred, fine}
use gemini_web2api_go.Base.Tests.{Bool-cases, if◌then◌else◌, ltb, nat_eq, ◌==◌}
use gemini_web2api_go.Base.Text.{Text, is_empty, text_eq}
use gemini_web2api_go.Config.{RuntimeConfig}
use gemini_web2api_go.Outside.{Outside, World, now_of, sent_count}
use gemini_web2api_go.Payload.{Writers}
use gemini_web2api_go.Proxy.{Exits}
use gemini_web2api_go.Trip.{
  Asked, Ending, Flow, StreamResult, Trip, attrib, cool_down, exclude_picked, gave_up, go_on,
  has_emitted, leave, next_exit, panicked, release_current, stop, ◌then_on◌,
}
use gemini_web2api_go.Trip.Attach.{
  Prepared, after_context, after_uploads, attach_each, attached, failed_uploads, is_none_left,
  prepare, ready, unless_failed, unready, upload_pending, within_budget,
}
use gemini_web2api_go.Trip.Attempts.{Dispatch, attempt_loop}
use gemini_web2api_go.Trip.Balance.{is_some}
use gemini_web2api_go.Trip.Failures.{Noted, attempts-Noted}
use gemini_web2api_go.Trip.SignIn.{none_usable, or_anonymous, with_account}
use gemini_web2api_go.Trip.Switches.{
  after_attempts, after_round, board, bound_exit, conclude, conclude_with, dispatch, exit_rounds,
  first_account, one_round, stream_generate_with_files, through_exit, try_prompt, with_exit,
}
use gemini_web2api_go.Upload.{FileRef, PendingUpload, prepare_context_file, upload_bytes}

abbrev pub is_panicked : Ending → Bool
is_panicked panicked = true
is_panicked _ = false

abbrev ends_in_panic : Flow → Bool
ends_in_panic (leave e) = is_panicked e
ends_in_panic _ = false

-- An upload that failed has left its error.
abbrev LeftBy : Trip × Bool → Type 0
LeftBy (t, false) = Unit {0}
LeftBy (t, true) = is_some t.last_err ≡ true

attached-LeftBy :
    (t : Trip) (u : PendingUpload) (w : World) (r : Result Text) → LeftBy (attached t u (w, r))
unfolding attached
attached-LeftBy t u w (erred e) = refl
attached-LeftBy t u w (fine r) = tt

unless_failed-LeftBy :
    (t : Trip) (b : Bool) (f : Trip → Trip × Bool)
    → LeftBy (t, b)
    → ((u : Trip) → LeftBy (f u))
    → LeftBy (unless_failed (t, b) f)
unless_failed-LeftBy t true f h g = h
unless_failed-LeftBy t false f h g = g t

attach_each-LeftBy :
    (o : Outside) (t : Trip) (us : List PendingUpload) → LeftBy (attach_each o t us)
unfolding attach_each
attach_each-LeftBy o t [] = tt
attach_each-LeftBy o t (u ∷ us) =
    let p = upload_bytes o t.world t.cookie_str t.picked.url u.content u.file_name in
    let a = attached t u p in
    unless_failed-LeftBy a.0 a.1 (λ t'. attach_each o t' us) (attached-LeftBy t u p.0 p.1)
      (λ t'. attach_each-LeftBy o t' us)

module _ (c : RuntimeConfig) (o : Outside) (k : Writers) (q : Asked) where
  after_attempts-calm :
      (more : Bool) (t : Trip) (r : Option StreamResult)
      → Noted (t, r)
      → ends_in_panic (after_attempts c o more (t, r)).1 ≡ false
  unfolding after_attempts Noted
  after_attempts-calm more t (some r) h = refl
  after_attempts-calm more t none h = elim (Bool-cases (has_emitted t)) [
    | inl e ↦ rw e
    | inr e ↦ elim (Bool-cases more) [
      | inr m ↦ rw (e, m)
      | inl m ↦ elim (Bool-cases (t.picked.id == pos 0)) [
        | inl p ↦ rw (e, m, p)
        | inr p ↦ rw (e, m, p) (cooled t.last_err h)
      ]
    ]
  ]
    where
      cooled :
          (m : Option Text)
          → is_some m ≡ true
          → (let f : Trip × Flow = elim m [
            | none ↦ (exclude_picked t, leave panicked)
            | some e ↦ (release_current (cool_down c o (exclude_picked t) e), next_exit)
          ] in
              ends_in_panic f.1 ≡ false)
      cooled none i = cc
      cooled (some e) i = refl

  or_anonymous-calm : (t : Trip) → ends_in_panic (or_anonymous c o t).1 ≡ false
  unfolding or_anonymous
  or_anonymous-calm t = go t.last_cookie_err
    where
      go :
          (m : Option Text)
          → (let r : Trip × Flow = elim m [
            | none ↦ (t, go_on)
            | some err ↦
                if not (is_empty t.cookie_str)
                then (t, go_on)
                else if not c.fallback_anon
                then (t, leave (gave_up (attrib t) (none_usable o t err)))
                else (record t { cookie_id = pos 0; cookie_label = [] }, go_on)
          ] in
              ends_in_panic r.1 ≡ false)
      go none = refl
      go (some err) = elim (Bool-cases (is_empty t.cookie_str)) [
        | inr e ↦ rw e
        | inl e ↦ elim (Bool-cases c.fallback_anon) [ inl f ↦ rw (e, f) | inr f ↦ rw (e, f) ]
      ]

  failed_uploads-calm :
      (more : Bool) (t : Trip) (m : Option Text)
      → is_some m ≡ true
      → ends_in_panic (failed_uploads c o more t m).1 ≡ false
  unfolding failed_uploads
  failed_uploads-calm more t none h = cc
  failed_uploads-calm true t (some err) h = refl
  failed_uploads-calm false t (some err) h = refl

  after_uploads-calm :
      (more : Bool) (t : Trip) (b : Bool)
      → LeftBy (t, b)
      → ends_in_panic (after_uploads c o more (t, b)).1 ≡ false
  unfolding after_uploads
  after_uploads-calm more t false h = refl
  after_uploads-calm more t true h = failed_uploads-calm more t t.last_err h

  upload_pending-calm :
      (more : Bool) (t : Trip) → ends_in_panic (upload_pending c o q more t).1 ≡ false
  unfolding upload_pending
  upload_pending-calm more t =
      elim (Bool-cases (is_none_left q.pending || not (is_none_left t.files))) [
        | inl e ↦ rw (e, upload_pending)
        | inr e ↦ elim (Bool-cases (is_empty t.cookie_str)) [
          | inl d ↦ rw (e, d, upload_pending)
          | inr d ↦
              rw (e, d, upload_pending)
                (after_uploads-calm more (attach_each o t q.pending).0 (attach_each o t q.pending).1
                  (attach_each-LeftBy o t q.pending))
        ]
      ]

  abbrev unready_panic : Prepared → Bool
  unready_panic (ready p) = false
  unready_panic (unready e) = is_panicked e

  after_context-calm :
      (t : Trip) (budget : ℕ) (w : World) (r : Result (Text × List FileRef))
      → unready_panic (after_context t budget (w, r)).1 ≡ false
  unfolding after_context within_budget
  after_context-calm t budget w (erred e) = refl
  after_context-calm t budget w (fine (prompt, fs)) =
      elim (Bool-cases (ltb 0 budget && ltb budget (length prompt))) [ inl e ↦ rw e | inr e ↦ rw e ]

  prepare-calm : (t : Trip) → unready_panic (prepare c o q t).1 ≡ false
  unfolding prepare
  prepare-calm t =
      let b = pos_part c.max_prompt_bytes in
      let r = prepare_context_file o t.world q.prompt q.latest b t.cookie_str t.picked.url in
      after_context-calm t b r.0 r.1

  module _ (positive : is_positive c.retry_attempts ≡ true) where
    attempts-calm :
        (more : Bool) (t : Trip) (d : Dispatch)
        → ends_in_panic
            (after_attempts c o more (attempt_loop c o k q d (pos_part c.retry_attempts) t)).1
          ≡ false
    attempts-calm more t d = go (pos_part c.retry_attempts) positive
      where
        go :
            (n : ℕ)
            → ltb 0 n ≡ true
            → ends_in_panic (after_attempts c o more (attempt_loop c o k q d n t)).1 ≡ false
        go zero h = cc
        go (suc n) h =
            after_attempts-calm more (attempt_loop c o k q d (suc n) t).0
              (attempt_loop c o k q d (suc n) t).1 (attempts-Noted c o k q d n t)

    try_prompt-calm :
        (more : Bool) (t : Trip) (p : Prepared)
        → unready_panic p ≡ false
        → ends_in_panic (try_prompt c o k q more (t, p)).1 ≡ false
    unfolding try_prompt
    try_prompt-calm more t (unready e) h = h
    try_prompt-calm more t (ready prompt) h =
        attempts-calm more (dispatch c o k q t prompt).0 (dispatch c o k q t prompt).1

    then_on-calm :
        (t : Trip) (f : Flow) (g : Trip → Trip × Flow)
        → ends_in_panic f ≡ false
        → ends_in_panic (g t).1 ≡ false
        → ends_in_panic ((t, f) then_on g).1 ≡ false
    then_on-calm t go_on g h l = l
    then_on-calm t next_exit g h l = refl
    then_on-calm t stop g h l = refl
    then_on-calm t (leave e) g h l = h

    through_exit-calm :
        (more : Bool) (t : Trip) → ends_in_panic (through_exit c o k q more t).1 ≡ false
    unfolding through_exit with_account
    through_exit-calm more t =
        let a = with_account c o t in
        let upload = upload_pending c o q more in
        let b = a then_on upload in
        then_on-calm b.0 b.1 (λ u. try_prompt c o k q more (prepare c o q u))
          (then_on-calm a.0 a.1 upload (or_anonymous-calm _) (upload_pending-calm more a.0))
          (try_prompt-calm more (prepare c o q b.0).0 (prepare c o q b.0).1 (prepare-calm b.0))

    with_exit-calm :
        (is_first more : Bool) (t : Trip) (x : Exits) (out : Outcome)
        → ends_in_panic (with_exit c o k q is_first more t (x, out)).1 ≡ false
    unfolding with_exit
    with_exit-calm is_first more t x (taken p) = through_exit-calm more (board t x p)
    with_exit-calm true more t x (refused e) = refl
    with_exit-calm false more t x (refused e) = refl

    one_round-calm :
        (prefer : ℤ) (is_first more : Bool) (t : Trip)
        → ends_in_panic (one_round c o k q prefer is_first more t).1 ≡ false
    unfolding one_round
    one_round-calm prefer is_first more t =
        let r =
          acquire_slot_except c (now_of o t.world) (o.remote (sent_count t.world)) t.world.exits
            (if is_first then prefer else pos 0) t.excluded_ids t.excluded_urls in
        with_exit-calm is_first more t r.0 r.1

    conclude-calm : (t : Trip) → is_panicked (conclude o t).1 ≡ false
    unfolding conclude conclude_with
    conclude-calm t = go t.last_err
      where
        go : (m : Option Text) → is_panicked (conclude_with o t m).1 ≡ false
        go none = refl
        go (some e) = refl

    after_round-calm :
        (t : Trip) (f : Flow) (g : Trip → Trip × Ending)
        → ends_in_panic f ≡ false
        → is_panicked (g t).1 ≡ false
        → is_panicked (after_round o (t, f) g).1 ≡ false
    after_round-calm t go_on g h l = l
    after_round-calm t next_exit g h l = l
    after_round-calm t stop g h l = conclude-calm t
    after_round-calm t (leave e) g h l = h

    rounds-calm :
        (prefer : ℤ) (is_first : Bool) (n : ℕ) (t : Trip)
        → is_panicked (exit_rounds c o k q prefer is_first n t).1 ≡ false
    unfolding exit_rounds
    rounds-calm prefer is_first zero t =
        let r = one_round c o k q prefer is_first false t in
        after_round-calm r.0 r.1 (conclude o) (one_round-calm prefer is_first false t)
          (conclude-calm r.0)
    rounds-calm prefer is_first (suc n) t =
        let r = one_round c o k q prefer is_first true t in
        after_round-calm r.0 r.1 (exit_rounds c o k q prefer false n)
          (one_round-calm prefer is_first true t) (rounds-calm prefer false n r.0)

    -- With at least one attempt for each exit, `lastErr.Error()` is never called on a `lastErr` that
    -- is nil, after a failed upload or after the attempts, whatever is answered.
    pub request-no_panic :
        (w : World) → is_panicked (stream_generate_with_files c o k w q).1 ≡ false
    unfolding stream_generate_with_files
    request-no_panic w =
        let t = first_account c o w q in
        rounds-calm (bound_exit t.account) true (pos_part c.proxy_retry_attempts) t
