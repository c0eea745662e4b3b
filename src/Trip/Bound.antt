-- ===== src/Trip/Bound.antt =====
-- How many times one request of a client asks for an answer.
use Prim.Native.Nat.{suc, zero, ℕ, ◌*◌, ◌+◌, ◌≤◌}
use mathlib.Core.Bool.{Bool, false, not, true, ◌||◌}
use mathlib.Core.Logic.{inl, inr}
use mathlib.Core.Option.{Option, none, some}
use mathlib.Core.Path.{refl, ◌∙◌, ◌≡◌}
use native.Mathlib.Omega.{arith}
use gemini_web2api_go.Acquire.{Outcome, acquire_slot_except, refused, release_slot, taken}
use gemini_web2api_go.Acquire.Choice.{acquire_slot_except-Acquired}
use gemini_web2api_go.Acquire.WellFormed.{IsWellFormed, same-IsWellFormed}
use gemini_web2api_go.Base.Int.{int_eq, pos, pos_part, ℤ}
use gemini_web2api_go.Base.Tests.{Bool-cases, if◌then◌else◌, nat_eq, ◌==◌}
use gemini_web2api_go.Base.Text.{Text, is_empty, text_eq}
use gemini_web2api_go.Config.{RuntimeConfig}
use gemini_web2api_go.Models.{anon_first_eligible}
use gemini_web2api_go.Outside.{Outside, World, now_of, sent_count}
use gemini_web2api_go.Outside.Kept.{asked_in}
use gemini_web2api_go.Payload.{Writers}
use gemini_web2api_go.Proxy.{Exits, Proxy}
use gemini_web2api_go.Rotation.Account.{release_at}
use gemini_web2api_go.Trip.{
  Asked, Ending, Flow, StreamResult, Trip, cool_down, exclude_picked, go_on, has_emitted, leave,
  mark_account, next_exit, panicked, release_current, stop, with_exits, ◌then_on◌,
}
use gemini_web2api_go.Trip.Attach.{
  Prepared, after_uploads, attach_each, failed_uploads, is_none_left, prepare, ready, unready,
  upload_pending,
}
use gemini_web2api_go.Trip.AttachLaws.{attach_each-Holds, exclude-Holds, prepare-Holds}
use gemini_web2api_go.Trip.Attempts.{attempt_loop}
use gemini_web2api_go.Trip.AttemptsLaws.{attempts-Spends}
use gemini_web2api_go.Trip.Balance.{Balanced, Holds, cool_down-Holds}
use gemini_web2api_go.Trip.SignIn.{with_account}
use gemini_web2api_go.Trip.SignedIn.{with_account-Holds}
use gemini_web2api_go.Trip.Slots.{first-Balanced, one_round-Balanced}
use gemini_web2api_go.Trip.Spends.{Spends-asked}
use gemini_web2api_go.Trip.Switches.{
  after_attempts, after_round, board, bound_exit, conclude, conclude_with, dispatch, exit_rounds,
  first_account, one_round, stream_generate_with_files, through_exit, try_prompt, with_exit,
}
use gemini_web2api_go.Trip.Through.{dispatch-Holds}

abbrev pub asked_by : Trip → ℕ
asked_by t = asked_in t.world.log

release-asked : (t : Trip) → asked_by (release_current t) ≡ asked_by t
unfolding release_current
release-asked t = elim (Bool-cases t.slot_held) [
  | inl e ↦ rw (e, release_current)
  | inr e ↦ rw (e, release_current)
]

Holds-asked : (t u : Trip) → Holds t u → asked_by u ≡ asked_by t
Holds-asked t u h = h.world_kept.asked_kept

module _ (c : RuntimeConfig) (o : Outside) (k : Writers) (q : Asked) where
  given_back-asked : (t : Trip) → asked_by (release_current (exclude_picked t)) ≡ asked_by t
  given_back-asked t =
      release-asked (exclude_picked t) ∙ Holds-asked t (exclude_picked t) (exclude-Holds t)

  failed_uploads-asked :
      (more : Bool) (t : Trip) (m : Option Text)
      → asked_by (failed_uploads c o more t m).0 ≡ asked_by t
  unfolding failed_uploads
  failed_uploads-asked false t (some err) = Holds-asked t _ (cool_down-Holds c o t err)
  failed_uploads-asked true t (some err) =
      let u = cool_down c o t err in
      given_back-asked u ∙ Holds-asked t u (cool_down-Holds c o t err)
  failed_uploads-asked more t none = elim (Bool-cases (t.picked.id == pos 0)) [
    | inr e ↦ rw e
    | inl e ↦ elim (Bool-cases more) [ inr d ↦ rw (e, d) | inl d ↦ rw (e, d) (given_back-asked t) ]
  ]

  after_uploads-asked :
      (more : Bool) (t : Trip) (b : Bool) → asked_by (after_uploads c o more (t, b)).0 ≡ asked_by t
  unfolding after_uploads
  after_uploads-asked more t false = refl
  after_uploads-asked more t true = failed_uploads-asked more t t.last_err

  upload_pending-asked :
      (more : Bool) (t : Trip) → asked_by (upload_pending c o q more t).0 ≡ asked_by t
  unfolding upload_pending
  upload_pending-asked more t =
      elim (Bool-cases (is_none_left q.pending || not (is_none_left t.files))) [
        | inl e ↦ rw (e, upload_pending)
        | inr e ↦ elim (Bool-cases (is_empty t.cookie_str)) [
          | inl d ↦ rw (e, d, upload_pending)
          | inr d ↦
              let r = attach_each o t q.pending in
              rw (e, d, upload_pending)
                (after_uploads-asked more r.0 r.1
                  ∙ Holds-asked t r.0 (attach_each-Holds o t q.pending))
        ]
      ]

  after_attempts-asked :
      (more : Bool) (t : Trip) (r : Option StreamResult)
      → asked_by (after_attempts c o more (t, r)).0 ≡ asked_by t
  unfolding after_attempts
  after_attempts-asked more t (some r) = refl
  after_attempts-asked more t none = elim (Bool-cases (has_emitted t)) [
    | inl e ↦ rw e
    | inr e ↦ elim (Bool-cases more) [
      | inr m ↦ rw (e, m)
      | inl m ↦ elim (Bool-cases (t.picked.id == pos 0)) [
        | inl p ↦ rw (e, m, p) (release-asked u ∙ Holds-asked t u (exclude-Holds t))
        | inr p ↦ rw (e, m, p) (cooled t.last_err)
      ]
    ]
  ]
    where
      u : Trip
      u = exclude_picked t

      cooled :
          (m : Option Text)
          → (let f : Trip × Flow = elim m [
            | none ↦ (u, leave panicked)
            | some e ↦ (release_current (cool_down c o u e), next_exit)
          ] in
              asked_by f.0 ≡ asked_by t)
      cooled none = Holds-asked t u (exclude-Holds t)
      cooled (some e) =
          release-asked (cool_down c o u e)
          ∙ Holds-asked u _ (cool_down-Holds c o u e)
          ∙ Holds-asked t u (exclude-Holds t)

  -- The attempts through one exit, and the one that a renewed token allows.
  abbrev pub per_exit : ℕ
  per_exit = suc (pos_part c.retry_attempts)

  try_prompt-asked :
      (more : Bool) (t : Trip) (p : Prepared)
      → asked_by (try_prompt c o k q more (t, p)).0 ≤ asked_by t + per_exit
  unfolding try_prompt
  try_prompt-asked more t (unready e) = omega arith
  try_prompt-asked more t (ready prompt) =
      let u = (dispatch c o k q t prompt).0 in
      let d = (dispatch c o k q t prompt).1 in
      let n = pos_part c.retry_attempts in
      let r = attempt_loop c o k q d n u in
      omega (
        arith,
        after_attempts-asked more r.0 r.1,
        Spends-asked (suc n) u r.0 (attempts-Spends c o k q d n u),
        Holds-asked t u (dispatch-Holds c o k q t prompt),
      )

  then_on-asked :
      (n : ℕ) (t : Trip) (f : Flow) (g : Trip → Trip × Flow)
      → asked_by (g t).0 ≤ asked_by t + n
      → asked_by ((t, f) then_on g).0 ≤ asked_by t + n
  then_on-asked n t go_on g h = h
  then_on-asked n t next_exit g h = omega arith
  then_on-asked n t stop g h = omega arith
  then_on-asked n t (leave e) g h = omega arith

  through_exit-asked :
      (more : Bool) (t : Trip)
      → IsWellFormed t.world.exits
      → asked_by (through_exit c o k q more t).0 ≤ asked_by t + per_exit
  unfolding through_exit
  through_exit-asked more t h =
      let a = with_account c o t in
      let upload = upload_pending c o q more in
      let b = a then_on upload in
      let p = prepare c o q b.0 in
      omega (
        arith,
        Holds-asked t a.0 (with_account-Holds c o t h),
        then_on-asked 0 a.0 a.1 upload (omega (arith, upload_pending-asked more a.0)),
        then_on-asked per_exit b.0 b.1 (λ u. try_prompt c o k q more (prepare c o q u))
            (omega (
              arith,
              try_prompt-asked more p.0 p.1,
              Holds-asked b.0 p.0 (prepare-Holds c o q b.0),
            )),
      )

  board-asked : (t : Trip) (x : Exits) (p : Proxy) → asked_by (board t x p) ≡ asked_by t
  unfolding board
  board-asked t x p = release-asked (record t { world = with_exits t.world x })

  with_exit-asked :
      (is_first more : Bool) (t : Trip) (x : Exits) (out : Outcome)
      → ((p : Proxy) → IsWellFormed (board t x p).world.exits)
      → asked_by (with_exit c o k q is_first more t (x, out)).0 ≤ asked_by t + per_exit
  unfolding with_exit
  with_exit-asked is_first more t x (taken p) h =
      omega (arith, board-asked t x p, through_exit-asked more (board t x p) (h p))
  with_exit-asked true more t x (refused e) h = omega arith
  with_exit-asked false more t x (refused e) h = omega arith

  board-IsWellFormed :
      (t : Trip) (x : Exits) (p : Proxy) → IsWellFormed x → IsWellFormed (board t x p).world.exits
  unfolding board release_current release_slot
  board-IsWellFormed t x p h = go t.slot_held
    where
      v : Trip
      v = record t { world = with_exits t.world x }

      go :
          (b : Bool)
          → (let u : Trip =
                if b
                then record v { world = release_at v.world v.picked.id; slot_held = false }
                else v in
              IsWellFormed u.world.exits)
      go false = h
      go true = same-IsWellFormed x _ refl refl refl refl h

  one_round-asked :
      (prefer : ℤ) (is_first more : Bool) (t : Trip)
      → IsWellFormed t.world.exits
      → asked_by (one_round c o k q prefer is_first more t).0 ≤ asked_by t + per_exit
  unfolding one_round
  one_round-asked prefer is_first more t h =
      let r =
        acquire_slot_except c (now_of o t.world) (o.remote (sent_count t.world)) t.world.exits
          (if is_first then prefer else pos 0) t.excluded_ids t.excluded_urls in
      let a =
        acquire_slot_except-Acquired c (now_of o t.world) (o.remote (sent_count t.world))
          t.excluded_ids t.excluded_urls t.world.exits (if is_first then prefer else pos 0) h in
      with_exit-asked is_first more t r.0 r.1 (λ p. board-IsWellFormed t r.0 p a.well)

  conclude-asked : (t : Trip) → asked_by (conclude o t).0 ≡ asked_by t
  unfolding conclude conclude_with mark_account
  conclude-asked t = go t.last_err
    where
      go : (m : Option Text) → asked_by (conclude_with o t m).0 ≡ asked_by t
      go none = refl
      go (some e) = refl

  after_round-asked :
      (n : ℕ) (t : Trip) (f : Flow) (g : Trip → Trip × Ending)
      → asked_by (g t).0 ≤ asked_by t + n
      → asked_by (after_round o (t, f) g).0 ≤ asked_by t + n
  after_round-asked n t go_on g h = h
  after_round-asked n t next_exit g h = h
  after_round-asked n t stop g h = omega (arith, conclude-asked t)
  after_round-asked n t (leave e) g h = omega arith

  rounds-asked :
      (w : World) (prefer : ℤ) (is_first : Bool) (n : ℕ) (t : Trip)
      → Balanced w t
      → asked_by (exit_rounds c o k q prefer is_first n t).0 ≤ asked_by t + suc n * per_exit
  unfolding exit_rounds
  rounds-asked w prefer is_first zero t h =
      let r = one_round c o k q prefer is_first false t in
      omega (
        arith,
        one_round-asked prefer is_first false t h.well,
        after_round-asked 0 r.0 r.1 (conclude o) (omega (arith, conclude-asked r.0)),
      )
  rounds-asked w prefer is_first (suc n) t h =
      let r = one_round c o k q prefer is_first true t in
      let more = suc n * per_exit in
      omega (
        arith,
        one_round-asked prefer is_first true t h.well,
        after_round-asked more r.0 r.1 (exit_rounds c o k q prefer false n) (
            rounds-asked w prefer false n r.0
              (one_round-Balanced c o k q w prefer is_first true t h)),
      )

  first-asked : (w : World) → asked_by (first_account c o w q) ≡ asked_in w.log
  unfolding first_account
  first-asked w = elim (Bool-cases (anon_first_eligible c q.model (not (is_none_left q.pending)))) [
    | inl e ↦ rw (e, first_account)
    | inr e ↦ rw (e, first_account)
  ]

  -- From well-formed exits, one request of a client asks for an answer at most once more than the
  -- configured attempts for each of its exits, which are at most one more than the configured
  -- switches, whatever is answered.
  pub request-asked_bound :
      (w : World)
      → IsWellFormed w.exits
      → asked_by (stream_generate_with_files c o k w q).0
        ≤ asked_in w.log + (pos_part c.proxy_retry_attempts + 1) * (pos_part c.retry_attempts + 1)
  unfolding stream_generate_with_files
  request-asked_bound w h =
      let t = first_account c o w q in
      let n = pos_part c.proxy_retry_attempts in
      let r = exit_rounds c o k q (bound_exit t.account) true n t in
      omega (
        arith,
        release-asked r.0,
        first-asked w,
        rounds-asked w (bound_exit t.account) true n t (first-Balanced c o k q w h),
      )
