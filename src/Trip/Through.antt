-- ===== src/Trip/Through.antt =====
-- What a round does once its exit is taken keeps the balance of slots.
use Prim.Native.Nat.{suc}
use mathlib.Core.Bool.{Bool}
use mathlib.Core.Logic.{inl, inr}
use mathlib.Core.Option.{Option, none, some}
use gemini_web2api_go.Base.Int.{int_eq, pos, pos_part}
use gemini_web2api_go.Base.Tests.{Bool-cases, nat_eq, ◌==◌}
use gemini_web2api_go.Base.Text.{Text, text_eq}
use gemini_web2api_go.Config.{RuntimeConfig}
use gemini_web2api_go.Outside.{Outside, World}
use gemini_web2api_go.Outside.Kept.{Same-Kept}
use gemini_web2api_go.Payload.{Writers}
use gemini_web2api_go.Tokens.Same.{current_bl-Same}
use gemini_web2api_go.Trip.{
  Asked, Flow, StreamResult, Trip, cool_down, exclude_picked, go_on, has_emitted, leave, next_exit,
  panicked, release_current, stop, ◌then_on◌,
}
use gemini_web2api_go.Trip.Attach.{Prepared, prepare, ready, unready, upload_pending}
use gemini_web2api_go.Trip.AttachLaws.{exclude-Holds, prepare-Holds, upload_pending-Balanced}
use gemini_web2api_go.Trip.Attempts.{attempt_loop}
use gemini_web2api_go.Trip.AttemptsLaws.{attempts-Spends}
use gemini_web2api_go.Trip.Balance.{
  Balanced, Holds, Holds-Balanced, Holds-world, cool_down-Holds, release-Balanced,
}
use gemini_web2api_go.Trip.SignIn.{with_account}
use gemini_web2api_go.Trip.SignedIn.{with_account-Holds}
use gemini_web2api_go.Trip.Spends.{Spends-Balanced}
use gemini_web2api_go.Trip.Switches.{after_attempts, dispatch, through_exit, try_prompt}

pub dispatch-Holds :
    (c : RuntimeConfig) (o : Outside) (k : Writers) (q : Asked) (t : Trip) (prompt : Text)
    → Holds t (dispatch c o k q t prompt).0
unfolding dispatch
dispatch-Holds c o k q t prompt =
    Holds-world t _ (Same-Kept t.world _ (current_bl-Same c o t.world))

module _ (c : RuntimeConfig) (o : Outside) (k : Writers) (q : Asked) (w : World) where
  pub after_attempts-Balanced :
      (more : Bool) (t : Trip) (r : Option StreamResult)
      → Balanced w t
      → Balanced w (after_attempts c o more (t, r)).0
  unfolding after_attempts
  after_attempts-Balanced more t (some r) h = h
  after_attempts-Balanced more t none h = elim (Bool-cases (has_emitted t)) [
    | inl e ↦ rw e h
    | inr e ↦ elim (Bool-cases more) [
      | inr m ↦ rw (e, m) h
      | inl m ↦ elim (Bool-cases (t.picked.id == pos 0)) [
        | inl p ↦ rw (e, m, p) (release-Balanced w u excluded-Balanced).0
        | inr p ↦ rw (e, m, p) (cooled t.last_err)
      ]
    ]
  ]
    where
      u : Trip
      u = exclude_picked t

      excluded-Balanced : Balanced w u
      excluded-Balanced = Holds-Balanced w t u (exclude-Holds t) h

      cooled :
          (m : Option Text)
          → (let f : Trip × Flow = elim m [
            | none ↦ (u, leave panicked)
            | some e ↦ (release_current (cool_down c o u e), next_exit)
          ] in
              Balanced w f.0)
      cooled none = excluded-Balanced
      cooled (some e) =
          (release-Balanced w _
            (Holds-Balanced w u _ (cool_down-Holds c o u e) excluded-Balanced)).0

  try_prompt-Balanced :
      (more : Bool) (t : Trip) (p : Prepared)
      → Balanced w t
      → Balanced w (try_prompt c o k q more (t, p)).0
  unfolding try_prompt
  try_prompt-Balanced more t (unready e) h = h
  try_prompt-Balanced more t (ready prompt) h =
      let u = (dispatch c o k q t prompt).0 in
      let d = (dispatch c o k q t prompt).1 in
      let n = pos_part c.retry_attempts in
      after_attempts-Balanced more _ (attempt_loop c o k q d n u).1 (
        Spends-Balanced (suc n) w u _ (attempts-Spends c o k q d n u)
          (Holds-Balanced w t u (dispatch-Holds c o k q t prompt) h))

  then_on-Balanced :
      (t : Trip) (f : Flow) (g : Trip → Trip × Flow)
      → Balanced w t
      → (Balanced w t → Balanced w (g t).0)
      → Balanced w ((t, f) then_on g).0
  then_on-Balanced t go_on g h l = l h
  then_on-Balanced t next_exit g h l = h
  then_on-Balanced t stop g h l = h
  then_on-Balanced t (leave e) g h l = h

  pub through_exit-Balanced :
      (more : Bool) (t : Trip) → Balanced w t → Balanced w (through_exit c o k q more t).0
  unfolding through_exit
  through_exit-Balanced more t h =
      let (a, f) = with_account c o t in
      let upload = upload_pending c o q more in
      let b = (a, f) then_on upload in
      then_on-Balanced b.0 b.1 (λ u. try_prompt c o k q more (prepare c o q u))
        (then_on-Balanced a f upload (Holds-Balanced w t a (with_account-Holds c o t h.well) h)
          (λ i. upload_pending-Balanced c o q more w a i))
        (λ i.
          try_prompt-Balanced more (prepare c o q b.0).0 (prepare c o q b.0).1
            (Holds-Balanced w b.0 _ (prepare-Holds c o q b.0) i))
