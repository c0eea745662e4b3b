-- ===== src/Trip/AttachLaws.antt =====
-- Attachments take no slot, and make no account another.
use Prim.Native.Nat.{ℕ}
use mathlib.Core.Bool.{Bool, false, not, true, ◌||◌}
use mathlib.Core.List.{List, [], ◌∷◌}
use mathlib.Core.Logic.{inl, inr}
use mathlib.Core.Option.{Option, none, some}
use mathlib.Core.Path.{refl}
use gemini_web2api_go.Base.Int.{int_eq, pos, pos_part}
use gemini_web2api_go.Base.Result.{Result, erred, fine}
use gemini_web2api_go.Base.Tests.{Bool-cases, if◌then◌else◌, nat_eq, ◌==◌}
use gemini_web2api_go.Base.Text.{Text, is_empty, text_eq}
use gemini_web2api_go.Config.{RuntimeConfig}
use gemini_web2api_go.Outside.{Outside, World}
use gemini_web2api_go.Outside.Kept.{Kept, Same-Kept, Same-refl}
use gemini_web2api_go.Trip.{
  Asked, Flow, Trip, attrib, cool_down, exclude_picked, gave_up, leave, next_exit, release_current,
}
use gemini_web2api_go.Trip.Attach.{
  after_context, after_uploads, attach_each, attached, failed_uploads, is_none_left, prepare,
  unless_failed, upload_pending,
}
use gemini_web2api_go.Trip.Balance.{
  Balanced, Holds, Holds-Balanced, Holds-refl, Holds-trans, Holds-world, cool_down-Holds,
  release-Balanced,
}
use gemini_web2api_go.Upload.{FileRef, PendingUpload, upload_bytes}
use gemini_web2api_go.Upload.Same.{prepare-Same, upload_bytes-Same}

attached-Holds :
    (t : Trip) (u : PendingUpload) (w : World) (r : Result Text)
    → Kept t.world w
    → Holds t (attached t u (w, r)).0
unfolding attached
attached-Holds t u w (erred e) k = record {
  world_kept = k;
  same_picked = refl;
  same_held = refl;
  feed_kept = λ f. f;
  few_kept = λ f. f;
  err_kept = λ f. refl;
}
attached-Holds t u w (fine r) k = record {
  world_kept = k;
  same_picked = refl;
  same_held = refl;
  feed_kept = λ f. f;
  few_kept = λ f. f;
  err_kept = λ f. f;
}

unless_failed-Holds :
    (t u : Trip) (b : Bool) (f : Trip → Trip × Bool)
    → Holds t u
    → Holds u (f u).0
    → Holds t (unless_failed (u, b) f).0
unless_failed-Holds t u true f h k = h
unless_failed-Holds t u false f h k = Holds-trans t u (f u).0 h k

pub attach_each-Holds :
    (o : Outside) (t : Trip) (us : List PendingUpload) → Holds t (attach_each o t us).0
unfolding attach_each
attach_each-Holds o t [] = Holds-refl t
attach_each-Holds o t (u ∷ us) =
    let r = upload_bytes o t.world t.cookie_str t.picked.url u.content u.file_name in
    unless_failed-Holds t _ (attached t u r).1 _
      (attached-Holds t u r.0 r.1 (
        Same-Kept t.world r.0
          (upload_bytes-Same o t.world t.cookie_str t.picked.url u.content u.file_name)))
      (attach_each-Holds o (attached t u r).0 us)

pub exclude-Holds : (t : Trip) → Holds t (exclude_picked t)
unfolding exclude_picked
exclude-Holds t = record {
  world_kept = Same-Kept t.world t.world (Same-refl t.world);
  same_picked = refl;
  same_held = refl;
  feed_kept = λ f. f;
  few_kept = λ f. f;
  err_kept = λ f. f;
}

failed_uploads-Balanced :
    (c : RuntimeConfig) (o : Outside) (more : Bool) (w : World) (t : Trip) (m : Option Text)
    → Balanced w t
    → Balanced w (failed_uploads c o more t m).0
unfolding failed_uploads
failed_uploads-Balanced c o more w t (some err) h = go more
  where
    cooled : Trip
    cooled = cool_down c o t err

    cooled-Balanced : Balanced w cooled
    cooled-Balanced = Holds-Balanced w t cooled (cool_down-Holds c o t err) h

    go :
        (m : Bool)
        → (let r : Trip × Flow =
              if m
              then (release_current (exclude_picked cooled), next_exit)
              else (cooled, leave (gave_up (attrib cooled) err)) in
            Balanced w r.0)
    go false = cooled-Balanced
    go true =
        (release-Balanced w _ (Holds-Balanced w cooled _ (exclude-Holds cooled) cooled-Balanced)).0
failed_uploads-Balanced c o more w t none h = elim (Bool-cases (t.picked.id == pos 0)) [
  | inr e ↦ rw e h
  | inl e ↦ elim (Bool-cases more) [
    | inr d ↦ rw (e, d) h
    | inl d ↦ rw (e, d) (release-Balanced w _ (Holds-Balanced w t _ (exclude-Holds t) h)).0
  ]
]

after_uploads-Balanced :
    (c : RuntimeConfig) (o : Outside) (more : Bool) (w : World) (t : Trip) (b : Bool)
    → Balanced w t
    → Balanced w (after_uploads c o more (t, b)).0
unfolding after_uploads
after_uploads-Balanced c o more w t false h = h
after_uploads-Balanced c o more w t true h = failed_uploads-Balanced c o more w t t.last_err h

pub upload_pending-Balanced :
    (c : RuntimeConfig) (o : Outside) (q : Asked) (more : Bool) (w : World) (t : Trip)
    → Balanced w t
    → Balanced w (upload_pending c o q more t).0
unfolding upload_pending
upload_pending-Balanced c o q more w t h =
    elim (Bool-cases (is_none_left q.pending || not (is_none_left t.files))) [
      | inl e ↦ rw (e, upload_pending) h
      | inr e ↦ elim (Bool-cases (is_empty t.cookie_str)) [
        | inl d ↦ rw (e, d, upload_pending) h
        | inr d ↦
            rw (e, d, upload_pending)
              (after_uploads-Balanced c o more w _ (attach_each o t q.pending).1
                (Holds-Balanced w t _ (attach_each-Holds o t q.pending) h))
      ]
    ]

after_context-Holds :
    (t : Trip) (budget : ℕ) (w : World) (r : Result (Text × List FileRef))
    → Kept t.world w
    → Holds t (after_context t budget (w, r)).0
unfolding after_context
after_context-Holds t budget w (erred e) k = Holds-world t w k
after_context-Holds t budget w (fine (prompt, fs)) k = record {
  world_kept = k;
  same_picked = refl;
  same_held = refl;
  feed_kept = λ f. f;
  few_kept = λ f. f;
  err_kept = λ f. f;
}

pub prepare-Holds :
    (c : RuntimeConfig) (o : Outside) (q : Asked) (t : Trip) → Holds t (prepare c o q t).0
unfolding prepare
prepare-Holds c o q t = after_context-Holds t _ _ _ (
    Same-Kept t.world _ (
      prepare-Same o t.world q.prompt q.latest (pos_part c.max_prompt_bytes) t.cookie_str
        t.picked.url))
