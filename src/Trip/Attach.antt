-- ===== src/Trip/Attach.antt =====
-- What goes along with the prompt: the attachments of the client, and the prompt itself as a file
-- where it is too long.
use Prim.Native.Nat.{ℕ}
use mathlib.Core.Bool.{Bool, false, not, true, ◌&&◌, ◌||◌}
use mathlib.Core.List.{List, [], ◌++◌, ◌∷◌}
use mathlib.Core.Option.{Option, none, some}
use gemini_web2api_go.Base.Int.{int_eq, pos_part}
use gemini_web2api_go.Base.Lists.{length}
use gemini_web2api_go.Base.Result.{Result, erred, fine, utf8}
use gemini_web2api_go.Base.Tests.{if◌then◌else◌, ltb, nat_eq}
use gemini_web2api_go.Base.Text.{Text, codes, is_empty, text_eq}
use gemini_web2api_go.Config.{RuntimeConfig}
use gemini_web2api_go.Outside.{Outside, World}
use gemini_web2api_go.Trip.{
  Asked, Ending, Flow, Trip, attrib, cool_down, exclude_picked, gave_up, go_on, leave, next_exit,
  panicked, picked_ok, release_current, succeeded, too_long,
}
use gemini_web2api_go.Upload.{FileRef, PendingUpload, prepare_context_file, upload_bytes}

-- One attachment after its upload; `true` is `uploadFailed`.
unfoldable pub attached : Trip → PendingUpload → World × Result Text → Trip × Bool
attached t u (w, erred e) = (
  record t { world = w; last_err = some (utf8 "上传附件 " ++ (u.file_name ++ (utf8 " 失败: " ++ e))) },
  true,
)
attached t u (w, fine r) = (
  record t {
    world = w;
    files =
        t.files
        ++ record { ref = r; ref_name = u.file_name; ref_kind = u.kind; ref_mime = u.mime } ∷ [];
  },
  false,
)

abbrev pub unless_failed : Trip × Bool → (Trip → Trip × Bool) → Trip × Bool
unless_failed (t, true) f = (t, true)
unless_failed (t, false) f = f t

-- The loop over `pending`.
unfoldable pub attach_each : Outside → Trip → List PendingUpload → Trip × Bool
unfolding attached
attach_each o t [] = (t, false)
attach_each o t (u ∷ us) =
    unless_failed
      (attached t u (upload_bytes o t.world t.cookie_str t.picked.url u.content u.file_name))
      (λ t'. attach_each o t' us)

-- An upload failed, where `lastErr` is the given one. On a `lastErr` that is nil, `lastErr.Error()`
-- panics, and `attrib` returns no error.
unfoldable pub failed_uploads : RuntimeConfig → Outside → Bool → Trip → Option Text → Trip × Flow
failed_uploads c o more t (some err) =
    let t' = cool_down c o t err in
    if more
    then (release_current (exclude_picked t'), next_exit)
    else (t', leave (gave_up (attrib t') err))
failed_uploads c o more t none =
    if picked_ok t
    then (t, leave panicked)
    else if more
    then (release_current (exclude_picked t), next_exit)
    else (
      t,
      leave (
          succeeded (record {
            emitted_text = [];
            emitted_thought = [];
            raw = [];
            reasoning = [];
            served_by = [];
            attribution = attrib t;
          })),
    )

-- What follows the uploads; `more` is `proxySwitch < maxProxySwitches`.
unfoldable pub after_uploads : RuntimeConfig → Outside → Bool → Trip × Bool → Trip × Flow
unfolding failed_uploads
after_uploads c o more (t, false) = (t, go_on)
after_uploads c o more (t, true) = failed_uploads c o more t t.last_err

abbrev no_cookie_for_images : Text
no_cookie_for_images =
    codes
      "image input needs a Google account cookie: anonymous uploads succeed but referencing them in a conversation is rejected upstream. Add a cookie in the admin panel (Cookie pool)"

abbrev pub is_none_left {ℓ} : {A : Type ℓ} → List A → Bool
is_none_left [] = true
is_none_left (x ∷ xs) = false

-- `if len(pending) > 0 && len(files) == 0 { … }`
unfoldable pub upload_pending : RuntimeConfig → Outside → Asked → Bool → Trip → Trip × Flow
unfolding attach_each after_uploads
upload_pending c o q more t =
    if is_none_left q.pending || not (is_none_left t.files)
    then (t, go_on)
    else if is_empty t.cookie_str
    then (t, leave (gave_up (attrib t) no_cookie_for_images))
    else after_uploads c o more (attach_each o t q.pending)

-- The prompt that is sent: the client's, or the one that points to the file.
pub data Prepared : Type 0 where
  ready : Text → Prepared
  unready : Ending → Prepared

unfoldable pub within_budget : Trip → ℕ → Text → Prepared
within_budget t budget prompt =
    if ltb 0 budget && ltb budget (length prompt)
    then unready (too_long (attrib t) (length prompt) budget (not (is_empty t.cookie_str)))
    else ready prompt

unfoldable pub after_context : Trip → ℕ → World × Result (Text × List FileRef) → Trip × Prepared
unfolding within_budget
after_context t budget (w, erred e) =
    let t' = record t { world = w } in (t', unready (gave_up (attrib t') e))
after_context t budget (w, fine (prompt, fs)) =
    let t' = record t { world = w; files = t.files ++ fs } in (t', within_budget t' budget prompt)

-- From `curPrompt := prompt` to the check of its length.
unfoldable pub prepare : RuntimeConfig → Outside → Asked → Trip → Trip × Prepared
unfolding after_context
prepare c o q t =
    let budget = pos_part c.max_prompt_bytes in
    after_context t budget
      (prepare_context_file o t.world q.prompt q.latest budget t.cookie_str t.picked.url)
