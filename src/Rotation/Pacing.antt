-- ===== src/Rotation/Pacing.antt =====
-- How often an account renews `__Secure-1PSIDTS`.
use Prim.Native.Nat.{suc, ℕ, ◌+◌, ◌<◌}
use mathlib.Core.Bool.{false, true}
use mathlib.Core.List.{List, [], ◌∷◌}
use mathlib.Core.Logic.{inl, inr}
use mathlib.Core.Option.{Option, some}
use mathlib.Core.Path.{refl, subst, sym, ◌∙◌, ◌≡◌}
use native.Mathlib.Omega.{arith}
use gemini_web2api_go.Base.Dict.{lookup, lookup-put}
use gemini_web2api_go.Base.Int.{int_beq_iff, int_eq, ℤ}
use gemini_web2api_go.Base.Lists.{All}
use gemini_web2api_go.Base.Result.{Result, fine}
use gemini_web2api_go.Base.Tests.{Bool-cases, nat_eq, ◌==◌}
use gemini_web2api_go.Base.Text.{Text, codes, is_empty, text_eq}
use gemini_web2api_go.Cookie.{cookie_value}
use gemini_web2api_go.Outside.{Outside, Request, World, exchange, now_of, sent_count}
use gemini_web2api_go.Rotation.{
  allow_1psidts_rotate, has_rested, is_uncounted, min_1psidts_interval, note_1psidts_attempt,
  rotate_1psidts, try_rotate_1psidts,
}

allow-refused :
    (o : Outside) (v : World) (i : ℤ) (last : ℕ)
    → lookup i v.psidts_last_at ≡ some last
    → now_of o v < last + min_1psidts_interval
    → allow_1psidts_rotate o v i ≡ false
unfolding allow_1psidts_rotate
allow-refused o v i last h lt =
    subst (λ (m : Option ℕ). has_rested (now_of o v) m ≡ false) (sym h) (ground (arith, lt))

note-stamped :
    (o : Outside) (w : World) (i : ℤ) (r : Result (Text × List Text))
    → is_uncounted r ≡ false
    → lookup i (note_1psidts_attempt o w i r).psidts_last_at ≡ some (now_of o w)
unfolding note_1psidts_attempt
note-stamped o w i r e =
    let same : (i == i) ≡ true = (int_beq_iff i i).1 refl in
    rw (e, note_1psidts_attempt) (rw (lookup-put i i (now_of o w) w.psidts_last_at, same))

tried-stamped :
    (o : Outside) (w : World) (i : ℤ) (cookie proxy_url : Text)
    → is_empty (cookie_value cookie (codes "__Secure-1PSID")) ≡ false
    → allow_1psidts_rotate o w i ≡ true
    → is_uncounted (try_rotate_1psidts o w i cookie proxy_url).1 ≡ false
    → lookup i (try_rotate_1psidts o w i cookie proxy_url).0.psidts_last_at
      ≡ some (o.clock (suc (sent_count w)))
unfolding try_rotate_1psidts rotate_1psidts exchange
tried-stamped o w i cookie proxy_url signed allowed counted =
    let r = rotate_1psidts o w cookie proxy_url in
    let same : try_rotate_1psidts o w i cookie proxy_url ≡ (note_1psidts_attempt o r.0 i r.1, r.1) =
      rw (signed, allowed, try_rotate_1psidts) in
    subst
      (λ (p : World × Result (Text × List Text)).
        is_uncounted p.1 ≡ false
        → lookup i p.0.psidts_last_at ≡ some (o.clock (suc (sent_count w))))
      (sym same) (λ k. note-stamped o r.0 i r.1 k) counted

-- What may happen between two tries of an account: a try of another one, or any other request.
pub data Between : Type 0 where
  tries : ℤ → Text → Text → Between
  sends : Request → Between

unfoldable pub elapse_one : Outside → World → Between → World
elapse_one o w (tries j cookie proxy_url) = (try_rotate_1psidts o w j cookie proxy_url).0
elapse_one o w (sends r) = (exchange o w r).0

unfoldable pub elapse : Outside → World → List Between → World
unfolding elapse_one
elapse o w [] = w
elapse o w (b ∷ bs) = elapse o (elapse_one o w b) bs

abbrev pub IsOther : ℤ → Between → Type 0
IsOther i (tries j cookie proxy_url) = (j == i) ≡ false
IsOther i (sends r) = Unit {0}

note-other :
    (o : Outside) (w : World) (i j : ℤ) (r : Result (Text × List Text))
    → (j == i) ≡ false
    → lookup i (note_1psidts_attempt o w j r).psidts_last_at ≡ lookup i w.psidts_last_at
unfolding note_1psidts_attempt
note-other o w i j r e = elim (Bool-cases (is_uncounted r)) [
  | inl d ↦ rw (d, note_1psidts_attempt)
  | inr d ↦ rw (d, note_1psidts_attempt) (rw (lookup-put j i (now_of o w) w.psidts_last_at, e))
]

tried-other :
    (o : Outside) (w : World) (i j : ℤ) (cookie proxy_url : Text)
    → (j == i) ≡ false
    → lookup i (try_rotate_1psidts o w j cookie proxy_url).0.psidts_last_at
      ≡ lookup i w.psidts_last_at
unfolding try_rotate_1psidts rotate_1psidts exchange
tried-other o w i j cookie proxy_url e =
    elim (Bool-cases (is_empty (cookie_value cookie (codes "__Secure-1PSID")))) [
      | inl f ↦ rw (f, try_rotate_1psidts)
      | inr f ↦ elim (Bool-cases (allow_1psidts_rotate o w j)) [
        | inr g ↦ rw (f, g, try_rotate_1psidts)
        | inl g ↦
            let r = rotate_1psidts o w cookie proxy_url in
            rw (f, g, try_rotate_1psidts) (note-other o r.0 i j r.1 e)
      ]
    ]

elapse_one-other :
    (o : Outside) (w : World) (i : ℤ) (b : Between)
    → IsOther i b
    → lookup i (elapse_one o w b).psidts_last_at ≡ lookup i w.psidts_last_at
unfolding elapse_one exchange
elapse_one-other o w i (sends r) e = refl
elapse_one-other o w i (tries j cookie proxy_url) e = tried-other o w i j cookie proxy_url e

elapse-other :
    (o : Outside) (w : World) (i : ℤ) (bs : List Between)
    → All (IsOther i) bs
    → lookup i (elapse o w bs).psidts_last_at ≡ lookup i w.psidts_last_at
unfolding elapse
elapse-other o w i [] a = refl
elapse-other o w i (b ∷ bs) a =
    elapse-other o (elapse_one o w b) i bs a.1 ∙ elapse_one-other o w i b a.0

-- After an attempt that counts (an answer, or an error that names the status 401, 403 or 429), and
-- whatever other requests and tries of other accounts follow it, no request renews
-- `__Secure-1PSIDTS` of the account for 60 seconds, with whatever cookie and through whatever exit: a
-- try in that time sends nothing and returns the cookie as it is.
pub attempt-rests :
    (o : Outside) (w : World) (i : ℤ) (cookie proxy_url other other_url : Text) (bs : List Between)
    → is_empty (cookie_value cookie (codes "__Secure-1PSID")) ≡ false
    → allow_1psidts_rotate o w i ≡ true
    → is_uncounted (try_rotate_1psidts o w i cookie proxy_url).1 ≡ false
    → All (IsOther i) bs
    → now_of o (elapse o (try_rotate_1psidts o w i cookie proxy_url).0 bs)
      < o.clock (suc (sent_count w)) + 60
    → let v = elapse o (try_rotate_1psidts o w i cookie proxy_url).0 bs in
      try_rotate_1psidts o v i other other_url ≡ (v, fine (other, []))
unfolding try_rotate_1psidts
attempt-rests o w i cookie proxy_url other other_url bs signed allowed counted others lt =
    elim (Bool-cases (is_empty (cookie_value other (codes "__Secure-1PSID")))) [
      | inl e ↦ simp (e, try_rotate_1psidts)
      | inr e ↦ simp (e, try_rotate_1psidts, refused)
    ]
  where
    v : World
    v = elapse o (try_rotate_1psidts o w i cookie proxy_url).0 bs

    refused : allow_1psidts_rotate o v i ≡ false
    refused =
        allow-refused o v i (o.clock (suc (sent_count w)))
          (elapse-other o (try_rotate_1psidts o w i cookie proxy_url).0 i bs others
            ∙ tried-stamped o w i cookie proxy_url signed allowed counted)
          lt
