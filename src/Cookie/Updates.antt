-- ===== src/Cookie/Updates.antt =====
-- The updates that `mergeSetCookie` reads from the headers of an answer.
use mathlib.Core.Bool.{◌&&◌}
use mathlib.Core.List.{List, [], ◌∷◌}
use mathlib.Core.Logic.{inl, inr}
use mathlib.Core.Option.{Option, none, some}
use mathlib.Core.Path.{ap, refl, sym, ◌∙◌, ◌≡◌}
use native.Mathlib.Omega.{arith}
use gemini_web2api_go.Base.Dict.{lookup, lookup-put, put, put-All}
use gemini_web2api_go.Base.Int.{int_eq}
use gemini_web2api_go.Base.Lists.{All}
use gemini_web2api_go.Base.Tests.{Bool-cases, Option-cases, if◌then◌else◌, nat_eq, ◌==◌}
use gemini_web2api_go.Base.Text.{
  Text, before, codes, contains, is_empty, text_eq, to_lower, trim_space,
}
use gemini_web2api_go.Cookie.{Pair, cookie_updates, deletes, pair_of, semicolon}
use gemini_web2api_go.Cookie.Split.{IsClean, has_byte-before, pair_of-IsClean}

-- The first of two values that is there.
abbrev pub either : Option Text → Option Text → Option Text
either (some v) m = some v
either none m = m

-- What a header with such a pair sets `name` to; an expiry in the past with an empty value sets
-- nothing.
abbrev pub set_in : Text → Text → Option Pair → Option Text
set_in name header none = none
set_in name header (some (k, v)) =
    if is_empty v && contains (to_lower header) (codes "expires=thu, 01 jan 1970")
    then none
    else if k == name
    then some v
    else none

-- What the last header that sets `name` sets it to.
abbrev pub last_set : List Text → Text → Option Text
last_set [] name = none
last_set (h ∷ hs) name =
    either (last_set hs name) (set_in name h (pair_of (trim_space (before semicolon h))))

either_assoc : (a b m : Option Text) → either (either a b) m ≡ either a (either b m)
either_assoc (some v) b m = refl
either_assoc none b m = refl

pub either-none : (m : Option Text) → either m none ≡ m
either-none (some v) = refl
either-none none = refl

-- One header, where the ones after it do what they should.
header-last :
    (name h : Text) (hs : List Text) (us : List Pair) (m : Option Pair)
    → ((vs : List Pair)
        → lookup name (cookie_updates hs vs) ≡ either (last_set hs name) (lookup name vs))
    → (let updated : List Pair = elim m [
      | none ↦ cookie_updates hs us
      | some (k, v) ↦ if deletes h v then cookie_updates hs us else cookie_updates hs (put k v us)
    ] in
        lookup name updated ≡ either (either (last_set hs name) (set_in name h m)) (lookup name us))
unfolding deletes
header-last name h hs us none f = f us ∙ sym (either_assoc (last_set hs name) none (lookup name us))
header-last name h hs us (some (k, v)) f = elim (Bool-cases (deletes h v)) [
  | inl d ↦ rw d (f us ∙ sym (either_assoc (last_set hs name) none (lookup name us)))
  | inr d ↦
      let put_here : lookup name (put k v us)
          ≡ either (if k == name then some v else none) (lookup name us) =
        ground (arith, lookup-put k name v us) in
      rw d (
        f (put k v us)
        ∙ ap (either (last_set hs name)) put_here
        ∙ sym
            (either_assoc (last_set hs name) (if k == name then some v else none) (lookup name us)))
]

pub updates-last :
    (name : Text) (hs : List Text) (us : List Pair)
    → lookup name (cookie_updates hs us) ≡ either (last_set hs name) (lookup name us)
unfolding cookie_updates
updates-last name [] us = refl
updates-last name (h ∷ hs) us =
    header-last name h hs us (pair_of (trim_space (before semicolon h))) (updates-last name hs)

pub updates-IsClean :
    (headers : List Text) (us : List Pair)
    → All IsClean us
    → All IsClean (cookie_updates headers us)
unfolding cookie_updates
updates-IsClean [] us a = a
updates-IsClean (h ∷ hs) us a = elim (Option-cases (pair_of (trim_space (before semicolon h)))) [
  | inl e ↦ rw (e, cookie_updates) (updates-IsClean hs us a)
  | inr ((k, v), e) ↦ elim (Bool-cases (deletes h v)) [
    | inl d ↦ rw (e, cookie_updates, d) (updates-IsClean hs us a)
    | inr d ↦
        let clean = pair_of-IsClean (before semicolon h) (k, v) (has_byte-before semicolon h) e in
        rw (e, cookie_updates, d)
          (updates-IsClean hs (put k v us) (put-All (λ i w. IsClean (i, w)) k v us a clean))
  ]
]
