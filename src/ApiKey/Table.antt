-- ===== src/ApiKey/Table.antt =====
-- The key that the table holds after a start and the changes of the panel.
use mathlib.Core.Bool.{Bool, false, not, true, ◌&&◌, ◌||◌}
use mathlib.Core.List.{List, [], ◌++◌, ◌∷◌}
use mathlib.Core.Option.{some}
use mathlib.Core.Path.{ap, refl, sym, ◌∙◌, ◌≡◌}
use native.Mathlib.Omega.{arith}
use gemini_web2api_go.ApiKey.{
  Keys, adopt_key, api_key, init_api_key, locked_key, new_api_key, rotate_api_key, set_api_key,
  short_key, store_key, stored_key,
}
use gemini_web2api_go.Base.Dict.{lookup-put}
use gemini_web2api_go.Base.Int.{int_eq}
use gemini_web2api_go.Base.Lists.{length}
use gemini_web2api_go.Base.Tests.{if◌then◌else◌, ltb, nat_eq}
use gemini_web2api_go.Base.Text.{Text, codes, is_empty, text_beq, text_eq}

-- A change that the panel makes.
pub data KeyChange : Type 0 where
  rotates : Bool → Text → KeyChange
  sets : Bool → Text → KeyChange

unfoldable pub change_key : Keys → KeyChange → Keys
unfolding rotate_api_key set_api_key
change_key s (rotates stores random) = (rotate_api_key stores random s).0
change_key s (sets stores k) = (set_api_key stores s k).0

unfoldable pub change_keys : Keys → List KeyChange → Keys
unfolding change_key
change_keys s [] = s
change_keys s (x ∷ xs) = change_keys (change_key s x) xs

pub store-stored : (s : Keys) (k : Text) → stored_key (store_key s k) ≡ k
unfolding stored_key store_key text_beq
store-stored s k = simp (stored_key, store_key, lookup-put api_key api_key k s.table)

-- The last key that the panel sets or has made, where the database takes it; a key of fewer than 20
-- bytes is not set.
abbrev pub last_key : Text → List KeyChange → Text
last_key k [] = k
last_key k (rotates stores random ∷ xs) =
    last_key (if stores then codes "sk-gemini-" ++ random else k) xs
last_key k (sets stores new ∷ xs) =
    last_key (if stores && not (ltb (length new) 20) then new else k) xs

adopt-stored :
    (stores : Bool) (s : Keys) (k : Text)
    → stored_key (adopt_key stores s k).0 ≡ (if stores then k else stored_key s)
unfolding store_key stored_key
adopt-stored true s k = store-stored s k
adopt-stored false s k = refl

change-stored :
    (s : Keys) (x : KeyChange)
    → stored_key (change_key s x)
      ≡ (if s.is_locked then stored_key s else last_key (stored_key s) (x ∷ []))
unfolding change_key rotate_api_key set_api_key
change-stored s (rotates stores random) = go s.is_locked
  where
    go :
        (b : Bool)
        → stored_key (if b then (s, locked_key) else adopt_key stores s (new_api_key random)).0
          ≡ (if b then stored_key s else if stores then new_api_key random else stored_key s)
    go true = refl
    go false = adopt-stored stores s (new_api_key random)
change-stored s (sets stores k) = go s.is_locked (ltb (length k) 20)
  where
    go :
        (b d : Bool)
        → stored_key
            (if b then (s, locked_key) else if d then (s, short_key) else adopt_key stores s k).0
          ≡ (if b then stored_key s else if stores && not d then k else stored_key s)
    go true d = refl
    go false true = ground arith
    go false false = adopt-stored stores s k ∙ ground arith

change-lock : (s : Keys) (x : KeyChange) → (change_key s x).is_locked ≡ s.is_locked
unfolding change_key rotate_api_key set_api_key store_key
change-lock s (rotates stores random) = go s.is_locked stores
  where
    go :
        (b d : Bool)
        → (if b then (s, locked_key) else adopt_key d s (new_api_key random)).0.is_locked
          ≡ s.is_locked
    go true d = refl
    go false true = refl
    go false false = refl
change-lock s (sets stores k) = go s.is_locked (ltb (length k) 20) stores
  where
    go :
        (b c d : Bool)
        → (if b then (s, locked_key) else if c then (s, short_key) else adopt_key d s k).0.is_locked
          ≡ s.is_locked
    go true c d = refl
    go false true d = refl
    go false false true = refl
    go false false false = refl

last-step :
    (k : Text) (x : KeyChange) (xs : List KeyChange)
    → last_key k (x ∷ xs) ≡ last_key (last_key k (x ∷ [])) xs
last-step k (rotates stores random) xs = refl
last-step k (sets stores new) xs = refl

pub changes-stored :
    (s : Keys) (xs : List KeyChange)
    → stored_key (change_keys s xs)
      ≡ (if s.is_locked then stored_key s else last_key (stored_key s) xs)
unfolding change_keys
changes-stored s [] = ground arith
changes-stored s (x ∷ xs) =
    changes-stored (change_key s x) xs
    ∙ ap (λ b. if b then stored_key (change_key s x) else last_key (stored_key (change_key s x)) xs)
        (change-lock s x)
    ∙ ap (λ k. if s.is_locked then k else last_key k xs) (change-stored s x)
    ∙ go s.is_locked
  where
    go :
        (b : Bool)
        → (let k : Text = if b then stored_key s else last_key (stored_key s) (x ∷ []) in
            if b then k else last_key k xs)
          ≡ (if b then stored_key s else last_key (stored_key s) (x ∷ xs))
    go true = refl
    go false = sym (last-step (stored_key s) x xs)

-- The key that the table holds after a start and the changes: they leave it as it is where the flag or
-- the variable is set, and otherwise it is the last one that the panel set, or the one of the start.
abbrev pub table_key : Text → Text → Text → Text → List KeyChange → Text
table_key flag_key env random old xs =
    if not (is_empty flag_key) || not (is_empty env)
    then old
    else last_key (if is_empty old then codes "sk-gemini-" ++ random else old) xs

pub init-stored :
    (flag_key env random : Text) (s : Keys)
    → stored_key (init_api_key true random s flag_key env)
      ≡ table_key flag_key env random (stored_key s) []
unfolding init_api_key stored_key store_key
init-stored flag_key env random s = go (is_empty flag_key) (is_empty env) (is_empty (stored_key s))
  where
    go :
        (f e k : Bool)
        → stored_key (
            if not f
            then record s { is_locked = true; runtime_key = some flag_key }
            else if not e
            then record s { is_locked = true; runtime_key = some env }
            else if k
            then record (store_key s (new_api_key random)) {
              runtime_key = some (new_api_key random);
            }
            else record s { runtime_key = some (stored_key s) })
          ≡ (if not f || not e
              then stored_key s
              else if k
              then new_api_key random
              else stored_key s)
    go false e k = refl
    go true false k = refl
    go true true false = refl
    go true true true = store-stored s (new_api_key random)
