-- ===== src/Accounts/Sorting.antt =====
-- The order in which the rows of the accounts come back, and the first row of it.
use mathlib.Core.Bool.{Bool, false, true, ◌&&◌}
use mathlib.Core.List.{List, [], ◌∷◌}
use mathlib.Core.Logic.{inl, inr}
use mathlib.Core.Option.{Option, none, some}
use mathlib.Core.Path.{◌≡◌}
use native.Mathlib.Omega.{arith}
use gemini_web2api_go.Accounts.{CookieAccount}
use gemini_web2api_go.Accounts.Pick.{comes_before, insert_row, order_rows}
use gemini_web2api_go.Base.Int.{int_eq}
use gemini_web2api_go.Base.Lists.{All}
use gemini_web2api_go.Base.Tests.{Bool-cases, nat_eq}
use gemini_web2api_go.Base.Text.{text_eq}
use gemini_web2api_go.Proxy.{find_first}

before_asym : (a b : CookieAccount) → comes_before b a ≡ true → comes_before a b ≡ false
unfolding comes_before
before_asym a b h = ground arith

not_before_trans :
    (a b d : CookieAccount)
    → comes_before d b ≡ false
    → comes_before b a ≡ false
    → comes_before d a ≡ false
unfolding comes_before
not_before_trans a b d h k = ground arith

abbrev pub Sorted : List CookieAccount → Type 0
Sorted [] = Unit {0}
Sorted (a ∷ rows) = All (λ b. comes_before b a ≡ false) rows × Sorted rows

module _ (P : CookieAccount → Type 0) where
  All-insert_row :
      (a : CookieAccount) (rows : List CookieAccount) → P a → All P rows → All P (insert_row a rows)
  unfolding insert_row
  All-insert_row a [] p h = (p, tt)
  All-insert_row a (b ∷ rows) p h = elim (Bool-cases (comes_before b a)) [
    | inl e ↦ rw (e, insert_row) (h.0, All-insert_row a rows p h.1)
    | inr e ↦ rw (e, insert_row) (p, h)
  ]

  insert_row-All :
      (a : CookieAccount) (rows : List CookieAccount) → All P (insert_row a rows) → P a × All P rows
  unfolding insert_row
  insert_row-All a [] h = h
  insert_row-All a (b ∷ rows) h = elim (Bool-cases (comes_before b a)) [
    | inl e ↦
        let h' : P b × All P (insert_row a rows) = rw (e, insert_row) at h in
        let (p, r) = insert_row-All a rows h'.1 in (p, (h'.0, r))
    | inr e ↦ let h' : P a × (P b × All P rows) = rw (e, insert_row) at h in h'
  ]

  pub order_rows-All : (rows : List CookieAccount) → All P (order_rows rows) → All P rows
  unfolding order_rows
  order_rows-All [] h = tt
  order_rows-All (a ∷ rows) h =
      let (p, r) = insert_row-All a (order_rows rows) h in (p, order_rows-All rows r)

  pub All-order_rows : (rows : List CookieAccount) → All P rows → All P (order_rows rows)
  unfolding order_rows
  All-order_rows [] h = tt
  All-order_rows (a ∷ rows) h = All-insert_row a (order_rows rows) h.0 (All-order_rows rows h.1)

All-imp :
    (P Q : CookieAccount → Type 0) (f : (a : CookieAccount) → P a → Q a) (rows : List CookieAccount)
    → All P rows
    → All Q rows
All-imp P Q f [] h = tt
All-imp P Q f (a ∷ rows) h = (f a h.0, All-imp P Q f rows h.1)

insert_row-Sorted :
    (a : CookieAccount) (rows : List CookieAccount) → Sorted rows → Sorted (insert_row a rows)
unfolding insert_row
insert_row-Sorted a [] h = (tt, tt)
insert_row-Sorted a (b ∷ rows) h = elim (Bool-cases (comes_before b a)) [
  | inl e ↦
      rw (e, insert_row)
        (
          All-insert_row (λ d. comes_before d b ≡ false) a rows (before_asym a b e) h.0,
          insert_row-Sorted a rows h.1,
        )
  | inr e ↦
      rw (e, insert_row)
        (
          (
            e,
            All-imp (λ d. comes_before d b ≡ false) (λ d. comes_before d a ≡ false)
                (λ d k. not_before_trans a b d k e) rows h.0,
          ),
          h,
        )
]

pub order_rows-Sorted : (rows : List CookieAccount) → Sorted (order_rows rows)
unfolding order_rows
order_rows-Sorted [] = tt
order_rows-Sorted (a ∷ rows) = insert_row-Sorted a (order_rows rows) (order_rows-Sorted rows)

-- What a search with the test `f` returns, if no row that passes comes before it.
abbrev pub Least : (CookieAccount → Bool) → List CookieAccount → Option CookieAccount → Type 0
Least f rows none = All (λ b. f b ≡ false) rows
Least f rows (some a) = (f a ≡ true) × All (λ b. (f b && comes_before b a) ≡ false) rows

pub find_first-Least :
    (f : CookieAccount → Bool) (rows : List CookieAccount)
    → Sorted rows
    → Least f rows (find_first f rows)
unfolding find_first
find_first-Least f [] h = tt
find_first-Least f (a ∷ rows) h = elim (Bool-cases (f a)) [
  | inl e ↦
      rw (e, find_first)
        (
          e,
          (
            self_last f a,
            All-imp (λ b. comes_before b a ≡ false) (λ b. (f b && comes_before b a) ≡ false)
                (λ b k. rw k (ground arith)) rows h.0,
          ),
        )
  | inr e ↦ rw (e, find_first) (skip f a e rows (find_first f rows) (find_first-Least f rows h.1))
]
  where
    self_last : (f : CookieAccount → Bool) (a : CookieAccount) → (f a && comes_before a a) ≡ false
    self_last f a = elim (Bool-cases (comes_before a a)) [
      | inl k ↦ cc (before_asym a a k)
      | inr k ↦ rw k (ground arith)
    ]

    skip :
        (f : CookieAccount → Bool) (a : CookieAccount)
        → f a ≡ false
        → (rows : List CookieAccount) (o : Option CookieAccount) → Least f rows o
        → Least f (a ∷ rows) o
    skip f a e rows none l = (e, l)
    skip f a e rows (some b) l = (l.0, (rw e, l.1))
