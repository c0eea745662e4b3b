-- ===== src/Accounts/PickLaws.antt =====
-- Which account `pickCookieAccountExcept` returns.
use Prim.Native.Nat.{ℕ}
use mathlib.Core.Bool.{Bool, false, not, true, ◌&&◌, ◌||◌}
use mathlib.Core.List.{List, [], ◌∷◌}
use mathlib.Core.Logic.{inl, inr}
use mathlib.Core.Option.{Option, none, some}
use mathlib.Core.Path.{◌≡◌}
use native.Mathlib.Omega.{arith}
use gemini_web2api_go.Accounts.{CookieAccount, Store, enabled_status, update_store}
use gemini_web2api_go.Accounts.Pick.{comes_before, order_rows, pick_cookie_account_except}
use gemini_web2api_go.Accounts.Sorting.{
  All-order_rows, Least, find_first-Least, order_rows-All, order_rows-Sorted,
}
use gemini_web2api_go.Base.Int.{int_eq, ltb_ℤ, ℤ}
use gemini_web2api_go.Base.Lists.{All, keep}
use gemini_web2api_go.Base.Tests.{Bool-cases, ltb, nat_eq, ◌==◌}
use gemini_web2api_go.Base.Text.{text_eq}
use gemini_web2api_go.Proxy.{find_first, is_excluded}

-- `b` has fewer failures than `a`, or as many and an earlier last use, or the same of both and a
-- smaller identifier.
abbrev pub beats : CookieAccount → CookieAccount → Bool
beats b a =
    ltb b.fail_count a.fail_count
    || (b.fail_count == a.fail_count
        && (ltb b.last_used_at a.last_used_at
            || (b.last_used_at == a.last_used_at && ltb_ℤ b.id a.id)))

comes_before-beats : (b a : CookieAccount) → comes_before b a ≡ beats b a
unfolding comes_before
comes_before-beats b a = ground arith

-- The account may serve the request: it is enabled, and the request has not tried it.
abbrev pub may_serve : List ℤ → CookieAccount → Bool
may_serve skip a = a.status == enabled_status && not (is_excluded a.id skip)

-- What a pick returns: an account that may serve and that no other such account comes before, or
-- nothing where no account may serve.
abbrev pub Best : List CookieAccount → List ℤ → Option CookieAccount → Type 0
Best rows skip none = All (λ b. may_serve skip b ≡ false) rows
Best rows skip (some a) =
    (may_serve skip a ≡ true) × All (λ b. (may_serve skip b && beats b a) ≡ false) rows

abbrev OnFound : Option CookieAccount → Type 0
OnFound none = Unit {0}
OnFound (some a) = a.status == enabled_status ≡ true

keep-Best :
    (skip : List ℤ) (rows : List CookieAccount) (o : Option CookieAccount)
    → Least (λ a. not (is_excluded a.id skip)) (keep (λ a. a.status == enabled_status) rows) o
    → OnFound o
    → Best rows skip o
keep-Best skip rows none l on = never skip rows l
  where
    never :
        (skip : List ℤ) (rows : List CookieAccount)
        → All
            (λ b. not (is_excluded b.id skip) ≡ false)
            (keep (λ a. a.status == enabled_status) rows)
        → All (λ b. may_serve skip b ≡ false) rows
    never skip [] l = tt
    never skip (b ∷ rows) l = elim (Bool-cases (b.status == enabled_status)) [
      | inl e ↦ let l' = rw e at l in (rw (e, l'.0), never skip rows l'.1)
      | inr e ↦ (rw e, never skip rows (rw e at l))
    ]
keep-Best skip rows (some a) l on = (ground (arith, l.0), never_before skip a rows l.1)
  where
    never_before :
        (skip : List ℤ) (a : CookieAccount) (rows : List CookieAccount)
        → All
            (λ b. (not (is_excluded b.id skip) && comes_before b a) ≡ false)
            (keep (λ a. a.status == enabled_status) rows)
        → All (λ b. (may_serve skip b && beats b a) ≡ false) rows
    never_before skip a [] l = tt
    never_before skip a (b ∷ rows) l = elim (Bool-cases (b.status == enabled_status)) [
      | inl e ↦
          let l' = rw e at l in
          (rw (e, ← comes_before-beats b a) l'.0, never_before skip a rows l'.1)
      | inr e ↦ (rw e, never_before skip a rows (rw e at l))
    ]

find_first-OnFound :
    (f : CookieAccount → Bool) (rows : List CookieAccount)
    → All (λ a. a.status == enabled_status ≡ true) rows
    → OnFound (find_first f rows)
unfolding find_first
find_first-OnFound f [] h = tt
find_first-OnFound f (a ∷ rows) h = elim (Bool-cases (f a)) [
  | inl e ↦ rw (e, find_first) h.0
  | inr e ↦ rw (e, find_first) (find_first-OnFound f rows h.1)
]

keep-enabled :
    (rows : List CookieAccount)
    → All (λ a. a.status == enabled_status ≡ true) (keep (λ a. a.status == enabled_status) rows)
keep-enabled [] = tt
keep-enabled (a ∷ rows) = elim (Bool-cases (a.status == enabled_status)) [
  | inl e ↦ rw e (e, keep-enabled rows)
  | inr e ↦ rw e (keep-enabled rows)
]

pub pick-Best :
    (now : ℕ) (s : Store) (skip : List ℤ)
    → Best s.accounts skip (pick_cookie_account_except now s skip).1
unfolding pick_cookie_account_except
pick-Best now s skip = go (find_first fresh rows) (
    keep-Best skip s.accounts (find_first fresh rows)
      (order-Least enabled_rows (find_first fresh rows)
        (find_first-Least fresh rows (order_rows-Sorted enabled_rows)))
      (find_first-OnFound fresh rows (
        All-order_rows (λ a. a.status == enabled_status ≡ true) enabled_rows
          (keep-enabled s.accounts))))
  where
    fresh : CookieAccount → Bool
    fresh a = not (is_excluded a.id skip)

    enabled_rows : List CookieAccount
    enabled_rows = keep (λ a. a.status == enabled_status) s.accounts

    rows : List CookieAccount
    rows = order_rows enabled_rows

    order-Least :
        (l : List CookieAccount) (o : Option CookieAccount)
        → Least fresh (order_rows l) o
        → Least fresh l o
    order-Least l none h = order_rows-All (λ b. fresh b ≡ false) l h
    order-Least l (some a) h =
        (h.0, order_rows-All (λ b. (fresh b && comes_before b a) ≡ false) l h.1)

    go :
        (o : Option CookieAccount)
        → Best s.accounts skip o
        → (let r : Store × Option CookieAccount = elim o [
          | none ↦ (s, none)
          | some a ↦ (update_store (λ r. record r { last_used_at = now }) a.id s, some a)
        ] in
            Best s.accounts skip r.1)
    go none b = b
    go (some a) b = b
