-- ===== src/Accounts/HealthLaws.antt =====
-- The health of an account over a sequence of answers.
use Prim.Native.Nat.{ℕ, ◌+◌}
use mathlib.Core.Bool.{Bool, false, true, ◌||◌}
use mathlib.Core.List.{List, [], ◌∷◌}
use mathlib.Core.Logic.{inl, inr}
use mathlib.Core.Option.{Option, none, some}
use mathlib.Core.Path.{◌≡◌}
use native.Mathlib.Omega.{arith}
use gemini_web2api_go.Accounts.{CookieAccount, Store, account_by_id, update_account}
use gemini_web2api_go.Accounts.Health.{
  disabled_if_dead, mark_cookie_by_status, max_cookie_auth_failures,
}
use gemini_web2api_go.Base.Int.{int_beq_iff, int_eq, ℤ}
use gemini_web2api_go.Base.Lists.{take}
use gemini_web2api_go.Base.Tests.{Bool-cases, if◌then◌else◌, leb, nat_eq, ◌==◌}
use gemini_web2api_go.Base.Text.{Text, text_eq}
use gemini_web2api_go.Proxy.{find_first}

abbrev pub on_found : (CookieAccount → CookieAccount) → Option CookieAccount → Option CookieAccount
on_found f none = none
on_found f (some a) = some (f a)

-- A write to the account `i`, read at `j`.
pub account_by_id-update :
    (f : CookieAccount → CookieAccount) (keeps : (a : CookieAccount) → (f a).id ≡ a.id) (i j : ℤ)
    (rows : List CookieAccount)
    → account_by_id (update_account f i rows) j
      ≡ (if i == j then on_found f (account_by_id rows j) else account_by_id rows j)
unfolding account_by_id find_first update_account
account_by_id-update f keeps i j [] = elim (Bool-cases (i == j)) [ inl e ↦ rw e | inr e ↦ rw e ]
account_by_id-update f keeps i j (a ∷ rows) = elim (Bool-cases (a.id == i)) [
  | inl e ↦ elim (Bool-cases (i == j)) [
    | inl h ↦
        let old : (a.id == j) ≡ true =
          ground (arith, int_beq_iff a.id i, int_beq_iff i j, int_beq_iff a.id j) in
        let new : ((f a).id == j) ≡ true = rw (keeps a) old in rw (e, h, find_first, new, old)
    | inr h ↦
        let old : (a.id == j) ≡ false =
          ground (arith, int_beq_iff a.id i, int_beq_iff i j, int_beq_iff a.id j) in
        let new : ((f a).id == j) ≡ false = rw (keeps a) old in
        let ih = account_by_id-update f keeps i j rows in
        rw (e, h, find_first, new, old) (rw h at ih)
  ]
  | inr e ↦ elim (Bool-cases (a.id == j)) [
    | inl h ↦
        let apart : (i == j) ≡ false =
          ground (arith, int_beq_iff a.id i, int_beq_iff i j, int_beq_iff a.id j) in
        rw (e, find_first, h, apart)
    | inr h ↦ rw (e, find_first, h) (account_by_id-update f keeps i j rows)
  ]
]

-- A row after one answer of the upstream to it.
marked : ℕ → ℕ → Text → CookieAccount → CookieAccount
unfolding disabled_if_dead
marked now answer err =
    if answer == 200
    then (λ a. record a { last_ok_at = now; fail_count = 0; last_error = [] })
    else if answer == 401 || answer == 403
    then (λ a.
        disabled_if_dead (record a { fail_count = a.fail_count + 1; last_error = take 200 err }))
    else (λ a. a)

-- The answers to one account, in order: when, the status code, and the error.
abbrev pub Answers : Type 0
Answers = List (ℕ × ℕ × Text)

abbrev pub mark_all : ℤ → Answers → Store → Store
mark_all i [] s = s
mark_all i ((now, answer, err) ∷ rest) s =
    mark_all i rest (mark_cookie_by_status now s i answer err)

abbrev mark_row : Answers → CookieAccount → CookieAccount
mark_row [] a = a
mark_row ((now, answer, err) ∷ rest) a = mark_row rest (marked now answer err a)

-- The failures to authenticate on end, after one more answer: 200 ends them, and an answer other
-- than 200, 401 and 403 leaves them.
abbrev pub streak_after : ℕ → ℕ → ℕ
streak_after streak answer =
    if answer == 200 then 0 else if answer == 401 || answer == 403 then streak + 1 else streak

-- Some streak of failures to authenticate reaches the limit.
abbrev pub is_dead : ℕ → Answers → Bool
is_dead streak [] = false
is_dead streak ((now, answer, err) ∷ rest) =
    leb max_cookie_auth_failures (streak_after streak answer)
    || is_dead (streak_after streak answer) rest

abbrev pub on_found_status : Option CookieAccount → Option Text
on_found_status none = none
on_found_status (some a) = some a.status
