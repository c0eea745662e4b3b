-- ===== src/Accounts/SeedLaws.antt =====
-- Taking cookies into the pool at the start, again and again.
use Prim.Native.Nat.{ℕ, ◌+◌}
use mathlib.Core.Bool.{Bool, false, true, ◌||◌}
use mathlib.Core.List.{List, [], ◌++◌, ◌∷◌}
use mathlib.Core.Logic.{inl, inr}
use mathlib.Core.Option.{Option, some}
use mathlib.Core.Path.{refl, subst, sym, ◌≡◌}
use native.Mathlib.Omega.{arith}
use gemini_web2api_go.Accounts.{
  CookieAccount, Store, account_insert, enabled_status, kv_get, kv_set, pool_has_cookie,
}
use gemini_web2api_go.Accounts.Import.{
  Added, account_adopt, empty_cookie, inserted, no_sapisid, normalize_cookie, not_a_cookie,
  outcome_of,
}
use gemini_web2api_go.Accounts.Seed.{
  Labels, drop_seeded_cookie, seeded_id_key, seeded_value_key, set_seeded, sync_seeded,
}
use gemini_web2api_go.Base.Dict.{lookup-put}
use gemini_web2api_go.Base.Int.{int_eq, pos, ℤ}
use gemini_web2api_go.Base.Tests.{Bool-cases, if◌then◌else◌, nat_eq, ◌==◌}
use gemini_web2api_go.Base.Text.{Text, is_empty, text_beq, text_beq_iff, text_eq, trim_space}
use gemini_web2api_go.Cookie.{Pair}

pub kv_get-kv_set :
    (s : Store) (k j v : Text) → kv_get (kv_set s k v) j ≡ (if k == j then v else kv_get s j)
unfolding kv_get kv_set
kv_get-kv_set s k j v = elim (Bool-cases (k == j)) [
  | inl e ↦ rw (kv_get, lookup-put k j v s.kv, e)
  | inr e ↦ rw (kv_get, lookup-put k j v s.kv, e)
]

has-appended :
    (rows : List CookieAccount) (a : CookieAccount)
    → pool_has_cookie (rows ++ a ∷ []) a.cookie ≡ true
unfolding pool_has_cookie
has-appended [] a = rw ((text_beq_iff a.cookie a.cookie).1 refl)
has-appended (b ∷ rows) a = rw (has-appended rows a) (ground arith)

module _ (parse : Text → Option (List Pair)) (number : Text → Option ℤ) (written : ℤ → Text)
    (l : Labels) (now : ℕ) where
  -- A cookie that is in the pool's form already.
  abbrev pub InForm : Text → Type 0
  InForm cur = (normalize_cookie parse cur ≡ some cur) × (trim_space cur ≡ cur)

  abbrev adopted : Store → Text → Text → Text → Store
  adopted s label cur note = (account_insert now s label cur note).0

  new_row : Store → Text → Text → Text → CookieAccount
  new_row s label cur note = record {
    id = pos s.next_account;
    label = trim_space label;
    cookie = cur;
    status = enabled_status;
    note = trim_space note;
    created_at = now;
    last_used_at = 0;
    last_ok_at = 0;
    last_error = [];
    fail_count = 0;
    proxy_id = pos 0;
  }

  insert-row :
      (s : Store) (label cur note : Text)
      → trim_space cur ≡ cur
      → is_empty cur ≡ false
      → account_insert now s label cur note ≡ (
        record s {
          accounts = s.accounts ++ new_row s label cur note ∷ [];
          next_account = s.next_account + 1;
        },
        some (pos s.next_account),
      )
  unfolding account_insert new_row
  insert-row s label cur note f e = rw (account_insert, f, e)

  adopt-inserts :
      (s : Store) (label cur note : Text)
      → InForm cur
      → is_empty cur ≡ false
      → account_adopt parse now s label cur note
        ≡ (adopted s label cur note, inserted (pos s.next_account))
  unfolding account_adopt
  adopt-inserts s label cur note f e =
      rw (f.0, account_adopt)
        (both (account_insert now s label cur note) (insert-row s label cur note f.1 e))
    where
      both :
          (r : Store × Option ℤ)
          → r ≡ (
            record s {
              accounts = s.accounts ++ new_row s label cur note ∷ [];
              next_account = s.next_account + 1;
            },
            some (pos s.next_account),
          )
          → (let before : Store × Added = (r.0, outcome_of r.1) in
              let after : Store × Added = (r.0, inserted (pos s.next_account)) in before ≡ after)
      both r k = rw k

  adopted-has :
      (s : Store) (label cur note : Text)
      → trim_space cur ≡ cur
      → is_empty cur ≡ false
      → pool_has_cookie (adopted s label cur note).accounts cur ≡ true
  unfolding new_row
  adopted-has s label cur note f e =
      subst (λ (r : Store × Option ℤ). pool_has_cookie r.0.accounts cur ≡ true)
        (sym (insert-row s label cur note f e)) (has-appended s.accounts (new_row s label cur note))

  -- What a start leaves: the value that was taken over last, and for a cookie the pool has it.
  abbrev pub Follows : Store → Text → Type 0
  Follows s cur =
      (kv_get s seeded_value_key ≡ cur) × ((is_empty cur || pool_has_cookie s.accounts cur) ≡ true)

  set_seeded-value :
      (s : Store) (cur i : Text)
      → kv_get (set_seeded parse number written l now s cur i) seeded_value_key ≡ cur
  unfolding text_beq
  set_seeded-value s cur i = rw (
    kv_get-kv_set (kv_set s seeded_value_key cur) seeded_id_key seeded_value_key i,
    kv_get-kv_set s seeded_value_key seeded_value_key cur,
  )

  set_seeded-accounts :
      (s : Store) (cur i : Text)
      → (set_seeded parse number written l now s cur i).accounts ≡ s.accounts
  unfolding kv_set
  set_seeded-accounts s cur i = refl

  set_seeded-Follows :
      (s : Store) (cur i : Text)
      → (is_empty cur || pool_has_cookie s.accounts cur) ≡ true
      → Follows (set_seeded parse number written l now s cur i) cur
  set_seeded-Follows s cur i h = (set_seeded-value s cur i, rw (set_seeded-accounts s cur i) h)

  -- The state after a start with another cookie than before.
  sync-Follows :
      (s : Store) (cur : Text)
      → InForm cur
      → (cur == kv_get s seeded_value_key) ≡ false
      → Follows (sync_seeded parse number written l now s cur) cur
  unfolding sync_seeded
  sync-Follows s cur f ne =
      let s' = drop_seeded_cookie parse number written l now s (kv_get s seeded_value_key) in
      let to : Store → Text → Store = λ t i. set_seeded parse number written l now t cur i in
      elim (Bool-cases (is_empty cur)) [
        | inl e ↦
            let same : sync_seeded parse number written l now s cur
                ≡ set_seeded parse number written l now s' [] [] =
              rw (sync_seeded, ne, e) in
            subst (λ t. Follows t cur) (sym same) (gone s' cur e)
        | inr e ↦ elim (Bool-cases (pool_has_cookie s'.accounts cur)) [
          | inl h ↦
              let same : sync_seeded parse number written l now s cur ≡ to s' [] =
                rw (sync_seeded, ne, e, h) in
              subst (λ t. Follows t cur) (sym same) (set_seeded-Follows s' cur [] (ground arith))
          | inr h ↦
              let t = adopted s' l.file_label cur l.file_note in
              let same : sync_seeded parse number written l now s cur
                  ≡ to t (written (pos s'.next_account)) =
                rw (sync_seeded, ne, e, h)
                  (finish (account_adopt parse now s' l.file_label cur l.file_note) t
                    (pos s'.next_account) cur
                    (adopt-inserts s' l.file_label cur l.file_note f e)) in
              let k = adopted-has s' l.file_label cur l.file_note f.1 e in
              subst (λ t. Follows t cur) (sym same)
                (set_seeded-Follows t cur (written (pos s'.next_account))
                  (or_true (is_empty cur) _ k))
        ]
      ]
    where
      gone :
          (t : Store) (c : Text)
          → is_empty c ≡ true
          → Follows (set_seeded parse number written l now t [] []) c
      gone t [] e = set_seeded-Follows t [] [] refl
      gone t (b ∷ c) e = cc e

      stored : Text → Store × Added → Store
      stored cur r = elim r.1 [
        | inserted j ↦ set_seeded parse number written l now r.0 cur (written j)
        | not_a_cookie ↦ r.0
        | no_sapisid ↦ r.0
        | empty_cookie ↦ r.0
      ]

      finish :
          (r : Store × Added) (t : Store) (i : ℤ) (cur : Text)
          → r ≡ (t, inserted i)
          → stored cur r ≡ set_seeded parse number written l now t cur (written i)
      finish r t i cur k =
          subst
            (λ (q : Store × Added).
              stored cur q ≡ set_seeded parse number written l now t cur (written i))
            (sym k) refl

      or_true : (a b : Bool) → b ≡ true → (a || b) ≡ true
      or_true a b h = ground arith

  sync-same :
      (s : Store) (cur : Text)
      → kv_get s seeded_value_key ≡ cur
      → sync_seeded parse number written l now s cur ≡ s
  unfolding sync_seeded
  sync-same s cur h = rw (sync_seeded, h, (text_beq_iff cur cur).1 refl)

  -- A start takes over the cookie of `--cookie-file`, which is in the pool's form: if it is not the
  -- one that was taken over last, the pool has it afterwards, or the file is gone. Whatever it was,
  -- a second start with the same cookie changes nothing.
  pub sync-settles :
      (s : Store) (cur : Text)
      → InForm cur
      → let t = sync_seeded parse number written l now s cur in
        (((cur == kv_get s seeded_value_key) || is_empty cur || pool_has_cookie t.accounts cur)
          ≡ true)
        × (sync_seeded parse number written l now t cur ≡ t)
  sync-settles s cur f = elim (Bool-cases (cur == kv_get s seeded_value_key)) [
    | inl e ↦
        let same = (text_beq_iff cur (kv_get s seeded_value_key)).0 e in
        let stays = sync-same s cur (sym same) in (rw e, rw (stays, stays))
    | inr e ↦
        let (v, h) = sync-Follows s cur f e in
        (rw (e, h), sync-same (sync_seeded parse number written l now s cur) cur v)
  ]
