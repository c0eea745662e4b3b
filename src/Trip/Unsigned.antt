-- ===== src/Trip/Unsigned.antt =====
-- A request without an account: its parts that would touch one do nothing.
use Prim.Native.Nat.{ℕ}
use mathlib.Core.Bool.{Bool, false, true, ◌||◌}
use mathlib.Core.List.{List, [], append-nil}
use mathlib.Core.Logic.{inl, inr}
use mathlib.Core.Option.{none}
use mathlib.Core.Path.{ap, refl, ◌∙◌, ◌≡◌}
use gemini_web2api_go.Accounts.{Store}
use gemini_web2api_go.Accounts.Health.{mark_account_result, mark_cookie_by_status}
use gemini_web2api_go.Base.Dict.{lookup, lookup-put, put}
use gemini_web2api_go.Base.Int.{int_eq, pos, pos_part}
use gemini_web2api_go.Base.Lists.{length}
use gemini_web2api_go.Base.Result.{fine}
use gemini_web2api_go.Base.Tests.{Bool-cases, if◌then◌else◌, leb, nat_eq, ◌==◌}
use gemini_web2api_go.Base.Text.{Text, codes, is_empty, text_beq, text_eq}
use gemini_web2api_go.Config.{RuntimeConfig}
use gemini_web2api_go.Cookie.{Pair}
use gemini_web2api_go.Outside.{Outside, World, now_of}
use gemini_web2api_go.Payload.{
  build_gemini_headers, model_header_name, request_headers, session_header_name,
}
use gemini_web2api_go.Tokens.{is_xsrf_error}
use gemini_web2api_go.Trip.{Asked, Trip, go_on, mark_account, with_store}
use gemini_web2api_go.Trip.Attach.{
  after_context, is_none_left, prepare, upload_pending, within_budget,
}
use gemini_web2api_go.Trip.Attempts.{Seen, came, crashed, is_stale_token, take_cookies}
use gemini_web2api_go.Trip.SignIn.{max_cookie_tries, or_anonymous, sign_in, with_account}
use gemini_web2api_go.Upload.{prepare_context_file}

-- Headers that name no account.
pub record IsUnsigned (headers : List Pair) : Type 0 where
  pub no_cookie : lookup (codes "Cookie") headers ≡ none
  pub no_authorization : lookup (codes "Authorization") headers ≡ none

lookup-other : (k j v : Text) (m : List Pair) → (k == j) ≡ false → lookup j (put k v m) ≡ lookup j m
lookup-other k j v m h = rw (lookup-put k j v m, h)

-- A header that is neither of the two names.
header-of :
    (o : Outside) (j : Text) (ts : ℕ) (hex_id model_header session_header : Text)
    → (session_header_name == j) ≡ false
    → (model_header_name == j) ≡ false
    → lookup j (request_headers o ts [] [] hex_id model_header session_header)
      ≡ lookup j (build_gemini_headers o ts [] [] hex_id)
unfolding request_headers
header-of o j ts hex_id model_header session_header h k =
    lookup-other session_header_name j session_header _ h
    ∙ lookup-other model_header_name j model_header _ k

pub request_headers-IsUnsigned :
    (o : Outside) (ts : ℕ) (hex_id model_header session_header : Text)
    → IsUnsigned (request_headers o ts [] [] hex_id model_header session_header)
unfolding build_gemini_headers lookup text_beq
request_headers-IsUnsigned o ts hex_id model_header session_header =
    elim (Bool-cases (is_empty hex_id)) [
      | inl e ↦ record {
        no_cookie =
            header-of o (codes "Cookie") ts hex_id model_header session_header refl refl
            ∙ rw (e, build_gemini_headers);
        no_authorization =
            header-of o (codes "Authorization") ts hex_id model_header session_header refl refl
            ∙ rw (e, build_gemini_headers);
      }
      | inr e ↦ record {
        no_cookie =
            header-of o (codes "Cookie") ts hex_id model_header session_header refl refl
            ∙ rw (e, build_gemini_headers);
        no_authorization =
            header-of o (codes "Authorization") ts hex_id model_header session_header refl refl
            ∙ rw (e, build_gemini_headers);
      }
    ]

pub take_cookies-same :
    (o : Outside) (t : Trip) (cookies : List Text)
    → t.cookie_id ≡ pos 0
    → take_cookies o t cookies ≡ t
unfolding take_cookies
take_cookies-same o t cookies h = elim (Bool-cases (is_none_left cookies)) [
  | inl e ↦ simp (e, take_cookies)
  | inr e ↦ simp (e, h, take_cookies)
]

-- The identifier 0 is no account's.
mark-nobody :
    (now : ℕ) (s : Store) (status : ℕ) (err : Text)
    → mark_cookie_by_status now s (pos 0) status err ≡ s
unfolding mark_cookie_by_status mark_account_result
mark-nobody now s status err = elim (Bool-cases (status == 200)) [
  | inl e ↦ rw e
  | inr e ↦ elim (Bool-cases (status == 401 || status == 403)) [
    | inl d ↦ rw (e, d)
    | inr d ↦ rw (e, d)
  ]
]

pub mark_account-same :
    (o : Outside) (t : Trip) (status : ℕ) (err : Text)
    → t.cookie_id ≡ pos 0
    → mark_account o t t.cookie_id status err ≡ t
unfolding mark_account
mark_account-same o t status err h =
    ap (λ i. mark_account o t i status err) h
    ∙ ap (λ s. record t { world = with_store t.world s })
        (mark-nobody (now_of o t.world) t.world.store status err)

pub is_stale_token-never : (t : Trip) (s : Seen) → t.cookie_str ≡ [] → is_stale_token t s ≡ false
unfolding is_stale_token
is_stale_token-never t (crashed e) h = refl
is_stale_token-never t (came status raw) h = elim (Bool-cases (status == 400)) [
  | inr e ↦ rw e
  | inl e ↦ elim (Bool-cases (is_xsrf_error raw)) [
    | inr d ↦ rw (e, d)
    | inl d ↦ rw (e, d, ap is_empty h)
  ]
]

pub with_account-same :
    (c : RuntimeConfig) (o : Outside) (t : Trip)
    → t.account ≡ none
    → t.last_cookie_err ≡ none
    → with_account c o t ≡ (t, go_on)
unfolding with_account or_anonymous sign_in
with_account-same c o t a h = ap (or_anonymous c o) signed ∙ simp (h, or_anonymous)
  where
    signed : (if is_empty t.cookie_str then sign_in c o max_cookie_tries t else t) ≡ t
    signed = elim (Bool-cases (is_empty t.cookie_str)) [
      | inr e ↦ simp e
      | inl e ↦ simp (e, a, sign_in)
    ]

pub upload_pending-same :
    (c : RuntimeConfig) (o : Outside) (q : Asked) (more : Bool) (t : Trip)
    → is_none_left q.pending ≡ true
    → upload_pending c o q more t ≡ (t, go_on)
unfolding upload_pending
upload_pending-same c o q more t h = simp (h, upload_pending)

-- Without a cookie a prompt is never sent as a file.
kept-prompt :
    (o : Outside) (w : World) (prompt latest : Text) (budget : ℕ) (proxy_url : Text)
    → prepare_context_file o w prompt latest budget [] proxy_url ≡ (w, fine (prompt, []))
unfolding prepare_context_file
kept-prompt o w prompt latest budget proxy_url =
    elim (Bool-cases (budget == 0 || leb (length prompt) budget)) [ inl e ↦ rw e | inr e ↦ rw e ]

pub prepare-same :
    (c : RuntimeConfig) (o : Outside) (q : Asked) (t : Trip)
    → t.cookie_str ≡ []
    → prepare c o q t ≡ (t, within_budget t (pos_part c.max_prompt_bytes) q.prompt)
unfolding prepare after_context
prepare-same c o q t h =
    let b = pos_part c.max_prompt_bytes in
    ap (λ k. after_context t b (prepare_context_file o t.world q.prompt q.latest b k t.picked.url))
      h
    ∙ ap (after_context t b) (kept-prompt o t.world q.prompt q.latest b t.picked.url)
    ∙ ap (λ fs. let u : Trip = record t { files = fs } in (u, within_budget u b q.prompt))
        (append-nil t.files)
