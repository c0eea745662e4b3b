-- ===== src/Tokens/Cache.antt =====
-- How long a token is used, and when a page is asked for another.
use Prim.Native.Nat.{ℕ, ◌*◌, ◌+◌}
use mathlib.Core.Bool.{false, true}
use mathlib.Core.List.{[]}
use mathlib.Core.Logic.{inl, inr}
use mathlib.Core.Option.{Option, none, some}
use mathlib.Core.Path.{ap, refl, subst, sym, ◌∙◌, ◌≡◌}
use gemini_web2api_go.Base.Dict.{lookup, lookup-put}
use gemini_web2api_go.Base.Int.{int_eq}
use gemini_web2api_go.Base.Result.{Result, erred, fine}
use gemini_web2api_go.Base.Tests.{Bool-cases, if◌then◌else◌, ltb, nat_eq, ◌==◌}
use gemini_web2api_go.Base.Text.{Text, codes, is_empty, text_beq_iff, text_eq}
use gemini_web2api_go.Outside.{Outside, World, XsrfEntry, now_of, snlm0e}
use gemini_web2api_go.Tokens.{
  cookie_key, entry_on, fetch_app_page, fetch_app_tokens, fresh_entry, get_entry, get_xsrf,
  remembered, token_of, tokens_on, young_entry,
}

tokens_on-fetched :
    (o : Outside) (now : ℕ) (cookie page : Text) (e : XsrfEntry)
    → tokens_on o now cookie page ≡ fine e
    → e.fetched ≡ now
unfolding tokens_on
tokens_on-fetched o now cookie page e h = go (o.find snlm0e page) h
  where
    same : (a : XsrfEntry) → a.fetched ≡ now → fine a ≡ fine e → e.fetched ≡ now
    same a q i = let k : a ≡ e = cc in subst (λ (x : XsrfEntry). x.fetched ≡ now) k q

    go :
        (m : Option Text)
        → (let r : Result XsrfEntry = elim m [
          | some t ↦ fine (entry_on o now page t)
          | none ↦
              if is_empty cookie
              then fine (entry_on o now page [])
              else erred (codes "no SNlM0e in page (cookie expired or not signed in)")
        ] in
            r ≡ fine e)
        → e.fetched ≡ now
    go (some t) i = same _ refl i
    go none i = elim (Bool-cases (is_empty cookie)) [
      | inl b ↦ same _ refl (rw b at i)
      | inr b ↦ cc (rw b at i)
    ]

fetched-now :
    (o : Outside) (w : World) (cookie : Text) (r : Result Text) (e : XsrfEntry)
    → (let s : Result XsrfEntry = elim r [
      | erred m ↦ erred m
      | fine page ↦ tokens_on o (now_of o w) cookie page
    ] in
        s ≡ fine e)
    → e.fetched ≡ now_of o w
fetched-now o w cookie (erred m) e h = cc
fetched-now o w cookie (fine page) e h = tokens_on-fetched o _ cookie page e h

-- An entry with its time of `seconds` ago at most, or a page that is asked for another one.
abbrev pub within_ttl : Outside → World → Text → Text → ℕ → Text → World × Result Text
within_ttl o u cookie proxy_url fetched token =
    if ltb (now_of o u) (fetched + 20 * 60)
    then (u, fine token)
    else let (w, r) = remembered o cookie (fetch_app_tokens o u cookie proxy_url) in (w, token_of r)

-- The state holds a token of the cookie that was fetched at such a time.
abbrev HoldsToken : Outside → World → Text → ℕ → Text → Type 0
HoldsToken o w cookie at_time token =
    (e : XsrfEntry) × (lookup (cookie_key o cookie) w.tokens ≡ some e)
    × (e.fetched ≡ at_time)
    × (e.token ≡ token)

fine-fine : (a b : Text) → fine a ≡ fine b → a ≡ b
fine-fine a b h = cc

remembered-HoldsToken :
    (o : Outside) (cookie token : Text) (w : World) (r : Result XsrfEntry)
    → ((e : XsrfEntry) → r ≡ fine e → e.fetched ≡ now_of o w)
    → token_of (remembered o cookie (w, r)).1 ≡ fine token
    → HoldsToken o
        (remembered o cookie (w, r)).0
        cookie
        (now_of o (remembered o cookie (w, r)).0)
        token
unfolding remembered
remembered-HoldsToken o cookie token w (erred e) h k = cc
remembered-HoldsToken o cookie token w (fine e) h k =
    let key = cookie_key o cookie in
    let same : (key == key) ≡ true = (text_beq_iff key key).1 refl in
    (e, rw (lookup-put key key e w.tokens, same), h e refl, fine-fine e.token token k)

entry-used :
    (o : Outside) (u : World) (cookie proxy_url : Text) (e : XsrfEntry)
    → (let p : World × Result XsrfEntry = elim (young_entry (now_of o u) (some e)) [
      | some a ↦ (u, fine a)
      | none ↦ remembered o cookie (fetch_app_tokens o u cookie proxy_url)
    ] in
        ◌≡◌ {A = World × Result Text}
          (p.0, token_of p.1)
          (within_ttl o u cookie proxy_url e.fetched e.token))
entry-used o u cookie proxy_url e = elim (Bool-cases (ltb (now_of o u) (e.fetched + 20 * 60))) [
  | inl h ↦ rw h
  | inr h ↦ rw h
]

used-again :
    (o : Outside) (u : World) (cookie proxy_url token : Text) (at_time : ℕ)
    → is_empty cookie ≡ false
    → HoldsToken o u cookie at_time token
    → get_xsrf o u cookie proxy_url ≡ within_ttl o u cookie proxy_url at_time token
unfolding get_xsrf get_entry fresh_entry
used-again o u cookie proxy_url token at_time c (e, h, same, k) =
    let read = λ (m : Option XsrfEntry).
      (let p : World × Result XsrfEntry = elim (young_entry (now_of o u) m) [
        | some a ↦ (u, fine a)
        | none ↦ remembered o cookie (fetch_app_tokens o u cookie proxy_url)
      ] in
        let r : World × Result Text = (p.0, token_of p.1) in r) in
    let opened : get_xsrf o u cookie proxy_url ≡ read (lookup (cookie_key o cookie) u.tokens) =
      rw (c, get_xsrf) in
    opened
    ∙ ap read h
    ∙ entry-used o u cookie proxy_url e
    ∙ ap (λ t. within_ttl o u cookie proxy_url t e.token) same
    ∙ ap (λ t. within_ttl o u cookie proxy_url at_time t) k

-- What a fetch leaves in the cache.
fetched-HoldsToken :
    (o : Outside) (w : World) (cookie proxy_url token : Text)
    → (let p = remembered o cookie (fetch_app_tokens o w cookie proxy_url) in
        token_of p.1 ≡ fine token → HoldsToken o p.0 cookie (now_of o p.0) token)
unfolding fetch_app_tokens
fetched-HoldsToken o w cookie proxy_url token k =
    let p = fetch_app_page o w cookie proxy_url in
    remembered-HoldsToken o cookie token p.0 (fetch_app_tokens o w cookie proxy_url).1
      (fetched-now o p.0 cookie p.1) k

-- A token that was fetched for a cookie is got again, through any exit and without a request, for 20
-- minutes, and after them the page is asked for another one, as long as the entry of the cookie is
-- not changed: at any later state and under any later clock.
pub get_xsrf-again :
    (o later : Outside) (w u : World) (cookie one_url other_url token : Text)
    → is_empty cookie ≡ false
    → fresh_entry o w cookie ≡ none
    → (get_xsrf o w cookie one_url).1 ≡ fine token
    → cookie_key later cookie ≡ cookie_key o cookie
    → lookup (cookie_key o cookie) u.tokens
      ≡ lookup (cookie_key o cookie) (get_xsrf o w cookie one_url).0.tokens
    → get_xsrf later u cookie other_url
      ≡ within_ttl later u cookie other_url (now_of o (get_xsrf o w cookie one_url).0) token
unfolding get_xsrf get_entry
get_xsrf-again o later w u cookie one_url other_url token c stale got_it same_key same_entry =
    let p = remembered o cookie (fetch_app_tokens o w cookie one_url) in
    let opened : get_xsrf o w cookie one_url ≡ (p.0, token_of p.1) =
      rw (c, get_xsrf) (rw (stale, get_entry)) in
    let token_there = ap (λ (x : World × Result Text). x.1) (sym opened) ∙ got_it in
    let (e, found, at_time, is_token) = fetched-HoldsToken o w cookie one_url token token_there in
    let tokens_of = λ (x : World × Result Text). lookup (cookie_key o cookie) x.0.tokens in
    let here : lookup (cookie_key later cookie) u.tokens ≡ some e =
      ap (λ key. lookup key u.tokens) same_key ∙ same_entry ∙ ap tokens_of opened ∙ found in
    let when : e.fetched ≡ now_of o (get_xsrf o w cookie one_url).0 =
      at_time ∙ ap (λ (x : World × Result Text). now_of o x.0) (sym opened) in
    used-again later u cookie other_url token (now_of o (get_xsrf o w cookie one_url).0) c
      (e, here, when, is_token)
