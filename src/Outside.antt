-- ===== src/Outside.antt =====
-- What the program meets outside itself, and the state that a request changes: internal/app/
-- client.go, xsrf.go, rotate.go and gemini.go send HTTP requests, read the clock and ask libraries.
-- Headers that the transport adds of its own, as `applyChromeHeaders`, are left out.
pub mod Kept
pub mod Reports
use Prim.Native.Nat.{ℕ}
use mathlib.Core.Bool.{Bool}
use mathlib.Core.List.{List, ◌∷◌}
use mathlib.Core.Option.{Option}
use gemini_web2api_go.Accounts.{Store}
use gemini_web2api_go.Acquire.Remote.{Answer}
use gemini_web2api_go.Base.Int.{int_eq, ℤ}
use gemini_web2api_go.Base.Lists.{length}
use gemini_web2api_go.Base.Tests.{nat_eq}
use gemini_web2api_go.Base.Text.{Text, text_eq, trim_space}
use gemini_web2api_go.Cookie.{Pair}
use gemini_web2api_go.Frames.{Parser}
use gemini_web2api_go.Proxy.{Exits}

-- The addresses that the program sends to.
pub data Endpoint : Type 0 where
  app_page : Endpoint
  rotate_page : Endpoint
  rotate_cookies : Endpoint
  upload_host : Endpoint
  upload_put : Text → Endpoint
  stream_generate : Text → Text → Endpoint

-- A request, and the proxy that it goes through; an empty address is the direct connection.
pub record Request : Type 0 where
  pub endpoint : Endpoint
  pub headers : List Pair
  pub body : Text
  pub proxy_url : Text

-- No answer; an answer whose body broke off, with what had arrived and the error; or an answer: its
-- status, its headers, its `Set-Cookie` headers and its body.
pub data Reply : Type 0 where
  no_reply : Text → Reply
  broken_off : ℕ → List Text → Text → Text → Reply
  replied : ℕ → List Pair → List Text → Text → Reply

-- The regular expressions, each with one group, that the program searches a page for.
pub data Pattern : Type 0 where
  snlm0e push_id_re pctx_re cfb2h rcid_re : Pattern

-- What the program does not contain. Replies, the clock and the rest are numbered by the requests
-- sent before.
pub record Outside : Type 0 where
  pub reply : ℕ → Request → Reply
  pub clock : ℕ → ℕ
  pub remote : ℕ → ℕ → Text → Answer
  pub written : ℕ → Bool
  pub find : Pattern → Text → Option Text
  -- `blValueRe.MatchString`
  pub is_bl : Text → Bool
  -- The two groups of `rotateInitRe` that are read.
  pub find_init : Text → Option (Text × Text)
  -- `strconv.ParseFloat`, in thousandths.
  pub thousandths : Text → Option ℕ
  pub sha1_hex : Text → Text
  pub decimal : ℕ → Text
  pub uuid : ℕ → Text
  -- The order in which a map is walked through.
  pub order : List Pair → List Pair
  pub parse : Parser
  -- `codeArtifactRe.ReplaceAllString` with nothing.
  pub strip : Text → Text
  -- The first group of the last match of `upstreamModelRe`.
  pub upstream_model : Text → Option Text

-- `xsrfEntry`
pub record XsrfEntry : Type 0 where
  pub token : Text
  pub push_id : Text
  pub pctx : Text
  pub fetched : ℕ

-- `blFetched`, `blFetchAt` and `blFetching`
pub record Bl : Type 0 where
  pub bl_fetched : Text
  pub bl_fetch_at : Option ℕ
  pub bl_fetching : Bool

-- The state of the program that requests share, with all that was sent so far, the last first.
pub record World : Type 0 where
  pub exits : Exits
  pub store : Store
  pub tokens : List (Text × XsrfEntry)
  pub psidts_last_at : List (ℤ × ℕ)
  pub bl : Bl
  pub log : List Request

abbrev pub sent_count : World → ℕ
sent_count w = length w.log

-- The Unix time, as it stands until the next request is sent.
abbrev pub now_of : Outside → World → ℕ
now_of o w = o.clock (sent_count w)

unfoldable pub exchange : Outside → World → Request → World × Reply
exchange o w q = (record w { log = q ∷ w.log }, o.reply (sent_count w) q)

-- `cleanGeminiText`
abbrev pub clean_gemini_text : Outside → Text → Text
clean_gemini_text o t = trim_space (o.strip t)
