-- ===== src/Lib.antt =====
-- A model of gemini-web2api-go, a gateway that answers OpenAI-style requests through the web
-- interface of Gemini. A request picks an account from a pool of cookies, resolves its model, takes
-- an exit (a proxy of the pool, one of a remote pool, or the direct connection) whose slot has room,
-- sends the request out, streams the answer back in increments, and reports the outcome to the
-- health of the account and of the exit. All paths below are from the root of the repository.
--
-- The parts and their files:
--   Base, lists, dictionaries for Go maps, integers, and texts as lists of bytes with what the
--   program uses of Go's `strings`. Texts are taken as ASCII where Go looks at code points.
--   Config, internal/app/runtime.go, `RuntimeConfig` with `initRuntimeConfig`,
--   `validateRuntimeConfig` and `saveRuntimeConfig`.
--   RateLimit, internal/app/ratelimit.go, the slots with `trySlotAcquire`, `slotRelease` and
--   `slotUsage`; `allSlotUsage`, which reads the pool as well, is in Proxy/Usage.
--   RateLimit/Windows and RateLimit/Pacing relate the windows of a slot to the history of its
--   grants.
--   Proxy, internal/app/proxy.go. `Exits` holds the package variables and the table `proxies`;
--   Proxy/Pick is `pickProxyPreferringExcept`, Proxy/Record and Proxy/Dynamic write outcomes back,
--   Proxy/Edit and Proxy/Seed change the pool.
--   Acquire, internal/app/gemini.go, `acquireSlotExcept` in each proxy mode; Acquire/Remote is the
--   client of the remote pool in proxy.go.
--   Cookie, internal/app/cookie_pool.go, the strings of cookies.
--   Accounts, internal/app/cookie_pool.go, the table `accounts`: Accounts/Pick chooses,
--   Accounts/Health switches off, Accounts/Import and Accounts/Seed take cookies in.
--   Models, internal/app/gemini.go, the table of models and `resolveModel`.
--   Stream, internal/app/gemini.go and internal/app/messages.go: `deltaTracker`, and in
--   Stream/Fence `toolFenceGate`, whose loop runs on fuel of one more than the bytes that wait.
--   Conversation, internal/app/conversation.go, the store of conversations and its keys.
--   Stats, internal/app/scheduler.go, `percentiles`.
--   Frames, internal/app/gemini.go, the texts and the reasoning in the frames of the upstream;
--   Stream/Feed is `lineCB` with the lines of `readBody`.
--   Outside, the requests that the program sends, what it does not contain, and `World`, the state
--   that requests share, with a log of all that was sent.
--   Tokens, internal/app/xsrf.go and bl.go, the caches of the tokens of the web page.
--   Rotation, internal/app/rotate.go: Rotation/Sidcc is `rotateSIDCC`, Rotation/Account
--   `rotateAccount` and `rotateAllAccounts`.
--   Upload, internal/app/upload.go and context_file.go; Payload, the request of gemini.go.
--   Trip, internal/app/gemini.go, `streamGenerateWithFiles`: its local variables are a record;
--   Trip/SignIn is the loop over accounts, Trip/Attach the attachments and the prompt,
--   Trip/Attempts the attempts through one exit, Trip/Switches the loop over exits. The retry after
--   a stale token does not count as an attempt, so the attempts are two loops, before and after it.
--   Talk, internal/app/conversation.go, `getAnonSession`, `parseConvIDs`, and in Talk/Rounds
--   `streamGenerateConv`, with the part of its local variables that `Trip` has as well;
--   Talk/Settle is the session and the token, Talk/Attempts the attempts through one exit, and
--   Talk/Continued says what an answer gives a conversation.
--   Events, internal/app/sse.go, the stream of events; Events/Reader is a client that reads it.
--   ApiKey, internal/app/apikey.go, the key of the client interface.
--   Dialect, internal/app/dbdialect.go, placeholders and upserts in the dialects of the databases.
--   Tests, concrete inputs.
--
-- State is passed explicitly, and each operation that a mutex guards is one step. The clock is an
-- argument, read once in a call; in `Outside` it moves on with each request that is sent, and a
-- statement on what time does takes another state and another clock for later. `Acquire`
-- uses the pick of `Proxy`, which uses the slots of `RateLimit`; `Trip` and `Rotation` use `Acquire`,
-- `Accounts`, `Tokens` and the reports of `Proxy`. Integers of the configuration are whole numbers
-- that do not overflow; counts and times are natural numbers. The loops over a pool and over exits
-- and attempts run as often as the program lets them; the loop over accounts has fuel for three
-- accounts, and it stops itself at three.
--
-- Parameters stand for what the program does not contain: the answers of the network and of the
-- remote pool, JSON, regular expressions, SHA-1, the order in which a map is walked through, the
-- conversion of numbers to texts, and whether the database takes an update of proxies or the
-- configuration. It is taken to accept every statement on accounts. Headers that the transport adds
-- of its own are left out. A body with a line of more than the 8 MiB that `readBody` takes counts as
-- one that broke off. The counter of the picks turns into an index as a whole number, without the
-- overflow of 2^63. Conversations are stored as copies, where the program stores one under several
-- keys. A failed read of an account in `updateAccountCookie`, after which it writes unguarded, falls
-- under the statements that are taken to be accepted.
--
-- Not modelled: the HTTP handlers and the panel, the transport, the downloads of media and the
-- deletion of conversations, `callGeminiConv` with the conversations that it shares through the store,
-- the aggregation of statistics, sessions, the schema of the database and the building of prompts.
pub mod Base
pub mod Config
pub mod RateLimit
pub mod Proxy
pub mod Acquire
pub mod Cookie
pub mod Accounts
pub mod Models
pub mod ApiKey
pub mod Dialect
pub mod Events
pub mod Frames
pub mod Outside
pub mod Tokens
pub mod Rotation
pub mod Upload
pub mod Payload
pub mod Trip
pub mod Talk
pub mod Stream
pub mod Stats
pub mod Conversation
pub mod Tests
