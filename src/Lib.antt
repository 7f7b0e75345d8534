-- ===== src/Lib.antt =====
-- The core of the Gemini web API gateway (internal/app): how a request goes through it, how it limits,
-- chooses and protects its exits and accounts, how it keeps their sessions, streams answers, reads
-- downloaded media, runs jobs of videos and aggregates its statistics.
--
-- streamGenerateWithFiles (internal/app/gemini.go) is a request's way. It takes an account from the
-- cookie pool (internal/app/cookie_pool.go) and an exit from the proxy pool (internal/app/proxy.go,
-- acquireSlot of internal/app/gemini.go), whose slot the rate limiter grants
-- (internal/app/ratelimit.go). It fetches the page's token (internal/app/xsrf.go), after a failure
-- rotates the session (internal/app/rotate.go) or tries another account, and then repeats the call
-- within a budget. A cookie enters the pool from the panel or from a browser, whose slot is checked
-- first (internal/app/browser_ingest.go). The answer streams through deltaTracker
-- (internal/app/gemini.go) and, with tools, through toolFenceGate (internal/app/messages.go); its
-- outcome is written back to the account and the proxy. Videos come in a protobuf envelope
-- (internal/app/media.go). A scheduler rolls the requests up by the hour and the day
-- (internal/app/scheduler.go). Around them stand the store of conversations
-- (internal/app/conversation.go), the guard against silent downgrades (internal/app/model_guard.go),
-- the key of the API (internal/app/apikey.go) and the configuration that the panel changes
-- (internal/app/runtime.go).
--
-- RateLimit.antt    trySlotAcquire, slotRelease, slotUsage, getSlot, pruneTimestamps. A slot is
--                   `IpSlot`; the map of slots is an association list.
-- ProxyPool.antt    loadProxies, proxyUsable, pickProxyPreferring, recordProxyResult, acquireSlot;
--                   Seeds: the changes from the panel and the proxy of the start parameters.
--                   `Pool` holds the rows of the table, proxyCache and the cursor.
-- CookiePool.antt   the rows of `accounts`: splitCookiePairs, cookieValue, cookieIdentity, the row
--                   operations, pickCookieAccountExcept, markCookieByStatus, markAccountResult,
--                   autoDisableIfDead, updateAccountCookie; Seeds: accountAdd, accountAdopt,
--                   migrateLegacyCookie, syncSeededCookieFile, with normalizeCookie a parameter;
--                   Merge: mergeSetCookie and cookieSubset on the headers of an answer. Its updates
--                   are a list in the order of their names' first headers, for the source's map.
-- Conversation.antt convGet, convPut, convDelete, convParentKey, convChildKey. A map is its entries
--                   in the order of a loop over it; the hash is a parameter.
-- AuthUser.antt     the account slots of authuser.go, their URLs and profile names.
-- Models.antt       the table Models without its descriptions, resolveModel, availableModels.
-- Runtime.antt      validateRuntimeConfig, saveRuntimeConfig and initRuntimeConfig over the kv table.
-- Xsrf.antt         getXSRF, invalidateXSRF and fetchAppTokens: the cache by cookie and slot.
-- Rotate.antt       rotateAccount and rotateAllAccounts: `Rotation` is what stands of a round, with what
--                   other callers note while a request for a 1PSIDTS is under way.
-- Ingest.antt       handleBrowserIngest, checkSlotIdentity, browserStoreCookieSourceAuthUser.
-- Request.antt      the parts of streamGenerateWithFiles, over the interface `Upstream`, which holds what
--                   other parts answer: Login is the loop for the token, Files the long context and the
--                   attachments, Attempts the loop of calls, Generate the whole; Wired fills the
--                   interface with Rotate, Xsrf and the pools, with the network as parameters.
-- ModelGuard.antt   modelGuardCheck and its cooldown.
-- ApiKey.antt       initAPIKey, rotateAPIKey, setAPIKey, requireAPIKey.
-- Scheduler.antt    aggregateBucket, percentiles, both catch-ups, retentionSweep.
-- Stream.antt       Gate: toolFenceGate. Delta: deltaTracker.Push and remainingOf.
-- Videos.antt       putVideoJob, getVideoJob, handleCreateVideo, runVideoJob, finishVideoJob,
--                   handleVideoItem: `Event` is a step of the program, in the order of the lock.
-- Media.antt        protobufVarint, protobufSkip, extractVideoFromResource, extractVideoFromEnvelope.
-- Prelude.antt      the names and the lemmas on lists, texts and tests that the others share.
-- Each folder holds the proofs about its file; its Examples.antt holds concrete runs.
--
-- Numbers are natural numbers: ids, times, counts and limits of the source are not negative, and a
-- negative limit acts as 0; only the numbers of the configuration and of a pushed cookie are integers.
-- Where the source subtracts from a time, the difference stops at 0; times are far from the epoch.
-- Counters of requests and failures do not reach the end of their machine type. The round robin's
-- cursor wraps at 2 ^ 64; its conversion to `int` is taken below 2 ^ 63. A text is the list of its
-- bytes; trimming knows the white space of ASCII. Calls under one lock are one step, and a history is
-- a list of such steps in the order of the lock.
--
-- The gate's loop runs on fuel, one more than the bytes of its buffer: each round but the last takes
-- three bytes or more. The loops over a message's fields run on one more than its bytes: each round
-- takes one byte or more. protobufVarint runs ten rounds, after which the shift passes 63. The
-- descent into nested messages stops at depth 6, as in the source. The catch-up runs one round more
-- than the closed buckets. The loop for the token runs on four rounds, one more than the accounts that
-- it may try; the loop of calls on two more than its budget, since one call more is made where the token
-- was renewed.
--
-- A step reads the clock once. An error is a text of which only the parts that the code looks for are
-- kept. The regular expressions on the page, the digest of a cookie, encoding/json, the exchanges with
-- Google and the page of a slot are parameters. The database is a list of rows; its failures are
-- arguments where the source acts on them: a SELECT that fails, a row that cannot be scanned, the read
-- before a cookie is written. A file that takes a statement to succeed says so; that the row of an account
-- is read before the cookies of an answer are written to it is a law of `Upstream`.
--
-- Not modelled: the bodies and headers of requests, the fetch of media after an answer and the deletion
-- of its conversation, the streaming of conversations, the HTTP handlers, the parsing of tool calls, the
-- panel, the control of the browser and the dialects of the databases. They are I/O, rest on the TLS and
-- JSON libraries, or stand outside the path of a request that is modelled here.
pub mod Prelude
pub mod RateLimit
pub mod ProxyPool
pub mod CookiePool
pub mod Conversation
pub mod ModelGuard
pub mod ApiKey
pub mod AuthUser
pub mod Models
pub mod Runtime
pub mod Xsrf
pub mod Rotate
pub mod Ingest
pub mod Request
pub mod Scheduler
pub mod Stream
pub mod Videos
pub mod Media
