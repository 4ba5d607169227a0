-- ===== src/Lib.antt =====
-- Verification library of ganji: an escrow service in which a client pays a freelancer through a
-- Lightning hold invoice drawn by LNbits.
--
-- The program (Go, backend/internal). A deal is a row of the database. Creating one draws a hold
-- invoice (package lnbits) and stores the row (deals/repository.go). LNbits tells of the payment by
-- a webhook (package webhook) or is asked by the client's poll. The freelancer uploads artifacts and
-- submits work; the client approves, which settles the hold and pays the freelancer's invoice, or
-- disputes, upon which an operator releases or refunds. A sweep refunds deals whose hold expired, and
-- an operator reconciles payouts whose outcome is unknown. All of this is deals/service.go. Package auth
-- registers the users and rotates their refresh tokens. A released deal's artifacts are anchored on the
-- freelancer's public CV by the digest of their files, which package cv timestamps and verifies.
--
-- The modules:
--   Base            lists, texts (lists of code points), int64 values, Boolean tests; Hex: encoding/hex;
--                   Distinct: lists without a repeated key; Action: state, errors and contracts;
--                   Database: statements on tables that others write as well
--   Lnbits          lnbits/client.go and models.go: what the client makes of an answer
--     Outcomes      when a payout counts as refused
--   Deals.Status    the statuses and ValidTransitions of deals/types.go; Chains: where they lead
--   Deals.Types     the records of deals/types.go
--   Deals.World     the state, the environment and the monad of the handlers
--   Deals.Contract  contracts: what holds after a result and after an error, a rule per construct;
--                   Row and Update: contracts of the statements on one row; Free: of results alone
--   Deals.Repository  deals/repository.go; Lookup, Order, Guarded, Sorted, Open: the laws of its
--                   statements
--   Deals.Preimage  deals/preimage_crypto.go: what is stored for a preimage; Codec
--   Deals.Escrow    the calls of LNbits, the notifier and the CV (service.go)
--   Deals.Release   releaseEscrow in its three phases, ApproveDeal, ResolveDispute; Ledger, Money,
--                   Intention, Safety, Lawful, Outcome: its payouts
--   Deals.Lifecycle   CreateDeal, UpdateStatus, SubmitWork, DisputeDeal, UpdatePayeeInvoice,
--                   RotateShareLink and the readers; Changes, Creation, Disputes, Lists
--   Deals.Payment   CheckPayment, SweepExpiredHolds, the share link, ReconcilePayout; ShareLink
--   Deals.Artifacts, Deals.Verifications   uploads and verifications; Names, Upload
--   Deals.Access    who is answered, and who changes a share link
--   Deals.Silent    actions that ask for no payout
--   Ots             ots/verify.go: proofs of existence in Bitcoin; Offline, Chained
--   RateLimit       middleware/ratelimit.go; Refill, Budget and Periods: how many requests a key
--                   gets; Cleanup
--   Webhook         webhook/service.go; Delivery; Signature: signature.go, Headers: which are accepted;
--                   Handler: handler.go
--   Deals.Parties   whose deals the operations of a party return
--   Deals.Handlers  deals/handler.go; Uploads: the multipart upload; Records: artifact_handler.go and
--                   verification_handler.go
--   Http            the answers of the handlers
--   Middleware      middleware/auth.go
--   Router          the routes of the deals and their groups in cmd/api/router.go; Gates: who gets
--                   to a handler; Errors (Refusals, Served): what an answer says of an error; Parties
--                   (Handled, Served): whose deals are shown
--   Requests        the operations about one deal that exists, as requests: approval, the operator's
--                   three, disputes, status changes, work, polls, the share link, the payee invoice,
--                   the webhook and the sweep, but not creation, artifacts and verifications; Updates, Kept, Network, Operator,
--                   OnePayout and Payers: what a sequence of requests does; Course: where a
--                   request takes the status of its deal, by Releases, Others, Operators, Served;
--                   Settled: released and refunded deals
--   Auth            auth/model.go, errors.go: users, tokens, the tables, the environment
--     Emails, Slugs   emailPattern and slugify of auth/service.go; Slugs.Shape
--     Repository    auth/repository.go
--     Tokens        auth/jwt.go
--     Service       auth/service.go, cleanup.go
--     Invariant     what the tables of accounts satisfy
--     Requests      the operations of the service as requests; Gone, Replay: exchanges of a token;
--                   WellFormed
--   Cv              cv/types.go, errors.go: anchors, entries, the tables, the environment
--     Repository    cv/repository.go
--     Service       cv/service.go
--     Rows          the rows that the JOINs find
--     Profiles      what a CV shows
--     Requests      the operations of the service as requests; Kept, Anchors: the digest of an anchor; Faithful:
--                   what a verification compares; Due, Healed: which artifacts get an anchor
--   Scenarios       runs on small inputs
--
-- State and operations. A handler is an action of the monad `M` of Deals.World: from a `World` (the
-- tables, the number of interactions so far, the calls made) to a result or an error and a `World`.
-- What the program does not decide is an `Env`: whether a statement fails, what other requests write
-- before it, what LNbits answers, the time, random bytes. A statement in a transaction sees the
-- transaction's own writes on the tables that BEGIN found, which a rollback puts back (`transaction`
-- and `order_by` of Deals.Repository stand for what the database does); the row locks of the code are why nobody
-- else writes there meanwhile. COMMIT may fail, and may have been carried out all the same.
--
-- Concurrency. `others` of the environment is what other requests write between two statements of a
-- request. Where a theorem asks that they leave the payout columns of the row alone, the environment
-- is `Undisturbed` (Deals.Release.Ledger): it may still write anything else of any row. A payout is
-- counted when LNbits did not refuse it, so one with an unknown outcome counts as sent.
--
-- Packages auth and cv use the smaller monad of Base.Action with Base.Database: each statement may fail,
-- and `others` gives the tables that other requests left when it runs. A theorem about a sequence of
-- requests says what those others keep: that a row is not put back, or that an anchor is not replaced.
-- The goroutine that submits a digest to the calendars is a row of `submissions`, which a later request
-- runs at any time.
--
-- Bounds. No recursion needs fuel: loops run over lists. The int64 sums of the upload's size cap wrap
-- around as in Go; times are natural numbers, those of the rate limiter and of auth nanoseconds of the
-- clock. Trust scores are whole numbers.
--
-- Not modelled: the HTTP handlers of auth and cv, JSON coding, the headers of a response, log lines,
-- SMTP, file I/O, start-up, the calendars of package ots, the rate limiter in front of the routes of the
-- deals. AES-GCM, sha256, HMAC, bcrypt, JWT, the library opentimestamps, the tables of package unicode and
-- net/mail are parameters where they are used.
pub mod Auth
pub mod Base
pub mod Cv
pub mod Deals
pub mod Http
pub mod Lnbits
pub mod Middleware
pub mod Ots
pub mod RateLimit
pub mod Requests
pub mod Router
pub mod Scenarios
pub mod Webhook
