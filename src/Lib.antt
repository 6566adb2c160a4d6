-- ===== src/Lib.antt =====
-- Verification of the backend of a co-parenting application: a Node service whose routes (src/routes/)
-- call services (src/services/) over one PostgreSQL database through the Prisma client. The parts
-- modelled here are the ones that decide: who gets in, what is limited, encrypted and paid, who reads and
-- writes what, and who cares on which day.
--
-- RateLimit     src/middleware/otpRateLimit.js: `consumeRateLimitAttempt` is
--               `consume_rate_limit_attempt`, one bucket's share of it is `attempt`, and
--               `pruneRateLimitBuckets` is `prune_rate_limit_buckets`. The `Map` is a function from keys.
-- Otp           src/services/otp.service.js: issue, resend and verification of a login challenge.
-- Sessions      src/services/session.js and `requireAuth` of src/middleware/auth.js.
-- Crypto        src/services/crypto.service.js: the prefix protocol around a cipher, an interface
--               that the other parts use; Payload fills it with the payload's text (name of the key, vector,
--               tag, ciphertext) and the lookup of keys over AES-256-GCM and base64, which are parameters.
-- Finances      src/services/finances.js, `serializeExpense` of src/services/calendar.js and the
--               checks of src/services/receiptOcr.js: Receipts, Expenses (lists and status updates),
--               Create (`createExpense`, `getExpenseReceipt`). Texts go through Crypto.
-- Documents     src/services/documents.js and src/utils/fileSignature.js: FileType (first bytes and plain
--               text) and Vault (upload with its quota, list, download, delete).
-- Custody       src/services/custody/: Dates (dateUtils.js), Pattern (pattern.js, constants.js), Slots
--               (slotGeneration.js, slotActions.js), Schedules (scheduleActions.js) and Exceptions
--               (exceptionActions.js). Approving a schedule generates slots; an exception overwrites them.
-- Calendar      src/services/calendar.js: Swaps (requests and the exchange of two days' slots) and Events.
-- Accounts      src/services/authService.js and src/services/workspace.js: Passwords (change, reset links,
--               end of an account), Joining (registration, invite codes) and Children.
-- Codes         src/utils/security.js: the text of a recovery code (`encodeCrockfordBase32`).
-- Logins        src/services/authService.js, src/services/trustedDevice.service.js and routes of
--               src/routes/auth.js: a login checks the password (Accounts), may ask for a code (Otp, RateLimit)
--               and opens a session (Sessions).
-- Exports       src/services/exports.js: message threads (Threads) of some dates as a payload that is
--               encrypted (Crypto), its download and its end.
-- Invites       src/routes/invite.js: invitations by e-mail.
-- Consents      src/services/consent.service.js: an append-only table and what its newest rows say.
-- Threads       src/services/threads.js: threads and their keys (Rooms), messages and reading marks
--               (Messages), with their Attachments, Downloads, Reactions and Tags
--               (src/services/messageAttachments.js, messageReactions.js, messageTags.js). The parents whose
--               keys a thread needs come from Accounts, the encryption of messages from Crypto.
-- Common        shared names, results with the services' error codes, lists over the native numbers,
--               and the interface of the database.
--
-- State and calls. The database is a record of tables over `Common.Store.Store`, which holds the Prisma
-- calls the services make (findFirst, findMany, updateMany, deleteMany, create, upsert) and their laws
-- on the rows of a table; `list_store` meets them. A service is a function from the database to a `Result`
-- with the database after it; a thrown `error.code` is an `err`, a returned `null` is `none`. Calls of one
-- service run one after another; a transaction is one step. Ids are numbers; a new row's id, the time and
-- random values are arguments.
--
-- Numbers and loops. Times are milliseconds as natural numbers; the calendar counts from 1 March of the
-- year 0, so that every date of the application is one. Money is a type that the model leaves open,
-- with the rounding as a parameter. The loops over days are recursion on the number of days between two
-- day starts, which is exact since both are whole days; the loops that draw
-- invite codes stop after the source's own 5 or 8 attempts; the inner loop of Codes runs on the number of
-- bits, of which each round takes five; no other recursion here runs on fuel.
--
-- Not modelled: most routes and the validation of requests, the order of lists, texts of notices and mails,
-- the parsing of receipts, the other parts of an export, calls of one service that interleave
-- with another's, and the start of the process.
pub mod Accounts
pub mod Calendar
pub mod Codes
pub mod Common
pub mod Consents
pub mod Crypto
pub mod Custody
pub mod Documents
pub mod Exports
pub mod Finances
pub mod Invites
pub mod Logins
pub mod Otp
pub mod RateLimit
pub mod Sessions
pub mod Threads
