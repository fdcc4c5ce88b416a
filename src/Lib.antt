-- ===== src/Lib.antt =====
-- Verification of the core logic of Alexandryn, a self-hosted library server: device pairing, works
-- and their merges, the library, the job queue and its workers, reading progress, validated texts,
-- collections, users and libraries, signed tokens and request authentication, two-factor codes, rate
-- limits, network policy, sources and the matching of imports.
--
-- Parts and their code:
-- - Base: what all parts share: Boolean tests, lists over the native numbers, signed integers, Go
--   strings as lists of code points, and the errors of internal/domain/error.go.
-- - Pairing: internal/domain/device_pairing.go. Code is PairingCode and its generator,
--   internal/pairing/code.go; Session is PairingSession (NewPairingSession, Verify, Consume,
--   ExpireAt, RehydratePairingSession) and VerifyAndConsume of
--   internal/persistence/postgres/pairing_verify.go; Device is PairedDevice.
-- - Merging: the loops that follow merge references, and the predicates on their chains.
-- - Works: internal/domain/work.go with the statements of
--   internal/persistence/postgres/work_repository.go. Resolve is resolve_work.go, Merge is
--   work_merge_service.go, Containment is work_containment_service.go, and Library is
--   library_entry.go, library_service.go and is_in_library.go, all of internal/domain. Merge and
--   Containment call Resolve; Library calls Resolve over the same store.
-- - Jobs: internal/jobs. State is job.go, Store is store.go, Backoff is backoff.go, Registry is
--   registry.go with Enqueue of queue.go, and Engine is engine.go over Store and Registry.
-- - Progress: percentage.go, reading_progress.go and reconcile_progress.go of internal/domain.
-- - Catalogue: Texts is validate.go and subject.go, Collections is collection.go, Pages is
--   library_query.go, of internal/domain.
-- - Accounts: Users and Tokens are internal/domain/auth.go, Libraries is
--   internal/domain/library_aggregate.go, whose invitations stand with the tokens.
--   Sessions is the refresh and logout handlers of internal/transport/http/auth_handlers.go with the
--   statements of RefreshTokenRepository in internal/persistence/postgres/auth_repository.go: a handler
--   is a read and then its saves, each of which may fail, with the steps of others between them.
-- - Signing: internal/auth, hs256.go and jwt.go; Grants is enrolment_grant.go and
--   reader_content_grant.go.
-- - Access: internal/transport/http/auth_middleware.go, over Signing.
-- - TwoFactor: internal/auth/totp.go.
-- - Limits: internal/auth/ratelimit.go, and in Semaphore internal/adapters/sources/concurrency.go.
-- - Network: internal/config/bindaddress.go; Clients and Origins are client_ip.go and
--   origin_validation.go of internal/transport/http.
-- - Sources: origin.go of internal/adapters/sources; Cursors is cursor.go.
-- - Importing: internal/importer/matching.go.
--
-- A method that changes its receiver returns the changed record beside its result; a method on a
-- store returns the store. A database table is the list of its rows; one statement or transaction is
-- one step. The pool of workers is the sequence of the steps that its goroutines take. Names are the
-- source's, in snake case. A time is a number of nanoseconds, and of seconds in tokens and codes; an
-- int64 keeps its wrap-around where the code can reach it. The modules named Samples hold runs on
-- concrete values.
--
-- Fuel: the loops over merge references and over merge groups take as many rounds as the store has
-- rows, and one more, since each round takes an id that was not taken before; the closure of contents
-- takes one more for its start. `none` stands for a loop that ran out.
--
-- Parameters: Unicode's case tables beyond ASCII, the comparisons of float64, the random bytes of a
-- code, fresh ids and lease tokens, the locks of other transactions, the repositories that
-- VerifyAndConsume calls, and the packages for HMAC, hashes, base64, base32, JSON, HKDF, times,
-- addresses, URLs, certificates and rate limits, with what is relied on stated as a record of laws
-- that the Samples fill.
--
-- Not modelled: failures of the database driver, but for the saves of Sessions, and cancellation; the
-- text of error messages; the domain events; the float64 jitter of a delay; the start and the stop of the job engine; the
-- login, setup, reset and two-factor handlers, and the other HTTP handlers; the reader, the import
-- service and the adapters of outside services; the password hash and the encryption of secrets.
pub mod Base
pub mod Pairing
pub mod Limits
pub mod Merging
pub mod Network
pub mod Works
pub mod Importing
pub mod Jobs
pub mod Progress
pub mod Signing
pub mod Sources
pub mod TwoFactor
pub mod Access
pub mod Catalogue
pub mod Accounts
