-- ===== src/Lib.antt =====
-- Verification library of the Go auth engine: the parts of lib/ that decide who a caller is, which
-- tokens it gets, and what it may do, its binding to the Logto provider, and the test helpers of
-- testhelper/: stores, fakes, the fake identity provider and the assertions.
--
-- The parts and their modules:
--   Value, Problems, Claims and Principal are the data of lib/authengine: dynamic values, the problem
--     vocabulary of problems.go, the claim accessors of claims.go, the mapping of principal.go.
--   Guard is guard.go and policy.go: Guard.Sub, SubOrAny, SubOrAll, Registered and Policy are
--     guard_sub, sub_or_any, sub_or_all, guard_registered and guard_policy.
--   Validator is validator.go: Validate and ValidateIDToken; its child Extraction is
--     onboarding_tokens.go: ExtractOnboarding.
--   Token is token.go, source.go and lifetimes.go; Resource is resource.go; Config is config.go,
--     with its JSON-Schema documents in the child Schema.
--   Cache is cache.go: Token, All, Invalidate and Key are token, all_tokens, invalidate, cache_key. A
--     cache mints through Flight, which is flight.go: the steps of tokenFlight.do that the mutex and
--     the channel make atomic, and every schedule of them.
--   Rotation is rotation.go: Issue and Rotate are issue and rotate, the latter cut into check, which
--     reads, and exchange, which calls the provider and writes.
--   Deferred is lib/deferred/mint.go: Mint and Exchange are mint and exchange_nonce.
--   Carrier is lib/deferred/carrier.go: the referrer and clipboard payloads and their parsers.
--   Landscape and Onboard are lib/onboard: landscape.go, and sync.go with phase.go, where Sync.Run is
--     run_sync and each backend's round is reconcile.
--   Logto is lib/logto/client.go, the provider seam over HTTP: its child Operations holds the
--     operations, each of whose requests goes over the wire by send.
--   Jwks is lib/logto/jwks.go, the validator's keys from the provider's published key set.
--   Memory is testhelper/store.go, with the error queue of testhelper/provider.go.
--   Fakes is testhelper/provider.go, and its child Backends backend.go and ping.go: FakeBackend.Exists,
--     Create and Configured are fake_exists, fake_create and fake_configured. The constructors,
--     the calls that queue an error and those behind a seam are definitions; getters, which copy a
--     recorded list, are reads of the state.
--   Idp is testhelper/idp.go, and its child Support support.go: mint is mint_token, whose claims are
--     base_claims, then named_claims, put_registered and copy_claims.
--   Assert is testhelper/assert.go: CheckAuthProblem and CheckPhase are check_auth_problem and
--     check_phase.
--   Prelude, Time, Text, Strings and Effect are what the parts share: lists and tests, the standard
--     library's time, strings and slices as far as they are used, and functions that return a value or
--     an error and change the world behind the seams.
--   Tests applies the theorems to the in-memory stores, the fakes and small seams.
--
-- An instant is an integer number of nanoseconds, a duration an int64 whose differences saturate
-- and whose products wrap around, as Go's do. A seam is a record of actions on an abstract world,
-- so a failed call may have changed the world. A seam that may be nil, and a nil pointer, is an
-- Option. What a store promises is a record of laws (IsStore, IsRefreshStore, IsDeferredStore)
-- about what it holds; the clock and the provider are assumed, where a theorem says so, not to
-- touch the store. A backend's promise (IsCreateOrOk) is about one row for each caller. No loop of the program runs on fuel: each goes over a list of backends,
-- declarations, candidates or steps. strconv.Itoa, in Text.Decimal, runs on fuel of one more than
-- the number, which is enough as each round divides the number by ten.
--
-- Parameters stand for code outside the repository: the problem registry, Slugify, NamespacedKey
-- and MapConcurrent of the family's libraries, net/url's query codec, the RFC 3339 codec, the JWT
-- parser with its documented checks, SHA-256 in hexadecimal, and the random text of a nonce; in Logto
-- the HTTP round trip and the form, JSON and URL codecs (Wire), in Jwks the storage of the jwkset
-- library, in Idp RSA keys, signing and the settable clock (IdpLibrary), and in Problems the registry
-- and the catalog (ProblemLibrary). What a theorem relies on of them is a named predicate on the
-- parameter: Documented for the JWT parser's checks, IsJwt and Rereads for signed tokens and their
-- JSON, Registers for the registry. NamespacedKey slugifies, so two names may have one key: where a
-- theorem needs the declared names of a tree to have keys of their own it says so (KeysApart). A
-- float64 claim is known by the integer it converts to.
--
-- Not modelled: what the JSON schemas of config.go accept, which is the validating library's, and the
-- tooling around the library. Two calls that run at once are modelled where the code keeps them
-- apart: in Flight, and in the steps of Rotation and Deferred that a store makes atomic. A property
-- of TokenCache.All would need the interleavings inside MapConcurrent, and is left out.
pub mod Prelude
pub mod Time
pub mod Value
pub mod Problems
pub mod Effect
pub mod Text
pub mod Strings
pub mod Claims
pub mod Principal
pub mod Guard
pub mod Token
pub mod Resource
pub mod Cache
pub mod Flight
pub mod Rotation
pub mod Deferred
pub mod Carrier
pub mod Landscape
pub mod Logto
pub mod Jwks
pub mod Memory
pub mod Onboard
pub mod Fakes
pub mod Validator
pub mod Idp
pub mod Assert
pub mod Config
pub mod Tests
