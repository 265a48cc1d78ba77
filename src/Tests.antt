-- ===== src/Tests.antt =====
-- The theorems of the library at concrete inputs: the stores of testhelper/store.go, a clock that
-- stands still, and a provider that always answers.
mod Fixtures
mod Callers
mod Tokens
mod Collisions
mod Refreshes
mod Handoffs
mod Flights
mod Rounds
mod Validations
mod Issuers
mod Providers
mod Recognitions
mod Carriers
