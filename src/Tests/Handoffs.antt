-- ===== src/Tests/Handoffs.antt =====
-- A handoff over the memory store: minted, redeemed, and redeemed again.
use diene_go_auth_engine.Prelude.{
  String, none, some, [], ◌∷◌, true, false, ◌≡◌, ◌≢◌, ◌⊎◌, refl, arith,
}
use diene_go_auth_engine.Deferred.{
  Handoff, Minter, Record, exchange_nonce, mint, minted_record, minter_now, redeem,
}
use diene_go_auth_engine.Time.{add, before}
use diene_go_auth_engine.Memory.{
  MemoryDeferredStore, memory_consume, memory_handoffs, memory_put, new_memory_deferred_store,
}
use diene_go_auth_engine.Effect.{Spares}
use diene_go_auth_engine.Deferred.Refusals.{after_consume, exchange_decides}
use diene_go_auth_engine.Problems.{
  deferred_token_consumed, deferred_token_expired, deferred_token_unknown, err, ok, raise,
}
use diene_go_auth_engine.Token.{deferred_token_lifetime}
use diene_go_auth_engine.Memory.Laws.{held_handoffs, memory_handoffs-IsDeferredStore}
use diene_go_auth_engine.Deferred.Once.{one_redemption, redeem_after_mint, now}
use diene_go_auth_engine.Prelude.Int.{pos, ◌+ℤ◌, ◌<ℤ◌, ◌≤ℤ◌}
use diene_go_auth_engine.Tests.Fixtures.{problems, provider, session, still}
use diene_go_auth_engine.Value.{text}

abbrev digest : String → String
digest nonce = nonce

abbrev nonce : MemoryDeferredStore → String × MemoryDeferredStore
nonce w = ("n-1", w)

abbrev minter : Minter MemoryDeferredStore
minter = record {
  store = memory_handoffs;
  provider = provider;
  problems = problems;
  clock = still;
  lifetime = deferred_token_lifetime;
}

abbrev start : MemoryDeferredStore
start = new_memory_deferred_store

clock-Spares : Spares held_handoffs minter.clock.now_utc
clock-Spares w j = refl

-- The record of the nonce, and the handoff that carries it
abbrev filed : Record
filed = record {
  digest = "n-1";
  subject = "alice";
  email = none;
  issued_at = pos 1000;
  expires_at = pos 900000001000;
  consumed = false;
}

abbrev handoff : Handoff
handoff = record { token = "n-1"; expires_at = pos 900000001000 }

abbrev stored : MemoryDeferredStore
stored = record { records = ("n-1", filed) ∷ []; errors = [] }

minted_handoff : mint digest nonce minter session none start ≡ (ok handoff, stored)
unfolding mint minter_now memory_put minted_record add ◌+ℤ◌
minted_handoff = refl

blank : handoff.token ≢ ""
blank h = cc

redeem_after_mint_example :
    (exchange_nonce digest minter handoff.token (mint digest nonce minter session none start).1
      ≡ minter.provider.mint_one_time_token
          (record { subject = session.subject; email = none })
          (after_consume digest minter handoff.token
            (mint digest nonce minter session none start).1))
    × ((rec : Record) × (held_handoffs
            (after_consume digest minter handoff.token
              (mint digest nonce minter session none start).1)
            (digest handoff.token)
          ≡ some rec)
        × (rec.consumed ≡ true))
unfolding mint minter_now memory_put minted_record add ◌+ℤ◌ memory_consume
redeem_after_mint_example =
    redeem_after_mint digest nonce minter memory_handoffs-IsDeferredStore clock-Spares session none
      start handoff (pos 1000) (some filed) refl blank refl refl (omega arith)

exchange_decides_example :
    ((some filed ≡ none)
      × (exchange_nonce digest minter "n-1" stored ≡ (
        err (
            raise problems deferred_token_unknown "the handoff nonce is not known to this service"
              []),
        after_consume digest minter "n-1" stored,
      )))
    ⊎ ((rec : Record) × (some filed ≡ some rec)
        × (rec.consumed ≡ true)
        × (exchange_nonce digest minter "n-1" stored ≡ (
          err (
              raise problems deferred_token_consumed "the handoff nonce has already been redeemed"
                (("subject", text rec.subject) ∷ [])),
          after_consume digest minter "n-1" stored,
        )))
    ⊎ ((rec : Record) × (some filed ≡ some rec)
        × (rec.consumed ≡ false)
        × (rec.expires_at ≤ℤ pos 1000)
        × (exchange_nonce digest minter "n-1" stored ≡ (
          err (
              raise problems deferred_token_expired
                "the handoff nonce expired before it was redeemed"
                (("subject", text rec.subject) ∷ [])),
          after_consume digest minter "n-1" stored,
        )))
    ⊎ ((rec : Record) × (some filed ≡ some rec)
        × (rec.consumed ≡ false)
        × (pos 1000 <ℤ rec.expires_at)
        × (exchange_nonce digest minter "n-1" stored
            ≡ minter.provider.mint_one_time_token
                (record { subject = rec.subject; email = rec.email })
                (after_consume digest minter "n-1" stored)))
unfolding memory_consume
exchange_decides_example =
    exchange_decides digest minter "n-1" stored (pos 1000) (some filed) blank refl refl

-- The store after the first redemption
abbrev redeemed : MemoryDeferredStore
redeemed = record { records = ("n-1", record filed { consumed = true }) ∷ []; errors = [] }

one_redemption_example :
    (rec : Record) × (some (record filed { consumed = true }) ≡ some rec)
    × (redeem minter (pos 1000) (some (record filed { consumed = true }))
        ≡ err (
            raise problems deferred_token_consumed "the handoff nonce has already been redeemed"
              (("subject", text rec.subject) ∷ [])))
unfolding memory_consume redeem before
one_redemption_example =
    one_redemption digest minter memory_handoffs-IsDeferredStore "n-1" {w = stored} {w' = redeemed}
      (pos 1000) (pos 1000) (some filed) (some (record filed { consumed = true })) filed refl refl
      now refl
