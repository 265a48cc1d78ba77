-- ===== src/Deferred/Once.antt =====
-- A nonce of lib/deferred/mint.go works once: from the mint to the redemption, and under any
-- interleaving of redemptions after it.
use diene_go_auth_engine.Deferred.{
  Handoff, Minter, Record, exchange_nonce, mint, minted_record, minter_now, Store, redeem,
}
use diene_go_auth_engine.Time.{Instant, add, Duration, before_iff}
use diene_go_auth_engine.Deferred.Records.{IsDeferredStore}
use diene_go_auth_engine.Prelude.{
  Option, String, arith, eq_iff, eq_refl, false, inl, inr, some, true, ◌≡◌, ◌≢◌, refl, ◌∙◌, [], ◌∷◌,
}
use diene_go_auth_engine.Effect.{Result-cases, Spares}
use diene_go_auth_engine.Token.{Session}
use diene_go_auth_engine.Deferred.Refusals.{after_consume, exchange-eq-redeem}
use diene_go_auth_engine.Problems.{ok, deferred_token_consumed, err, raise}
use diene_go_auth_engine.Prelude.Int.{◌<ℤ◌}
use diene_go_auth_engine.Value.{text}

module _ {W : Type 0} (digest : String → String) (nonce : W → String × W) (m : Minter W)
    {held : W → String → Option Record} (store : IsDeferredStore m.store held)
    (clock_spares : Spares held m.clock.now_utc) where
  -- Over a store that keeps its contract, with a clock that leaves it alone: after a successful
  -- mint the nonce is on record under its digest, not consumed, for the session's subject, which is
  -- not blank, and the address, and it expires one lifetime after an instant at which it was
  -- issued.
  pub mint_records :
      (session : Session) (email : Option String) (w : W) (h : Handoff)
      → (mint digest nonce m session email w).0 ≡ ok h
      → (now : Instant) × (session.subject ≢ "")
        × (held (mint digest nonce m session email w).1 (digest h.token)
            ≡ some (record {
              digest = digest h.token;
              subject = session.subject;
              email = email;
              issued_at = now;
              expires_at = h.expires_at;
              consumed = false;
            }))
        × (h.expires_at ≡ add now m.lifetime)
  unfolding mint minted_record minter_now
  mint_records session email w h done = elim (Result-cases (m.clock.now_utc w).0) [
    | inr (e, en) ↦ absurd (ground arith)
    | inl (now, en) ↦
        let w' = (m.clock.now_utc w).1 in
        let rec = minted_record digest m session email (nonce w').0 now in
        (
          now,
          ground (arith, eq_iff session.subject ""),
          ground (
            arith,
            store.held-put rec m.lifetime (nonce w').1 (digest (nonce w').0),
            eq_refl (digest (nonce w').0),
          ),
          ground arith,
        )
  ]

  -- Over a store that keeps its contract, with a clock that leaves it alone: redeeming a nonce that
  -- is not blank right after its mint, when the clock and the store answer and it has not expired,
  -- asks the provider for a one-time token for exactly the subject and the address of the mint, and
  -- leaves the nonce consumed.
  pub redeem_after_mint :
      (session : Session) (email : Option String) (w : W) (h : Handoff) (now : Instant)
      (o : Option Record)
      → (mint digest nonce m session email w).0 ≡ ok h
      → h.token ≢ ""
      → (m.clock.now_utc (mint digest nonce m session email w).1).0 ≡ ok now
      → (m.store.consume
          (digest h.token)
          (m.clock.now_utc (mint digest nonce m session email w).1).1).0
        ≡ ok o
      → now <ℤ h.expires_at
      → (exchange_nonce digest m h.token (mint digest nonce m session email w).1
          ≡ m.provider.mint_one_time_token
              (record { subject = session.subject; email = email })
              (after_consume digest m h.token (mint digest nonce m session email w).1))
        × ((rec : Record) × (held
                (after_consume digest m h.token (mint digest nonce m session email w).1)
                (digest h.token)
              ≡ some rec)
            × (rec.consumed ≡ true))
  redeem_after_mint session email w h now o done blank en eo live =
      let (at, named, filed, expiry) = mint_records session email w h done in
      let w' = (mint digest nonce m session email w).1 in
      let rec : Record = record {
        digest = digest h.token;
        subject = session.subject;
        email = email;
        issued_at = at;
        expires_at = h.expires_at;
        consumed = false;
      } in
      let is : o ≡ some rec = ground (
        arith,
        filed,
        clock_spares w' (digest h.token),
        store.consume-held (digest h.token) (m.clock.now_utc w').1 o,
      ) in
      (
        exchange-eq-redeem digest m h.token w' now o blank en eo
            ∙ unfold redeem in ground (arith, is, before_iff now h.expires_at),
        (
          record rec { consumed = true },
          ground (
            arith,
            filed,
            clock_spares w' (digest h.token),
            store.held-consume (digest h.token) (m.clock.now_utc w').1 o (digest h.token),
            eq_refl (digest h.token),
          ),
          refl,
        ),
      )

-- The nonce of this digest is on record, and consumed.
abbrev pub IsSpent : {W : Type 0} → (W → String → Option Record) → String → W → Type 0
IsSpent held d w = (rec : Record) × (held w d ≡ some rec) × (rec.consumed ≡ true)

-- What other callers and the rest of the program may do to the world, step by step: consume any
-- digest, store a record under another digest, or act without touching the nonces.
pub data Later {W : Type 0} (s : Store W) (held : W → String → Option Record) (d : String) (w : W)
    : W → Type 1 where
  now : Later s held d w w
  consumes : {w' : W} → Later s held d w w' → (k : String) → Later s held d w (s.consume k w').1
  puts :
      {w' : W}
      → Later s held d w w'
      → (rec : Record) (ttl : Duration) → rec.digest ≢ d
      → Later s held d w (s.put rec ttl w').1
  elsewhere :
      {w' w'' : W}
      → Later s held d w w'
      → ((j : String) → held w'' j ≡ held w' j)
      → Later s held d w w''

module _ {W : Type 0} (digest : String → String) (m : Minter W) {held : W → String → Option Record}
    (store : IsDeferredStore m.store held) where
  Later-IsSpent :
      (d : String) {w w' : W} → IsSpent held d w → Later m.store held d w w' → IsSpent held d w'
  Later-IsSpent d spent' now = spent'
  Later-IsSpent d spent' (consumes {w' = w'} l k) =
      let (rec, h, c) = Later-IsSpent d spent' l in
      (
        rec,
        elim (Result-cases (m.store.consume k w').0) [
          | inl (o, e) ↦ ground (arith, h, c, store.held-consume k w' o d e, eq_iff k d)
          | inr (e, bad) ↦ ground (arith, h, store.held-consume_failed k w' e d bad)
        ],
        c,
      )
  Later-IsSpent d spent' (puts {w' = w'} l rec' ttl other) =
      let (rec, h, c) = Later-IsSpent d spent' l in
      (
        rec,
        elim (Result-cases (m.store.put rec' ttl w').0) [
          | inl (u, e) ↦ ground (arith, h, store.held-put rec' ttl w' d, eq_iff rec'.digest d)
          | inr (e, bad) ↦ ground (arith, h, store.held-put_failed rec' ttl w' e d bad)
        ],
        c,
      )
  Later-IsSpent d spent' (elsewhere l same) =
      let (rec, h, c) = Later-IsSpent d spent' l in (rec, same d ∙ h, c)

  -- Over a store that keeps its contract: after one caller's consume found a record that its
  -- exchange honours, and whatever consumes, writes under other digests and other acts came in
  -- between, a later consume of the same nonce that answers finds it spent, and the exchange
  -- refuses it as already redeemed.
  pub one_redemption :
      (nonce : String) {w w' : W} (at at' : Instant) (o o' : Option Record) (rec : Record)
      → (m.store.consume (digest nonce) w).0 ≡ ok o
      → redeem m at o ≡ ok rec
      → Later m.store held (digest nonce) (m.store.consume (digest nonce) w).1 w'
      → (m.store.consume (digest nonce) w').0 ≡ ok o'
      → (rec' : Record) × (o' ≡ some rec')
        × (redeem m at' o'
            ≡ err (
                raise m.problems deferred_token_consumed
                  "the handoff nonce has already been redeemed"
                  (("subject", text rec'.subject) ∷ [])))
  unfolding redeem
  one_redemption nonce {w} {w'} at at' o o' rec eo admitted later eo' =
      let d = digest nonce in
      let was : o ≡ some rec = ground arith in
      let first : IsSpent held d (m.store.consume d w).1 = (
        record rec { consumed = true },
        ground (arith, store.consume-held d w o, store.held-consume d w o d, eq_refl d, was),
        refl,
      ) in
      let (rec', h, c) = Later-IsSpent d first later in
      let is : o' ≡ some rec' = store.consume-held d w' o' eo' ∙ h in
      (rec', is, ground (arith, is, c))
