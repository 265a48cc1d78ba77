-- ===== src/Rotation/History.antt =====
-- Any history of Rotate and Issue (lib/authengine/rotation.go): a spent refresh token stays spent.
use diene_go_auth_engine.Rotation.Records.{IsFiled, IsRefreshStore}
use diene_go_auth_engine.Prelude.{
  List, [], ◌∷◌, Option, String, arith, true, inl, inr, some, ◌≡◌, ◌≢◌, eq_iff, ◌∙◌, refl,
}
use diene_go_auth_engine.Rotation.{
  RefreshRecord, Rotator, check, exchange, issue, rotate, with_subject,
}
use diene_go_auth_engine.Effect.{Result-cases, Spares}
use diene_go_auth_engine.Token.{Session}
use diene_go_auth_engine.Problems.{ok}
use diene_go_auth_engine.Time.{sub}
use diene_go_auth_engine.Rotation.Kept.{
  token-with_subject, spared-IsFiled, issue-kept, issue-IsFiled, exchange-kept, exchange-IsFiled,
  Fresh,
}
use diene_go_auth_engine.Rotation.Rotate.{check-Spares, check-held}
use diene_go_auth_engine.Rotation.Reuse.{rotate_records}
use diene_go_auth_engine.Deferred.Records.{spent}
use diene_go_auth_engine.Landscape.Nearest.{answered}

-- What happens to the store: a token is presented, or a session of a new login is issued.
pub data Use : Type 0 where
  presents : String → Use
  issues : Session → Use

module _ {W : Type 0} (digest : String → String) (r : Rotator W) where
  -- The world after a history of uses, whatever each of them answers
  pub after_uses : List Use → W → W
  unfolding rotate issue
  after_uses [] w = w
  after_uses (presents t ∷ uses) w = after_uses uses (rotate digest r t w).1
  after_uses (issues session ∷ uses) w = after_uses uses (issue digest r session w).1

-- No session that a history issues has a refresh token of the digest.
abbrev pub Avoids : (String → String) → String → List Use → Type 0
Avoids digest k [] = Unit {0}
Avoids digest k (presents t ∷ uses) = Avoids digest k uses
Avoids digest k (issues session ∷ uses) = (digest session.refresh_token ≢ k) × Avoids digest k uses

module _ {W : Type 0} (digest : String → String) (r : Rotator W)
    {held : W → String → Option RefreshRecord} (store : IsRefreshStore r.store held)
    (clock_spares : Spares held r.clock.now_utc)
    (refresh_spares : (t : String) → Spares held (r.provider.refresh t)) where
  -- The record under the digest is consumed.
  abbrev Spent : String → W → Type 0
  Spent k w = (rec : RefreshRecord) × (held w k ≡ some rec) × (rec.consumed ≡ true)

  Spent-refused :
      (t : String) (w : W) (session : Session)
      → Spent (digest t) w
      → (rotate digest r t w).0 ≢ ok session
  unfolding rotate
  Spent-refused t w session (rec, h, used) done = elim (Result-cases (check digest r t w).0) [
    | inr (e, q) ↦ absurd (ground arith)
    | inl ((now, rec'), q) ↦
        absurd
          (ground (arith, check-held digest r store clock_spares refresh_spares t w now rec' q))
  ]

  rotate-IsFiled : (t : String) (w : W) → IsFiled held w → IsFiled held (rotate digest r t w).1
  unfolding rotate
  rotate-IsFiled t w filed =
      let w' = (check digest r t w).1 in
      let kept =
        spared-IsFiled digest r store clock_spares refresh_spares (check digest r t) w
          (check-Spares digest r store clock_spares refresh_spares t) filed in
      elim (Result-cases (check digest r t w).0) [
        | inr (e, q) ↦ (let is : (rotate digest r t w).1 ≡ w' = ground arith in rw is kept)
        | inl ((now, rec), q) ↦
            (let is : (rotate digest r t w).1 ≡ (exchange digest r t (now, rec) w').1 =
                ground arith in
              rw is (exchange-IsFiled digest r store clock_spares refresh_spares t now rec w' kept))
      ]

  -- The session that Rotate returns carries a refresh token that the provider answered.
  rotate-answer :
      (t : String) (w : W) (session : Session)
      → (rotate digest r t w).0 ≡ ok session
      → (w' : W) × (answer : Session) × ((r.provider.refresh t w').0 ≡ ok answer)
        × (session.refresh_token ≡ answer.refresh_token)
  unfolding rotate exchange
  rotate-answer t w session h = elim (Result-cases (check digest r t w).0) [
    | inr (e, q) ↦ absurd (ground arith)
    | inl ((now, rec), q) ↦
        let w' = (check digest r t w).1 in
        elim (Result-cases (r.provider.refresh t w').0) [
          | inr (e, q') ↦ absurd (ground arith)
          | inl (answer, q') ↦
              let used = record rec { consumed = true } in
              let w1 = (r.provider.refresh t w').1 in
              let w2 = (r.store.write used (sub rec.expires_at now) w1).1 in
              elim (Result-cases (r.store.write used (sub rec.expires_at now) w1).0) [
                | inr (e, q'') ↦ absurd (ground arith)
                | inl (u, q'') ↦
                    elim (Result-cases (issue digest r (with_subject answer rec) w2).0) [
                      | inr (e, qi) ↦ absurd (ground arith)
                      | inl (u', qi) ↦
                          (w', answer, q', ground (arith, token-with_subject answer rec))
                    ]
              ]
        ]
  ]

  rotate-keeps :
      (t : String) (w : W) (k : String)
      → Fresh digest r store clock_spares refresh_spares k
      → IsFiled held w
      → Spent k w
      → held (rotate digest r t w).1 k ≡ held w k
  unfolding rotate
  rotate-keeps t w k fresh filed (rec, h, used) =
      let w' = (check digest r t w).1 in
      let same = check-Spares digest r store clock_spares refresh_spares t w k in
      elim (Result-cases (check digest r t w).0) [
        | inr (e, q) ↦ ground (arith, same)
        | inl ((now, rec'), q) ↦
            let (was, free, named) =
              check-held digest r store clock_spares refresh_spares t w now rec' q in
            let other : rec'.fingerprint ≢ k =
              (λ e. absurd (ground (arith, filed (digest t) rec' was))) in
            ground (
              arith,
              same,
              exchange-kept digest r store clock_spares refresh_spares t now rec' w' k fresh other,
            )
      ]

  rotate-Spent :
      (t : String) (w : W) (session : Session)
      → Fresh digest r store clock_spares refresh_spares (digest t)
      → IsFiled held w
      → (rotate digest r t w).0 ≡ ok session
      → Spent (digest t) (rotate digest r t w).1
  rotate-Spent t w session fresh filed done =
      let (rec, new, named, was, free, unused, owner, kept) =
        rotate_records digest r store clock_spares refresh_spares t w session filed done in
      let (w', answer, answered, same) = rotate-answer t w session done in
      (
        record rec { consumed = true },
        ground (
          arith,
          kept (digest t),
          same,
          fresh t w' answer answered,
          eq_iff (digest session.refresh_token) (digest t),
          eq_iff (digest t) (digest t),
        ),
        refl,
      )

  uses-Spent :
      (uses : List Use) (w : W) (k : String)
      → Fresh digest r store clock_spares refresh_spares k
      → Avoids digest k uses
      → IsFiled held w
      → Spent k w
      → Spent k (after_uses digest r uses w)
  unfolding after_uses
  uses-Spent [] w k fresh avoids filed spent = spent
  uses-Spent (presents t ∷ uses) w k fresh avoids filed (rec, h, used) =
      let same = rotate-keeps t w k fresh filed (rec, h, used) in
      uses-Spent uses (rotate digest r t w).1 k fresh avoids (rotate-IsFiled t w filed)
        (rec, same ∙ h, used)
  uses-Spent (issues session ∷ uses) w k fresh avoids filed (rec, h, used) =
      uses-Spent uses (issue digest r session w).1 k fresh avoids.1
        (issue-IsFiled digest r store clock_spares refresh_spares session w filed)
        (rec, issue-kept digest r store clock_spares refresh_spares session w k avoids.0 ∙ h, used)

  -- Over a store that keeps its contract and files every record under its own fingerprint, with a
  -- clock and a provider that leave the store alone: a refresh token is rotated at most once in any
  -- history. After a successful rotation, whatever tokens are presented and whatever sessions are
  -- issued in between, with or without success, as long as neither the provider nor a new session
  -- brings back a token of the presented one's digest, no later presentation of it succeeds.
  pub spent_stays_refused :
      (t : String) (w : W) (session again : Session) (uses : List Use)
      → ((s : String) (w' : W) (answer : Session)
          → (r.provider.refresh s w').0 ≡ ok answer
          → digest answer.refresh_token ≢ digest t)
      → Avoids digest (digest t) uses
      → IsFiled held w
      → (rotate digest r t w).0 ≡ ok session
      → (rotate digest r t (after_uses digest r uses (rotate digest r t w).1)).0 ≢ ok again
  spent_stays_refused t w session again uses fresh avoids filed done =
      Spent-refused t (after_uses digest r uses (rotate digest r t w).1) again (
        uses-Spent uses (rotate digest r t w).1 (digest t) fresh avoids (rotate-IsFiled t w filed)
          (rotate-Spent t w session fresh filed done))
