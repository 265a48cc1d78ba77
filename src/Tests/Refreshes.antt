-- ===== src/Tests/Refreshes.antt =====
-- A refresh token over the memory store: rotated, and presented again, after the rotation or while
-- it runs.
use diene_go_auth_engine.Prelude.{
  String, none, some, [], ◌∷◌, true, false, ◌≡◌, ◌≢◌, ◌⊎◌, refl, arith, if◌then◌else◌, ◌==◌, eq_iff,
  false≢true, List,
}
use diene_go_auth_engine.Rotation.Records.{IsFiled}
use diene_go_auth_engine.Memory.{MemoryRefreshStore, memory_read, memory_refreshes, memory_write}
use diene_go_auth_engine.Rotation.{
  RefreshRecord, Rotator, admit, check, exchange, fingerprint_of, issue, issued_record, rotate,
  rotator_now, with_subject,
}
use diene_go_auth_engine.Effect.{Spares}
use diene_go_auth_engine.Rotation.Refusals.{after_read, rotate_decides}
use diene_go_auth_engine.Time.{before}
use diene_go_auth_engine.Problems.{
  err, ok, raise, refresh_token_reused, refresh_token_unknown, token_expired,
}
use diene_go_auth_engine.Memory.Laws.{held_records, memory_refreshes-IsRefreshStore}
use diene_go_auth_engine.Value.{lookup, text}
use diene_go_auth_engine.Prelude.Int.{pos, ◌<ℤ◌, ◌≤ℤ◌}
use diene_go_auth_engine.Tests.Fixtures.{problems, provider, session, still}
use diene_go_auth_engine.Rotation.Race.{race_admits_both}
use diene_go_auth_engine.Token.{refresh_token_lifetime, Session}
use diene_go_auth_engine.Rotation.Reuse.{reuse_is_refused, rotate_records}
use diene_go_auth_engine.Rotation.Unrotated.{unrotated_is_readmitted}
use diene_go_auth_engine.Rotation.History.{Use, after_uses, issues, presents, spent_stays_refused}

abbrev digest : String → String
digest refresh_token = refresh_token

abbrev rotator : Rotator MemoryRefreshStore
rotator = record {
  provider = provider;
  store = memory_refreshes;
  problems = problems;
  clock = still;
  lifetime = refresh_token_lifetime;
}

abbrev issued : RefreshRecord
issued = record {
  subject = "alice";
  fingerprint = "rt-1";
  issued_at = pos 0;
  expires_at = pos 9000;
  consumed = false;
}

abbrev start : MemoryRefreshStore
start = record { records = ("rt-1", issued) ∷ []; errors = [] }

clock-Spares : Spares held_records rotator.clock.now_utc
clock-Spares w j = refl

refresh-Spares : (t : String) → Spares held_records (rotator.provider.refresh t)
refresh-Spares t w j = refl

start-IsFiled : IsFiled held_records start
unfolding lookup
start-IsFiled j rec h = ground (arith, eq_iff "rt-1" j)

start-rotates : (rotate digest rotator "rt-1" start).0 ≡ ok session
unfolding rotate check rotator_now fingerprint_of memory_read lookup admit before exchange
    memory_write with_subject issue issued_record
start-rotates = refl

blank : issued.fingerprint ≢ ""
blank h = cc

other : session.refresh_token ≢ issued.fingerprint
other h = false≢true ((eq_iff "rt-2" "rt-1").1 h)

rotate_decides_example :
    ((some issued ≡ none)
      × (rotate digest rotator "rt-1" start ≡ (
        err (
            raise problems refresh_token_unknown "the presented refresh token was never issued here"
              []),
        after_read digest rotator "rt-1" start,
      )))
    ⊎ ((rec : RefreshRecord) × (some issued ≡ some rec)
        × (rec.consumed ≡ true)
        × (rotate digest rotator "rt-1" start ≡ (
          err (
              raise problems refresh_token_reused
                "the presented refresh token has already been rotated away"
                (("subject", text rec.subject) ∷ [])),
          after_read digest rotator "rt-1" start,
        )))
    ⊎ ((rec : RefreshRecord) × (some issued ≡ some rec)
        × (rec.consumed ≡ false)
        × (rec.expires_at ≤ℤ pos 1000)
        × (rotate digest rotator "rt-1" start ≡ (
          err (
              raise problems token_expired "the presented refresh token has expired"
                (("subject", text rec.subject) ∷ [])),
          after_read digest rotator "rt-1" start,
        )))
    ⊎ ((rec : RefreshRecord) × (some issued ≡ some rec)
        × (rec.consumed ≡ false)
        × (pos 1000 <ℤ rec.expires_at)
        × (rotate digest rotator "rt-1" start
            ≡ exchange digest rotator "rt-1"
                (pos 1000, rec)
                (after_read digest rotator "rt-1" start)))
unfolding memory_read lookup
rotate_decides_example =
    rotate_decides digest rotator "rt-1" start (pos 1000) (some issued) blank refl refl

rotate_records_example :
    (rec : RefreshRecord) × (new : RefreshRecord) × (issued.fingerprint ≢ "")
    × (held_records start "rt-1" ≡ some rec)
    × (rec.consumed ≡ false)
    × (new.consumed ≡ false)
    × (new.subject ≡ session.subject)
    × ((j : String)
        → held_records (rotate digest rotator "rt-1" start).1 j ≡ (
            if session.refresh_token == j
            then some new
            else if "rt-1" == j
            then some (record rec { consumed = true })
            else held_records start j))
rotate_records_example =
    rotate_records digest rotator memory_refreshes-IsRefreshStore clock-Spares refresh-Spares "rt-1"
      start session start-IsFiled start-rotates

reuse_is_refused_example :
    (rec : RefreshRecord) × (held_records start "rt-1" ≡ some rec)
    × (rotate digest rotator "rt-1" (rotate digest rotator "rt-1" start).1 ≡ (
      err (
          raise problems refresh_token_reused
            "the presented refresh token has already been rotated away"
            (("subject", text rec.subject) ∷ [])),
      after_read digest rotator "rt-1" (rotate digest rotator "rt-1" start).1,
    ))
unfolding rotate check rotator_now fingerprint_of memory_read lookup admit before exchange
    memory_write with_subject issue issued_record
reuse_is_refused_example =
    reuse_is_refused digest rotator memory_refreshes-IsRefreshStore clock-Spares refresh-Spares
      "rt-1" start session start-IsFiled start-rotates (pos 1000)
      (some (record issued { consumed = true })) other refl refl

race_admits_both_example :
    (check digest rotator "rt-1" (check digest rotator "rt-1" start).1 ≡ (
      ok (pos 1000, issued),
      after_read digest rotator "rt-1" (check digest rotator "rt-1" start).1,
    ))
    × (rotate digest rotator "rt-1" start
        ≡ exchange digest rotator "rt-1" (pos 1000, issued) (check digest rotator "rt-1" start).1)
    × (rotate digest rotator "rt-1" (check digest rotator "rt-1" start).1
        ≡ exchange digest rotator "rt-1"
            (pos 1000, issued)
            (after_read digest rotator "rt-1" (check digest rotator "rt-1" start).1))
unfolding check rotator_now fingerprint_of memory_read lookup admit before
race_admits_both_example =
    race_admits_both digest rotator memory_refreshes-IsRefreshStore clock-Spares refresh-Spares
      "rt-1" start (pos 1000) (pos 1000) issued (some issued) refl refl refl (omega arith)

-- A provider that does not rotate
abbrev same_session : Session
same_session = record session { refresh_token = "rt-1" }

abbrev keeper : Rotator MemoryRefreshStore
keeper = record rotator {
  provider = record (rotator.provider) { refresh = λ refresh_token w. (ok same_session, w) };
}

keeper-Spares : (t : String) → Spares held_records (keeper.provider.refresh t)
keeper-Spares t w j = refl

start-kept : (rotate digest keeper "rt-1" start).0 ≡ ok same_session
unfolding rotate check rotator_now fingerprint_of memory_read lookup admit before exchange
    memory_write with_subject issue issued_record
start-kept = refl

-- The store after the rotation
abbrev later : MemoryRefreshStore
later = (rotate digest keeper "rt-1" start).1

unrotated_is_readmitted_example :
    (new : RefreshRecord) × (held_records later "rt-1" ≡ some new)
    × (new.consumed ≡ false)
    × ((new.expires_at ≤ℤ pos 1000)
          × (rotate digest keeper "rt-1" later ≡ (
            err (
                raise problems token_expired "the presented refresh token has expired"
                  (("subject", text new.subject) ∷ [])),
            after_read digest keeper "rt-1" later,
          ))
        ⊎ (pos 1000 <ℤ new.expires_at)
          × (rotate digest keeper "rt-1" later
              ≡ exchange digest keeper "rt-1"
                  (pos 1000, new)
                  (after_read digest keeper "rt-1" later)))
unfolding rotate check rotator_now fingerprint_of memory_read lookup admit before exchange
    memory_write with_subject issue issued_record
unrotated_is_readmitted_example =
    unrotated_is_readmitted digest keeper memory_refreshes-IsRefreshStore clock-Spares keeper-Spares
      "rt-1" start same_session start-IsFiled start-kept (pos 1000) (held_records later "rt-1") refl
      refl refl

abbrev history : List Use
history = presents "rt-2" ∷ presents "rt-1" ∷ issues session ∷ []

never_back :
    (s : String) (w' : MemoryRefreshStore) (answer : Session)
    → (rotator.provider.refresh s w').0 ≡ ok answer
    → answer.refresh_token ≢ "rt-1"
never_back s w' answer h e = other (ground (arith, h, e))

spent_stays_refused_example :
    (rotate digest rotator "rt-1"
      (after_uses digest rotator history (rotate digest rotator "rt-1" start).1)).0
    ≢ ok session
spent_stays_refused_example =
    spent_stays_refused digest rotator memory_refreshes-IsRefreshStore clock-Spares refresh-Spares
      "rt-1" start session session history never_back (other, tt) start-IsFiled start-rotates
