-- ===== src/Memory.antt =====
-- testhelper/store.go: the in-memory stores, each the map it guards with its mutex and the errors
-- that its next operations fail with.
pub mod Laws
use diene_go_auth_engine.Prelude.{
  String, Option, none, some, List, [], ◌∷◌, ◌++◌, Bool, true, map, arith,
}
use diene_go_auth_engine.Token.{AccessToken}
use diene_go_auth_engine.Value.{Assoc, insert, lookup, remove}
use diene_go_auth_engine.Time.{Duration}
use diene_go_auth_engine.Effect.{Eff}
use diene_go_auth_engine.Problems.{Error, err, ok}
use diene_go_auth_engine.Deferred.{Record, Store}
use diene_go_auth_engine.Rotation.{RefreshRecord, RefreshStore}
use diene_go_auth_engine.Cache.{TokenStore, token}
use diene_go_auth_engine.Strings.{sort}

pub record MemoryTokenStore : Type 0 where
  pub entries : Assoc AccessToken
  pub errors : List Error

pub record MemoryRefreshStore : Type 0 where
  pub records : Assoc RefreshRecord
  pub errors : List Error

pub record MemoryDeferredStore : Type 0 where
  pub records : Assoc Record
  pub errors : List Error

-- `shift`: the first error that is queued, and the others
unfoldable pub shift : List Error → Option Error × List Error
shift [] = (none, [])
shift (e ∷ es) = (some e, es)

-- NewMemoryTokenStore
abbrev pub new_memory_token_store : MemoryTokenStore
new_memory_token_store = record { entries = []; errors = [] }

-- NewMemoryRefreshStore
abbrev pub new_memory_refresh_store : MemoryRefreshStore
new_memory_refresh_store = record { records = []; errors = [] }

-- NewMemoryDeferredStore
abbrev pub new_memory_deferred_store : MemoryDeferredStore
new_memory_deferred_store = record { records = []; errors = [] }

-- MemoryTokenStore.EnqueueError
unfoldable pub enqueue_token_error : Error → MemoryTokenStore → MemoryTokenStore
enqueue_token_error e s = record s { errors = s.errors ++ (e ∷ []) }

-- MemoryRefreshStore.EnqueueError
unfoldable pub enqueue_refresh_error : Error → MemoryRefreshStore → MemoryRefreshStore
enqueue_refresh_error e s = record s { errors = s.errors ++ (e ∷ []) }

-- MemoryDeferredStore.EnqueueError
unfoldable pub enqueue_deferred_error : Error → MemoryDeferredStore → MemoryDeferredStore
enqueue_deferred_error e s = record s { errors = s.errors ++ (e ∷ []) }

-- `sortedKeys`
unfoldable pub sorted_keys : {V : Type 0} → Assoc V → List String
sorted_keys entries = sort (map (λ entry. entry.0) entries)

-- MemoryTokenStore.Keys
unfoldable pub token_keys : MemoryTokenStore → List String
unfolding sorted_keys
token_keys s = sorted_keys s.entries

-- MemoryDeferredStore.Digests
unfoldable pub digests : MemoryDeferredStore → List String
unfolding sorted_keys
digests s = sorted_keys s.records

-- MemoryTokenStore.Get
unfoldable pub memory_get : String → Eff MemoryTokenStore (Option AccessToken)
unfolding shift lookup
memory_get key s =
    let (e, es) = shift s.errors in
    elim e [
      | some failure ↦ (err failure, record s { errors = es })
      | none ↦ (ok (lookup key s.entries), s)
    ]

-- MemoryTokenStore.Set, which does not read its time to live
unfoldable pub memory_set : String → AccessToken → Duration → Eff MemoryTokenStore (Unit {0})
unfolding shift insert
memory_set key token d s =
    let (e, es) = shift s.errors in
    elim e [
      | some failure ↦ (err failure, record s { errors = es })
      | none ↦ (ok tt, record s { entries = insert key token s.entries })
    ]

-- MemoryTokenStore.Delete
unfoldable pub memory_delete : String → Eff MemoryTokenStore (Unit {0})
unfolding shift remove
memory_delete key s =
    let (e, es) = shift s.errors in
    elim e [
      | some failure ↦ (err failure, record s { errors = es })
      | none ↦ (ok tt, record s { entries = remove key s.entries })
    ]

-- MemoryRefreshStore.Read
unfoldable pub memory_read : String → Eff MemoryRefreshStore (Option RefreshRecord)
unfolding shift lookup
memory_read fingerprint s =
    let (e, es) = shift s.errors in
    elim e [
      | some failure ↦ (err failure, record s { errors = es })
      | none ↦ (ok (lookup fingerprint s.records), s)
    ]

-- MemoryRefreshStore.Write
unfoldable pub memory_write : RefreshRecord → Duration → Eff MemoryRefreshStore (Unit {0})
unfolding shift insert
memory_write rec d s =
    let (e, es) = shift s.errors in
    elim e [
      | some failure ↦ (err failure, record s { errors = es })
      | none ↦ (ok tt, record s { records = insert rec.fingerprint rec s.records })
    ]

-- MemoryDeferredStore.Put
unfoldable pub memory_put : Record → Duration → Eff MemoryDeferredStore (Unit {0})
unfolding shift insert
memory_put rec d s =
    let (e, es) = shift s.errors in
    elim e [
      | some failure ↦ (err failure, record s { errors = es })
      | none ↦ (ok tt, record s { records = insert rec.digest rec s.records })
    ]

-- MemoryDeferredStore.Consume, one step under the mutex
unfoldable pub memory_consume : String → Eff MemoryDeferredStore (Option Record)
unfolding shift lookup insert
memory_consume digest s =
    let (e, es) = shift s.errors in
    elim e [
      | some failure ↦ (err failure, record s { errors = es })
      | none ↦ elim (lookup digest s.records) [
        | none ↦ (ok none, s)
        | some rec ↦ (
          ok (some rec),
          record s { records = insert digest (record rec { consumed = true }) s.records },
        )
      ]
    ]

-- The stores behind their seams
abbrev pub memory_tokens : TokenStore MemoryTokenStore
memory_tokens = record { get = memory_get; set = memory_set; delete = memory_delete }

abbrev pub memory_refreshes : RefreshStore MemoryRefreshStore
memory_refreshes = record { read = memory_read; write = memory_write }

abbrev pub memory_handoffs : Store MemoryDeferredStore
memory_handoffs = record { put = memory_put; consume = memory_consume }
