-- ===== src/Memory/Laws.antt =====
-- The in-memory stores of testhelper/store.go keep the contracts of the three store seams.
use diene_go_auth_engine.Prelude.{
  String, Option, arith, List, [], ◌∷◌, ◌≡◌, ◌⊎◌, inl, inr, refl, eq_iff, true, Option-cases,
}
use diene_go_auth_engine.Token.{AccessToken}
use diene_go_auth_engine.Problems.{Error}
use diene_go_auth_engine.Deferred.Records.{IsDeferredStore}
use diene_go_auth_engine.Rotation.Records.{IsRefreshStore}
use diene_go_auth_engine.Cache.Contents.{IsStore}
use diene_go_auth_engine.Memory.{
  MemoryDeferredStore, MemoryRefreshStore, MemoryTokenStore, memory_consume, memory_delete,
  memory_get, memory_handoffs, memory_put, memory_read, memory_refreshes, memory_set, memory_tokens,
  memory_write, shift,
}
use diene_go_auth_engine.Deferred.{Record}
use diene_go_auth_engine.Rotation.{RefreshRecord}
use diene_go_auth_engine.Value.{lookup, lookup-insert, lookup-remove}

abbrev pub held_tokens : MemoryTokenStore → String → Option AccessToken
held_tokens s k = lookup k s.entries

abbrev pub held_records : MemoryRefreshStore → String → Option RefreshRecord
held_records s k = lookup k s.records

abbrev pub held_handoffs : MemoryDeferredStore → String → Option Record
held_handoffs s k = lookup k s.records

pub queued : (es : List Error) → (es ≡ []) ⊎ ((e : Error) × (rest : List Error) × (es ≡ e ∷ rest))
queued [] = inl refl
queued (e ∷ es) = inr (e, es, refl)

-- Get, Set and Delete of the memory store keep the contract that the cache relies on, whatever
-- errors are queued.
pub memory_tokens-IsStore : IsStore memory_tokens held_tokens
unfolding memory_get memory_set memory_delete shift
memory_tokens-IsStore = record {
  get-held =
      λ k w o h. elim (queued w.errors) [ inl q ↦ ground arith | inr (x, es, q) ↦ ground arith ];
  held-get =
      λ k w j. elim (queued w.errors) [ inl q ↦ ground arith | inr (x, es, q) ↦ ground arith ];
  held-set = λ k t d w j h. elim (queued w.errors) [
    | inl q ↦ ground (arith, lookup-insert k j t w.entries)
    | inr (x, es, q) ↦ ground arith
  ];
  held-set_failed = λ k t d w j e h. elim (queued w.errors) [
    | inl q ↦ ground arith
    | inr (x, es, q) ↦ ground arith
  ];
  held-delete = λ k w j h. elim (queued w.errors) [
    | inl q ↦ ground (arith, lookup-remove k j w.entries)
    | inr (x, es, q) ↦ ground arith
  ];
  held-delete_failed =
      λ k w j e h. elim (queued w.errors) [ inl q ↦ ground arith | inr (x, es, q) ↦ ground arith ];
}

-- Read and Write of the memory store keep the contract that the rotator relies on.
pub memory_refreshes-IsRefreshStore : IsRefreshStore memory_refreshes held_records
unfolding memory_read memory_write shift
memory_refreshes-IsRefreshStore = record {
  read-held =
      λ k w o h. elim (queued w.errors) [ inl q ↦ ground arith | inr (x, es, q) ↦ ground arith ];
  held-read =
      λ k w j. elim (queued w.errors) [ inl q ↦ ground arith | inr (x, es, q) ↦ ground arith ];
  held-write = λ rec d w j h. elim (queued w.errors) [
    | inl q ↦ ground (arith, lookup-insert rec.fingerprint j rec w.records)
    | inr (x, es, q) ↦ ground arith
  ];
  held-write_failed = λ rec d w j e h. elim (queued w.errors) [
    | inl q ↦ ground arith
    | inr (x, es, q) ↦ ground arith
  ];
}

-- Put and Consume of the memory store keep the contract that the minter relies on: a nonce is read
-- and spent in one step.
pub memory_handoffs-IsDeferredStore : IsDeferredStore memory_handoffs held_handoffs
unfolding memory_put memory_consume shift
memory_handoffs-IsDeferredStore = record {
  consume-held =
      λ k w o h. elim (queued w.errors) [ inl q ↦ ground arith | inr (x, es, q) ↦ ground arith ];
  held-consume = λ k w o j h. elim (queued w.errors) [
    | inl q ↦ elim (Option-cases (lookup k w.records)) [
      | inl m ↦ ground (arith, eq_iff k j)
      | inr (rec, m) ↦ ground (arith, lookup-insert k j (record rec { consumed = true }) w.records)
    ]
    | inr (x, es, q) ↦ ground arith
  ];
  held-consume_failed =
      λ k w e j h. elim (queued w.errors) [ inl q ↦ ground arith | inr (x, es, q) ↦ ground arith ];
  held-put = λ rec d w j h. elim (queued w.errors) [
    | inl q ↦ ground (arith, lookup-insert rec.digest j rec w.records)
    | inr (x, es, q) ↦ ground arith
  ];
  held-put_failed = λ rec d w e j h. elim (queued w.errors) [
    | inl q ↦ ground arith
    | inr (x, es, q) ↦ ground arith
  ];
}
