-- ===== src/Products/Chunks.antt =====
-- A chunk of a batch transfer (product_transfer.rs), and chunks in sequence.
use chain_logistics.Base.{
  ℕ, suc, ◌+◌, ◌-◌, ◌≤◌, ◌≡◌, ◌∙◌, ap, true, false, some, String, List, min, arith, ◌==◌, length,
  slice, slice-min,
}
use chain_logistics.Host.Call.{Address, Ctx, ok, ◌>>=◌, ◌>>◌, Call, pure, ok_or, bind_ok}
use chain_logistics.Host.Errors.{Error}
use chain_logistics.Products.State.{World, in_transfer, set_lock}
use chain_logistics.Products.Transfer.{
  acquire_lock, release_lock, transfer_loop, transfer_rounds, transfer_batch_chunk, BatchProgress,
  checked_add_u32, batch_transfer_products_chunk,
}
use chain_logistics.Products.Moves.{relocked}
use chain_logistics.Products.Ledger.{Ledger, ledger, with_ledger, hand_over_all, moves}
use chain_logistics.Products.Batches.{IsBatchReady, transfer_loop_lem}

-- A chunk that is to do something.
pub record IsChunk (ids : List String) (cursor chunk_size : ℕ) : Type 0 where
  pub small : length ids ≤ 100
  pub some_size : 1 ≤ chunk_size
  pub small_size : chunk_size ≤ 100
  pub inside : suc cursor ≤ length ids

abbrev pub progress_of : Address → Address → List String → ℕ → ℕ → Ledger → BatchProgress
progress_of owner new_owner ids cursor chunk_size l =
    let end = min (cursor + chunk_size) (length ids) in
    record {
      requested = length ids;
      processed = end - cursor;
      succeeded = moves owner new_owner (slice cursor chunk_size ids) l;
      next_cursor = end;
      complete = end == length ids;
    }

abbrev pub relocked_batch : World → World
relocked_batch w = record w { transfer = relocked "batch_transfer" w.transfer }

transfer_rounds_lem :
    (c : Ctx) (m a owner new_owner : Address) (ids : List String) (cursor chunk_size : ℕ)
    (w : World)
    → IsBatchReady c m a owner new_owner w
    → IsChunk ids cursor chunk_size
    → w.transfer.locks "batch_transfer" ≡ false
    → transfer_rounds c m a owner ids new_owner cursor chunk_size w ≡ (
      ok (progress_of owner new_owner ids cursor chunk_size (ledger w)),
      relocked_batch
          (with_ledger (hand_over_all owner new_owner (slice cursor chunk_size ids) (ledger w)) w),
    )
unfolding transfer_rounds
transfer_rounds_lem c m a owner new_owner ids cursor chunk_size w h k free =
    let end = min (cursor + chunk_size) (length ids) in
    let locked : World =
      in_transfer (λ t. record t { locks = set_lock "batch_transfer" true t.locks }) w in
    let h' : IsBatchReady c m a owner new_owner locked = record {
      registry_there = h.registry_there;
      auth_there = h.auth_there;
      agreed = h.agreed;
      signed = h.signed;
      trusted = h.trusted;
      distinct = h.distinct;
    } in
    let slices = slice-min cursor chunk_size ids in
    let loop : transfer_loop c m a owner new_owner ids cursor (end - cursor) 0 locked ≡ (
      ok (moves owner new_owner (slice cursor chunk_size ids) (ledger w)),
      with_ledger (hand_over_all owner new_owner (slice cursor chunk_size ids) (ledger w)) locked,
    ) =
      transfer_loop_lem c m a owner new_owner ids cursor (end - cursor) 0 locked h'
        (omega (arith, k.small))
      ∙ ap
          (λ ps. (
            ok (0 + moves owner new_owner ps (ledger w)),
            with_ledger (hand_over_all owner new_owner ps (ledger w)) locked,
          ))
          slices
      ∙ ap
          (λ n. (
            ok n,
            with_ledger (hand_over_all owner new_owner (slice cursor chunk_size ids) (ledger w))
                locked,
          ))
          (omega arith) in
    let sum : ok_or {S = World} (checked_add_u32 cursor chunk_size) Error.arithmetic_overflow w
        ≡ (ok (cursor + chunk_size), w) =
      ground (arith, k.inside, k.small, k.small_size) in
    let lock : acquire_lock "batch_transfer" w ≡ (ok tt, locked) = ground (arith, free) in
    let finish : ℕ → ℕ → Call World BatchProgress = λ end' n.
      release_lock "batch_transfer"
      >> pure (record {
        requested = length ids;
        processed = end' - cursor;
        succeeded = n;
        next_cursor = end';
        complete = end' == length ids;
      }) in
    let after : ℕ → Call World BatchProgress =
      λ end'. transfer_loop c m a owner new_owner ids cursor (end' - cursor) 0 >>= finish end' in
    bind_ok (ok_or (checked_add_u32 cursor chunk_size) Error.arithmetic_overflow)
      (λ n. acquire_lock "batch_transfer" >> after (min n (length ids))) w w sum
    ∙ bind_ok (acquire_lock "batch_transfer") (λ _. after end) w locked lock
    ∙ bind_ok (transfer_loop c m a owner new_owner ids cursor (end - cursor) 0) (finish end) locked
        (with_ledger (hand_over_all owner new_owner (slice cursor chunk_size ids) (ledger w))
          locked)
        loop

abbrev pub after_chunk : Address → Address → List String → ℕ → ℕ → World → World
after_chunk owner new_owner ids cursor chunk_size w =
    relocked_batch
      (with_ledger (hand_over_all owner new_owner (slice cursor chunk_size ids) (ledger w)) w)

-- Both addresses take part, the contracts are set up, and no batch is under way.
pub record IsBatchOpen (c : Ctx) (owner new_owner m a : Address) (w : World) : Type 0 where
  pub ready : IsBatchReady c m a owner new_owner w
  pub accepted : c.authorized new_owner ≡ true
  pub main : w.transfer.main_contract ≡ some m
  pub auth : w.transfer.auth_contract ≡ some a
  pub free : w.transfer.locks "batch_transfer" ≡ false

-- A chunk of one to a hundred products is handled whole: it hands over those of its slice that are
-- active and the owner's, skips the others, and says how far it has come.
pub chunk_lem :
    (c : Ctx) (m a owner new_owner : Address) (ids : List String) (cursor chunk_size : ℕ)
    (w : World)
    → IsBatchOpen c owner new_owner m a w
    → IsChunk ids cursor chunk_size
    → batch_transfer_products_chunk c owner ids new_owner cursor chunk_size w ≡ (
      ok (progress_of owner new_owner ids cursor chunk_size (ledger w)),
      after_chunk owner new_owner ids cursor chunk_size w,
    )
unfolding batch_transfer_products_chunk transfer_batch_chunk
chunk_lem c m a owner new_owner ids cursor chunk_size w h k =
    let rounds =
      transfer_rounds_lem c m a owner new_owner ids cursor chunk_size w h.ready k h.free in
    ground (
      arith, rounds, h.ready.signed, h.ready.distinct, h.accepted, h.main, h.auth, k.small,
      k.some_size, k.small_size, k.inside,
    )
