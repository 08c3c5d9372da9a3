-- ===== src/Products/Completion.antt =====
-- A batch (product_transfer.rs) that is done in chunks, each from where the last has stopped.
use chain_logistics.Base.{
  ℕ, zero, suc, ◌&&◌, ◌+◌, ◌*◌, ◌≤◌, ◌≡◌, ◌↔◌, refl, ◌∙◌, sym, ap, inl, inr, true, Option, none,
  some, String, List, [], ◌∷◌, min, arith, ◌==◌, length, slice, drop, drop_all, slice-drop,
  Bool-cases, if◌then◌else◌,
}
use native.Mathlib.Nat.{suc-mul, zero-mul}
use chain_logistics.Host.Call.{Address, Ctx, ok, err, trap, if_true, if_false}
use chain_logistics.Products.State.{World, has_string}
use chain_logistics.Products.Transfer.{
  batch_transfer_products_chunk, is_movable, estimate_batch, max_batch_size, recommended_chunk_size,
}
use chain_logistics.Products.Ownership.{Agree}
use chain_logistics.Products.Ledger.{
  Ledger, ledger, hand_over, hand_over_all, moves, hand_over-Agree, hand_over_all-++, moves-++,
  given_to, hand_over_all-product,
}
use chain_logistics.Products.Chunks.{IsChunk, IsBatchOpen, progress_of, after_chunk, chunk_lem}

-- What a caller has in the end: nothing if a chunk fails or `rounds` chunks are not enough.
unfoldable pub run_chunks :
    Ctx → Address → List String → Address → ℕ → ℕ → ℕ → World → Option (ℕ × World)
run_chunks c owner ids new_owner chunk_size zero cursor w = none
run_chunks c owner ids new_owner chunk_size (suc rounds) cursor w =
    let (r, w') = batch_transfer_products_chunk c owner ids new_owner cursor chunk_size w in
    elim r [
      | ok progress ↦
          let rest = run_chunks c owner ids new_owner chunk_size rounds progress.next_cursor w' in
          if progress.complete
          then some (progress.succeeded, w')
          else elim rest [ none ↦ none | some (n, w'') ↦ some (progress.succeeded + n, w'') ]
      | err e ↦ none
      | trap ↦ none
    ]

hand_over_all-Agree :
    (owner new_owner : Address) (ps : List String) (l : Ledger)
    → Agree l.product l.owner
    → Agree (hand_over_all owner new_owner ps l).product (hand_over_all owner new_owner ps l).owner
unfolding hand_over_all
hand_over_all-Agree owner new_owner [] l h = h
hand_over_all-Agree owner new_owner (p ∷ ps) l h =
    hand_over_all-Agree owner new_owner ps (hand_over owner new_owner p l)
      (hand_over-Agree owner new_owner p l h)

after_chunk-IsBatchOpen :
    (c : Ctx) (m a owner new_owner : Address) (ids : List String) (cursor chunk_size : ℕ)
    (w : World)
    → IsBatchOpen c owner new_owner m a w
    → IsBatchOpen c owner new_owner m a (after_chunk owner new_owner ids cursor chunk_size w)
after_chunk-IsBatchOpen c m a owner new_owner ids cursor chunk_size w h = record {
  ready = record {
    registry_there = h.ready.registry_there;
    auth_there = h.ready.auth_there;
    agreed =
        hand_over_all-Agree owner new_owner (slice cursor chunk_size ids) (ledger w) h.ready.agreed;
    signed = h.ready.signed;
    trusted = h.ready.trusted;
    distinct = h.ready.distinct;
  };
  accepted = h.accepted;
  main = h.main;
  auth = h.auth;
  free = refl;
}

-- The batch from `cursor` on has been done.
abbrev pub IsDone : Address → Address → List String → World → Option (ℕ × World) → Type 0
IsDone owner new_owner ids w result =
    (w' : World) × (result ≡ some (moves owner new_owner ids (ledger w), w'))
    × (ledger w' ≡ hand_over_all owner new_owner ids (ledger w))

run_chunks_step :
    (c : Ctx) (m a owner new_owner : Address) (ids : List String) (k rounds cursor : ℕ) (w : World)
    → IsBatchOpen c owner new_owner m a w
    → IsChunk ids cursor k
    → run_chunks c owner ids new_owner k (suc rounds) cursor w ≡ (
        let progress = progress_of owner new_owner ids cursor k (ledger w) in
        let w' = after_chunk owner new_owner ids cursor k w in
        let rest = run_chunks c owner ids new_owner k rounds progress.next_cursor w' in
        if progress.complete
        then some (progress.succeeded, w')
        else elim rest [ none ↦ none | some (n, w'') ↦ some (progress.succeeded + n, w'') ])
unfolding run_chunks
run_chunks_step c m a owner new_owner ids k rounds cursor w h i =
    ground (arith, chunk_lem c m a owner new_owner ids cursor k w h i)

-- A chunk and what comes after it.
module _ (owner new_owner : Address) (ids : List String) (cursor k : ℕ) (w : World) where
  abbrev next : ℕ
  next = min (cursor + k) (length ids)

  abbrev chunk : List String
  chunk = slice cursor k ids

  moves_split :
      moves owner new_owner chunk (ledger w)
        + moves owner new_owner
            (drop next ids)
            (ledger (after_chunk owner new_owner ids cursor k w))
      ≡ moves owner new_owner (drop cursor ids) (ledger w)
  moves_split =
      sym (moves-++ owner new_owner chunk (drop next ids) (ledger w))
      ∙ ap (λ q. moves owner new_owner q (ledger w)) (slice-drop cursor k ids)

  hand_over_split :
      hand_over_all owner new_owner
        (drop next ids)
        (ledger (after_chunk owner new_owner ids cursor k w))
      ≡ hand_over_all owner new_owner (drop cursor ids) (ledger w)
  hand_over_split =
      sym (hand_over_all-++ owner new_owner chunk (drop next ids) (ledger w))
      ∙ ap (λ q. hand_over_all owner new_owner q (ledger w)) (slice-drop cursor k ids)

-- Enough rounds of any size finish a batch.
run_chunks_complete :
    (c : Ctx) (m a owner new_owner : Address) (ids : List String) (k rounds cursor : ℕ) (w : World)
    → IsBatchOpen c owner new_owner m a w
    → IsChunk ids cursor k
    → length ids ≤ cursor + rounds * k
    → IsDone owner new_owner
        (drop cursor ids)
        w
        (run_chunks c owner ids new_owner k rounds cursor w)
unfolding moves hand_over_all
run_chunks_complete c m a owner new_owner ids k zero cursor w h i enough =
    absurd (omega (arith, i.inside, zero-mul k, enough))
run_chunks_complete c m a owner new_owner ids k (suc rounds) cursor w h i enough =
    let end = min (cursor + k) (length ids) in
    let w' = after_chunk owner new_owner ids cursor k w in
    let step = run_chunks_step c m a owner new_owner ids k rounds cursor w h i in
    elim (Bool-cases (end == length ids)) [
      | inl t ↦
          let e : drop end ids ≡ [] = drop_all ids end (ground (arith, t)) in
          let n = ap (λ q. moves owner new_owner q (ledger w')) e in
          (
            w',
            step
                ∙ if_true _ _ t
                ∙ ap (λ j. some (j, w'))
                    (omega (arith, moves_split owner new_owner ids cursor k w, n)),
            ap (λ q. hand_over_all owner new_owner q (ledger w')) (sym e)
                ∙ hand_over_split owner new_owner ids cursor k w,
          )
      | inr t ↦
          let j : IsChunk ids end k = record {
            small = i.small;
            some_size = i.some_size;
            small_size = i.small_size;
            inside = ground (arith, t);
          } in
          let (w'', done, final) =
            run_chunks_complete c m a owner new_owner ids k rounds end w'
              (after_chunk-IsBatchOpen c m a owner new_owner ids cursor k w h) j
              (omega (arith, suc-mul rounds k, j.inside, enough)) in
          (
            w'',
            step
                ∙ if_false _ _ t
                ∙ ap
                    (λ o. elim o [
                      | none ↦ none
                      | some (n, v) ↦
                          some (moves owner new_owner (slice cursor k ids) (ledger w) + n, v)
                    ])
                    done
                ∙ ap (λ n. some (n, w'')) (moves_split owner new_owner ids cursor k w),
            final ∙ hand_over_split owner new_owner ids cursor k w,
          )
    ]

-- The estimate of a batch, for any `u32` number of products: the cost has not overflowed, as many chunks
-- of the recommended size hold the products and one chunk fewer does not, and the batch fits into
-- one transaction up to a hundred products.
pub estimate_batch_lem :
    (n : ℕ)
    → n ≤ 4294967295
    → let e = estimate_batch n in
      (e.estimated_cost_units ≡ 15 + 8 * n)
      × (n ≤ e.recommended_chunk_count * e.recommended_chunk_size)
      × (e.recommended_chunk_count * e.recommended_chunk_size ≤ n + 24)
      × (e.fits_single_transaction ≡ true ↔ n ≤ max_batch_size)
unfolding estimate_batch
estimate_batch_lem n h = (ground arith, ground arith, ground arith, ground arith)

-- A batch of one to a hundred products that is done in chunks of the recommended size, each from
-- where the last has stopped, is complete after the estimated number of chunks, whatever is
-- skipped: the number of transfers is that of one pass over the whole batch, exactly the products in it that
-- are active and the owner's have the new owner in the registry, and no other product has changed.
pub recommended_chunks_complete :
    (c : Ctx) (m a owner new_owner : Address) (ids : List String) (w : World)
    → IsBatchOpen c owner new_owner m a w
    → (1 ≤ length ids) × (length ids ≤ max_batch_size)
    → let e = estimate_batch (length ids) in
      (w' : World) × (run_chunks c owner ids new_owner e.recommended_chunk_size
          e.recommended_chunk_count 0 w
        ≡ some (moves owner new_owner ids (ledger w), w'))
      × ((p : String)
          → w'.registry.product p ≡ (
              if has_string ids p && is_movable owner (w.registry.product p)
              then given_to new_owner (w.registry.product p)
              else w.registry.product p))
unfolding estimate_batch
recommended_chunks_complete c m a owner new_owner ids w h (some_ids, few) =
    let i : IsChunk ids 0 recommended_chunk_size = record {
      small = few;
      some_size = omega arith;
      small_size = omega arith;
      inside = some_ids;
    } in
    let (_, enough, _, _) = estimate_batch_lem (length ids) (omega (arith, few)) in
    let (w', done, same) =
      run_chunks_complete c m a owner new_owner ids recommended_chunk_size
        (estimate_batch (length ids)).recommended_chunk_count 0 w h i (omega (arith, enough)) in
    (
      w',
      done,
      λ p.
          ap (λ l. l.product p) same
          ∙ hand_over_all-product owner new_owner ids (ledger w) h.ready.distinct h.ready.agreed p,
    )
