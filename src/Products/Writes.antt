-- ===== src/Products/Writes.antt =====
-- Transfers, alone and in batches, keep the agreement on owners (product_transfer.rs).
use chain_logistics.Base.{
  ℕ, zero, suc, ◌+◌, ◌-◌, ◌≡◌, ap, ◌∙◌, sym, subst, ◌⊎◌, inl, inr, true, Option, none, some, String,
  List, min, arith, leb, ◌==◌, length, get_elem?, Option-cases, Bool-cases,
}
use chain_logistics.Host.Errors.{Error}
use chain_logistics.Host.Call.{
  Address, Ctx, Call, Outcome, ok, ◌>>=◌, ◌>>◌, pure, ok_or, bind_sound, ok_or_state, if_true,
  if_false,
}
use chain_logistics.Products.State.{Product, World, try_get_product, in_transfer, set_lock}
use chain_logistics.Products.Transfer.{
  BatchProgress, release_lock, is_movable, move_product, publish_transferred, checked_add_u32,
  transfer_item, transfer_loop, transfer_rounds, transfer_batch_chunk, transfer_product,
}
use chain_logistics.Products.Ownership.{OwnershipInv, Agree-move}
use chain_logistics.Products.Moves.{
  found, move_product_sound, moved, transferred, transfer_product_sound,
}

transfer_item-keeps :
    (c : Ctx) (m a owner new_owner : Address) (p : String) (count : ℕ) (w : World) {n : ℕ}
    → OwnershipInv w
    → (transfer_item c m a owner new_owner p count w).0 ≡ ok n
    → OwnershipInv (transfer_item c m a owner new_owner p count w).1
unfolding transfer_item
transfer_item-keeps c m a owner new_owner p count w {n} h e =
    elim (Bool-cases (is_movable owner (try_get_product m p w))) [
      | inl t ↦ elim (Option-cases (try_get_product m p w)) [
        | inl o ↦ absurd (ground (arith, o, t))
        | inr (x, o) ↦ moves t x (found m p x w o).1
      ]
      | inr t ↦ subst (λ (z : Outcome ℕ × World). OwnershipInv z.1) (sym (if_false _ _ t)) h
    ]
  where
    move : Call World (Unit {0})
    move = move_product c m a owner p new_owner

    counted : Call World ℕ
    counted = ok_or (checked_add_u32 count 1) Error.arithmetic_overflow

    moves :
        is_movable owner (try_get_product m p w) ≡ true
        → (x : Product) → w.registry.product p ≡ some x
        → OwnershipInv (transfer_item c m a owner new_owner p count w).1
    moves t x o =
        let first : transfer_item c m a owner new_owner p count w
            ≡ (move >> publish_transferred p owner new_owner >> counted) w =
          if_true _ _ t in
        let (_, ok2, same2) =
          bind_sound (move >> publish_transferred p owner new_owner) (λ _. counted) w
            (sym (ap (λ z. z.0) first) ∙ e) in
        let (_, ok1, same1) = bind_sound move (λ _. publish_transferred p owner new_owner) w ok2 in
        let (_, _, _, _, effect) = move_product_sound c m a owner p new_owner x w o ok1 in
        let k = h p x o in
        let k' : OwnershipInv (moved p x new_owner w) =
          Agree-move w.registry.product w.auth.owner p (record x { owner = new_owner }) h k.keyed
            k.named in
        let k1 : OwnershipInv (move w).1 = subst OwnershipInv (sym effect) k' in
        let k2 : OwnershipInv ((move >> publish_transferred p owner new_owner) w).1 =
          subst (λ (z : Outcome (Unit {0}) × World). OwnershipInv z.1) (sym same1) k1 in
        subst (λ (z : Outcome ℕ × World). OwnershipInv z.1) (sym (first ∙ same2))
          (subst OwnershipInv
            (sym (
              ok_or_state (checked_add_u32 count 1) Error.arithmetic_overflow
                ((move >> publish_transferred p owner new_owner) w).1))
            k2)

transfer_loop-keeps :
    (c : Ctx) (m a owner new_owner : Address) (ids : List String) (i rounds count : ℕ) (w : World)
    {n : ℕ}
    → OwnershipInv w
    → (transfer_loop c m a owner new_owner ids i rounds count w).0 ≡ ok n
    → OwnershipInv (transfer_loop c m a owner new_owner ids i rounds count w).1
unfolding transfer_loop
transfer_loop-keeps c m a owner new_owner ids i zero count w h e = h
transfer_loop-keeps c m a owner new_owner ids i (suc r) count w {n} h e =
    go (λ count' w' h' e'. transfer_loop-keeps c m a owner new_owner ids (suc i) r count' w' h' e')
      (get_elem? ids i) e
  where
    rest : ℕ → Call World ℕ
    rest = transfer_loop c m a owner new_owner ids (suc i) r

    round : Option String → Call World ℕ
    round o = elim o [
      | none ↦ rest count
      | some p ↦ transfer_item c m a owner new_owner p count >>= rest
    ]

    go :
        ((count' : ℕ) (w' : World)
          → OwnershipInv w'
          → (rest count' w').0 ≡ ok n
          → OwnershipInv (rest count' w').1)
        → (o : Option String) → (round o w).0 ≡ ok n
        → OwnershipInv (round o w).1
    go later none k = later count w h k
    go later (some p) k =
        let (count', first, same) =
          bind_sound (transfer_item c m a owner new_owner p count) rest w k in
        let w' = (transfer_item c m a owner new_owner p count w).1 in
        subst (λ (z : Outcome ℕ × World). OwnershipInv z.1) (sym same)
          (later count' w' (transfer_item-keeps c m a owner new_owner p count w h first)
            (sym (ap (λ z. z.0) same) ∙ k))

abbrev finish : List String → ℕ → ℕ → ℕ → Call World BatchProgress
finish ids cursor end n =
    release_lock "batch_transfer"
    >> pure (record {
      requested = length ids;
      processed = end - cursor;
      succeeded = n;
      next_cursor = end;
      complete = end == length ids;
    })

abbrev locked : World → World
locked = in_transfer λ t. record t { locks = set_lock "batch_transfer" true t.locks }

rounds_goes_on :
    (c : Ctx) (m a owner new_owner : Address) (ids : List String) (cursor chunk_size : ℕ)
    (w : World) {progress : BatchProgress}
    → (transfer_rounds c m a owner ids new_owner cursor chunk_size w).0 ≡ ok progress
    → let end = min (cursor + chunk_size) (length ids) in
      transfer_rounds c m a owner ids new_owner cursor chunk_size w
      ≡ (transfer_loop c m a owner new_owner ids cursor (end - cursor) 0 >>= finish ids cursor end)
          (locked w)
unfolding transfer_rounds
rounds_goes_on c m a owner new_owner ids cursor chunk_size w h = ground (arith, h)

rounds-keeps :
    (c : Ctx) (m a owner new_owner : Address) (ids : List String) (cursor chunk_size : ℕ)
    (w : World) {progress : BatchProgress}
    → OwnershipInv w
    → (transfer_rounds c m a owner ids new_owner cursor chunk_size w).0 ≡ ok progress
    → OwnershipInv (transfer_rounds c m a owner ids new_owner cursor chunk_size w).1
rounds-keeps c m a owner new_owner ids cursor chunk_size w h e =
    let end = min (cursor + chunk_size) (length ids) in
    let loop = transfer_loop c m a owner new_owner ids cursor (end - cursor) 0 in
    let on = rounds_goes_on c m a owner new_owner ids cursor chunk_size w e in
    let (n, looped, same) =
      bind_sound loop (finish ids cursor end) (locked w) (sym (ap (λ z. z.0) on) ∙ e) in
    subst (λ (z : Outcome BatchProgress × World). OwnershipInv z.1) (sym (on ∙ same))
      (transfer_loop-keeps c m a owner new_owner ids cursor (end - cursor) 0 (locked w) h looped)

-- A chunk that succeeds either is over already or goes through its rounds.
batch_cases :
    (c : Ctx) (owner new_owner : Address) (ids : List String) (cursor chunk_size : ℕ) (w : World)
    {progress : BatchProgress}
    → (transfer_batch_chunk c owner ids new_owner cursor chunk_size w).0 ≡ ok progress
    → ((transfer_batch_chunk c owner ids new_owner cursor chunk_size w).1 ≡ w)
      ⊎ ((m a : Address) × (transfer_batch_chunk c owner ids new_owner cursor chunk_size w
            ≡ transfer_rounds c m a owner ids new_owner cursor chunk_size w))
unfolding transfer_batch_chunk
batch_cases c owner new_owner ids cursor chunk_size w h =
    elim (Option-cases w.transfer.main_contract) [
      | inl e ↦ absurd (ground (arith, e, h))
      | inr (m, em) ↦ elim (Option-cases w.transfer.auth_contract) [
        | inl e ↦ absurd (ground (arith, e, em, h))
        | inr (a, ea) ↦ elim (Bool-cases (leb (length ids) cursor)) [
          | inl t ↦ inl (ground (arith, em, ea, t, h))
          | inr t ↦ inr (m, a, ground (arith, em, ea, t, h))
        ]
      ]
    ]

pub batch-keeps :
    (c : Ctx) (owner new_owner : Address) (ids : List String) (cursor chunk_size : ℕ) (w : World)
    {progress : BatchProgress}
    → OwnershipInv w
    → (transfer_batch_chunk c owner ids new_owner cursor chunk_size w).0 ≡ ok progress
    → OwnershipInv (transfer_batch_chunk c owner ids new_owner cursor chunk_size w).1
batch-keeps c owner new_owner ids cursor chunk_size w h e =
    elim (batch_cases c owner new_owner ids cursor chunk_size w e) [
      | inl same ↦ subst OwnershipInv (sym same) h
      | inr (m, a, same) ↦
          subst (λ (z : Outcome BatchProgress × World). OwnershipInv z.1) (sym same)
            (rounds-keeps c m a owner new_owner ids cursor chunk_size w h
              (sym (ap (λ z. z.0) same) ∙ e))
    ]

pub transfer-keeps :
    (c : Ctx) (owner : Address) (p : String) (new_owner : Address) (w : World)
    → OwnershipInv w
    → (transfer_product c owner p new_owner w).0 ≡ ok tt
    → OwnershipInv (transfer_product c owner p new_owner w).1
transfer-keeps c owner p new_owner w h e =
    let (x, t, effect) = transfer_product_sound c owner p new_owner w e in
    let k = h p x t.movable.stored in
    let k' : OwnershipInv (transferred owner p new_owner x w) =
      Agree-move w.registry.product w.auth.owner p (record x { owner = new_owner }) h k.keyed
        k.named in
    subst OwnershipInv (sym effect) k'
