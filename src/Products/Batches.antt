-- ===== src/Products/Batches.antt =====
-- The loop of a batch in product_transfer.rs does what the ledger says.
use chain_logistics.Base.{
  ℕ, zero, suc, ◌+◌, ◌≤◌, ◌≡◌, ◌≢◌, refl, ◌∙◌, sym, ap, inl, inr, Bool, true, false, Option, none,
  some, String, List, ◌∷◌, arith, get_elem?, slice, take, Option-cases, Bool-cases, drop-suc,
  drop_past, drop_past_suc, take_nil, if◌then◌else◌,
}
use chain_logistics.Host.Call.{Address, Ctx, ok, ◌>>=◌, ◌>>◌, ok_or, bind_ok, if_true, if_false}
use chain_logistics.Host.Errors.{Error}
use chain_logistics.Products.State.{Product, World, try_get_product}
use chain_logistics.Products.Transfer.{
  is_movable, transfer_item, transfer_loop, checked_add_u32, move_product, publish_transferred,
}
use chain_logistics.Products.Moves.{IsMovable, move_product_ok, moved}
use chain_logistics.Products.Ownership.{OwnershipInv}
use chain_logistics.Products.Ledger.{
  ledger, with_ledger, given, given_if_movable, hand_over, hand_over_all, moves, hand_over-Agree,
}

-- What a batch needs, apart from its arguments.
pub record IsBatchReady (c : Ctx) (m a owner new_owner : Address) (w : World) : Type 0 where
  pub registry_there : w.registry_address ≡ m
  pub auth_there : w.auth_address ≡ a
  pub agreed : OwnershipInv w
  pub signed : c.authorized owner ≡ true
  pub trusted : w.registry.transfer_contract ≡ some c.current_contract_address
  pub distinct : owner ≢ new_owner

hand_over-IsBatchReady :
    (c : Ctx) (m a owner new_owner : Address) (p : String) (w : World)
    → IsBatchReady c m a owner new_owner w
    → IsBatchReady c m a owner new_owner (with_ledger (hand_over owner new_owner p (ledger w)) w)
hand_over-IsBatchReady c m a owner new_owner p w h = record {
  registry_there = h.registry_there;
  auth_there = h.auth_there;
  agreed = hand_over-Agree owner new_owner p (ledger w) h.agreed;
  signed = h.signed;
  trusted = h.trusted;
  distinct = h.distinct;
}

try_get_product_lem :
    (m : Address) (p : String) (w : World)
    → w.registry_address ≡ m
    → try_get_product m p w ≡ w.registry.product p
try_get_product_lem m p w there = ground (arith, there)

transfer_item-given :
    (c : Ctx) (m a owner new_owner : Address) (p : String) (x : Product) (count : ℕ) (w : World)
    → IsBatchReady c m a owner new_owner w
    → w.registry.product p ≡ some x
    → is_movable owner (some x) ≡ true
    → count + 1 ≤ 4294967295
    → transfer_item c m a owner new_owner p count w
      ≡ (ok (count + 1), with_ledger (given owner new_owner p x (ledger w)) w)
unfolding transfer_item
transfer_item-given c m a owner new_owner p x count w h e t few =
    let k = h.agreed p x e in
    let owned : x.owner ≡ owner = ground (arith, t) in
    let movable : IsMovable owner p x w = record {
      stored = e;
      owned = owned;
      active = ground (arith, t);
      recorded = k.recorded ∙ ap some owned;
    } in
    let done =
      move_product_ok c m a owner p new_owner x w movable h.signed h.trusted k.named h.distinct
        h.registry_there h.auth_there in
    if_true _ _ (ap (is_movable owner) (try_get_product_lem m p w h.registry_there ∙ e) ∙ t)
    ∙ bind_ok (move_product c m a owner p new_owner >> publish_transferred p owner new_owner)
        (λ _. ok_or (checked_add_u32 count 1) Error.arithmetic_overflow) w
        (with_ledger (given owner new_owner p x (ledger w)) w)
        (bind_ok (move_product c m a owner p new_owner) (λ _. publish_transferred p owner new_owner)
          w (moved p x new_owner w) done)
    ∙ ground (arith, few)

transfer_item_skips :
    (c : Ctx) (m a owner new_owner : Address) (p : String) (count : ℕ) (w : World)
    → w.registry_address ≡ m
    → is_movable owner (w.registry.product p) ≡ false
    → transfer_item c m a owner new_owner p count w ≡ (ok count, w)
unfolding transfer_item
transfer_item_skips c m a owner new_owner p count w there t =
    if_false _ _ (ap (is_movable owner) (try_get_product_lem m p w there) ∙ t)

-- A round of the loop does to the ledger what is to be done.
transfer_item_lem :
    (c : Ctx) (m a owner new_owner : Address) (p : String) (count : ℕ) (w : World)
    → IsBatchReady c m a owner new_owner w
    → count + 1 ≤ 4294967295
    → transfer_item c m a owner new_owner p count w ≡ (
      ok (count + (if is_movable owner (w.registry.product p) then 1 else 0)),
      with_ledger (hand_over owner new_owner p (ledger w)) w,
    )
unfolding hand_over
transfer_item_lem c m a owner new_owner p count w h few = go (w.registry.product p) refl
  where
    go :
        (o : Option Product)
        → w.registry.product p ≡ o
        → transfer_item c m a owner new_owner p count w ≡ (
          ok (count + (if is_movable owner o then 1 else 0)),
          with_ledger (given_if_movable owner new_owner p (ledger w) o) w,
        )
    go none e =
        transfer_item_skips c m a owner new_owner p count w h.registry_there
          (ap (is_movable owner) e)
        ∙ ground arith
    go (some x) e = elim (Bool-cases (is_movable owner (some x))) [
      | inl t ↦
          transfer_item-given c m a owner new_owner p x count w h e t few
          ∙ ap
              (λ b. (
                ok (count + (if b then 1 else 0)),
                with_ledger (if b then given owner new_owner p x (ledger w) else ledger w) w,
              ))
              (sym t)
      | inr t ↦
          transfer_item_skips c m a owner new_owner p count w h.registry_there
            (ap (is_movable owner) e ∙ t)
          ∙ ap (λ n. (ok n, w)) (omega arith)
          ∙ ap
              (λ b. (
                ok (count + (if b then 1 else 0)),
                with_ledger (if b then given owner new_owner p x (ledger w) else ledger w) w,
              ))
              (sym t)
    ]

transfer_loop_past :
    (c : Ctx) (m a owner new_owner : Address) (ids : List String) (i n count : ℕ) (w : World)
    → get_elem? ids i ≡ none
    → transfer_loop c m a owner new_owner ids i (suc n) count w
      ≡ transfer_loop c m a owner new_owner ids (suc i) n count w
unfolding transfer_loop
transfer_loop_past c m a owner new_owner ids i n count w e = ground (arith, e)

transfer_loop_round :
    (c : Ctx) (m a owner new_owner : Address) (ids : List String) (i n count : ℕ) (w : World)
    (p : String)
    → get_elem? ids i ≡ some p
    → transfer_loop c m a owner new_owner ids i (suc n) count w
      ≡ (transfer_item c m a owner new_owner p count
            >>= transfer_loop c m a owner new_owner ids (suc i) n)
          w
unfolding transfer_loop
transfer_loop_round c m a owner new_owner ids i n count w p e = ground (arith, e)

at_most_one : (b : Bool) → (if b then 1 else 0) ≤ 1
at_most_one b = ground arith

-- The loop over `rounds` indexes from `i` on hands over the members at these indexes.
pub transfer_loop_lem :
    (c : Ctx) (m a owner new_owner : Address) (ids : List String) (i rounds count : ℕ) (w : World)
    → IsBatchReady c m a owner new_owner w
    → count + rounds ≤ 4294967295
    → transfer_loop c m a owner new_owner ids i rounds count w ≡ (
      ok (count + moves owner new_owner (slice i rounds ids) (ledger w)),
      with_ledger (hand_over_all owner new_owner (slice i rounds ids) (ledger w)) w,
    )
unfolding transfer_loop moves hand_over_all
transfer_loop_lem c m a owner new_owner ids i zero count w h few = ap (λ n. (ok n, w)) (omega arith)
transfer_loop_lem c m a owner new_owner ids i (suc n) count w h few =
    elim (Option-cases (get_elem? ids i)) [
      | inl e ↦
          let none_left : slice i (suc n) ids ≡ slice (suc i) n ids =
            ap (take (suc n)) (drop_past ids i e)
            ∙ sym (ap (take n) (drop_past_suc ids i e) ∙ take_nil n) in
          transfer_loop_past c m a owner new_owner ids i n count w e
          ∙ transfer_loop_lem c m a owner new_owner ids (suc i) n count w h (omega arith)
          ∙ ap
              (λ ps. (
                ok (count + moves owner new_owner ps (ledger w)),
                with_ledger (hand_over_all owner new_owner ps (ledger w)) w,
              ))
              (sym none_left)
      | inr (p, e) ↦
          let next : slice i (suc n) ids ≡ p ∷ slice (suc i) n ids =
            ap (take (suc n)) (drop-suc ids i p e) in
          let one : ℕ = if is_movable owner (w.registry.product p) then 1 else 0 in
          let w' = with_ledger (hand_over owner new_owner p (ledger w)) w in
          let left = slice (suc i) n ids in
          let h' = hand_over-IsBatchReady c m a owner new_owner p w h in
          transfer_loop_round c m a owner new_owner ids i n count w p e
          ∙ bind_ok (transfer_item c m a owner new_owner p count)
              (transfer_loop c m a owner new_owner ids (suc i) n) w w'
              (transfer_item_lem c m a owner new_owner p count w h (omega arith))
          ∙ transfer_loop_lem c m a owner new_owner ids (suc i) n (count + one) w' h'
              (omega (arith, at_most_one (is_movable owner (w.registry.product p))))
          ∙ ap (λ k. (ok k, with_ledger (hand_over_all owner new_owner left (ledger w')) w))
              (omega arith)
          ∙ ap
              (λ ps. (
                ok (count + moves owner new_owner ps (ledger w)),
                with_ledger (hand_over_all owner new_owner ps (ledger w)) w,
              ))
              (sym next)
    ]
