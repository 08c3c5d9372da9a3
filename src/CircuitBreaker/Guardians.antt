-- ===== src/CircuitBreaker/Guardians.antt =====
-- The guardians of circuit_breaker.rs: removal, and that no guardian is listed twice.
use chain_logistics.Base.{
  ℕ, ◌≤◌, ◌≡◌, ◌≢◌, refl, inl, inr, false, some, List, [], ◌∷◌, arith, length, contains, Distinct,
  erase, push_back-Distinct, length-push_back, contains-erase_ne, has_duplicate_iff, Option-cases,
}
use chain_logistics.Host.Call.{Address, Ctx, ok}
use chain_logistics.CircuitBreaker.State.{State, get_guardians, find_index, remove_at}
use chain_logistics.CircuitBreaker.Handlers.{
  max_guardians, initialize, add_guardian, remove_guardian, instant_pause, propose_pause,
  approve_pause_proposal, execute_pause_proposal, lift_pause,
}
use chain_logistics.CircuitBreaker.Queries.{get_state}
use chain_logistics.CircuitBreaker.Requests.{
  Request, init, add, remove, pause, propose, approve, execute, lift, query, step,
}

-- `remove_guardian`'s search and removal take out the first entry.
pub remove_at-find_index :
    (xs : List Address) (a : Address) {i : ℕ}
    → find_index xs a ≡ some i
    → remove_at xs i ≡ erase a xs
unfolding find_index remove_at
remove_at-find_index [] a h = absurd (cc)
remove_at-find_index (x ∷ xs) a {i} h = elim (Option-cases (find_index xs a)) [
  | inl n ↦ ground arith
  | inr (j, m) ↦ ground (arith, remove_at-find_index xs a m)
]

contains-erase-false :
    (a b : Address) (xs : List Address) → contains xs b ≡ false → contains (erase a xs) b ≡ false
unfolding contains
contains-erase-false a b [] h = refl
contains-erase-false a b (x ∷ xs) h = ground (arith, contains-erase-false a b xs)

erase-Distinct :
    (a : Address) (xs : List Address)
    → Distinct xs
    → Distinct (erase a xs) × (contains (erase a xs) a ≡ false) × (length (erase a xs) ≤ length xs)
unfolding contains
erase-Distinct a [] h = (tt, refl, omega arith)
erase-Distinct a (x ∷ xs) h = ground (arith, erase-Distinct a xs h.1, contains-erase-false a x xs)

-- Removing a guardian takes out this one and no other.
pub remove_guardian_removes :
    (c : Ctx) (a g b : Address) (s : State)
    → Distinct (get_guardians s)
    → (remove_guardian c a g s).0 ≡ ok tt
    → let s' = (remove_guardian c a g s).1 in
      (s.admin ≡ some a)
      × (contains (get_guardians s') g ≡ false)
      × (g ≢ b → contains (get_guardians s') b ≡ contains (get_guardians s) b)
      × (s'.breaker ≡ s.breaker)
      × (s'.pending ≡ s.pending)
unfolding remove_guardian
remove_guardian_removes c a g b s d h = elim (Option-cases s.admin) [
  | inl n ↦ absurd (ground arith)
  | inr (admin, n) ↦ elim (Option-cases (find_index (get_guardians s) g)) [
    | inl m ↦ absurd (ground arith)
    | inr (i, m) ↦ ground (
      arith,
      remove_at-find_index (get_guardians s) g m,
      erase-Distinct g (get_guardians s) d,
      contains-erase_ne g b (get_guardians s),
    )
  ]
]

same-guardians :
    (s s' : State)
    → s'.guardians ≡ s.guardians
    → Distinct (get_guardians s)
    → length (get_guardians s) ≤ max_guardians
    → Distinct (get_guardians s') × (length (get_guardians s') ≤ max_guardians)
same-guardians s s' e d n = rw e (d, n)

-- What lifting or ending a pause leaves alone.
lift_guardians : (c : Ctx) (a : Address) (s : State) → (lift_pause c a s).1.guardians ≡ s.guardians
unfolding lift_pause
lift_guardians c a s = ground arith

pub guardians-step :
    (c : Ctx) (r : Request) (s : State)
    → Distinct (get_guardians s)
    → length (get_guardians s) ≤ max_guardians
    → Distinct (get_guardians (step c r s)) × (length (get_guardians (step c r s)) ≤ max_guardians)
unfolding step
guardians-step c (init a gs) s d n = unfold initialize in ground (arith, has_duplicate_iff gs)
guardians-step c (add a g) s d n =
    unfold add_guardian in
    ground (arith, push_back-Distinct (get_guardians s) g, length-push_back (get_guardians s) g)
guardians-step c (remove a g) s d n = elim (Option-cases (find_index (get_guardians s) g)) [
  | inl m ↦ unfold remove_guardian in ground arith
  | inr (i, m) ↦
      unfold remove_guardian in
      ground
        (arith, remove_at-find_index (get_guardians s) g m, erase-Distinct g (get_guardians s) d)
]
guardians-step c (pause a l r d' t) s d n =
    same-guardians s (instant_pause c a l r d' t s).1 (unfold instant_pause in ground arith) d n
guardians-step c (propose a l r d' t m w) s d n =
    same-guardians s (propose_pause c a l r d' t m w s).1 (unfold propose_pause in ground arith) d n
guardians-step c (approve a i) s d n =
    same-guardians s (approve_pause_proposal c a i s).1
      (unfold approve_pause_proposal in ground arith) d n
guardians-step c (execute a i t) s d n =
    same-guardians s (execute_pause_proposal c a i t s).1
      (unfold execute_pause_proposal in ground arith) d n
guardians-step c (lift a) s d n = same-guardians s (lift_pause c a s).1 (lift_guardians c a s) d n
guardians-step c query s d n =
    same-guardians s (get_state c s).1 (unfold get_state in ground arith) d n
