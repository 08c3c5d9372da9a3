-- ===== src/CircuitBreaker/Blocking.antt =====
-- What a pause of circuit_breaker.rs blocks, for how long, and what lifting it does.
use chain_logistics.Base.{
  ℕ, ◌+◌, ◌≤◌, ◌≡◌, inl, inr, Bool, true, false, not, ◌&&◌, ◌||◌, some, String, arith, ◌==◌,
  if◌then◌else◌, push_back, Option-cases,
}
use chain_logistics.Host.Call.{Address, Ctx, ok}
use chain_logistics.CircuitBreaker.State.{
  PauseLevel, PauseReason, PauseRecord, CircuitBreakerState, State, load_state,
}
use chain_logistics.CircuitBreaker.Handlers.{
  is_expired, propose_pause, lift_pause, validate_duration,
}
use chain_logistics.CircuitBreaker.Queries.{
  blocks_nothing, blocks_writes_only, is_emergency, get_state, is_paused, check_writes_allowed,
  check_mutations_allowed, check_reads_allowed,
}

-- When a pause made at `now` for `secs` ends.
abbrev pub ends : ℕ → ℕ → ℕ
ends now secs = if secs == 0 then 0 else now + secs

-- A pause is in force.
abbrev pub live : Ctx → CircuitBreakerState → Bool
live k b = b.is_paused && not (is_expired k b.expires_at)

query_answers :
    (k : Ctx) (s : State)
    → let b = load_state s in
      ((is_paused k s).0 ≡ ok (live k b))
      × ((check_writes_allowed k s).0 ≡ ok (not (live k b) || blocks_nothing b.level))
      × ((check_mutations_allowed k s).0 ≡ ok (not (live k b) || blocks_writes_only b.level))
      × ((check_reads_allowed k s).0 ≡ ok (not (live k b) || not (is_emergency b.level)))
unfolding is_paused check_writes_allowed check_mutations_allowed check_reads_allowed
query_answers k s = (ground arith, ground arith, ground arith, ground arith)

lift_pause_state :
    (c : Ctx) (a : Address) (s : State) (r : PauseRecord) {id : ℕ}
    → (lift_pause c a s).0 ≡ ok id
    → s.records (load_state s).current_record_id ≡ some r
    → r.record_id ≡ (load_state s).current_record_id
    → let s' = (lift_pause c a s).1 in
      (s.admin ≡ some a)
      × (c.authorized a ≡ true)
      × ((load_state s').is_paused ≡ false)
      × (s'.records r.record_id
          ≡ some (record r { lifted_at = c.timestamp; lifted_by = push_back r.lifted_by a }))
unfolding lift_pause
lift_pause_state c a s r h m e = elim (Option-cases s.admin) [
  | inl n ↦ ground arith
  | inr (admin, n) ↦ ground arith
]

-- The answers that callers at the moment `k` get, for a pause of a level that ends at `until`.
abbrev pub Answers : Ctx → PauseLevel → ℕ → State → Type 0
Answers k level until s =
    ((is_paused k s).0 ≡ ok (not (is_expired k until)))
    × ((check_writes_allowed k s).0 ≡ ok (is_expired k until || blocks_nothing level))
    × ((check_mutations_allowed k s).0 ≡ ok (is_expired k until || blocks_writes_only level))
    × ((check_reads_allowed k s).0 ≡ ok (is_expired k until || not (is_emergency level)))

-- The levels are nested: where reads are refused mutations are, and where mutations are refused
-- writes are.
pub blocking_nested :
    (k : Ctx) (s : State)
    → ((check_reads_allowed k s).0 ≡ ok false → (check_mutations_allowed k s).0 ≡ ok false)
      × ((check_mutations_allowed k s).0 ≡ ok false → (check_writes_allowed k s).0 ≡ ok false)
unfolding check_writes_allowed check_mutations_allowed check_reads_allowed
blocking_nested k s = (λ h. ground arith, λ h. ground arith)

-- Asking early, which may end an expired pause, never changes a later answer.
pub query_stable :
    (j k : Ctx) (s : State)
    → j.timestamp ≤ k.timestamp
    → let s' = (get_state j s).1 in
      ((check_writes_allowed k s').0 ≡ (check_writes_allowed k s).0)
      × ((check_mutations_allowed k s').0 ≡ (check_mutations_allowed k s).0)
      × ((check_reads_allowed k s').0 ≡ (check_reads_allowed k s).0)
      × ((is_paused k s').0 ≡ (is_paused k s).0)
unfolding is_paused check_writes_allowed check_mutations_allowed check_reads_allowed
query_stable j k s h = (ground arith, ground arith, ground arith, ground arith)

-- After `lift_pause` nothing is blocked at any time; it is the admin who lifted it, the record of the
-- pause says when and by whom, and its other fields are as they were.
pub lift_pause_lifts :
    (c k : Ctx) (a : Address) (s : State) (r : PauseRecord) {id : ℕ}
    → (lift_pause c a s).0 ≡ ok id
    → s.records (load_state s).current_record_id ≡ some r
    → r.record_id ≡ (load_state s).current_record_id
    → let s' = (lift_pause c a s).1 in
      (s.admin ≡ some a)
      × (c.authorized a ≡ true)
      × ((is_paused k s').0 ≡ ok false)
      × ((check_writes_allowed k s').0 ≡ ok true)
      × ((check_mutations_allowed k s').0 ≡ ok true)
      × ((check_reads_allowed k s').0 ≡ ok true)
      × (s'.records r.record_id
          ≡ some (record r { lifted_at = c.timestamp; lifted_by = push_back r.lifted_by a }))
lift_pause_lifts c k a s r h m e =
    ground (arith, lift_pause_state c a s r h m e, query_answers k (lift_pause c a s).1)

-- The duration given to `propose_pause` is checked and then forgotten: any two valid durations make
-- the same proposal.
pub propose_pause_forgets_duration :
    (c : Ctx) (a : Address) (level : PauseLevel) (reason : PauseReason) (d : String)
    (secs secs' required window : ℕ) (s : State)
    → validate_duration secs s ≡ (ok tt, s)
    → validate_duration secs' s ≡ (ok tt, s)
    → propose_pause c a level reason d secs required window s
      ≡ propose_pause c a level reason d secs' required window s
unfolding propose_pause
propose_pause_forgets_duration c a level reason d secs secs' required window s h h' = ground arith
