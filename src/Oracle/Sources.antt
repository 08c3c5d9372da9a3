-- ===== src/Oracle/Sources.antt =====
-- The reporters of a feed (oracle.rs): the list and the sources that are stored agree, and rewards and
-- penalties keep them.
use chain_logistics.Base.{
  ◌+◌, ◌≡◌, ◌≢◌, refl, ◌∙◌, subst, inl, inr, Bool, true, ◌&&◌, none, some, List, [], arith, ◌==◌,
  str_eq, eq_iff, contains, Bool-cases, Option-cases,
}
use chain_logistics.Base.Int.{ℤ, pos, ◌≤ℤ◌}
use chain_logistics.Host.Call.{Address, Symbol, ok, Keyed, unwrap_or}
use chain_logistics.Oracle.State.{OracleSource, PerReporter, put_for, State}
use chain_logistics.Oracle.Handlers.{reward_source, slash_source, slashed_stake}

abbrev pub is_listed : Keyed (List Address) → Symbol → Address → Bool
is_listed lists g r = contains (unwrap_or (lists g) []) r

pub record IsSource (lists : Keyed (List Address)) (g : Symbol) (r : Address) (x : OracleSource)
    : Type 0 where
  pub keyed : x.reporter ≡ r
  pub positive : pos 0 ≤ℤ x.stake
  pub listed : is_listed lists g r ≡ true

pub record SourcesInv (lists : Keyed (List Address)) (source : PerReporter OracleSource)
    : Type 0 where
  pub stored :
      (g : Symbol) (r : Address) (x : OracleSource) → source g r ≡ some x → IsSource lists g r x
  pub known : (g : Symbol) (r : Address) → is_listed lists g r ≡ true → source g r ≢ none

-- A source is written again.
pub put_for-SourcesInv :
    (lists : Keyed (List Address)) (source : PerReporter OracleSource) (f : Symbol) (a : Address)
    (x y : OracleSource)
    → SourcesInv lists source
    → source f a ≡ some x
    → y.reporter ≡ x.reporter
    → pos 0 ≤ℤ y.stake
    → SourcesInv lists (put_for f y.reporter y source)
put_for-SourcesInv lists source f a x y inv e same stake =
    let i = inv.stored f a x e in
    record {
      stored = λ g r z h. elim (Bool-cases (str_eq f g && a == r)) [
        | inl t ↦
            let fg = (eq_iff f g).0 (ground (arith, t)) in
            let ar : a ≡ r = ground (arith, t) in
            let yz : y ≡ z = ground (arith, h, t, same, i.keyed) in
            subst (IsSource lists g r) yz (
              subst (λ q. IsSource lists q r y) fg
                (subst (λ q. IsSource lists f q y) ar
                  (record { keyed = same ∙ i.keyed; positive = stake; listed = i.listed })))
        | inr t ↦ inv.stored g r z (ground (arith, h, t, same, i.keyed))
      ];
      known = λ g r l n. inv.known g r l (ground (arith, n, same, i.keyed));
    }

pub slashed_stake_lem : (stake : ℤ) → pos 0 ≤ℤ slashed_stake stake
slashed_stake_lem stake = ground arith

-- What a call leaves: nothing but sources has changed.
abbrev pub IsRated : State → State → Type 0
IsRated s s' =
    (source : PerReporter OracleSource) × SourcesInv s.feed_sources source
    × (s' ≡ record s { source = source })

pub reward_source-IsRated :
    (f : Symbol) (a : Address) (s : State)
    → SourcesInv s.feed_sources s.source
    → (reward_source f a s).0 ≡ ok tt
    → IsRated s (reward_source f a s).1
unfolding reward_source
reward_source-IsRated f a s inv h = elim (Option-cases (s.source f a)) [
  | inl e ↦ (s.source, inv, ground (arith, e))
  | inr (x, e) ↦
      let y : OracleSource = record x { reward_points = x.reward_points + 1 } in
      (
        put_for f y.reporter y s.source,
        put_for-SourcesInv s.feed_sources s.source f a x y inv e refl (inv.stored f a x e).positive,
        ground (arith, e, h),
      )
]

pub slash_source-IsRated :
    (f : Symbol) (a : Address) (s : State)
    → SourcesInv s.feed_sources s.source
    → (slash_source f a s).0 ≡ ok tt
    → IsRated s (slash_source f a s).1
unfolding slash_source
slash_source-IsRated f a s inv h = elim (Option-cases (s.source f a)) [
  | inl e ↦ (s.source, inv, ground (arith, e))
  | inr (x, e) ↦
      let y : OracleSource = record x {
        slash_count = x.slash_count + 1;
        stake = slashed_stake x.stake;
      } in
      (
        put_for f y.reporter y s.source,
        put_for-SourcesInv s.feed_sources s.source f a x y inv e refl (slashed_stake_lem x.stake),
        ground (arith, e, h),
      )
]
