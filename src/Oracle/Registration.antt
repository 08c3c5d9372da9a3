-- ===== src/Oracle/Registration.antt =====
-- The configuration of a feed and the registration of its reporters (oracle.rs) keep their parts of the
-- invariant.
use chain_logistics.Base.{
  ◌≡◌, ap, subst, inl, inr, false, ◌&&◌, ◌||◌, none, some, List, [], arith, push_back,
  contains-push_back, Distinct, push_back-Distinct, Bool-cases, ◌==◌, str_eq, eq_iff,
}
use chain_logistics.Base.Int.{pos, ◌≤ℤ◌}
use chain_logistics.Host.Call.{Address, Symbol, Keyed, put_at, unwrap_or}
use chain_logistics.Types.{OracleFeedConfig}
use chain_logistics.Oracle.State.{OracleSource, PerReporter, put_for}
use chain_logistics.Oracle.Sources.{is_listed, IsSource, SourcesInv}
use chain_logistics.Oracle.Requests.{IsConfig}

abbrev pub ConfigsInv : Keyed OracleFeedConfig → Type 0
ConfigsInv configs = (g : Symbol) (x : OracleFeedConfig) → configs g ≡ some x → IsConfig g x

abbrev pub DistinctInv : Keyed (List Address) → Type 0
DistinctInv lists = (g : Symbol) → Distinct (unwrap_or (lists g) [])

pub put_at-ConfigsInv :
    (configs : Keyed OracleFeedConfig) (x : OracleFeedConfig)
    → ConfigsInv configs
    → IsConfig x.feed_id x
    → ConfigsInv (put_at x.feed_id x configs)
put_at-ConfigsInv configs x inv i g y h = elim (Bool-cases (str_eq x.feed_id g)) [
  | inl t ↦
      let xy : x ≡ y = ground (arith, h, t) in
      subst (IsConfig g) xy (subst (λ q. IsConfig q x) ((eq_iff x.feed_id g).0 t) i)
  | inr t ↦ inv g y (ground (arith, h, t))
]

-- A new reporter is not listed yet.
pub not_listed :
    (lists : Keyed (List Address)) (source : PerReporter OracleSource) (f : Symbol) (r : Address)
    → SourcesInv lists source
    → source f r ≡ none
    → is_listed lists f r ≡ false
not_listed lists source f r inv e = elim (Bool-cases (is_listed lists f r)) [
  | inl t ↦ absurd (inv.known f r t e)
  | inr t ↦ t
]

abbrev pub extended : Keyed (List Address) → Symbol → Address → Keyed (List Address)
extended lists f r = put_at f (push_back (unwrap_or (lists f) []) r) lists

extended-is_listed :
    (lists : Keyed (List Address)) (f : Symbol) (r : Address) (g : Symbol) (q : Address)
    → is_listed (extended lists f r) g q ≡ (is_listed lists g q || (str_eq f g && r == q))
extended-is_listed lists f r g q = elim (Bool-cases (str_eq f g)) [
  | inl t ↦
      let fg = ap lists ((eq_iff f g).0 t) in
      ground (arith, t, fg, contains-push_back (unwrap_or (lists f) []) r q)
  | inr t ↦ ground (arith, t)
]

pub extended-DistinctInv :
    (lists : Keyed (List Address)) (f : Symbol) (r : Address)
    → DistinctInv lists
    → is_listed lists f r ≡ false
    → DistinctInv (extended lists f r)
extended-DistinctInv lists f r inv n g = elim (Bool-cases (str_eq f g)) [
  | inl t ↦
      let d = push_back-Distinct (unwrap_or (lists f) []) r (inv f) n in
      subst Distinct (ground (arith, t)) d
  | inr t ↦ subst Distinct (ground (arith, t)) (inv g)
]

pub registered-SourcesInv :
    (lists : Keyed (List Address)) (source : PerReporter OracleSource) (f : Symbol)
    (x : OracleSource)
    → SourcesInv lists source
    → pos 0 ≤ℤ x.stake
    → SourcesInv (extended lists f x.reporter) (put_for f x.reporter x source)
registered-SourcesInv lists source f x inv stake = record {
  stored = λ g r y h. elim (Bool-cases (str_eq f g && x.reporter == r)) [
    | inl t ↦
        let xy : x ≡ y = ground (arith, h, t) in
        let same : x.reporter ≡ r = ground (arith, t) in
        subst (IsSource (extended lists f x.reporter) g r) xy (record {
          keyed = same;
          positive = stake;
          listed = ground (arith, extended-is_listed lists f x.reporter g r, t);
        })
    | inr t ↦
        let i = inv.stored g r y (ground (arith, h, t)) in
        record {
          keyed = i.keyed;
          positive = i.positive;
          listed = ground (arith, extended-is_listed lists f x.reporter g r, i.listed);
        }
  ];
  known = λ g r l n. ground (arith, l, n, extended-is_listed lists f x.reporter g r, inv.known g r);
}
