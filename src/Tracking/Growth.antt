-- ===== src/Tracking/Growth.antt =====
-- A new event keeps the lists and indexes of tracking.rs in step.
use chain_logistics.Base.{
  ℕ, ◌+◌, ◌≤◌, ◌<◌, ◌≡◌, refl, ap, ◌∙◌, sym, subst, inl, inr, true, false, some, String, List, [],
  ◌∷◌, arith, str_eq, eq_iff, if◌then◌else◌, length, get_elem?, push_back, Bool-cases,
  get_elem?-push_back, length-push_back,
}
use chain_logistics.Host.Call.{Symbol, Ctx}
use chain_logistics.Tracking.State.{
  TrackingEvent, State, get_product_event_ids, get_event_count_by_type,
}
use chain_logistics.Tracking.History.{has_kind, of_kind}
use chain_logistics.Tracking.Requests.{NewEvent, last_event, event_of, added}

-- The number is of a stored event of the product.
pub record IsListed (s : State) (p : String) (i : ℕ) : Type 0 where
  pub event : TrackingEvent
  pub stored : s.event i ≡ some event
  pub numbered : event.event_id ≡ i
  pub of_product : event.product_id ≡ p
  pub past : i ≤ last_event s

abbrev pub AllListed : State → String → List ℕ → Type 0
AllListed s p [] = Unit
AllListed s p (i ∷ ids) = IsListed s p i × AllListed s p ids

-- The numbers rise.
abbrev pub AllAbove : ℕ → List ℕ → Type 0
AllAbove i [] = Unit
AllAbove i (j ∷ ids) = (i < j) × AllAbove i ids

abbrev pub IsRising : List ℕ → Type 0
IsRising [] = Unit
IsRising (i ∷ ids) = AllAbove i ids × IsRising ids

pub record IsHistory (s : State) (p : String) : Type 0 where
  pub rising : IsRising (get_product_event_ids p s)
  pub listed : AllListed s p (get_product_event_ids p s)
  pub indexed :
      (kind : Symbol) (k : ℕ)
      → s.type_index p kind k ≡ get_elem? (of_kind s kind (get_product_event_ids p s)) k
  pub counted :
      (kind : Symbol)
      → get_event_count_by_type p kind s ≡ length (of_kind s kind (get_product_event_ids p s))

abbrev pub TrackingInv : State → Type 0
TrackingInv s = (p : String) → IsHistory s p

AllListed-added :
    (c : Ctx) (x : NewEvent) (s : State) (p : String) (ids : List ℕ)
    → AllListed s p ids
    → AllListed (added c x s) p ids
      × ((kind : Symbol) → of_kind (added c x s) kind ids ≡ of_kind s kind ids)
AllListed-added c x s p [] h = (tt, λ kind. refl)
AllListed-added c x s p (i ∷ ids) (l, h) =
    let (k, e) = AllListed-added c x s p ids h in
    let same : (added c x s).event i ≡ some l.event = ground (arith, l.stored, l.past) in
    (
      (
        record {
          event = l.event;
          stored = same;
          numbered = l.numbered;
          of_product = l.of_product;
          past = omega (arith, l.past);
        },
        k,
      ),
      λ kind. ground (arith, same, l.stored, e kind),
    )

AllListed-push_back :
    (s : State) (p : String) (ids : List ℕ) (i : ℕ)
    → AllListed s p ids
    → IsListed s p i
    → AllListed s p (push_back ids i)
AllListed-push_back s p [] i h l = (l, tt)
AllListed-push_back s p (j ∷ ids) i (k, h) l = (k, AllListed-push_back s p ids i h l)

AllAbove-push_back :
    (i : ℕ) (ids : List ℕ) (n : ℕ) → AllAbove i ids → i < n → AllAbove i (push_back ids n)
AllAbove-push_back i [] n h l = (l, tt)
AllAbove-push_back i (j ∷ ids) n (k, h) l = (k, AllAbove-push_back i ids n h l)

-- The next number is above all that are listed.
IsRising-push_back :
    (s : State) (p : String) (ids : List ℕ)
    → AllListed s p ids
    → IsRising ids
    → IsRising (push_back ids (last_event s + 1))
IsRising-push_back s p [] l h = (tt, tt)
IsRising-push_back s p (i ∷ ids) (k, l) (a, h) = (
  AllAbove-push_back i ids (last_event s + 1) a (omega (arith, k.past)),
  IsRising-push_back s p ids l h,
)

of_kind-push_back :
    (s : State) (kind : Symbol) (ids : List ℕ) (i : ℕ) (e : TrackingEvent)
    → s.event i ≡ some e
    → of_kind s kind (push_back ids i)
      ≡ (if has_kind kind e then push_back (of_kind s kind ids) i else of_kind s kind ids)
of_kind-push_back s kind [] i e m = ground (arith, m)
of_kind-push_back s kind (j ∷ ids) i e m = ground (arith, of_kind-push_back s kind ids i e m)

-- A product that the event is not about.
added_other :
    (c : Ctx) (x : NewEvent) (s : State) (p : String)
    → str_eq x.product p ≡ false
    → IsHistory s p
    → IsHistory (added c x s) p
added_other c x s p d h =
    let ids = get_product_event_ids p s in
    let same : get_product_event_ids p (added c x s) ≡ ids = ground (arith, d) in
    let (k, e) = AllListed-added c x s p ids h.listed in
    record {
      rising = subst IsRising (sym same) h.rising;
      listed = subst (AllListed (added c x s) p) (sym same) k;
      indexed = λ kind j.
          let old : (added c x s).type_index p kind j ≡ s.type_index p kind j = ground (arith, d) in
          old
          ∙ h.indexed kind j
          ∙ ap (λ l. get_elem? l j) (sym (ap (of_kind (added c x s) kind) same ∙ e kind));
      counted = λ kind.
          let old : get_event_count_by_type p kind (added c x s)
              ≡ get_event_count_by_type p kind s =
            ground (arith, d) in
          old ∙ h.counted kind ∙ ap length (sym (ap (of_kind (added c x s) kind) same ∙ e kind));
    }

-- The index and the count of the product that the event is about.
index_own :
    (c : Ctx) (x : NewEvent) (s : State) (kind : Symbol) (j : ℕ)
    → str_eq x.product x.product ≡ true
    → s.type_index x.product kind j
      ≡ get_elem? (of_kind s kind (get_product_event_ids x.product s)) j
    → get_event_count_by_type x.product kind s
      ≡ length (of_kind s kind (get_product_event_ids x.product s))
    → (added c x s).type_index x.product kind j
      ≡ get_elem?
          (if str_eq x.kind kind
            then push_back (of_kind s kind (get_product_event_ids x.product s)) (last_event s + 1)
            else of_kind s kind (get_product_event_ids x.product s))
          j
index_own c x s kind j own i n = elim (Bool-cases (str_eq x.kind kind)) [
  | inl t ↦
      let l = of_kind s kind (get_product_event_ids x.product s) in
      let g = get_elem?-push_back l (last_event s + 1) j in
      let k : get_event_count_by_type x.product x.kind s ≡ length l =
        ap (λ t. get_event_count_by_type x.product t s) ((eq_iff x.kind kind).0 t) ∙ n in
      ground (arith, own, i, t, g, k)
  | inr t ↦ ground (arith, own, i, t)
]

count_own :
    (c : Ctx) (x : NewEvent) (s : State) (kind : Symbol)
    → str_eq x.product x.product ≡ true
    → get_event_count_by_type x.product kind s
      ≡ length (of_kind s kind (get_product_event_ids x.product s))
    → get_event_count_by_type x.product kind (added c x s)
      ≡ length (
          if str_eq x.kind kind
          then push_back (of_kind s kind (get_product_event_ids x.product s)) (last_event s + 1)
          else of_kind s kind (get_product_event_ids x.product s))
count_own c x s kind own n = elim (Bool-cases (str_eq x.kind kind)) [
  | inl t ↦
      let l = of_kind s kind (get_product_event_ids x.product s) in
      let g = length-push_back l (last_event s + 1) in
      let k : get_event_count_by_type x.product x.kind s ≡ length l =
        ap (λ t. get_event_count_by_type x.product t s) ((eq_iff x.kind kind).0 t) ∙ n in
      ground (arith, own, t, g, k)
  | inr t ↦ ground (arith, own, n, t)
]

-- The product that the event is about.
added_own :
    (c : Ctx) (x : NewEvent) (s : State) → IsHistory s x.product → IsHistory (added c x s) x.product
added_own c x s h =
    let p = x.product in
    let s' : State = added c x s in
    let ids = get_product_event_ids p s in
    let n = last_event s + 1 in
    let own : str_eq p p ≡ true = (eq_iff p p).1 refl in
    let new : s'.event n ≡ some (event_of c x s) = ground arith in
    let same : get_product_event_ids p s' ≡ push_back ids n = ground (arith, own) in
    let (k, e) = AllListed-added c x s p ids h.listed in
    let it : IsListed s' p n = record {
      event = event_of c x s;
      stored = new;
      numbered = refl;
      of_product = refl;
      past = omega arith;
    } in
    let kinds : (kind : Symbol)
        → of_kind s' kind (get_product_event_ids p s')
          ≡ (if str_eq x.kind kind then push_back (of_kind s kind ids) n else of_kind s kind ids) =
      λ kind.
        ap (of_kind s' kind) same
        ∙ of_kind-push_back s' kind ids n (event_of c x s) new
        ∙ ap (λ l. if str_eq x.kind kind then push_back l n else l) (e kind) in
    record {
      rising = subst IsRising (sym same) (IsRising-push_back s p ids h.listed h.rising);
      listed = subst (AllListed s' p) (sym same) (AllListed-push_back s' p ids n k it);
      indexed = λ kind j.
          index_own c x s kind j own (h.indexed kind j) (h.counted kind)
          ∙ ap (λ l. get_elem? l j) (sym (kinds kind));
      counted = λ kind. count_own c x s kind own (h.counted kind) ∙ ap length (sym (kinds kind));
    }

pub added-TrackingInv :
    (c : Ctx) (x : NewEvent) (s : State) → TrackingInv s → TrackingInv (added c x s)
added-TrackingInv c x s h p = elim (Bool-cases (str_eq x.product p)) [
  | inl t ↦
      subst (IsHistory (added c x s)) ((eq_iff x.product p).0 t) (added_own c x s (h x.product))
  | inr t ↦ added_other c x s p t (h p)
]
