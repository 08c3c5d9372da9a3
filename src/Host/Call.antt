-- ===== src/Host/Call.antt =====
-- A contract call: the context that the host hands it, its outcome, and the steps it is made of.
use chain_logistics.Base.{
  ◌≡◌, refl, ◌⊎◌, inl, arith, [], ◌∷◌, ℕ, ◌+◌, Bool, true, false, Option, none, some, String, List,
  leb, ◌==◌, str_eq, if◌then◌else◌,
}
use chain_logistics.Host.Errors.{Error}

-- Addresses are opaque to the contracts, which only compare them.
abbrev pub Address : Type 0
Address = ℕ

-- Short texts that name functions, kinds and feeds; only compared.
abbrev pub Symbol : Type 0
Symbol = String

-- `Env`: the ledger's time, the contract's own address, and the addresses that have authorised
-- this invocation, on which `require_auth` returns.
pub record Ctx : Type 0 where
  pub timestamp : ℕ
  pub current_contract_address : Address
  pub authorized : Address → Bool

-- `trap` is a panic: a failed `require_auth`, an overflow under `overflow-checks = true`, or a
-- failed cross-contract call.
pub data Outcome {ℓ} (A : Type ℓ) : Type ℓ where
  ok : A → Outcome A
  err : Error → Outcome A
  trap : Outcome A

-- The error code that a call returns.
abbrev pub error_of {ℓ} : {A : Type ℓ} → Outcome A → Option Error
error_of (ok _) = none
error_of (err e) = some e
error_of trap = none

-- A handler on the contract's state `S`. What was written before an error stays written here; the
-- host's rollback is not part of the contract.
abbrev pub Call : Type 0 → Type 0 → Type 0
Call S A = S → Outcome A × S

infixl 5 ◌>>=◌ ◌>>◌
abbrev pub ◌>>=◌ : {S A B : Type 0} → Call S A → (A → Call S B) → Call S B
◌>>=◌ m f s =
    let (r, s') = m s in elim r [ ok a ↦ f a s' | err e ↦ (err e, s') | trap ↦ (trap, s') ]

abbrev pub ◌>>◌ : {S A B : Type 0} → Call S A → Call S B → Call S B
m >> k = m >>= λ _. k

-- A call that succeeds goes on.
pub bind_ok :
    {S A B : Type 0} (m : Call S A) (f : A → Call S B) (s s' : S) {a : A}
    → m s ≡ (ok a, s')
    → (m >>= f) s ≡ f a s'
bind_ok m f s s' e = ground (arith, e)

pub if_true : {A : Type 0} {b : Bool} (x y : A) → b ≡ true → (if b then x else y) ≡ x
if_true x y e = ground (arith, e)

pub if_false : {A : Type 0} {b : Bool} (x y : A) → b ≡ false → (if b then x else y) ≡ y
if_false x y e = ground (arith, e)

module _ {S : Type 0} where
  abbrev pub pure : {A : Type 0} → A → Call S A
  pure a s = (ok a, s)

  -- `return Err(e)`
  abbrev pub fail : {A : Type 0} → Error → Call S A
  fail e s = (err e, s)

  -- `if b { return Err(e); }`
  abbrev pub fail_if : Bool → Error → Call S (Unit {0})
  fail_if b e s = (if b then err e else ok tt, s)

  -- `o.ok_or(e)?`
  abbrev pub ok_or : {A : Type 0} → Option A → Error → Call S A
  ok_or none e s = (err e, s)
  ok_or (some a) e s = (ok a, s)

  abbrev pub gets : {A : Type 0} → (S → A) → Call S A
  gets f s = (ok (f s), s)

  abbrev pub modify : (S → S) → Call S (Unit {0})
  modify f s = (ok tt, f s)

  -- `a.require_auth()`
  abbrev pub require_auth : Ctx → Address → Call S (Unit {0})
  require_auth c a s = (if c.authorized a then ok tt else trap, s)

  -- `for signer in signers.iter() { signer.require_auth(); }`
  unfoldable pub require_all : Ctx → List Address → Call S (Unit {0})
  require_all c [] = pure tt
  require_all c (signer ∷ rest) = let others = require_all c rest in require_auth c signer >> others

  -- Authorisations either all stand or the call panics; the state stays as it is.
  pub require_all_cases :
      (c : Ctx) (signers : List Address) (s : S)
      → (require_all c signers s ≡ (ok tt, s)) ⊎ (require_all c signers s ≡ (trap, s))
  unfolding require_all
  require_all_cases c [] s = inl refl
  require_all_cases c (a ∷ rest) s = ground (arith, require_all_cases c rest s)

  -- `a + b` on `u64`, with overflow checks on
  abbrev pub add_u64 : ℕ → ℕ → Call S ℕ
  add_u64 a b s = (if leb (a + b) 18446744073709551615 then ok (a + b) else trap, s)

-- The state after an invocation: the host takes back what a failed one has written.
abbrev pub committed : {S A : Type 0} → Call S A → S → S
committed m s = let (r, s') = m s in elim r [ ok _ ↦ s' | err _ ↦ s | trap ↦ s ]

-- `u64::checked_add`
abbrev pub checked_add_u64 : ℕ → ℕ → Option ℕ
checked_add_u64 a b = if leb (a + b) 18446744073709551615 then some (a + b) else none

-- Storage under a family of keys `K(u64)` or `K(Address)`.
abbrev pub Storage : Type 0 → Type 0
Storage V = ℕ → Option V

abbrev pub put : {V : Type 0} → ℕ → V → Storage V → Storage V
put k v m j = if k == j then some v else m j

-- Storage under a family of keys `K(String)` or `K(Symbol)`.
abbrev pub Keyed : Type 0 → Type 0
Keyed V = String → Option V

abbrev pub put_at : {V : Type 0} → String → V → Keyed V → Keyed V
put_at k v m j = if str_eq k j then some v else m j

-- `get(..).unwrap_or(d)`
abbrev pub unwrap_or {ℓ} : {A : Type ℓ} → Option A → A → A
unwrap_or none d = d
unwrap_or (some a) d = a

-- `BytesN<32>` and `Bytes`.
abbrev pub Bytes : Type 0
Bytes = List ℕ

pub ok_or_state : {S A : Type 0} (o : Option A) (e : Error) (s : S) → (ok_or o e s).1 ≡ s
ok_or_state none e s = refl
ok_or_state (some a) e s = refl

-- A property of the state that a successful call has is kept, since a failed one is taken back.
pub committed-keeps :
    {S A : Type 0} (P : S → Type 0) (m : Call S A) (s : S)
    → P s
    → ((a : A) → (m s).0 ≡ ok a → P (m s).1)
    → P (committed m s)
committed-keeps {A = A} P m s h k = go (m s).0 refl
  where
    go : (r : Outcome A) → (m s).0 ≡ r → P (elim r [ ok _ ↦ (m s).1 | err _ ↦ s | trap ↦ s ])
    go (ok a) e = k a e
    go (err _) e = h
    go trap e = h

-- Where two calls in sequence succeed, the first does, and the second from the state it leaves.
pub bind_sound :
    {S A B : Type 0} (m : Call S A) (f : A → Call S B) (s : S) {b : B}
    → ((m >>= f) s).0 ≡ ok b
    → (a : A) × ((m s).0 ≡ ok a) × ((m >>= f) s ≡ f a (m s).1)
bind_sound {S = S} {A = A} {B = B} m f s {b} h = go (m s).0 refl h
  where
    then_f : Outcome A → Outcome B × S
    then_f r = elim r [ ok a ↦ f a (m s).1 | err e ↦ (err e, (m s).1) | trap ↦ (trap, (m s).1) ]

    go :
        (r : Outcome A)
        → (m s).0 ≡ r
        → (then_f r).0 ≡ ok b
        → (a : A) × ((m s).0 ≡ ok a) × (then_f r ≡ f a (m s).1)
    go (ok a) e k = (a, e, refl)
    go (err x) e k = absurd (ground (arith, k))
    go trap e k = absurd (ground (arith, k))
