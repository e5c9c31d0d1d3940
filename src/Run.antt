-- ===== src/Run.antt =====
-- Rust code that may panic: a call returns a value or panics. The second half is a logic of partial
-- correctness for chains of such calls.
use mathlib.Core.Path.{subst}
use beeper.Prelude.{◌≡◌, refl}

-- The panics of the modelled code, by the `assert!`, `panic!` or checked operation that raises them.
pub data Panic : Type 0 where
  state_overflow conflicting_transition conflicting_action : Panic
  state_not_found edge_not_found empty_range empty_option : Panic
  unsupported_name out_of_bounds unencodable no_ipv6 : Panic

pub data Run {ℓ} (A : Type ℓ) : Type ℓ where
  returns : A → Run A
  panics : Panic → Run A

infixl 5 ◌>>=◌
abbrev pub ◌>>=◌ {ℓ κ} : {A : Type ℓ} {B : Type κ} → Run A → (A → Run B) → Run B
returns a >>= f = f a
panics p >>= f = panics p

pub returns-eq {ℓ} : {A : Type ℓ} {a b : A} → returns a ≡ returns b → a ≡ b
returns-eq h = cc

-- Inversion of a bind that returned.
pub >>=-eq-returns {ℓ κ} :
    {A : Type ℓ} {B : Type κ} (m : Run A) (f : A → Run B) {b : B}
    → (m >>= f) ≡ returns b
    → (a : A) × (m ≡ returns a) × (f a ≡ returns b)
>>=-eq-returns (returns a) f h = (a, refl, h)
>>=-eq-returns (panics p) f h = cc

pub >>=-assoc {ℓ κ μ} :
    {A : Type ℓ} {B : Type κ} {C : Type μ} (m : Run A) (f : A → Run B) (g : B → Run C)
    → (m >>= (λ a. f a >>= g)) ≡ ((m >>= f) >>= g)
>>=-assoc (returns a) f g = refl
>>=-assoc (panics p) f g = refl

-- The panics that a caller can bring about by what it asks for. The others guard a lookup or an
-- index that the code takes to be there.
abbrev pub IsCallers : Panic → Type 0
IsCallers state_not_found = ⊥
IsCallers edge_not_found = ⊥
IsCallers unsupported_name = ⊥
IsCallers out_of_bounds = ⊥
IsCallers _ = Unit

-- If the call returns, what it returns satisfies `P`; if it panics, the caller brought it about.
pub record Ensures {ℓ κ} {A : Type ℓ} (P : A → Type κ) (m : Run A) : Type (ℓ ⊔ κ) where
  pub post : (a : A) → m ≡ returns a → P a
  pub fault : (p : Panic) → m ≡ panics p → IsCallers p

module _ {ℓ κ} {A : Type ℓ} (P : A → Type κ) where
  pub Ensures-returns : (a : A) → P a → Ensures P (returns a)
  Ensures-returns a p = record { post = λ b h. subst P (cc) p; fault = λ q h. cc }

  pub Ensures-panics : (p : Panic) → IsCallers p → Ensures P (panics p)
  Ensures-panics p c = record { post = λ a h. cc; fault = λ q h. subst IsCallers (cc) c }

  pub Ensures-mono {μ} :
      (Q : A → Type μ) (m : Run A) → Ensures P m → ((a : A) → P a → Q a) → Ensures Q m
  Ensures-mono Q m hm h = record { post = λ a e. h a (hm.post a e); fault = hm.fault }

module _ {ℓ κ μ ν} {A : Type ℓ} {B : Type κ} (P : A → Type μ) (Q : B → Type ν) where
  pub Ensures-bind :
      (m : Run A) (f : A → Run B)
      → Ensures P m
      → ((a : A) → P a → Ensures Q (f a))
      → Ensures Q (m >>= f)
  Ensures-bind (returns a) f hm hf = hf a (hm.post a refl)
  Ensures-bind (panics p) f hm hf = Ensures-panics Q p (hm.fault p refl)

-- The call returns, and what it returns satisfies `P`.
pub record Returns {ℓ κ} {A : Type ℓ} (P : A → Type κ) (m : Run A) : Type (ℓ ⊔ κ) where
  pub value : A
  pub run : m ≡ returns value
  pub post : P value

module _ {ℓ κ} {A : Type ℓ} (P : A → Type κ) where
  pub Returns-returns : (a : A) → P a → Returns P (returns a)
  Returns-returns a p = record { value = a; run = refl; post = p }

  pub Returns-mono {μ} :
      (Q : A → Type μ) (m : Run A) → Returns P m → ((a : A) → P a → Q a) → Returns Q m
  Returns-mono Q m hm h = record { value = hm.value; run = hm.run; post = h hm.value hm.post }

module _ {ℓ κ μ ν} {A : Type ℓ} {B : Type κ} (P : A → Type μ) (Q : B → Type ν) where
  pub Returns-bind :
      (m : Run A) (f : A → Run B)
      → Returns P m
      → ((a : A) → P a → Returns Q (f a))
      → Returns Q (m >>= f)
  Returns-bind m f hm hf = rw hm.run (hf hm.value hm.post)
