-- ===== src/Prelude/Outcomes.antt =====
-- Early returns: a computation that returns a value or ends with a reply.
use captivo_access.Prelude.{◌≡◌, refl, ap, Bool, true, false, Option, none, some}

pub data Outcome (R : Type 0) (A : Type 0) : Type 0 where
  returns : A → Outcome R A
  replies : R → Outcome R A

module _ {R : Type 0} where
  infixl 5 ◌>>=◌ ◌>>◌
  unfoldable pub ◌>>=◌ : {A B : Type 0} → Outcome R A → (A → Outcome R B) → Outcome R B
  returns a >>= f = f a
  replies r >>= f = replies r

  abbrev pub ◌>>◌ : {B : Type 0} → Outcome R (Unit {0}) → Outcome R B → Outcome R B
  m >> k = m >>= λ _. k

  -- `if (!test) return r;`.
  abbrev pub require : Bool → R → Outcome R (Unit {0})
  require true r = returns tt
  require false r = replies r

  -- `if (!x) return r;` for what may be absent.
  abbrev pub present : {A : Type 0} → Option A → R → Outcome R A
  present (some a) r = returns a
  present none r = replies r

  -- `if (e) return f(e);`.
  abbrev pub report_error : {A : Type 0} → Option A → (A → R) → Outcome R (Unit {0})
  report_error none f = returns tt
  report_error (some e) f = replies (f e)

  returned : {A : Type 0} → A → Outcome R A → A
  returned a (returns b) = b
  returned a (replies r) = a

  pub returns-injective :
      {A : Type 0} {a b : A} → ◌≡◌ {A = Outcome R A} (returns a) (returns b) → a ≡ b
  unfolding returned
  returns-injective {a} e = ap (returned a) e

  -- What the computation returns, if it returns, satisfies `P`.
  unfoldable pub Yields : {A : Type 0} → (A → Type 0) → Outcome R A → Type 0
  Yields P (returns a) = P a
  Yields P (replies r) = Unit

  pub Yields-bind :
      {A B : Type 0} (P : B → Type 0) (m : Outcome R A) (f : A → Outcome R B)
      → ((a : A) → m ≡ returns a → Yields P (f a))
      → Yields P (m >>= f)
  unfolding ◌>>=◌ Yields
  Yields-bind P (returns a) f h = h a refl
  Yields-bind P (replies r) f h = tt

  pub Yields-returns :
      {A : Type 0} (P : A → Type 0) (m : Outcome R A) {a : A} → Yields P m → m ≡ returns a → P a
  unfolding Yields
  Yields-returns P (returns b) y e = rw (returns-injective e) at y
  Yields-returns P (replies r) y e = absurd cc

  pub require-eq-returns : (b : Bool) (r : R) {u : Unit {0}} → require b r ≡ returns u → b ≡ true
  require-eq-returns true r h = refl
  require-eq-returns false r h = absurd cc

  pub report_error-eq-returns :
      {A : Type 0} (o : Option A) (f : A → R) {u : Unit {0}}
      → report_error o f ≡ returns u
      → o ≡ none
  report_error-eq-returns none f h = refl
  report_error-eq-returns (some e) f h = absurd cc

  pub present-eq-returns :
      {A : Type 0} (o : Option A) (r : R) {a : A} → present o r ≡ returns a → o ≡ some a
  present-eq-returns none r e = absurd cc
  present-eq-returns (some b) r e = ap some (returns-injective e)
