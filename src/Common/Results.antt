-- ===== src/Common/Results.antt =====
-- What a function of the source returns beside an error: a value, or the error.
use mathlib.Core.Path.{◌≡◌, refl, ap, ◌∙◌}
use mathlib.Core.Bool.{Bool, true, false}

pub data Result {ℓ} (E : Type 0) (A : Type ℓ) : Type ℓ where
  err : E → Result E A
  ok : A → Result E A

module _ {E : Type 0} where
  infixl 5 ◌>>=◌ ◌>>◌
  abbrev pub ◌>>=◌ {ℓ κ} :
      {A : Type ℓ} {C : Type κ} (first : Result E A) (next : A → Result E C) → Result E C
  err why >>= next = err why
  ok x >>= next = next x

  abbrev pub ◌>>◌ {ℓ} : {C : Type ℓ} (first : Result E (Unit {0})) (next : Result E C) → Result E C
  first >> next = first >>= (λ _. next)

  -- An early return with an error, unless a test holds.
  abbrev pub guard : (passed : Bool) (why : E) → Result E (Unit {0})
  guard false why = err why
  guard true why = ok tt

  -- The value of a first step whose chain has succeeded.
  pub >>=-eq-ok {ℓ κ} :
      {A : Type ℓ} {C : Type κ} (first : Result E A) (next : A → Result E C) {c : C}
      → (first >>= next) ≡ ok c
      → (x : A) × (first ≡ ok x) × (next x ≡ ok c)
  >>=-eq-ok (err why) next done = absurd cc
  >>=-eq-ok (ok x) next done = (x, refl, done)

  pub guard-eq-ok :
      (passed : Bool) (why : E) {u : Unit {0}} → guard passed why ≡ ok u → passed ≡ true
  guard-eq-ok false why done = absurd cc
  guard-eq-ok true why done = refl

  -- A chain whose first step succeeds goes on with its value.
  pub >>=-ok {ℓ κ} :
      {A : Type ℓ} {C : Type κ} (first : Result E A) (next : A → Result E C) {x : A}
      {done : Result E C}
      → first ≡ ok x
      → next x ≡ done
      → (first >>= next) ≡ done
  >>=-ok first next step rest = ap (λ m. m >>= next) step ∙ rest

  pub guard-ok : (passed : Bool) (why : E) → passed ≡ true → guard passed why ≡ ok tt
  guard-ok false why p = absurd cc
  guard-ok true why p = refl

  abbrev or_value {ℓ} : {A : Type ℓ} → A → Result E A → A
  or_value a (ok b) = b
  or_value a (err e) = a

  pub ok-inj {ℓ} : {A : Type ℓ} {a b : A} → ◌≡◌ {A = Result E A} (ok a) (ok b) → a ≡ b
  ok-inj {a = a} h = ap (or_value a) h
