-- ===== src/Ontology/Fault.antt =====
-- What a validator gives: a value, or the exception that it raises.
use imprint.Base.{String, ◌≡◌, refl, Bool, true, false, not}

-- `ValidationError` with its message (without the lists of names that some messages end in), and
-- the two exceptions that Python itself raises at a missing key and at an unhashable member.
pub data Fault : Type 0 where
  validation_error : String → Fault
  key_error : String → Fault
  type_error : Fault

pub data Checked {ℓ} (A : Type ℓ) : Type ℓ where
  ok : A → Checked A
  err : Fault → Checked A

infixl 5 ◌>>=◌
abbrev pub ◌>>=◌ {ℓ κ} : {A : Type ℓ} {B : Type κ} → Checked A → (A → Checked B) → Checked B
err refusal >>= next = err refusal
ok value >>= next = next value

infixl 5 ◌>>◌
abbrev pub ◌>>◌ {ℓ κ} : {A : Type ℓ} {B : Type κ} → Checked A → Checked B → Checked B
check >> next = check >>= (λ u. next)

-- `if not condition: raise ValidationError(message)`
abbrev pub demand : Bool → String → Checked (Unit {0})
demand true message = ok tt
demand false message = err (validation_error message)

-- `if condition: raise ValidationError(message)`
abbrev pub refuse_if : Bool → String → Checked (Unit {0})
refuse_if condition message = demand (not condition) message

abbrev pub is_ok {ℓ} : {A : Type ℓ} → Checked A → Bool
is_ok (ok a) = true
is_ok (err e) = false

module _ {ℓ κ} {A : Type ℓ} {B : Type κ} where
  -- inversion of a block that gave a value
  pub >>=-eq-ok :
      (first : Checked A) (next : A → Checked B) {last : B}
      → (first >>= next) ≡ ok last
      → (value : A) × (first ≡ ok value) × (next value ≡ ok last)
  >>=-eq-ok (err refusal) next done = cc
  >>=-eq-ok (ok value) next done = (value, refl, done)

pub demand-ok : (b : Bool) (message : String) {u : Unit {0}} → demand b message ≡ ok u → b ≡ true
demand-ok true message h = refl
demand-ok false message h = cc

module _ {ℓ} {B : Type ℓ} where
  -- a check that was passed, and what comes after it
  pub demand->>-ok :
      (b : Bool) (message : String) (k : Checked B) {x : B}
      → (demand b message >> k) ≡ ok x
      → (b ≡ true) × (k ≡ ok x)
  demand->>-ok true message k h = (refl, h)
  demand->>-ok false message k h = cc
