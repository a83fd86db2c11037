-- ===== src/Authority/Error.antt =====
-- The refusals of authority/challenge.py and authority/ledger.py, each `ValidationError` and
-- `ConflictError` of the source under a name of its own.
use imprint.Base.{◌≡◌, refl, Bool, true, false}

pub data Refusal : Type 0 where
  empty_field not_a_digest bad_list : Refusal
  unsupported_contract bad_sequence bad_nonce bad_expiry bad_ttl : Refusal
  no_single_active_key other_operator missing_key_binding : Refusal
  nonce_or_operation_collision : Refusal
  no_transaction not_the_exact_mutation other_installation stale_sequence : Refusal
  nonce_not_issued nonce_consumed not_currently_valid bad_signature : Refusal
  operation_exists consumed_concurrently : Refusal
  no_command digest_mismatch operation_prepared : Refusal
  not_prepared not_pending other_command prepared_expired mutation_changed corrupt_digest
        corrupt_storage :
      Refusal
  fields_not_bound already_executed : Refusal

pub data Result {ℓ} (A : Type ℓ) : Type ℓ where
  ok : A → Result A
  err : Refusal → Result A

infixl 5 ◌>>=◌
abbrev pub ◌>>=◌ {ℓ κ} : {A : Type ℓ} {B : Type κ} → Result A → (A → Result B) → Result B
err refusal >>= next = err refusal
ok value >>= next = next value

infixl 5 ◌>>◌
abbrev pub ◌>>◌ {ℓ} : {B : Type ℓ} → Result (Unit {0}) → Result B → Result B
check >> next = check >>= (λ u. next)

-- `if not condition: raise`
abbrev pub demand : Bool → Refusal → Result (Unit {0})
demand true e = ok tt
demand false e = err e

module _ {ℓ κ} {A : Type ℓ} {B : Type κ} where
  pub >>=-eq-ok :
      (first : Result A) (next : A → Result B) {last : B}
      → (first >>= next) ≡ ok last
      → (value : A) × (first ≡ ok value) × (next value ≡ ok last)
  >>=-eq-ok (err refusal) next done = cc
  >>=-eq-ok (ok value) next done = (value, refl, done)

pub demand-ok : (b : Bool) (e : Refusal) {u : Unit {0}} → demand b e ≡ ok u → b ≡ true
demand-ok true e h = refl
demand-ok false e h = cc

module _ {ℓ} {B : Type ℓ} where
  -- a check that was passed, and what comes after it
  pub demand->>-ok :
      (b : Bool) (e : Refusal) (k : Result B) {x : B}
      → (demand b e >> k) ≡ ok x
      → (b ≡ true) × (k ≡ ok x)
  demand->>-ok true e k h = (refl, h)
  demand->>-ok false e k h = cc
