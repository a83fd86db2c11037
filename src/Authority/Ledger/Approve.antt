-- ===== src/Authority/Ledger/Approve.antt =====
-- From `issue_challenge` to `verify_and_consume` of authority/ledger.py: the approval of a
-- challenge that was just issued.
use mathlib.Core.Path.{subst}
use imprint.Base.{
  ℕ, ◌+◌, ◌*◌, ◌≤◌, ◌<◌, String, ◌≡◌, refl, sym, true, false, ◌&&◌, Option, none, ◌∷◌, arith, ltb,
  leb, pos, eqbℤ,
}
use imprint.Base.{str_eq_refl}
use imprint.Authority.Error.{ok}
use imprint.Authority.Request.{ChallengeRequest, validate_request, same_request_refl}
use imprint.Authority.Challenge.{Challenge, new_challenge, validate_challenge_shape, second}
use imprint.Authority.Ledger.{
  Binding, Tables, Crypto, active_binding, head_or_zero, find_row, new_row, provenance_exists,
  issue_challenge, verify_and_consume,
}
use imprint.Authority.Ledger.Issue.{issue_challenge-Issued, open_rows-fresh}

eqbℤ_refl : (n : ℕ) → eqbℤ (pos n) (pos n) ≡ true
eqbℤ_refl n = ground arith

module _ (crypto : Crypto) where
  -- the tables behind an issued challenge
  abbrev with_challenge : Tables → Challenge → Tables
  with_challenge t c = record t { challenges = new_row crypto c ∷ t.challenges }

  bound-kept :
      (t : Tables) (c : Challenge) (operator : Option String) (b : Binding)
      → active_binding t operator ≡ ok b
      → active_binding (with_challenge t c) operator ≡ ok b
  unfolding active_binding
  bound-kept t c operator b h = h

  approve-new :
      (t : Tables) (request : ChallengeRequest) (operator : Option String) (b : Binding)
      (ttl now later : ℕ) (nonce signature id : String)
      → let c =
          new_challenge request b.operator_id b.install_id b.key_id b.store_identity
            (pos (head_or_zero t.head))
            ttl
            now
            nonce in
        t.in_transaction ≡ true
        → validate_challenge_shape c ≡ ok tt
        → validate_request request ≡ ok tt
        → active_binding (with_challenge t c) operator ≡ ok b
        → find_row (crypto.sha256 nonce) t.challenges ≡ none
        → (leb now later && ltb later (now + ttl * second)) ≡ true
        → crypto.verifies b.public_key signature c ≡ true
        → provenance_exists id request.operation_id t.provenance ≡ false
        → (t2 : Tables) × (verify_and_consume crypto
              (with_challenge t c)
              c
              signature
              request
              operator
              later
              id
            ≡ ok t2)
  unfolding verify_and_consume
  approve-new t request operator b ttl now later nonce signature id h1 h2 h3 h4 h5 h6 h7 h8 =
      rw
        (
          h4,
          h2,
          h3,
          h1,
          same_request_refl request,
          str_eq_refl b.operator_id,
          str_eq_refl b.install_id,
          str_eq_refl b.key_id,
          str_eq_refl b.store_identity,
          eqbℤ_refl (head_or_zero t.head),
          str_eq_refl (crypto.sha256 nonce),
        )
        (rw
          (
            str_eq_refl (
                crypto.sha256 (
                  crypto.canonical (
                    new_challenge request b.operator_id b.install_id b.key_id b.store_identity
                      (pos (head_or_zero t.head)) ttl now nonce))),
            str_eq_refl request.operation_id,
            h6,
            h7,
            h8,
            open_rows-fresh crypto (crypto.sha256 nonce) t.challenges h5,
          )
          (_, refl))

  -- A challenge that was issued in a transaction is accepted from its issue until its time is over: the
  -- approval with a signature of the installation's key, for the request that it was issued for and a
  -- new provenance identifier, of an operation that has none, gives the tables of the mutation.
  pub issued-approved :
      (t : Tables) (request : ChallengeRequest) (operator : Option String) (ttl now : ℕ)
      (nonce : String) (c : Challenge) (b : Binding) (t' : Tables) (later : ℕ)
      (signature id : String)
      → issue_challenge crypto t request operator ttl now nonce ≡ ok (c, b, t')
      → t.in_transaction ≡ true
      → now ≤ later
      → later < now + ttl * second
      → crypto.verifies b.public_key signature c ≡ true
      → provenance_exists id request.operation_id t.provenance ≡ false
      → (t2 : Tables) × (verify_and_consume crypto t' c signature request operator later id ≡ ok t2)
  issued-approved t request operator ttl now nonce c b t' later signature id h open_ early soon
        signed fresh =
      let i = issue_challenge-Issued crypto t request operator ttl now nonce c b t' h in
      let new =
        new_challenge request b.operator_id b.install_id b.key_id b.store_identity
          (pos (head_or_zero t.head)) ttl now nonce in
      let done =
        approve-new t request operator b ttl now later nonce signature id open_
          (subst (λ x. validate_challenge_shape x ≡ ok tt) i.built.same i.built.shaped)
          i.built.valid (bound-kept t new operator b i.bound) i.fresh (ground (arith, early, soon))
          (subst (λ x. crypto.verifies b.public_key signature x ≡ true) i.built.same signed)
          fresh in
      rw i.inserted (
        subst
          (λ x.
            (t2 : Tables) × (verify_and_consume crypto (with_challenge t x) x signature request
                operator later id
              ≡ ok t2))
          (sym i.built.same) done)
