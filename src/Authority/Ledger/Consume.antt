-- ===== src/Authority/Ledger/Consume.antt =====
-- `verify_and_consume` of authority/ledger.py: the conditions of an accepted approval, and the row
-- that it leaves.
use imprint.Base.{
  ℕ, ◌≤◌, ◌<◌, String, ◌≡◌, refl, ◌≢◌, true, false, not, ◌&&◌, Option, none, some, List, [], ◌∷◌,
  arith, ltb, leb, ◌==◌, str_eq, str_eq_iff, pos, eqbℤ, eqbℤ-eq,
}
use imprint.Authority.Error.{ok, >>=-eq-ok, demand->>-ok}
use imprint.Authority.Request.{ChallengeRequest, validate_request, same_request, same_request-eq}
use imprint.Authority.Challenge.{Challenge, validate_challenge_shape}
use imprint.Authority.Ledger.{
  Binding, ChallengeRow, Tables, Crypto, active_binding, head_or_zero, find_row, is_some,
  mark_consumed, open_rows, provenance_exists, issued_here, verify_and_consume,
}

find_row-mark_self :
    (sha : String) (now : ℕ) (id : String) (rows : List ChallengeRow) (r : ChallengeRow)
    → find_row sha rows ≡ some r
    → r.consumed_at ≡ none
    → find_row sha (mark_consumed sha now id rows)
      ≡ some (record r { consumed_at = some now; consumed_provenance_id = some id })
find_row-mark_self sha now id [] r h k = cc
find_row-mark_self sha now id (x ∷ xs) r h k = ground (arith, find_row-mark_self sha now id xs r)

find_row-mark_other :
    (sha other : String) (now : ℕ) (id : String) (rows : List ChallengeRow)
    → sha ≢ other
    → find_row other (mark_consumed sha now id rows) ≡ find_row other rows
find_row-mark_other sha other now id [] h = refl
find_row-mark_other sha other now id (x ∷ xs) h = ground (
  arith,
  find_row-mark_other sha other now id xs,
  str_eq_iff x.nonce_sha256 sha,
  str_eq_iff x.nonce_sha256 other,
)

-- a consumed row stays as it is
find_row-mark_consumed :
    (sha other : String) (now : ℕ) (id : String) (rows : List ChallengeRow) (r : ChallengeRow)
    → find_row other rows ≡ some r
    → is_some r.consumed_at ≡ true
    → find_row other (mark_consumed sha now id rows) ≡ some r
find_row-mark_consumed sha other now id [] r h k = cc
find_row-mark_consumed sha other now id (x ∷ xs) r h k =
    ground (arith, find_row-mark_consumed sha other now id xs r)

unused_none : (o : Option ℕ) → not (is_some o) ≡ true → o ≡ none
unused_none none h = refl
unused_none (some n) h = cc

module _ (crypto : Crypto) where
  -- what holds where an approval is accepted
  pub record Accepted (t : Tables) (c : Challenge) (signature : String)
      (expected : ChallengeRequest) (operator : Option String) (now : ℕ) (id : String) (t' : Tables)
      : Type 0 where
    pub transaction : t.in_transaction ≡ true
    pub exact : c.request ≡ expected
    pub binding : Binding
    pub bound : active_binding t operator ≡ ok binding
    pub same_operator : c.operator_id ≡ binding.operator_id
    pub same_install : c.install_id ≡ binding.install_id
    pub same_key : c.key_id ≡ binding.key_id
    pub same_store : c.store_identity ≡ binding.store_identity
    pub current : c.ledger_sequence ≡ pos (head_or_zero t.head)
    pub row : ChallengeRow
    pub issued : find_row (crypto.sha256 c.nonce) t.challenges ≡ some row
    pub same_challenge : row.challenge_sha256 ≡ crypto.sha256 (crypto.canonical c)
    pub unused : row.consumed_at ≡ none
    pub in_time : (c.issued_at ≤ now) × (now < c.expires_at)
    pub signed : crypto.verifies binding.public_key signature c ≡ true
    pub new_operation : provenance_exists id expected.operation_id t.provenance ≡ false
    pub marked : t'.challenges ≡ mark_consumed (crypto.sha256 c.nonce) now id t.challenges

  issued_here-ok :
      (c : Challenge) (o : Option ChallengeRow) (r : ChallengeRow)
      → issued_here crypto c o ≡ ok r
      → (o ≡ some r) × (r.challenge_sha256 ≡ crypto.sha256 (crypto.canonical c))
  issued_here-ok c none r h = cc
  issued_here-ok c (some x) r h =
      ground (arith, str_eq_iff x.challenge_sha256 (crypto.sha256 (crypto.canonical c)))

  module _ (t : Tables) (c : Challenge) (signature : String) (expected : ChallengeRequest)
      (operator : Option String) (now : ℕ) (id : String) {t' : Tables}
      (done : verify_and_consume crypto t c signature expected operator now id ≡ ok t') where
    -- An approval is accepted only in a transaction, for exactly the request of its challenge, under the
    -- one active key and its installation, at the head of the ledger, for a challenge that this store
    -- issued and did not consume, within its time, with a signature of the key, for a new operation; and
    -- it marks the challenge.
    pub accepted : Accepted t c signature expected operator now id t'
    unfolding verify_and_consume
    accepted =
        let (transaction, h1) = demand->>-ok t.in_transaction _ _ done in
        let (u2, e2, h2) = >>=-eq-ok (validate_challenge_shape c) _ h1 in
        let (u3, e3, h3) = >>=-eq-ok (validate_request expected) _ h2 in
        let (same, h4) = demand->>-ok (same_request c.request expected) _ _ h3 in
        let (b, bound, h5) = >>=-eq-ok (active_binding t operator) _ h4 in
        let (ids, h6) =
          demand->>-ok
            (str_eq c.operator_id b.operator_id
              && str_eq c.install_id b.install_id
              && str_eq c.key_id b.key_id
              && str_eq c.store_identity b.store_identity)
            _ _ h5 in
        let (sequence, h7) =
          demand->>-ok (eqbℤ c.ledger_sequence (pos (head_or_zero t.head))) _ _ h6 in
        let (row, e8, h8) =
          >>=-eq-ok (issued_here crypto c (find_row (crypto.sha256 c.nonce) t.challenges)) _ h7 in
        let (unused, h9) = demand->>-ok (not (is_some row.consumed_at)) _ _ h8 in
        let (in_time, h10) = demand->>-ok (leb c.issued_at now && ltb now c.expires_at) _ _ h9 in
        let (signed, h11) = demand->>-ok (crypto.verifies b.public_key signature c) _ _ h10 in
        let (fresh, h12) =
          demand->>-ok (not (provenance_exists id c.request.operation_id t.provenance)) _ _ h11 in
        let (one, h13) =
          demand->>-ok (open_rows (crypto.sha256 c.nonce) t.challenges == 1) _ _ h12 in
        record {
          transaction = transaction;
          exact = same_request-eq c.request expected same;
          binding = b;
          bound = bound;
          same_operator = ground (arith, ids, str_eq_iff c.operator_id b.operator_id);
          same_install = ground (arith, ids, str_eq_iff c.install_id b.install_id);
          same_key = ground (arith, ids, str_eq_iff c.key_id b.key_id);
          same_store = ground (arith, ids, str_eq_iff c.store_identity b.store_identity);
          current = eqbℤ-eq c.ledger_sequence (pos (head_or_zero t.head)) sequence;
          row = row;
          issued = (issued_here-ok c _ row e8).0;
          same_challenge = (issued_here-ok c _ row e8).1;
          unused = unused_none row.consumed_at unused;
          in_time = ground (arith, in_time);
          signed = signed;
          new_operation = ground (arith, fresh, same_request-eq c.request expected same);
          marked = ground (arith, h13);
        }

    -- the row is consumed, and every other row stays as it was
    pub consumed :
        (find_row (crypto.sha256 c.nonce) t'.challenges
          ≡ some (record accepted.row { consumed_at = some now; consumed_provenance_id = some id }))
        × ((other : String)
            → crypto.sha256 c.nonce ≢ other
            → find_row other t'.challenges ≡ find_row other t.challenges)
    consumed = (
      rw accepted.marked (
          find_row-mark_self (crypto.sha256 c.nonce) now id t.challenges accepted.row
            accepted.issued accepted.unused),
      λ other ne.
          rw accepted.marked
            (find_row-mark_other (crypto.sha256 c.nonce) other now id t.challenges ne),
    )

  -- A row that was consumed keeps its time and its provenance through every later approval.
  pub consumed-stays :
      (t : Tables) (c : Challenge) (signature : String) (expected : ChallengeRequest)
      (operator : Option String) (now : ℕ) (id : String) {t' : Tables} (sha : String)
      (r : ChallengeRow)
      → verify_and_consume crypto t c signature expected operator now id ≡ ok t'
      → find_row sha t.challenges ≡ some r
      → is_some r.consumed_at ≡ true
      → find_row sha t'.challenges ≡ some r
  consumed-stays t c signature expected operator now id sha r done h k =
      rw (accepted t c signature expected operator now id done).marked
        (find_row-mark_consumed (crypto.sha256 c.nonce) sha now id t.challenges r h k)

  -- Once an approval is accepted, no token with its nonce is accepted again, whatever the request,
  -- the operator and the time, also after any other changes of the tables that keep the consumed row.
  pub single_use :
      (t : Tables) (c : Challenge) (signature : String) (expected : ChallengeRequest)
      (operator : Option String) (now : ℕ) (id : String) {t' : Tables}
      → verify_and_consume crypto t c signature expected operator now id ≡ ok t'
      → (later : Tables)
      → find_row (crypto.sha256 c.nonce) later.challenges
        ≡ find_row (crypto.sha256 c.nonce) t'.challenges
      → (c2 : Challenge) (signature2 : String) (expected2 : ChallengeRequest)
        (operator2 : Option String) (now2 : ℕ) (id2 : String) {t2 : Tables}
      → c2.nonce ≡ c.nonce
      → verify_and_consume crypto later c2 signature2 expected2 operator2 now2 id2 ≢ ok t2
  single_use t c signature expected operator now id done later kept c2 signature2 expected2
        operator2 now2 id2 same again =
      let first = consumed t c signature expected operator now id done in
      let second = accepted later c2 signature2 expected2 operator2 now2 id2 again in
      let row = (accepted t c signature expected operator now id done).row in
      ground (arith, first.0, kept, second.issued, second.unused, same)
