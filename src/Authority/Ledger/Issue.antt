-- ===== src/Authority/Ledger/Issue.antt =====
-- `issue_challenge` of authority/ledger.py: the challenge, and the row that it inserts.
use mathlib.Core.Path.{subst, subst₂}
use imprint.Base.{
  ℕ, ◌≤◌, String, ◌≡◌, refl, sym, true, not, ◌&&◌, Option, none, some, List, [], ◌∷◌, arith, leb, ℤ,
  pos,
}
use imprint.Authority.Error.{ok, >>=-eq-ok, demand->>-ok}
use imprint.Authority.Request.{ChallengeRequest, validate_request}
use imprint.Authority.Challenge.{
  Challenge, new_challenge, max_ttl_seconds, validate_challenge_shape, build_challenge,
}
use imprint.Authority.Ledger.{
  Binding, ChallengeRow, Tables, Crypto, active_binding, head_or_zero, find_row, is_some, new_row,
  open_rows, issue_challenge,
}

-- what a built challenge is
pub record Built (request : ChallengeRequest) (b : Binding) (sequence : ℤ) (ttl now : ℕ)
    (nonce : String) (c : Challenge) : Type 0 where
  pub valid : validate_request request ≡ ok tt
  pub short : (1 ≤ ttl) × (ttl ≤ max_ttl_seconds)
  pub shaped : validate_challenge_shape c ≡ ok tt
  pub same :
      c
      ≡ new_challenge request b.operator_id b.install_id b.key_id b.store_identity sequence ttl now
          nonce

build_challenge-Built :
    (request : ChallengeRequest) (b : Binding) (sequence : ℤ) (ttl now : ℕ) (nonce : String)
    (c : Challenge)
    → build_challenge request b.operator_id b.install_id b.key_id b.store_identity sequence ttl now
        nonce
      ≡ ok c
    → Built request b sequence ttl now nonce c
unfolding build_challenge
build_challenge-Built request b sequence ttl now nonce c h =
    let value =
      new_challenge request b.operator_id b.install_id b.key_id b.store_identity sequence ttl now
        nonce in
    let (u1, valid, h1) = >>=-eq-ok (validate_request request) _ h in
    let (short, h2) = demand->>-ok (leb 1 ttl && leb ttl max_ttl_seconds) _ _ h1 in
    let (u3, shaped, h3) = >>=-eq-ok (validate_challenge_shape value) _ h2 in
    let e : value ≡ c = cc h3 in
    record {
      valid = valid;
      short = ground (arith, short);
      shaped = subst (λ x. validate_challenge_shape x ≡ ok tt) e shaped;
      same = sym e;
    }

module _ (crypto : Crypto) where
  -- what an issued challenge is, and what the tables are behind it
  pub record Issued (t : Tables) (request : ChallengeRequest) (operator : Option String)
      (ttl now : ℕ) (nonce : String) (c : Challenge) (b : Binding) (t' : Tables) : Type 0 where
    pub bound : active_binding t operator ≡ ok b
    pub built : Built request b (pos (head_or_zero t.head)) ttl now nonce c
    pub fresh : find_row (crypto.sha256 nonce) t.challenges ≡ none
    pub inserted : t' ≡ record t { challenges = new_row crypto c ∷ t.challenges }

  is_some-none : (o : Option ChallengeRow) → not (is_some o) ≡ true → o ≡ none
  is_some-none none h = refl
  is_some-none (some n) h = cc

  pub issue_challenge-Issued :
      (t : Tables) (request : ChallengeRequest) (operator : Option String) (ttl now : ℕ)
      (nonce : String) (c : Challenge) (b : Binding) (t' : Tables)
      → issue_challenge crypto t request operator ttl now nonce ≡ ok (c, b, t')
      → Issued t request operator ttl now nonce c b t'
  unfolding issue_challenge
  issue_challenge-Issued t request operator ttl now nonce c b t' h =
      let (b1, e1, h1) = >>=-eq-ok (active_binding t operator) _ h in
      let (c1, e2, h2) =
        >>=-eq-ok
          (build_challenge request b1.operator_id b1.install_id b1.key_id b1.store_identity
            (pos (head_or_zero t.head)) ttl now nonce)
          _ h1 in
      let (fresh, h3) =
        demand->>-ok (not (is_some (find_row (crypto.sha256 nonce) t.challenges))) _ _ h2 in
      let eb : b1 ≡ b = cc h3 in
      let ec : c1 ≡ c = cc h3 in
      let et : record t { challenges = new_row crypto c1 ∷ t.challenges } ≡ t' = cc h3 in
      record {
        bound = subst (λ x. active_binding t operator ≡ ok x) eb e1;
        built = build_challenge-Built request b (pos (head_or_zero t.head)) ttl now nonce c (
            subst₂
              (λ (x : Binding) y.
                build_challenge request x.operator_id x.install_id x.key_id x.store_identity
                  (pos (head_or_zero t.head)) ttl now nonce
                ≡ ok y)
              eb ec e2);
        fresh = is_some-none _ fresh;
        inserted =
            subst (λ x. t' ≡ record t { challenges = new_row crypto x ∷ t.challenges }) ec (sym et);
      }

  pub open_rows-fresh :
      (sha : String) (rows : List ChallengeRow) → find_row sha rows ≡ none → open_rows sha rows ≡ 0
  open_rows-fresh sha [] h = refl
  open_rows-fresh sha (r ∷ rs) h = ground (arith, open_rows-fresh sha rs)
