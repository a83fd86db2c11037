-- ===== src/Authority/Ledger/History.antt =====
-- The life of the challenge table: challenges are issued and approvals are consumed in any order.
use mathlib.Core.Path.{subst}
use imprint.Base.{
  Bool-cases, str_eq, none, inl, inr, ℕ, String, ◌≡◌, refl, sym, ap, ◌∙◌, ◌≢◌, true, Option, some,
  str_eq_iff,
}
use imprint.Authority.Error.{ok}
use imprint.Authority.Request.{ChallengeRequest}
use imprint.Authority.Challenge.{Challenge}
use imprint.Authority.Ledger.{
  Binding, ChallengeRow, Tables, Crypto, find_row, is_some, issue_challenge, verify_and_consume,
}
use imprint.Authority.Ledger.Issue.{issue_challenge-Issued}
use imprint.Authority.Ledger.Consume.{consumed, consumed-stays, single_use}

module _ (crypto : Crypto) where
  pub data Step : Tables → Tables → Type 0 where
    issue :
        {t t' : Tables} {c : Challenge} {b : Binding} (request : ChallengeRequest)
        (operator : Option String) (ttl now : ℕ) (nonce : String)
        → issue_challenge crypto t request operator ttl now nonce ≡ ok (c, b, t')
        → Step t t'
    approve :
        {t t' : Tables} (c : Challenge) (signature : String) (expected : ChallengeRequest)
        (operator : Option String) (now : ℕ) (id : String)
        → verify_and_consume crypto t c signature expected operator now id ≡ ok t'
        → Step t t'

  pub data Later (t : Tables) : Tables → Type 0 where
    here : Later t t
    next : {u v : Tables} → Later t u → Step u v → Later t v

  issue-kept :
      (t : Tables) (request : ChallengeRequest) (operator : Option String) (ttl now : ℕ)
      (nonce : String) {c : Challenge} {b : Binding} {t' : Tables} (sha : String) (r : ChallengeRow)
      → issue_challenge crypto t request operator ttl now nonce ≡ ok (c, b, t')
      → find_row sha t.challenges ≡ some r
      → find_row sha t'.challenges ≡ some r
  issue-kept t request operator ttl now nonce {c} {b} {t'} sha r h found =
      let i = issue_challenge-Issued crypto t request operator ttl now nonce c b t' h in
      let same : c.nonce ≡ nonce = ap (λ (x : Challenge). x.nonce) i.built.same in
      elim (Bool-cases (str_eq (crypto.sha256 nonce) sha)) [
        | inl e ↦
            let none_there : find_row sha t.challenges ≡ none =
              subst (λ x. find_row x t.challenges ≡ none)
                ((str_eq_iff (crypto.sha256 nonce) sha).0 e) i.fresh in
            let clash : none ≡ some r = sym none_there ∙ found in cc clash
        | inr e ↦ rw (i.inserted, same, e) found
      ]

  Step-kept :
      {t t' : Tables} (sha : String) (r : ChallengeRow)
      → Step t t'
      → find_row sha t.challenges ≡ some r
      → is_some r.consumed_at ≡ true
      → find_row sha t'.challenges ≡ some r
  Step-kept {t} sha r (issue request operator ttl now nonce h) found used =
      issue-kept t request operator ttl now nonce sha r h found
  Step-kept {t} sha r (approve c signature expected operator now id h) found used =
      consumed-stays crypto t c signature expected operator now id sha r h found used

  Later-kept :
      {t t' : Tables} (sha : String) (r : ChallengeRow)
      → find_row sha t.challenges ≡ some r
      → is_some r.consumed_at ≡ true
      → Later t t'
      → find_row sha t'.challenges ≡ some r
  Later-kept sha r found used here = found
  Later-kept sha r found used (next l s) = Step-kept sha r s (Later-kept sha r found used l) used

  -- After an accepted approval, whatever challenges are issued and whatever approvals are consumed,
  -- no token with its nonce is accepted again, for any request, operator, time or signature.
  pub single_use_for_ever :
      (t : Tables) (c : Challenge) (signature : String) (expected : ChallengeRequest)
      (operator : Option String) (now : ℕ) (id : String) {t' later : Tables}
      → verify_and_consume crypto t c signature expected operator now id ≡ ok t'
      → Later t' later
      → (c2 : Challenge) (signature2 : String) (expected2 : ChallengeRequest)
        (operator2 : Option String) (now2 : ℕ) (id2 : String) (t2 : Tables)
      → c2.nonce ≡ c.nonce
      → verify_and_consume crypto later c2 signature2 expected2 operator2 now2 id2 ≢ ok t2
  single_use_for_ever t c signature expected operator now id {later} done l c2 signature2 expected2
        operator2 now2 id2 t2 same =
      let first = consumed crypto t c signature expected operator now id done in
      single_use crypto t c signature expected operator now id done later
        (Later-kept (crypto.sha256 c.nonce) _ first.0 refl l ∙ sym first.0) c2 signature2 expected2
        operator2 now2 id2 same
