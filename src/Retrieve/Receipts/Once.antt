-- ===== src/Retrieve/Receipts/Once.antt =====
-- retrieve/receipts.py: calls of one key that interleave, and calls one after the other.
use imprint.Base.{
  str_eq_refl, ℕ, zero, suc, ◌+◌, ◌≡◌, refl, ap, true, false, Option, none, some, List, [], ◌∷◌,
  arith, if◌then◌else◌,
}
use imprint.Retrieve.Receipts.{
  claim, prepare_look, prepare_refused, prepare_discard, commit_refused, claim_refused,
  publish_pending, publish_final, publish_claim, Response, Content, Latch, Codec, already_delivered,
  prepared, committed, claimed, Process, prepare_start, prepare_publish, prepare_recheck,
  prepare_read, commit_start, commit_decode, commit_read, commit_publish, commit_unlink,
  claim_publish, done, exists, within_budget, decode_prepared, seal, advance, finish,
  prepare_delivery, commit_delivery, turn, run, read_outcome, after_decode, after_read,
}

-- a call that was told that it delivered, or is about to be
pub won : Process → ℕ
won (commit_unlink true) = 1
won (done (committed true)) = 1
won (done (claimed true)) = 1
won _ = 0

abbrev pub winners : List Process → ℕ
winners [] = 0
winners (p ∷ ps) = won p + winners ps

-- 1 where the key is delivered
abbrev pub taken : Latch → ℕ
taken l = if exists l.final then 1 else 0

module _ (codec : Codec) where
  after_decode-won : (o : Option Response) → won (after_decode codec o) ≡ 0
  unfolding won
  after_decode-won none = refl
  after_decode-won (some r) = refl

  after_read-won : (o : Option Content) → won (after_read codec o) ≡ 0
  unfolding won
  after_read-won none = refl
  after_read-won (some r) = refl

  read_outcome-won : (o : Option Response) → won (done (read_outcome codec o)) ≡ 0
  unfolding won
  read_outcome-won none = refl
  read_outcome-won (some r) = refl

  publish_pending-won :
      (content : Content) (l : Latch) (old : Option Content)
      → won (publish_pending codec content l old).0 + taken l
        ≡ 0 + taken (publish_pending codec content l old).1
  unfolding won
  publish_pending-won content l none = refl
  publish_pending-won content l (some old) = refl

  publish_final-won :
      (content : Content) (pending final : Option Content)
      → let l : Latch = record { pending = pending; final = final } in
        won (publish_final codec content l final).0 + taken l
        ≡ 0 + taken (publish_final codec content l final).1
  unfolding won
  publish_final-won content pending none = refl
  publish_final-won content pending (some old) = refl

  publish_claim-won :
      (content : Content) (pending final : Option Content)
      → let l : Latch = record { pending = pending; final = final } in
        won (publish_claim codec content l final).0 + taken l
        ≡ 0 + taken (publish_claim codec content l final).1
  unfolding won
  publish_claim-won content pending none = refl
  publish_claim-won content pending (some old) = refl

  -- one operation sets the key exactly where it makes its call a winner
  advance-won :
      (p : Process) (l : Latch)
      → won (advance codec p l).0 + taken l ≡ won p + taken (advance codec p l).1
  unfolding advance won
  advance-won (prepare_start r) l = ground arith
  advance-won (prepare_look r) l = ground arith
  advance-won (prepare_publish r) l = publish_pending-won (seal codec r) l l.pending
  advance-won prepare_refused l = ground arith
  advance-won prepare_recheck l = ground arith
  advance-won prepare_discard l = refl
  advance-won prepare_read l =
      ap (λ n. n + taken l) (read_outcome-won (decode_prepared codec l.pending))
  advance-won commit_start l = ground arith
  advance-won commit_decode l =
      ap (λ n. n + taken l) (after_decode-won (decode_prepared codec l.pending))
  advance-won commit_read l = ap (λ n. n + taken l) (after_read-won l.pending)
  advance-won (commit_publish content) l = publish_final-won content l.pending l.final
  advance-won commit_refused l = ground arith
  advance-won (commit_unlink b) l = ground arith
  advance-won (claim_publish snapshot kind) l =
      publish_claim-won (claim snapshot kind) l.pending l.final
  advance-won claim_refused l = ground arith
  advance-won (done outcome) l = refl

  turn-winners :
      (i : ℕ) (l : Latch) (ps : List Process)
      → winners (turn codec i l ps).0 + taken l ≡ winners ps + taken (turn codec i l ps).1
  turn-winners i l [] = refl
  turn-winners zero l (p ∷ ps) = ground (arith, advance-won p l)
  turn-winners (suc i) l (p ∷ ps) = ground (arith, turn-winners i l ps)

  -- However calls interleave, the calls that have won become one more where the key was undelivered
  -- before and is delivered after, and otherwise stay as many as they were. A call has won when it was
  -- told that it delivered, or has only the cached response to remove before that.
  pub run-winners :
      (schedule : List ℕ) (l : Latch) (ps : List Process)
      → winners (run codec schedule l ps).0 + taken l
        ≡ winners ps + taken (run codec schedule l ps).1
  run-winners [] l ps = refl
  run-winners (i ∷ is) l ps =
      ground
        (arith, turn-winners i l ps, run-winners is (turn codec i l ps).1 (turn codec i l ps).0)

  decode-seal :
      (r : Response)
      → within_budget r.payload r.budget_bytes ≡ true
      → decode_prepared codec (some (seal codec r)) ≡ some r
  unfolding decode_prepared
  decode-seal r fits = simp (fits, str_eq_refl (codec.sha256 (codec.canonical r)))

  -- On its own, a response that fits its budget is prepared, then committed, and both calls find the
  -- key delivered from then on, whatever response comes next.
  pub prepare-commit :
      (r later : Response)
      → within_budget r.payload r.budget_bytes ≡ true
      → let (first, l1) = prepare_delivery codec r (record { pending = none; final = none }) in
        let (second, l2) = commit_delivery codec l1 in
        (first ≡ done (prepared r))
        × (second ≡ done (committed true))
        × (l2 ≡ record { pending = none; final = some (seal codec r) })
        × (prepare_delivery codec later l2 ≡ (done already_delivered, l2))
        × (commit_delivery codec l2 ≡ (done (committed false), l2))
  unfolding prepare_delivery commit_delivery finish advance
  prepare-commit r later fits = rw (decode-seal r fits) (refl, refl, refl, refl, refl)
