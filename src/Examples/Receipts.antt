-- ===== src/Examples/Receipts.antt =====
-- A delivery of one key by two calls that interleave.
use imprint.Base.{ℕ, ◌+◌, ◌≡◌, refl, true, false, none, some, List, [], ◌∷◌}
use imprint.Retrieve.Receipts.{
  Response, Latch, Codec, already_delivered, prepared, committed, commit_start, done, seal, advance,
  decode_prepared, prepare_delivery, commit_delivery, run,
}
use imprint.Retrieve.Receipts.Once.{winners, taken, run-winners, prepare-commit}

-- a codec that tells responses apart by their other fields
abbrev codec : Codec
codec = record { canonical = λ r. r.others; sha256 = λ s. s }

abbrev response : Response
response = record { payload = some "context"; budget_bytes = some 100; others = "a" }

abbrev empty : Latch
empty = record { pending = none; final = none }

abbrev cached : Latch
cached = record { pending = some (seal codec response); final = none }

-- two commits of one prepared response, step by step in turn
abbrev schedule : List ℕ
schedule = 0 ∷ 1 ∷ 0 ∷ 1 ∷ 0 ∷ 1 ∷ 1 ∷ 0 ∷ 1 ∷ 0 ∷ 0 ∷ []

race :
    (run codec schedule cached (commit_start ∷ commit_start ∷ [])).0
    ≡ done (committed false) ∷ done (committed true) ∷ []
unfolding advance decode_prepared
race = refl

run-winners_example :
    winners (run codec schedule cached (commit_start ∷ commit_start ∷ [])).0 + taken cached
    ≡ winners (commit_start ∷ commit_start ∷ [])
      + taken (run codec schedule cached (commit_start ∷ commit_start ∷ [])).1
run-winners_example = run-winners codec schedule cached (commit_start ∷ commit_start ∷ [])

prepare-commit_example :
    let (first, l1) = prepare_delivery codec response empty in
    let (second, l2) = commit_delivery codec l1 in
    (first ≡ done (prepared response))
    × (second ≡ done (committed true))
    × (l2 ≡ record { pending = none; final = some (seal codec response) })
    × (prepare_delivery codec response l2 ≡ (done already_delivered, l2))
    × (commit_delivery codec l2 ≡ (done (committed false), l2))
prepare-commit_example = prepare-commit codec response response refl
