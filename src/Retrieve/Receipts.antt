-- ===== src/Retrieve/Receipts.antt =====
-- retrieve/receipts.py. The two files of one key (a session, a snapshot and a domain) are a latch,
-- and each call is a process whose steps are its single operations on those files, so calls can
-- interleave. The permissions of the directories are not modelled. A text is the list of its UTF-8
-- bytes, and `len` counts these.
pub mod Once
use imprint.Base.{
  ℕ, zero, suc, ◌+◌, ◌-◌, ◌*◌, ◌/◌, ◌%◌, ◌≤◌, ◌<◌, String, ◌≡◌, refl, sym, ap, ◌∙◌, ◌≢◌, ◌↔◌, ◌⊎◌,
  inl, inr, Bool, true, false, not, ◌&&◌, ◌||◌, Option, none, some, List, [], ◌∷◌, ◌++◌, map,
  reverse, arith, ltb, leb, ◌==◌, str_eq, str_eq_iff, if◌then◌else◌, Bool-cases, Option-cases,
  tests, length, length-append, keep, all, any, All, mem, distinct, ℤ, pos, negsuc, pos_part,
  neg_part, sub_ℕ, negate_ℕ, negate, ltbℤ, eqbℤ, codes, codes_eq, has_text, is_digit, is_lower,
  text_lt,
}
use Prim.Native.String.{len}

-- the fields that the receipt reads of a response, and the others
pub record Response : Type 0 where
  pub payload : Option String
  pub budget_bytes : Option ℕ
  pub others : String

-- the content of a receipt file
pub data Content : Type 0 where
  -- a prepared delivery: the schema version, the response and the digest that stands with it
  envelope : String → Response → String → Content
  -- a claim: the snapshot's reference and the type
  claim : String → String → Content
  -- a file that is no JSON object with the fields of either
  malformed : Content

pub record Latch : Type 0 where
  pub pending : Option Content
  pub final : Option Content

pub record Codec : Type 0 where
  -- the sorted, compact JSON of a response
  pub canonical : Response → String
  pub sha256 : String → String

pub data Outcome : Type 0 where
  already_delivered : Outcome
  prepared : Response → Outcome
  committed : Bool → Outcome
  claimed : Bool → Outcome
  -- an exception
  failed : Outcome

-- where a call stands
pub data Process : Type 0 where
  prepare_start : Response → Process
  prepare_look : Response → Process
  prepare_publish : Response → Process
  prepare_refused : Process
  prepare_recheck : Process
  prepare_discard : Process
  prepare_read : Process
  commit_start : Process
  commit_decode : Process
  commit_read : Process
  commit_publish : Content → Process
  commit_refused : Process
  commit_unlink : Bool → Process
  claim_publish : String → String → Process
  claim_refused : Process
  done : Outcome → Process

abbrev pub exists {ℓ} : {A : Type ℓ} → Option A → Bool
exists none = false
exists (some a) = true

abbrev pub within_budget : Option String → Option ℕ → Bool
within_budget (some payload) (some budget) = leb (len payload) budget
within_budget _ _ = false

module _ (codec : Codec) where
  -- `_decode_prepared`
  unfoldable pub decode_prepared : Option Content → Option Response
  decode_prepared none = none
  decode_prepared (some (claim snapshot kind)) = none
  decode_prepared (some malformed) = none
  decode_prepared (some (envelope version response digest)) =
      if str_eq version "1.1.0"
        && str_eq (codec.sha256 (codec.canonical response)) digest
        && within_budget response.payload response.budget_bytes
      then some response
      else none

  abbrev pub seal : Response → Content
  seal response = envelope "1.1.0" response (codec.sha256 (codec.canonical response))

  abbrev pub read_outcome : Option Response → Outcome
  read_outcome none = failed
  read_outcome (some response) = prepared response

  -- a pending file that decodes is read again for its bytes
  abbrev pub after_decode : Option Response → Process
  after_decode none = done failed
  after_decode (some response) = commit_read

  abbrev pub after_read : Option Content → Process
  after_read none = done failed
  after_read (some content) = commit_publish content

  -- `publish_new_private` refuses a file that exists, by a `SafetyError`
  abbrev pub publish_pending : Content → Latch → Option Content → Process × Latch
  publish_pending content l none = (prepare_recheck, record l { pending = some content })
  publish_pending content l (some old) = (prepare_refused, l)

  abbrev pub publish_final : Content → Latch → Option Content → Process × Latch
  publish_final content l none = (commit_unlink true, record l { final = some content })
  publish_final content l (some old) = (commit_refused, l)

  abbrev pub publish_claim : Content → Latch → Option Content → Process × Latch
  publish_claim content l none = (done (claimed true), record l { final = some content })
  publish_claim content l (some old) = (claim_refused, l)

  -- one operation on the files
  unfoldable pub advance : Process → Latch → Process × Latch
  advance (prepare_start r) l =
      if exists l.final then (done already_delivered, l) else (prepare_look r, l)
  advance (prepare_look r) l =
      if exists l.pending then (prepare_read, l) else (prepare_publish r, l)
  advance (prepare_publish r) l = publish_pending (seal r) l l.pending
  advance prepare_refused l = if exists l.pending then (prepare_recheck, l) else (done failed, l)
  advance prepare_recheck l = if exists l.final then (prepare_discard, l) else (prepare_read, l)
  advance prepare_discard l = (done already_delivered, record l { pending = none })
  advance prepare_read l = (done (read_outcome (decode_prepared l.pending)), l)
  advance commit_start l =
      if exists l.final then (done (committed false), l) else (commit_decode, l)
  advance commit_decode l = (after_decode (decode_prepared l.pending), l)
  advance commit_read l = (after_read l.pending, l)
  advance (commit_publish content) l = publish_final content l l.final
  advance commit_refused l = if exists l.final then (commit_unlink false, l) else (done failed, l)
  advance (commit_unlink won) l = (done (committed won), record l { pending = none })
  advance (claim_publish snapshot kind) l = publish_claim (claim snapshot kind) l l.final
  advance claim_refused l = if exists l.final then (done (claimed false), l) else (done failed, l)
  advance (done outcome) l = (done outcome, l)

  -- a call on its own
  unfoldable pub finish : ℕ → Process → Latch → Process × Latch
  finish zero p l = (p, l)
  finish (suc n) p l = let (p', l') = advance p l in finish n p' l'

  -- with six operations, as many as the longest path has
  abbrev pub alone : Process → Latch → Process × Latch
  alone p l = finish 6 p l

  unfoldable pub prepare_delivery : Response → Latch → Process × Latch
  prepare_delivery r l = alone (prepare_start r) l

  unfoldable pub commit_delivery : Latch → Process × Latch
  commit_delivery l = alone commit_start l

  -- one operation of the call with this number
  abbrev pub turn : ℕ → Latch → List Process → List Process × Latch
  turn i l [] = ([], l)
  turn zero l (p ∷ ps) = let (p', l') = advance p l in (p' ∷ ps, l')
  turn (suc i) l (p ∷ ps) = let (ps', l') = turn i l ps in (p ∷ ps', l')

  -- calls that interleave as the schedule says
  abbrev pub run : List ℕ → Latch → List Process → List Process × Latch
  run [] l ps = (ps, l)
  run (i ∷ is) l ps = let (ps', l') = turn i l ps in run is l' ps'
