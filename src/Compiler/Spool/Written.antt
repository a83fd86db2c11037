-- ===== src/Compiler/Spool/Written.antt =====
-- The files that `write_envelope` of compiler/spool.py leaves in the spool.
use imprint.Base.{
  ◌≡◌, refl, sym, ◌⊎◌, inl, inr, Option, none, some, ◌∷◌, str_eq, str_eq_iff, Bool-cases,
  Option-cases,
}
use mathlib.Core.Path.{subst}
use imprint.Compiler.Disk.Places.{same_place_refl}
use imprint.Ontology.Json.{Json}
use imprint.Ontology.Fault.{Fault, Checked, ok, err}
use imprint.Capture.Envelope.{Envelope, validate_capture_envelope}
use imprint.Compiler.Disk.{
  Publication, published, failed, failed_after, raced, Place, SpoolFile, Disk, Host, Ran, returned,
  raised, find_file, home,
}
use imprint.Base.{String, true, false, ◌&&◌, arith}
use imprint.Compiler.Spool.{same_bytes, after_publish, write_at, write_envelope, fault_name}

Checked-cases {ℓ} :
    {A : Type ℓ} (r : Checked A) → ((x : A) × (r ≡ ok x)) ⊎ ((f : Fault) × (r ≡ err f))
Checked-cases (ok x) = inl (x, refl)
Checked-cases (err f) = inr (f, refl)

module _ (host : Host) (publication : Publication String) (value : Json) where
  -- the file that is in the spool once a write returns
  abbrev pub Kept : Place → Disk → Type 0
  Kept p d =
      (f : SpoolFile) × (find_file p d.spool ≡ some f) × (f.content ≡ host.canonical_bytes value)

  -- the disk as before, or with one file at a place that was free: the envelope's, or that of
  -- another process
  abbrev pub Left : Disk → Disk → Type 0
  Left d d1 =
      (d1 ≡ d)
      ⊎ ((p : Place) × (bytes : String) × (find_file p d.spool ≡ none)
          × (d1 ≡ record d { spool = record { place = p; content = bytes } ∷ d.spool })
          × ((bytes ≡ host.canonical_bytes value) ⊎ (publication ≡ raced bytes)))

  -- what a write may leave
  abbrev pub Safe : Disk → Ran Place → Type 0
  Safe d (returned p d1) =
      Kept p d1
      × Left d d1
      × ((again : Publication String) → write_envelope host again value d1 ≡ returned p d1)
  Safe d (raised e d1) = Left d d1

  write_again :
      (again : Publication String) (e : Envelope) (d : Disk)
      → validate_capture_envelope host.sha256 host.json_bytes value ≡ ok e
      → Kept (home e) d
      → write_envelope host again value d ≡ returned (home e) d
  unfolding write_envelope
  write_again again e d valid (f, found, same) =
      let t = (str_eq_iff (host.canonical_bytes value) (host.canonical_bytes value)).1 refl in
      rw (valid, found, same, t) refl

  Kept-new :
      (p : Place) (d : Disk)
      → Kept p (record d {
        spool = record { place = p; content = host.canonical_bytes value } ∷ d.spool;
      })
  Kept-new p d = (
    record { place = p; content = host.canonical_bytes value },
    rw (same_place_refl p) refl,
    refl,
  )

  same_bytes-Kept :
      (p : Place) (d : Disk) → same_bytes host value (find_file p d.spool) ≡ true → Kept p d
  same_bytes-Kept p d h = elim (Option-cases (find_file p d.spool)) [
    | inl n ↦ let clash : false ≡ true = rw n at h in cc clash
    | inr (f, n) ↦
        let k : str_eq f.content (host.canonical_bytes value) ≡ true = rw n at h in
        (f, n, (str_eq_iff f.content (host.canonical_bytes value)).0 k)
  ]

  after_publish-Safe :
      (e : Envelope) (error : String) (d d1 : Disk)
      → validate_capture_envelope host.sha256 host.json_bytes value ≡ ok e
      → Left d d1
      → Safe d (after_publish host value (home e) (some error) d1)
  after_publish-Safe e error d d1 valid left =
      let forgiven =
        str_eq error "SafetyError" && same_bytes host value (find_file (home e) d1.spool) in
      elim (Bool-cases forgiven) [
        | inl h ↦
            let same : same_bytes host value (find_file (home e) d1.spool) ≡ true = ground arith in
            let kept = same_bytes-Kept (home e) d1 same in
            rw h (kept, left, λ again. write_again again e d1 valid kept)
        | inr h ↦ rw h left
      ]

  new-Safe :
      (p : Publication String) (e : Envelope) (d : Disk)
      → publication ≡ p
      → validate_capture_envelope host.sha256 host.json_bytes value ≡ ok e
      → find_file (home e) d.spool ≡ none
      → Safe d (write_at host p value (home e) d none)
  new-Safe published e d is_p valid free =
      let kept = Kept-new (home e) d in
      (
        kept,
        inr (home e, host.canonical_bytes value, free, refl, inl refl),
        λ again. write_again again e _ valid kept,
      )
  new-Safe (failed error) e d is_p valid free = after_publish-Safe e error d d valid (inl refl)
  new-Safe (failed_after error) e d is_p valid free =
      after_publish-Safe e error d _ valid
        (inr (home e, host.canonical_bytes value, free, refl, inl refl))
  new-Safe (raced other) e d is_p valid free =
      after_publish-Safe e "SafetyError" d _ valid (inr (home e, other, free, refl, inr is_p))

  write_at-Safe :
      (e : Envelope) (d : Disk) (r : Option SpoolFile)
      → validate_capture_envelope host.sha256 host.json_bytes value ≡ ok e
      → find_file (home e) d.spool ≡ r
      → Safe d (write_at host publication value (home e) d r)
  write_at-Safe e d none valid found = new-Safe publication e d refl valid found
  write_at-Safe e d (some f) valid found =
      elim (Bool-cases (str_eq f.content (host.canonical_bytes value))) [
        | inl same ↦
            let kept : Kept (home e) d =
              (f, found, (str_eq_iff f.content (host.canonical_bytes value)).0 same) in
            rw same (kept, inl refl, λ again. write_again again e d valid kept)
        | inr other ↦ rw other (inl refl)
      ]

  -- However the publication of the file ends, a write of an envelope leaves the disk as it was, or
  -- with one more file at a place that was free, which holds the canonical bytes of the envelope or
  -- what another process has put there meanwhile. Where it returns, the file at the place that it
  -- returns holds the canonical bytes, and a second write returns the same place and changes nothing.
  pub write_envelope-Safe : (d : Disk) → Safe d (write_envelope host publication value d)
  unfolding write_envelope
  write_envelope-Safe d =
      elim (Checked-cases (validate_capture_envelope host.sha256 host.json_bytes value)) [
        | inl (e, valid) ↦
            let goes_on : write_envelope host publication value d
                ≡ write_at host publication value (home e) d (find_file (home e) d.spool) =
              rw (write_envelope, valid) refl in
            subst (Safe d) (sym goes_on) (write_at-Safe e d (find_file (home e) d.spool) valid refl)
        | inr (fault, bad) ↦
            let stops : write_envelope host publication value d ≡ raised (fault_name fault) d =
              rw (write_envelope, bad) refl in
            subst (Safe d) (sym stops) (inl refl)
      ]
