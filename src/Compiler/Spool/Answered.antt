-- ===== src/Compiler/Spool/Answered.antt =====
-- The acknowledgements and receipts that the loops of `compile_spools` of compiler/spool.py leave.
use imprint.Base.{
  String, ◌≡◌, refl, ap, ◌∙◌, ◌⊎◌, inl, inr, true, false, ◌&&◌, Option, none, some, arith, str_eq,
  str_eq_iff, Bool-cases,
}
use mathlib.Core.Path.{subst}
use imprint.Compiler.Spool.{Applied, captured, duplicate, refused, Input, settle_one}
use imprint.Compiler.Disk.{
  returned, raised, Publication, published, failed, failed_after, raced, Receipt, Ack,
  publish_receipt, add_receipt, new_receipt, publish_ack, add_ack, ack_matches, same_place,
  SpoolFile, AckFile, Disk, Host, Read, home, find_ack, has_receipt, receipt_id, quarantine_receipt,
  write_at, acknowledged, matching, new_ack, ack_matches, write_acknowledgement,
}
use imprint.Compiler.Disk.Places.{same_place_refl, same_place-eq}

all_true :
    (s t u v w x : String)
    → (str_eq s s && str_eq t t && str_eq u u && str_eq v v && str_eq w w && str_eq x x && true)
      ≡ true
all_true s t u v w x =
    rw
      (
        (str_eq_iff s s).1 refl,
        (str_eq_iff t t).1 refl,
        (str_eq_iff u u).1 refl,
        (str_eq_iff v v).1 refl,
        (str_eq_iff w w).1 refl,
        (str_eq_iff x x).1 refl,
      )
      refl

module _ (host : Host) where
  -- an input with a committed acknowledgement, or with a receipt of its refusal
  abbrev pub Done : SpoolFile → Read → Disk → Type 0
  Done f r d =
      (acknowledged host f r d ≡ true) ⊎ (has_receipt (receipt_id host f) d.quarantine ≡ true)

  new_ack-matches :
      (f : SpoolFile) (r : Read) (result : String)
      → ack_matches host f r (new_ack host f r result) ≡ true
  unfolding ack_matches
  new_ack-matches f r result =
      all_true "1.0.0" r.envelope.head.input_event_id r.envelope.head.node_id
        (host.payload_sha256 r.value) (host.file_sha256 f.content) (host.path_text f.place)

  acknowledged-add_ack :
      (f : SpoolFile) (r : Read) (b : Option Ack) (d : Disk)
      → matching host f r b ≡ true
      → acknowledged host f r (add_ack host r b d) ≡ true
  unfolding acknowledged find_ack
  acknowledged-add_ack f r b d h = rw (same_place_refl (home r.envelope)) h

  -- an acknowledgement at a place that was free changes no other one
  add_ack-keeps :
      (f : SpoolFile) (r s : Read) (b : Option Ack) (d : Disk)
      → find_ack (home s.envelope) d.acks ≡ none
      → acknowledged host f r d ≡ true
      → acknowledged host f r (add_ack host s b d) ≡ true
  unfolding acknowledged find_ack
  add_ack-keeps f r s b d free k =
      elim (Bool-cases (same_place (home r.envelope) (home s.envelope))) [
        | inl e ↦
            let one : home r.envelope ≡ home s.envelope = same_place-eq _ _ e in
            let missing : find_ack (home r.envelope) d.acks ≡ none =
              ap (λ p. find_ack p d.acks) one ∙ free in
            let clash : false ≡ true = rw missing at k in cc clash
        | inr e ↦ rw e k
      ]

  -- what was acknowledged or has a receipt still is, and still has
  abbrev pub Grows : Disk → Disk → Type 0
  Grows d next =
      ((f : SpoolFile) (r : Read)
        → acknowledged host f r d ≡ true
        → acknowledged host f r next ≡ true)
      × ((id : String) → has_receipt id d.quarantine ≡ true → has_receipt id next.quarantine ≡ true)

  pub Grows-same : (d : Disk) → Grows d d
  Grows-same d = ((λ f r h. h), (λ id h. h))

  pub Grows-twice : (a b c : Disk) → Grows a b → Grows b c → Grows a c
  Grows-twice a b c g h = ((λ f r k. h.0 f r (g.0 f r k)), (λ id k. h.1 id (g.1 id k)))

  pub Grows-Done :
      (f : SpoolFile) (r : Read) (d next : Disk) → Grows d next → Done f r d → Done f r next
  Grows-Done f r d next g (inl h) = inl (g.0 f r h)
  Grows-Done f r d next g (inr h) = inr (g.1 (receipt_id host f) h)

  returned_disk : (u v : Unit {0}) (d e : Disk) → returned u d ≡ returned v e → d ≡ e
  returned_disk u v d e h = ground arith

  publish_receipt-ok :
      (p : Publication Receipt) (r : Receipt) (d next : Disk) (u : Unit {0})
      → publish_receipt host p r d ≡ returned u next
      → (x : Receipt) × (x.receipt_id ≡ r.receipt_id) × (add_receipt host x d ≡ next)
  publish_receipt-ok published r d next u h = (r, refl, returned_disk tt u _ next h)
  publish_receipt-ok (failed e) r d next u h = cc
  publish_receipt-ok (failed_after e) r d next u h = elim (Bool-cases (str_eq e "SafetyError")) [
    | inl k ↦ (r, refl, returned_disk tt u _ next (rw k at h))
    | inr k ↦ let clash : raised e (add_receipt host r d) ≡ returned u next = rw k at h in cc clash
  ]
  publish_receipt-ok (raced other) r d next u h =
      (record other { receipt_id = r.receipt_id }, refl, returned_disk tt u _ next h)

  add_receipt-Grows : (x : Receipt) (d : Disk) → Grows d (add_receipt host x d)
  unfolding acknowledged
  add_receipt-Grows x d = ((λ g r h. h), (λ id h. ground arith))

  pub quarantine_receipt-Done :
      (f : SpoolFile) (type : String) (d next : Disk) (u : Unit {0})
      → quarantine_receipt host f type d ≡ returned u next
      → Grows d next × (has_receipt (receipt_id host f) next.quarantine ≡ true)
  unfolding quarantine_receipt
  quarantine_receipt-Done f type d next u h =
      let id = receipt_id host f in
      elim (Bool-cases (has_receipt id d.quarantine)) [
        | inl e ↦
            let same : d ≡ next = returned_disk tt u d next (rw e at h) in
            subst (λ x. Grows d x × (has_receipt id x.quarantine ≡ true)) same (Grows-same d, e)
        | inr e ↦
            let (x, named, same) =
              publish_receipt-ok (host.receipt_publication f.place) (new_receipt host f type) d next
                u (rw e at h) in
            let first : has_receipt id (add_receipt host x d).quarantine ≡ true =
              rw (named, (str_eq_iff id id).1 refl) refl in
            subst (λ y. Grows d y × (has_receipt id y.quarantine ≡ true)) same
              (add_receipt-Grows x d, first)
      ]

  publish_ack-ok :
      (p : Publication (Option Ack)) (f : SpoolFile) (r : Read) (a : Ack) (d next : Disk)
      (u : Unit {0})
      → ack_matches host f r a ≡ true
      → publish_ack host p f r a d ≡ returned u next
      → (b : Option Ack) × (matching host f r b ≡ true) × (add_ack host r b d ≡ next)
  publish_ack-ok published f r a d next u m h = (some a, m, returned_disk tt u _ next h)
  publish_ack-ok (failed e) f r a d next u m h = elim (Bool-cases (str_eq e "SafetyError")) [
    | inl k ↦ let clash : raised "ConflictError" d ≡ returned u next = rw k at h in cc clash
    | inr k ↦ let clash : raised e d ≡ returned u next = rw k at h in cc clash
  ]
  publish_ack-ok (failed_after e) f r a d next u m h = elim (Bool-cases (str_eq e "SafetyError")) [
    | inl k ↦ (some a, m, returned_disk tt u _ next (rw k at h))
    | inr k ↦
        let clash : raised e (add_ack host r (some a) d) ≡ returned u next = rw k at h in cc clash
  ]
  publish_ack-ok (raced other) f r a d next u m h = elim (Bool-cases (matching host f r other)) [
    | inl k ↦ (other, k, returned_disk tt u _ next (rw k at h))
    | inr k ↦
        let clash : raised "ConflictError" (add_ack host r other d) ≡ returned u next = rw k at h in
        cc clash
  ]

  write_at-Done :
      (g : SpoolFile) (s : Read) (result : String) (d next : Disk) (u : Unit {0})
      (a : Option AckFile)
      → find_ack (home s.envelope) d.acks ≡ a
      → write_at host g s result d a ≡ returned u next
      → Grows d next × Done g s next
  unfolding acknowledged
  write_at-Done g s result d next u none free h =
      let (b, m, same) =
        publish_ack-ok (host.ack_publication (home s.envelope)) g s (new_ack host g s result) d next
          u (new_ack-matches g s result) h in
      let grown : Grows d (add_ack host s b d) =
        ((λ f r k. add_ack-keeps f r s b d free k), (λ id k. k)) in
      subst (λ x. Grows d x × Done g s x) same (grown, inl (acknowledged-add_ack g s b d m))
  write_at-Done g s result d next u (some x) found h = elim (Bool-cases (matching host g s x.ack)) [
    | inl e ↦
        let same : d ≡ next = returned_disk tt u d next (rw e at h) in
        let before : acknowledged host g s d ≡ true = rw (acknowledged, found) e in
        subst (λ y. Grows d y × Done g s y) same (Grows-same d, inl before)
    | inr e ↦ let clash : raised "ConflictError" d ≡ returned u next = rw e at h in cc clash
  ]

  pub settle_one-Done :
      (i : Input) (a : Applied) (d next : Disk) (u : Unit {0})
      → settle_one host i a d ≡ returned u next
      → Grows d next × Done i.0 i.1 next
  unfolding settle_one write_acknowledgement
  settle_one-Done (g, s) captured d next u h =
      write_at-Done g s "captured" d next u (find_ack (home s.envelope) d.acks) refl h
  settle_one-Done (g, s) duplicate d next u h =
      write_at-Done g s "duplicate" d next u (find_ack (home s.envelope) d.acks) refl h
  settle_one-Done (g, s) (refused type) d next u h =
      let (grown, there) = quarantine_receipt-Done g type d next u h in (grown, inr there)
