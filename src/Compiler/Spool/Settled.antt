-- ===== src/Compiler/Spool/Settled.antt =====
-- What the two loops of `compile_spools` of compiler/spool.py leave.
use imprint.Base.{
  str_eq, suc, String, ◌≡◌, refl, ap, ◌∙◌, ◌⊎◌, inl, inr, Option, none, some, List, [], ◌∷◌,
  Bool-cases,
}
use imprint.Base.{sort_by}
use imprint.Compiler.Disk.{
  Publication, published, failed, failed_after, raced, Receipt, Ack, publish_receipt, new_receipt,
  publish_ack, new_ack, home, SpoolFile, AckFile, Disk, Host, Read, Ran, returned, raised, disk_of,
  has_receipt, receipt_id, quarantine_receipt, write_at, write_acknowledgement, matching,
}
use imprint.Compiler.Spool.{
  Reading, rejected, escapes, accepted, Applied, captured, duplicate, refused, Input, Collected,
  Counts, then_ran, read_spool_file, add_input, collect, count, settle_one, settle, settle_batch,
  batch, input_lt, spool_order, start, Store, compile_inputs,
}

pub Reading-cases :
    (x : Reading)
    → ((t : String) × (x ≡ rejected t))
      ⊎ ((t : String) × (x ≡ escapes t))
      ⊎ ((r : Read) × (x ≡ accepted r))
Reading-cases (rejected t) = inl (t, refl)
Reading-cases (escapes t) = inr (inl (t, refl))
Reading-cases (accepted r) = inr (inr (r, refl))

module _ (host : Host) where
  then_ran-spool :
      {A B : Type 0} (d : Disk) (r : Ran A) (next : A → Disk → Ran B)
      → (disk_of r).spool ≡ d.spool
      → ((a : A) (d1 : Disk) → (disk_of (next a d1)).spool ≡ d1.spool)
      → (disk_of (then_ran r next)).spool ≡ d.spool
  then_ran-spool d (returned a d1) next h k = k a d1 ∙ h
  then_ran-spool d (raised e d1) next h k = h

  publish_receipt-spool :
      (p : Publication Receipt) (r : Receipt) (d : Disk)
      → (disk_of (publish_receipt host p r d)).spool ≡ d.spool
  publish_receipt-spool published r d = refl
  publish_receipt-spool (failed e) r d = refl
  publish_receipt-spool (failed_after e) r d = elim (Bool-cases (str_eq e "SafetyError")) [
    | inl h ↦ rw (disk_of, h) refl
    | inr h ↦ rw (disk_of, h) refl
  ]
  publish_receipt-spool (raced other) r d = refl

  quarantine_receipt-spool :
      (f : SpoolFile) (type : String) (d : Disk)
      → (disk_of (quarantine_receipt host f type d)).spool ≡ d.spool
  unfolding quarantine_receipt
  quarantine_receipt-spool f type d =
      elim (Bool-cases (has_receipt (receipt_id host f) d.quarantine)) [
        | inl e ↦ rw (disk_of, e) refl
        | inr e ↦
            rw (disk_of, e)
              (publish_receipt-spool (host.receipt_publication f.place) (new_receipt host f type) d)
      ]

  publish_ack-spool :
      (p : Publication (Option Ack)) (f : SpoolFile) (r : Read) (a : Ack) (d : Disk)
      → (disk_of (publish_ack host p f r a d)).spool ≡ d.spool
  publish_ack-spool published f r a d = refl
  publish_ack-spool (failed e) f r a d = elim (Bool-cases (str_eq e "SafetyError")) [
    | inl h ↦ rw (disk_of, h) refl
    | inr h ↦ rw (disk_of, h) refl
  ]
  publish_ack-spool (failed_after e) f r a d = elim (Bool-cases (str_eq e "SafetyError")) [
    | inl h ↦ rw (disk_of, h) refl
    | inr h ↦ rw (disk_of, h) refl
  ]
  publish_ack-spool (raced other) f r a d = elim (Bool-cases (matching host f r other)) [
    | inl h ↦ rw (disk_of, h) refl
    | inr h ↦ rw (disk_of, h) refl
  ]

  write_at-spool :
      (f : SpoolFile) (r : Read) (result : String) (d : Disk) (a : Option AckFile)
      → (disk_of (write_at host f r result d a)).spool ≡ d.spool
  write_at-spool f r result d none =
      publish_ack-spool (host.ack_publication (home r.envelope)) f r (new_ack host f r result) d
  write_at-spool f r result d (some a) = elim (Bool-cases (matching host f r a.ack)) [
    | inl e ↦ rw (disk_of, e) refl
    | inr e ↦ rw (disk_of, e) refl
  ]

  settle_one-spool :
      (i : Input) (a : Applied) (d : Disk) → (disk_of (settle_one host i a d)).spool ≡ d.spool
  unfolding settle_one write_acknowledgement
  settle_one-spool (f, r) captured d = write_at-spool f r "captured" d _
  settle_one-spool (f, r) duplicate d = write_at-spool f r "duplicate" d _
  settle_one-spool (f, r) (refused type) d = quarantine_receipt-spool f type d

  settle-spool :
      (is : List Input) (rs : List Applied) (c : Counts) (d : Disk)
      → (disk_of (settle host is rs c d)).spool ≡ d.spool
  unfolding settle
  settle-spool [] [] c d = refl
  settle-spool [] (a ∷ as') c d = refl
  settle-spool (i ∷ is) [] c d = refl
  settle-spool (i ∷ is) (a ∷ as') c d =
      then_ran-spool d (settle_one host i a d) (λ u next. settle host is as' (count host a c) next)
        (settle_one-spool i a d) (λ u next. settle-spool is as' (count host a c) next)

  collect-spool :
      (fs : List SpoolFile) (c : Collected) (d : Disk)
      → (disk_of (collect host fs c d)).spool ≡ d.spool
  unfolding collect
  collect-spool [] c d = refl
  collect-spool (f ∷ fs) c d = elim (Reading-cases (read_spool_file host f)) [
    | inl (type, e) ↦
        let more = record c { quarantined = suc c.quarantined } in
        let goes_on : collect host (f ∷ fs) c d
            ≡ then_ran (quarantine_receipt host f type d) (λ u left. collect host fs more left) =
          rw (collect, e) refl in
        ap (λ (x : Ran Collected). (disk_of x).spool) goes_on
        ∙ then_ran-spool d (quarantine_receipt host f type d) (λ u left. collect host fs more left)
            (quarantine_receipt-spool f type d) (λ u left. collect-spool fs more left)
    | inr (inl (type, e)) ↦
        let stops : collect host (f ∷ fs) c d ≡ raised type d = rw (collect, e) refl in
        ap (λ (x : Ran Collected). (disk_of x).spool) stops
    | inr (inr (r, e)) ↦
        let goes_on : collect host (f ∷ fs) c d ≡ collect host fs (add_input host f r d c) d =
          rw (collect, e) refl in
        ap (λ (x : Ran Collected). (disk_of x).spool) goes_on
        ∙ collect-spool fs (add_input host f r d c) d
  ]

  settle_batch-spool :
      (is : List Input) (rs : Option (List Applied)) (c : Counts) (d : Disk)
      → (disk_of (settle_batch host is rs c d)).spool ≡ d.spool
  settle_batch-spool is none c d = refl
  settle_batch-spool is (some rs) c d = settle-spool is rs c d

  pub compile_inputs-spool :
      (store : Store host) (d : Disk) → (disk_of (compile_inputs host store d)).spool ≡ d.spool
  unfolding compile_inputs
  compile_inputs-spool store d =
      then_ran-spool d (collect host (spool_order host d.spool) (start host) d) _
        (collect-spool (spool_order host d.spool) (start host) d)
        (λ c d1.
          let ordered = sort_by (input_lt host) c.inputs in
          then_ran-spool d1
            (settle_batch host ordered (store (batch host ordered))
              (record { captured = 0; duplicate = 0; quarantined = c.quarantined }) d1)
            (λ counts d2. returned (c, counts) d2)
            (settle_batch-spool ordered (store (batch host ordered)) _ d1) (λ counts d2. refl))
