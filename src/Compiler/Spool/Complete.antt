-- ===== src/Compiler/Spool/Complete.antt =====
-- What `compile_spools` of compiler/spool.py has done with every spool file when its loops end.
use imprint.Base.{
  suc, String, ◌≡◌, refl, ◌⊎◌, inl, inr, true, Option, none, some, List, [], ◌∷◌, arith, Bool-cases,
  All,
}
use imprint.Base.{sort_by, All-map, All-unsort_by, suc}
use mathlib.Core.List.{Memᴰ}
use mathlib.Core.Path.{subst}
use imprint.Compiler.Spool.Settled.{Reading-cases}
use imprint.Compiler.Spool.{collect}
use imprint.Compiler.Spool.{then_ran}
use imprint.Compiler.Disk.{
  SpoolFile, Disk, Host, Read, Ran, returned, raised, has_receipt, receipt_id, quarantine_receipt,
  acknowledged, acknowledgement_committed,
}
use imprint.Compiler.Prune.Proof.{All-get}
use imprint.Compiler.Spool.{
  rejected, accepted, Applied, Input, Collected, Counts, read_spool_file, add_input, collect, count,
  settle_one, settle, settle_batch, batch, input_lt, spool_order, start, Store, compile_inputs,
}
use imprint.Compiler.Spool.Answered.{
  Done, Grows, Grows-same, Grows-twice, Grows-Done, quarantine_receipt-Done, settle_one-Done,
}

returned_injective :
    {A : Type 0} (a b : A) (d e : Disk) → returned a d ≡ returned b e → (a ≡ b) × (d ≡ e)
returned_injective a b d e h = ground arith

Ran-cases :
    {A : Type 0} (r : Ran A)
    → ((a : A) × (d : Disk) × (r ≡ returned a d)) ⊎ ((e : String) × (d : Disk) × (r ≡ raised e d))
Ran-cases (returned a d) = inl (a, d, refl)
Ran-cases (raised e d) = inr (e, d, refl)

then_ran-returned :
    {A B : Type 0} (r : Ran A) (next : A → Disk → Ran B) (b : B) (d1 : Disk)
    → then_ran r next ≡ returned b d1
    → (a : A) × (d : Disk) × (r ≡ returned a d) × (next a d ≡ returned b d1)
then_ran-returned (returned a d) next b d1 h = (a, d, refl, h)
then_ran-returned (raised e d) next b d1 h = cc

module _ (host : Host) where
  settle-Done :
      (is : List Input) (rs : List Applied) (c cs : Counts) (d d1 : Disk)
      → settle host is rs c d ≡ returned cs d1
      → Grows host d d1 × All (λ (i : Input). Done host i.0 i.1 d1) is
  unfolding settle
  settle-Done [] [] c cs d d1 h =
      let (_, same) = returned_injective c cs d d1 h in
      (subst (Grows host d) same (Grows-same host d), tt)
  settle-Done [] (a ∷ as') c cs d d1 h = cc
  settle-Done (i ∷ is) [] c cs d d1 h = cc
  settle-Done (i ∷ is) (a ∷ as') c cs d d1 h =
      let (u, next, e, later) =
        then_ran-returned (settle_one host i a d)
          (λ u next. settle host is as' (count host a c) next) cs d1 h in
      let (grown, done) = settle_one-Done host i a d next u e in
      let (more, rest) = settle-Done is as' (count host a c) cs next d1 later in
      (Grows-twice host d next d1 grown more, (Grows-Done host i.0 i.1 next d1 more done, rest))

  -- the file was rejected and has a receipt, or was read and is acknowledged or has a receipt
  abbrev pub Answered : Disk → SpoolFile → Type 0
  Answered d f =
      ((type : String) × (read_spool_file host f ≡ rejected type)
        × (has_receipt (receipt_id host f) d.quarantine ≡ true))
      ⊎ ((r : Read) × (read_spool_file host f ≡ accepted r) × Done host f r d)

  -- the same, or the file is among the inputs of the batch
  abbrev Sorted : Disk → List Input → SpoolFile → Type 0
  Sorted d is f =
      Answered d f ⊎ ((r : Read) × (read_spool_file host f ≡ accepted r) × Memᴰ (f, r) is)

  Grows-Answered :
      (d next : Disk) (f : SpoolFile) → Grows host d next → Answered d f → Answered next f
  Grows-Answered d next f g (inl (type, e, h)) = inl (type, e, g.1 (receipt_id host f) h)
  Grows-Answered d next f g (inr (r, e, h)) = inr (r, e, Grows-Done host f r d next g h)

  add_input-cases :
      (f : SpoolFile) (r : Read) (d : Disk) (c : Collected)
      → ((acknowledged host f r d ≡ true) ⊎ Memᴰ (f, r) (add_input host f r d c).inputs)
        × ((i : Input) → Memᴰ i c.inputs → Memᴰ i (add_input host f r d c).inputs)
  unfolding acknowledgement_committed
  add_input-cases f r d c = elim (Bool-cases (acknowledgement_committed host f r d)) [
    | inl e ↦
        let known : acknowledged host f r d ≡ true = ground arith in
        (inl known, rw (acknowledgement_committed, e) (λ i m. m))
    | inr e ↦ rw (acknowledgement_committed, e) (inr (Memᴰ.head refl), (λ i m. Memᴰ.tail m))
  ]

  collect-Sorted :
      (fs : List SpoolFile) (c c1 : Collected) (d d1 : Disk)
      → collect host fs c d ≡ returned c1 d1
      → Grows host d d1
        × ((i : Input) → Memᴰ i c.inputs → Memᴰ i c1.inputs)
        × All (Sorted d1 c1.inputs) fs
  unfolding collect
  collect-Sorted [] c c1 d d1 h =
      let (one, same) = returned_injective c c1 d d1 h in
      (
        subst (Grows host d) same (Grows-same host d),
        (λ i m. subst (λ (x : Collected). Memᴰ i x.inputs) one m),
        tt,
      )
  collect-Sorted (f ∷ fs) c c1 d d1 h = elim (Reading-cases (read_spool_file host f)) [
    | inl (type, e) ↦
        let more = record c { quarantined = suc c.quarantined } in
        let (u, left, q, later) =
          then_ran-returned (quarantine_receipt host f type d) (λ u left. collect host fs more left)
            c1 d1 (rw (collect, e) at h) in
        let (now, there) = quarantine_receipt-Done host f type d left u q in
        let (grown, kept, rest) = collect-Sorted fs more c1 left d1 later in
        (
          Grows-twice host d left d1 now grown,
          kept,
          (inl (inl (type, e, grown.1 (receipt_id host f) there)), rest),
        )
    | inr (inl (type, e)) ↦
        let clash : raised type d ≡ returned c1 d1 = rw (collect, e) at h in cc clash
    | inr (inr (r, e)) ↦
        let more = add_input host f r d c in
        let later : collect host fs more d ≡ returned c1 d1 = rw (collect, e) at h in
        let (grown, kept, rest) = collect-Sorted fs more c1 d d1 later in
        let (now, before) = add_input-cases f r d c in
        (
          grown,
          (λ i m. kept i (before i m)),
          (
            elim now [
              | inl k ↦ inl (inr (r, e, inl (grown.0 f r k)))
              | inr m ↦ inr (r, e, kept (f, r) m)
            ],
            rest,
          ),
        )
  ]

  settle_batch-Done :
      (is : List Input) (rs : Option (List Applied)) (c cs : Counts) (d d1 : Disk)
      → settle_batch host is rs c d ≡ returned cs d1
      → Grows host d d1 × All (λ (i : Input). Done host i.0 i.1 d1) is
  settle_batch-Done is none c cs d d1 h = cc
  settle_batch-Done is (some rs) c cs d d1 h = settle-Done is rs c cs d d1 h

  finish_Answered :
      (fs : List SpoolFile) (is : List Input) (d d1 : Disk)
      → Grows host d d1
      → All (λ (i : Input). Done host i.0 i.1 d1) is
      → All (Sorted d is) fs
      → All (Answered d1) fs
  finish_Answered fs is d d1 g done h =
      All-map
        (λ f s. elim s [
          | inl a ↦ Grows-Answered d d1 f g a
          | inr (r, e, m) ↦
              inr (r, e, All-get (λ (i : Input). Done host i.0 i.1 d1) is (f, r) m done)
        ])
        fs h

  -- When both loops of a compilation end without an exception, every file of the spool has a receipt in quarantine,
  -- or it was read as a valid envelope and has an acknowledgement that matches the envelope and the
  -- bytes of the file.
  pub compile_inputs-Answered :
      (store : Store host) (d d1 : Disk) (p : Collected × Counts)
      → compile_inputs host store d ≡ returned p d1
      → All (Answered d1) d.spool
  unfolding compile_inputs
  compile_inputs-Answered store d d1 p h =
      elim (Ran-cases (collect host (spool_order host d.spool) (start host) d)) [
        | inr (type, d2, e) ↦ let clash : raised type d2 ≡ returned p d1 = rw e at h in cc clash
        | inl (c, d2, e) ↦
            let ordered = sort_by (input_lt host) c.inputs in
            let none_yet : Counts = record {
              captured = 0;
              duplicate = 0;
              quarantined = c.quarantined;
            } in
            let (_, _, sorted) = collect-Sorted (spool_order host d.spool) (start host) c d d2 e in
            elim (Ran-cases (settle_batch host ordered (store (batch host ordered)) none_yet d2)) [
              | inr (type, d3, k) ↦
                  let clash : raised type d3 ≡ returned p d1 = rw (e, k) at h in cc clash
              | inl (counts, d3, k) ↦
                  let last : returned (c, counts) d3 ≡ returned p d1 = rw (e, k) at h in
                  let (_, same) = returned_injective (c, counts) p d3 d1 last in
                  let (grown, done) =
                    settle_batch-Done ordered (store (batch host ordered)) none_yet counts d2 d3
                      k in
                  let all : All (Answered d3) (spool_order host d.spool) =
                    finish_Answered (spool_order host d.spool) c.inputs d2 d3 grown
                      (All-unsort_by (input_lt host) _ c.inputs done) sorted in
                  subst (λ x. All (Answered x) d.spool) same
                    (All-unsort_by (λ (a b : SpoolFile). host.path_lt a.place b.place) _ d.spool
                      all)
            ]
      ]
