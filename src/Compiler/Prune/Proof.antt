-- ===== src/Compiler/Prune/Proof.antt =====
-- The spool files that `prune_acknowledged_spools` of compiler/spool.py deletes.
use imprint.Base.{
  ℕ, String, ◌≡◌, refl, sym, ap, ◌⊎◌, inl, inr, true, false, not, ◌||◌, Option, none, some, List,
  [], ◌∷◌, leb, str_eq, Bool-cases, Option-cases, keep, All,
}
use imprint.Base.{sort_by, All-map, All-Mem, inl, inr}
use mathlib.Core.List.{Memᴰ}
use mathlib.Core.Path.{subst}
use imprint.Compiler.Disk.{
  Place, same_place, SpoolFile, Ack, AckFile, Disk, Host, Ran, returned, raised, disk_of, find_file,
  unlink_file,
}
use imprint.Compiler.Prune.{
  source_place, PruneCounts, Ruling, is_invalid, was_pruned, retain, delete_both, escapes,
  source_of, judge, carry_out, escaped, count, prune_acks, then_receipts, zero_counts,
  prune_acknowledged_spools, is_safe_node,
}
use imprint.Compiler.Prune.Justified.{Justified, judge-Justified, is_delete, some_injective}
use imprint.Base.{All-keep, All-sort_by}

pub All-get {ℓ κ} : {A : Type ℓ} (P : A → Type κ) (xs : List A) (x : A) → Memᴰ x xs → All P xs → P x
All-get P [] x m h = elim m [ ]
All-get P (y ∷ ys) x (Memᴰ.head e) h = subst P (sym e) h.0
All-get P (y ∷ ys) x (Memᴰ.tail m) h = All-get P ys x m h.1

lift_tail {ℓ κ} :
    {A : Type ℓ} {B : Type κ} {x : A} {xs : List A} (y : A) → Memᴰ x xs ⊎ B → Memᴰ x (y ∷ xs) ⊎ B
lift_tail y (inl m) = inl (Memᴰ.tail m)
lift_tail y (inr b) = inr b

module _ (host : Host) (node : String) (days now : ℕ) (acks : List AckFile) where
  unlink_file-Mem :
      (p : Place) (fs : List SpoolFile) (g : SpoolFile)
      → find_file p fs ≡ some g
      → All (λ f. Memᴰ f (unlink_file p fs) ⊎ (f ≡ g)) fs
  unfolding unlink_file
  unlink_file-Mem p [] g h = tt
  unlink_file-Mem p (f ∷ fs) g h = elim (Bool-cases (same_place p f.place)) [
    | inl e ↦
        let it : f ≡ g = some_injective f g (rw e at h) in
        let short : unlink_file p (f ∷ fs) ≡ fs = rw e refl in
        let kept : All (λ x. Memᴰ x fs ⊎ (x ≡ g)) fs = All-map (λ x m. inl m) fs (All-Mem fs) in
        let all : All (λ x. Memᴰ x fs ⊎ (x ≡ g)) (f ∷ fs) = (inr it, kept) in
        subst (λ xs. All (λ x. Memᴰ x xs ⊎ (x ≡ g)) (f ∷ fs)) (sym short) all
    | inr e ↦
        let long : unlink_file p (f ∷ fs) ≡ f ∷ unlink_file p fs = rw e refl in
        let kept : All (λ x. Memᴰ x (f ∷ unlink_file p fs) ⊎ (x ≡ g)) fs =
          All-map (λ x c. lift_tail f c) fs (unlink_file-Mem p fs g (rw e at h)) in
        let all : All (λ x. Memᴰ x (f ∷ unlink_file p fs) ⊎ (x ≡ g)) (f ∷ fs) =
          (inl (Memᴰ.head refl), kept) in
        subst (λ xs. All (λ x. Memᴰ x xs ⊎ (x ≡ g)) (f ∷ fs)) (sym long) all
  ]

  -- the files of the spool that stay, and those that an acknowledgement lets go
  abbrev pub Explained : List SpoolFile → List SpoolFile → Type 0
  Explained before after =
      All (λ (f : SpoolFile). Memᴰ f after ⊎ Justified host node days now acks f) before

  Explained-same : (fs : List SpoolFile) → Explained fs fs
  Explained-same fs = All-map (λ x m. inl m) fs (All-Mem fs)

  Explained-twice :
      (xs ys zs : List SpoolFile) → Explained xs ys → Explained ys zs → Explained xs zs
  Explained-twice xs ys zs h k =
      All-map (λ x c. elim c [ inl m ↦ All-get _ ys x m k | inr j ↦ inr j ]) xs h

  deletion_Explained :
      (a : Option Ack) (spool : List SpoolFile) (p : AckFile)
      → Memᴰ p acks
      → p.ack ≡ a
      → judge host node days now a spool ≡ delete_both
      → Explained spool (unlink_file (source_place host node days now a) spool)
  unfolding judge
  deletion_Explained none spool p m e h =
      let clash : false ≡ true = ap (is_delete host node days now acks) h in cc clash
  deletion_Explained (some a) spool p m e h =
      let (g, found, justified) = judge-Justified host node days now acks a spool (p, m, e) h in
      All-map
        (λ x c. elim c [
          | inl m ↦ inl m
          | inr k ↦ inr (subst (Justified host node days now acks) (sym k) justified)
        ])
        spool (unlink_file-Mem (source_of host node days now a) spool g found)

  carry_out-Explained :
      (r : Ruling) (f : AckFile) (d : Disk)
      → Memᴰ f acks
      → judge host node days now f.ack d.spool ≡ r
      → Explained d.spool (carry_out host node days now r f d).spool
  carry_out-Explained is_invalid f d m h = Explained-same d.spool
  carry_out-Explained was_pruned f d m h = Explained-same d.spool
  carry_out-Explained retain f d m h = Explained-same d.spool
  carry_out-Explained (escapes e) f d m h = Explained-same d.spool
  carry_out-Explained delete_both f d m h = deletion_Explained f.ack d.spool f m refl h

  prune_acks-Explained :
      (fs : List AckFile) (c : PruneCounts) (d : Disk)
      → All (λ f. Memᴰ f acks) fs
      → Explained d.spool (disk_of (prune_acks host node days now fs c d)).spool
  unfolding prune_acks
  prune_acks-Explained [] c d known = Explained-same d.spool
  prune_acks-Explained (f ∷ fs) c d known =
      let r = judge host node days now f.ack d.spool in
      elim (Option-cases (escaped host node days now r)) [
        | inl e ↦
            let next = count host node days now r c in
            let left = carry_out host node days now r f d in
            let goes_on : prune_acks host node days now (f ∷ fs) c d
                ≡ prune_acks host node days now fs next left =
              rw (prune_acks, e) refl in
            subst (λ (x : Ran PruneCounts). Explained d.spool (disk_of x).spool) (sym goes_on)
              (Explained-twice d.spool left.spool _ (carry_out-Explained r f d known.0 refl)
                (prune_acks-Explained fs next left known.1))
        | inr (m, e) ↦
            let stops : prune_acks host node days now (f ∷ fs) c d ≡ raised m d =
              rw (prune_acks, e) refl in
            subst (λ (x : Ran PruneCounts). Explained d.spool (disk_of x).spool) (sym stops)
              (Explained-same d.spool)
      ]

  then_receipts-spool :
      (r : Ran PruneCounts)
      → (disk_of (then_receipts host node days now r)).spool ≡ (disk_of r).spool
  then_receipts-spool (returned c d) = refl
  then_receipts-spool (raised e d) = refl

module _ (host : Host) (node : String) (days now : ℕ) where
  -- A spool file that a prune deletes, whether the prune returns or raises, has an acknowledgement of
  -- the producer on the disk that says it is committed, that is past its retention, and whose event, payload
  -- digest and byte digest are those of the file, which is a valid envelope.
  pub prune-Justified :
      (d : Disk)
      → Explained host node days now d.acks d.spool
          (disk_of (prune_acknowledged_spools host node days now d)).spool
  unfolding prune_acknowledged_spools
  prune-Justified d =
      let acks =
        sort_by (λ (a b : AckFile). host.path_lt a.place b.place)
          (keep (λ (a : AckFile). str_eq a.place.node node) d.acks) in
      let known : All (λ f. Memᴰ f d.acks) acks =
        All-sort_by (λ (a b : AckFile). host.path_lt a.place b.place) (λ f. Memᴰ f d.acks) _
          (All-keep (λ f. Memᴰ f d.acks) (λ (a : AckFile). str_eq a.place.node node) d.acks
            (All-Mem d.acks)) in
      let ran = prune_acks host node days now acks (zero_counts host node days now) d in
      elim (Bool-cases (not (leb 1 days) || not (is_safe_node node))) [
        | inl e ↦
            let stops : prune_acknowledged_spools host node days now d ≡ raised "SafetyError" d =
              rw e refl in
            subst
              (λ (x : Ran PruneCounts).
                Explained host node days now d.acks d.spool (disk_of x).spool)
              (sym stops) (Explained-same host node days now d.acks d.spool)
        | inr e ↦
            let goes_on : prune_acknowledged_spools host node days now d
                ≡ then_receipts host node days now ran =
              rw e refl in
            subst
              (λ (x : Ran PruneCounts).
                Explained host node days now d.acks d.spool (disk_of x).spool)
              (sym goes_on)
              (subst (λ fs. Explained host node days now d.acks d.spool fs)
                (sym (then_receipts-spool host node days now d.acks ran))
                (prune_acks-Explained host node days now d.acks acks
                  (zero_counts host node days now) d known))
      ]
