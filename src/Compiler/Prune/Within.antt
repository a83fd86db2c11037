-- ===== src/Compiler/Prune/Within.antt =====
-- The acknowledgements that `prune_acknowledged_spools` of compiler/spool.py leaves.
use imprint.Base.{
  ℕ, String, ◌≡◌, refl, sym, inl, inr, not, ◌||◌, List, [], ◌∷◌, leb, str_eq, Bool-cases,
  Option-cases, keep, All,
}
use imprint.Base.{sort_by, All-map, All-Mem}
use mathlib.Core.List.{Memᴰ}
use mathlib.Core.Path.{subst}
use imprint.Compiler.Disk.{
  AckFile, Disk, Host, Ran, returned, raised, disk_of, same_place, unlink_ack, Place,
}
use imprint.Compiler.Prune.{
  PruneCounts, Ruling, is_invalid, was_pruned, retain, delete_both, escapes, judge, carry_out,
  escaped, count, prune_acks, then_receipts, zero_counts, prune_acknowledged_spools, is_safe_node,
}
use imprint.Compiler.Prune.Proof.{All-get}

unlink_ack-sub : (p : Place) (as' : List AckFile) → All (λ a. Memᴰ a as') (unlink_ack p as')
unfolding unlink_ack
unlink_ack-sub p [] = tt
unlink_ack-sub p (a ∷ as') =
    let later : All (λ x. Memᴰ x (a ∷ as')) as' = All-map (λ x m. Memᴰ.tail m) as' (All-Mem as') in
    elim (Bool-cases (same_place p a.place)) [
      | inl e ↦
          let it : unlink_ack p (a ∷ as') ≡ as' = rw (unlink_ack, e) refl in
          subst (All (λ x. Memᴰ x (a ∷ as'))) (sym it) later
      | inr e ↦
          let it : unlink_ack p (a ∷ as') ≡ a ∷ unlink_ack p as' = rw (unlink_ack, e) refl in
          subst (All (λ x. Memᴰ x (a ∷ as'))) (sym it)
            (Memᴰ.head refl, All-map (λ x m. Memᴰ.tail m) _ (unlink_ack-sub p as'))
    ]

-- every acknowledgement of the first list stands in the second
abbrev pub Within : List AckFile → List AckFile → Type 0
Within xs ys = All (λ (a : AckFile). Memᴰ a ys) xs

pub Within-same : (xs : List AckFile) → Within xs xs
Within-same xs = All-Mem xs

pub Within-twice : (xs ys zs : List AckFile) → Within xs ys → Within ys zs → Within xs zs
Within-twice xs ys zs h k = All-map (λ x m. All-get (λ a. Memᴰ a zs) ys x m k) xs h

module _ (host : Host) (node : String) (days now : ℕ) where
  carry_out-Within :
      (r : Ruling) (f : AckFile) (d : Disk)
      → Within (carry_out host node days now r f d).acks d.acks
  carry_out-Within is_invalid f d = Within-same d.acks
  carry_out-Within was_pruned f d = unlink_ack-sub f.place d.acks
  carry_out-Within retain f d = Within-same d.acks
  carry_out-Within (escapes e) f d = Within-same d.acks
  carry_out-Within delete_both f d = unlink_ack-sub f.place d.acks

  prune_acks-Within :
      (fs : List AckFile) (c : PruneCounts) (d : Disk)
      → Within (disk_of (prune_acks host node days now fs c d)).acks d.acks
  unfolding prune_acks
  prune_acks-Within [] c d = Within-same d.acks
  prune_acks-Within (f ∷ fs) c d =
      let r = judge host node days now f.ack d.spool in
      elim (Option-cases (escaped host node days now r)) [
        | inl e ↦
            let next = count host node days now r c in
            let left = carry_out host node days now r f d in
            let goes_on : prune_acks host node days now (f ∷ fs) c d
                ≡ prune_acks host node days now fs next left =
              rw (prune_acks, e) refl in
            subst (λ (x : Ran PruneCounts). Within (disk_of x).acks d.acks) (sym goes_on)
              (Within-twice _ left.acks d.acks (prune_acks-Within fs next left)
                (carry_out-Within r f d))
        | inr (m, e) ↦
            let stops : prune_acks host node days now (f ∷ fs) c d ≡ raised m d =
              rw (prune_acks, e) refl in
            subst (λ (x : Ran PruneCounts). Within (disk_of x).acks d.acks) (sym stops)
              (Within-same d.acks)
      ]

  then_receipts-acks :
      (r : Ran PruneCounts) → (disk_of (then_receipts host node days now r)).acks ≡ (disk_of r).acks
  then_receipts-acks (returned c d) = refl
  then_receipts-acks (raised e d) = refl

  pub prune-Within :
      (d : Disk) → Within (disk_of (prune_acknowledged_spools host node days now d)).acks d.acks
  unfolding prune_acknowledged_spools
  prune-Within d =
      let acks =
        sort_by (λ (a b : AckFile). host.path_lt a.place b.place)
          (keep (λ (a : AckFile). str_eq a.place.node node) d.acks) in
      let ran = prune_acks host node days now acks (zero_counts host node days now) d in
      elim (Bool-cases (not (leb 1 days) || not (is_safe_node node))) [
        | inl e ↦
            let stops : prune_acknowledged_spools host node days now d ≡ raised "SafetyError" d =
              rw e refl in
            subst (λ (x : Ran PruneCounts). Within (disk_of x).acks d.acks) (sym stops)
              (Within-same d.acks)
        | inr e ↦
            let goes_on : prune_acknowledged_spools host node days now d
                ≡ then_receipts host node days now ran =
              rw e refl in
            subst (λ (x : Ran PruneCounts). Within (disk_of x).acks d.acks) (sym goes_on)
              (subst (λ as'. Within as' d.acks) (sym (then_receipts-acks ran))
                (prune_acks-Within acks (zero_counts host node days now) d))
      ]
