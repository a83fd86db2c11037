-- ===== src/Compiler/Spool/Deleted.antt =====
-- The spool files that `compile_spools` of compiler/spool.py deletes.
use imprint.Base.{
  ℕ, String, ◌≡◌, refl, sym, ◌⊎◌, inl, inr, Bool, not, ◌||◌, List, [], ◌∷◌, Bool-cases, All,
  text_lt,
}
use imprint.Base.{sort_by, All-map, All-Mem}
use mathlib.Core.List.{Memᴰ}
use mathlib.Core.Path.{subst}
use imprint.Compiler.Disk.{SpoolFile, AckFile, Disk, Host, Ran, returned, raised, disk_of}
use imprint.Compiler.Prune.{prune_acknowledged_spools}
use imprint.Compiler.Prune.Within.{Within, Within-same, Within-twice, prune-Within}
use imprint.Compiler.Prune.Justified.{Justified}
use imprint.Compiler.Prune.Proof.{Explained, All-get, prune-Justified}
use imprint.Compiler.Spool.{
  Store, Collected, Counts, then_ran, once, compile_inputs, prune_all, compile_spools,
}
use imprint.Compiler.Spool.Settled.{compile_inputs-spool}

module _ (host : Host) (days now : ℕ) where
  -- the file stays, or an acknowledgement among those given justifies its deletion
  abbrev pub Accounted : List AckFile → List SpoolFile → List SpoolFile → Type 0
  Accounted acks before after =
      All
        (λ (f : SpoolFile). Memᴰ f after ⊎ ((node : String) × Justified host node days now acks f))
        before

  widen :
      (node : String) (xs ys : List AckFile) (f : SpoolFile)
      → Within xs ys
      → Justified host node days now xs f
      → Justified host node days now ys f
  widen node xs ys f w j =
      let (p, m, e) = j.stored in
      record {
        ack = j.ack;
        stored = (p, All-get (λ a. Memᴰ a ys) xs p m w, e);
        proof_of_commit = j.proof_of_commit;
        ours = j.ours;
        place = j.place;
        time = j.time;
        acknowledged_at = j.acknowledged_at;
        past_retention = j.past_retention;
        value = j.value;
        envelope = j.envelope;
        decoded = j.decoded;
        valid = j.valid;
        event_same = j.event_same;
        payload_same = j.payload_same;
        bytes_same = j.bytes_same;
      }

  Accounted-same : (acks : List AckFile) (fs : List SpoolFile) → Accounted acks fs fs
  Accounted-same acks fs = All-map (λ x m. inl m) fs (All-Mem fs)

  then_prune :
      {A : Type 0} (n : String) (acks : List AckFile) (d : Disk) (r : Ran A)
      (next : A → Disk → Ran (Unit {0}))
      → Within d.acks acks
      → Explained host n days now d.acks d.spool (disk_of r).spool
      → Within (disk_of r).acks d.acks
      → ((a : A) (d1 : Disk)
          → Within d1.acks acks
          → Accounted acks d1.spool (disk_of (next a d1)).spool)
      → Accounted acks d.spool (disk_of (then_ran r next)).spool
  then_prune n acks d (raised e d1) next w h v k =
      All-map (λ x c. elim c [ inl m ↦ inl m | inr j ↦ inr (n, widen n d.acks acks x w j) ]) d.spool
        h
  then_prune n acks d (returned a d1) next w h v k =
      let rest = k a d1 (Within-twice d1.acks d.acks acks v w) in
      All-map
        (λ x c. elim c [
          | inl m ↦
              All-get
                (λ (f : SpoolFile).
                  Memᴰ f (disk_of (next a d1)).spool
                  ⊎ ((node : String) × Justified host node days now acks f))
                d1.spool x m rest
          | inr j ↦ inr (n, widen n d.acks acks x w j)
        ])
        d.spool h

  prune_all-Accounted :
      (ns : List String) (acks : List AckFile) (d : Disk)
      → Within d.acks acks
      → Accounted acks d.spool (disk_of (prune_all host ns days now d)).spool
  unfolding prune_all
  prune_all-Accounted [] acks d w = Accounted-same acks d.spool
  prune_all-Accounted (n ∷ ns) acks d w =
      then_prune n acks d (prune_acknowledged_spools host n days now d) _ w
        (prune-Justified host n days now d) (prune-Within host n days now d)
        (λ c d1 v. prune_all-Accounted ns acks d1 v)

  disk_of-then_ran :
      {A B : Type 0} (r : Ran A) (f : A → B)
      → disk_of (then_ran r (λ a d2. returned (f a) d2)) ≡ disk_of r
  disk_of-then_ran (returned a d) f = refl
  disk_of-then_ran (raised e d) f = refl

  after_inputs :
      (before : List SpoolFile) (ran : Ran (Collected × Counts))
      → (disk_of ran).spool ≡ before
      → Accounted
          (disk_of ran).acks
          before
          (disk_of (
            then_ran ran (λ p d1.
              then_ran
                (prune_all host (sort_by text_lt (once host p.0.producers)) days now d1)
                (λ u d2. returned p.1 d2)))).spool
  after_inputs before (raised e d1) same =
      subst (λ fs. Accounted d1.acks fs d1.spool) same (Accounted-same d1.acks d1.spool)
  after_inputs before (returned p d1) same =
      let names = sort_by text_lt (once host p.0.producers) in
      let pruned = prune_all host names days now d1 in
      let whole = disk_of (then_ran pruned (λ (u : Unit {0}) (d2 : Disk). returned p.1 d2)) in
      let last : whole ≡ disk_of pruned = disk_of-then_ran pruned (λ u. p.1) in
      let done : Accounted d1.acks d1.spool (disk_of pruned).spool =
        prune_all-Accounted names d1.acks d1 (Within-same d1.acks) in
      subst (λ fs. Accounted d1.acks fs whole.spool) same
        (subst (λ (x : Disk). Accounted d1.acks d1.spool x.spool) (sym last) done)

  -- A spool file that a compilation deletes, whatever the store answers and whether the compilation
  -- returns or raises, is justified by an acknowledgement that was on the disk when the prune
  -- started: it is committed, of the file's producer, past its retention, and its event, payload
  -- digest and byte digest are those of the file, which is a valid envelope.
  pub compile_spools-Accounted :
      (store : Store host) (compiler_authorized held : Bool) (d : Disk)
      → Accounted
          (disk_of (compile_inputs host store d)).acks
          d.spool
          (disk_of (compile_spools host store compiler_authorized held days now d)).spool
  unfolding compile_spools
  compile_spools-Accounted store compiler_authorized held d =
      let known = (disk_of (compile_inputs host store d)).acks in
      elim (Bool-cases (not compiler_authorized || held)) [
        | inl e ↦
            let stops : compile_spools host store compiler_authorized held days now d
                ≡ raised "SafetyError" d =
              rw (compile_spools, e) refl in
            subst (λ (x : Ran Counts). Accounted known d.spool (disk_of x).spool) (sym stops)
              (Accounted-same known d.spool)
        | inr e ↦
            let goes_on : compile_spools host store compiler_authorized held days now d
                ≡ then_ran (compile_inputs host store d) (λ p d1.
                  then_ran (prune_all host (sort_by text_lt (once host p.0.producers)) days now d1)
                    (λ u d2. returned p.1 d2)) =
              rw (compile_spools, e) refl in
            subst (λ (x : Ran Counts). Accounted known d.spool (disk_of x).spool) (sym goes_on)
              (after_inputs d.spool (compile_inputs host store d)
                (compile_inputs-spool host store d))
      ]
