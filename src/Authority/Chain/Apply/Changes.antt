-- ===== src/Authority/Chain/Apply/Changes.antt =====
-- What a lifecycle event of authority/ledger.py may do to the keys, event type by event type.
use imprint.Base.{
  ℕ, String, ◌≡◌, refl, sym, true, false, not, ◌&&◌, Option, none, some, List, [], ◌∷◌, ◌++◌, arith,
  str_eq, keep, any, distinct,
}
use mathlib.Core.Path.{subst}
use imprint.Ontology.Fault.{ok, >>=-eq-ok, demand->>-ok}
use imprint.Authority.Chain.{
  Certificate, Blob, Authorization, StateChange, Details, Event, Key, KeyKind, External, recovery,
  installation,
}
use imprint.Authority.Chain.Keys.{
  key_id_of, has_key_id, update_key, new_chain_key, chain_key, retire,
}
use imprint.Authority.Chain.Keys.Table.{
  fresh-mem, ids-update_key, Change, kept, added, both, ids, new_chain_key-eq, ended_at,
}
use imprint.Authority.Chain.Shapes.{StateKind, the_only}
use imprint.Authority.Chain.Apply.Dispatch.{apply_event-cases}
use imprint.Authority.Chain.Apply.Ends.{
  active_key-ok, ok_injective, served, end_key-inactive, serves-active, change_state-ends,
  adjudicate-same,
}
use imprint.Authority.Chain.Apply.{
  active_key, create_recovery, pair_installation, rotate, change_state, rebind, apply_event, serves,
  end_key, check_authorization, certified_now, represents,
}

module _ (ext : External) (operator : String) (store : Option String) (sequence : ℕ)
    (digest : String) (e : Event) (signer : Key) (keys : List Key) where
  -- the certified key goes behind what was there
  append_certified :
      (ks : List Key) (c : Certificate) (blob : Option Blob) (kind : KeyKind) (k : Key)
      (out : List Key)
      → new_chain_key ext c blob kind ≡ ok k
      → not (has_key_id c.key_id ks) ≡ true
      → ok (ks ++ certified_now ext operator store sequence digest e signer keys k ∷ []) ≡ ok out
      → Change ks out
  append_certified ks c blob kind k out made fresh done =
      let at = new_chain_key-eq ext c blob kind k made in
      let now = certified_now ext operator store sequence digest e signer keys in
      let unseen : has_key_id c.key_id ks ≡ false = ground arith in
      let one : Change ks (ks ++ now k ∷ []) =
        subst (λ x. Change ks (ks ++ now x ∷ [])) (sym at)
          (added (now (chain_key c blob kind)) unseen refl) in
      subst (λ x. Change ks x) (ok_injective (ks ++ now k ∷ []) out done) one

  create_recovery-Change :
      (c : Certificate) (out : List Key)
      → create_recovery ext operator store sequence digest e signer keys c ≡ ok out
      → Change keys out
  unfolding create_recovery
  create_recovery-Change c out h =
      let (k, h1, h2) = >>=-eq-ok (new_chain_key ext c none recovery) _ h in
      let (_, h3) =
        demand->>-ok (str_eq e.columns.key_id c.key_id && str_eq e.columns.install_id c.install_id)
          _ _ h2 in
      let (fresh, h4) = demand->>-ok (not (has_key_id c.key_id keys)) _ _ h3 in
      append_certified keys c none recovery k out h1 fresh h4

  pair_installation-Change :
      (c : Certificate) (blob : Blob) (a : Authorization) (out : List Key)
      → pair_installation ext operator store sequence digest e signer keys c blob a ≡ ok out
      → Change keys out
  unfolding pair_installation
  pair_installation-Change c blob a out h =
      let (k, h1, h2) = >>=-eq-ok (new_chain_key ext c (some blob) installation) _ h in
      let (_, h3) =
        demand->>-ok (str_eq e.columns.key_id c.key_id && str_eq e.columns.install_id c.install_id)
          _ _ h2 in
      let (fresh, h4) = demand->>-ok (not (has_key_id c.key_id keys)) _ _ h3 in
      let (_, h5) = demand->>-ok (not (any (represents c.install_id) keys)) _ _ h4 in
      let (_, _, h6) =
        >>=-eq-ok (check_authorization ext operator store a c e.columns.previous_event_sha256 _) _
          h5 in
      append_certified keys c (some blob) installation k out h1 fresh h6

  -- the identities stay
  fresh_behind :
      (id old : String) (f : Key → Key)
      → ((x : Key) → (f x).certified ≡ x.certified)
      → not (has_key_id id keys) ≡ true
      → not (has_key_id id (update_key old f keys)) ≡ true
  fresh_behind id old f same fresh =
      rw (fresh-mem id (update_key old f keys), ids-update_key old f keys same)
        (rw (fresh-mem id keys) at fresh)

  rotate-Change :
      (c : Certificate) (blob : Blob) (old_id : String) (out : List Key)
      → rotate ext operator store sequence digest e signer keys c blob old_id ≡ ok out
      → Change keys out
  unfolding rotate
  rotate-Change c blob old_id out h =
      let (_, h1) = demand->>-ok (str_eq (key_id_of signer) old_id) _ _ h in
      let (old, h2, h3) = >>=-eq-ok (active_key old_id keys _) _ h1 in
      let (there, on) = active_key-ok old_id keys _ old h2 in
      let (k, h4, h5) = >>=-eq-ok (new_chain_key ext c (some blob) installation) _ h3 in
      let (fresh, h6) = demand->>-ok (not (has_key_id c.key_id keys)) _ _ h5 in
      let (_, h7) = demand->>-ok (str_eq c.install_id old.certified.install_id) _ _ h6 in
      let end = retire e.columns.created_at in
      both (ended_at old_id old end keys there on (λ x. refl) (λ x. refl) (λ x. refl)) (
        append_certified (update_key old_id end keys) c (some blob) installation k out h4
          (fresh_behind c.key_id old_id end (λ x. refl) fresh) h7)

  change_state-Change :
      (kind : StateKind) (s : StateChange) (out : List Key)
      → change_state ext operator store sequence digest e signer keys kind s ≡ ok out
      → Change keys out
  change_state-Change kind s out h =
      let (target, there, on, it) =
        change_state-ends ext operator store sequence digest e signer keys kind s out h in
      rw it (
        ended_at s.target_key_id target
          (end_key ext operator store sequence digest e signer keys kind s) keys there on
          (λ x. refl) (λ x. refl)
          (end_key-inactive ext operator store sequence digest e signer keys kind s))

  rebind-Change :
      (c : Certificate) (blob : Blob) (old_install : String) (a : Authorization) (out : List Key)
      → distinct (ids keys) ≡ true
      → rebind ext operator store sequence digest e signer keys c blob old_install a ≡ ok out
      → Change keys out
  unfolding rebind
  rebind-Change c blob old_install a out unique h =
      let (old, only, h1) = >>=-eq-ok (the_only (keep (serves old_install) keys)) _ h in
      let (there, on) = served old_install keys old unique only in
      let end = retire e.columns.created_at in
      let rest = update_key (key_id_of old) end keys in
      let (k, h2, h3) = >>=-eq-ok (new_chain_key ext c (some blob) installation) _ h1 in
      let (fresh, h4) = demand->>-ok (not (has_key_id c.key_id rest)) _ _ h3 in
      let (_, h5) = demand->>-ok (not (any (represents c.install_id) rest)) _ _ h4 in
      let (_, _, h6) =
        >>=-eq-ok (check_authorization ext operator store a c e.columns.previous_event_sha256 _) _
          h5 in
      both
        (ended_at (key_id_of old) old end keys there
          (serves-active ext operator store sequence digest e signer keys old_install old on)
          (λ x. refl) (λ x. refl) (λ x. refl))
        (append_certified rest c (some blob) installation k out h2 fresh h6)

  pub apply_event-Change :
      (type : String) (details : Details) (out : List Key)
      → distinct (ids keys) ≡ true
      → apply_event ext operator store sequence digest e signer keys type details ≡ ok out
      → Change keys out
  apply_event-Change type details out unique h =
      apply_event-cases ext operator store sequence digest e signer keys (Change keys out) type
        details out (λ c. create_recovery-Change c out)
        (λ c b a. pair_installation-Change c b a out) (λ c b old is. rotate-Change c b old out)
        (λ kind s. change_state-Change kind s out) (λ c b old a. rebind-Change c b old a out unique)
        (λ a h1.
          subst (Change keys)
            (adjudicate-same ext operator store sequence digest e signer keys a out h1) kept)
        h
